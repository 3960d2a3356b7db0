-- ===== src/ActiveTurn/Race.antt =====
-- What races with the durable acceptance of a turn in daemon/cmd/daemon/active_turn.go: the
-- completion callback and the terminal event of the native process.
use nekonest.Prelude.{
  not, ◌&&◌, ℕ, ◌≡◌, Bool, true, false, List, [], ◌∷◌, Option, none, some, Bytes, is_some,
  if◌then◌else◌,
}
use nekonest.ActiveTurn.Registry.{
  ControlEvent, State, Registry, find, str_eq, bind, set_native_request_id, complete_matching,
  terminal_for_event, is_turn,
}

-- The calls that may come between the binding of a turn and its acceptance.
pub data Call : Type 0 where
  binds : Bytes → ℕ → Bytes → Call
  sets : Bytes → ℕ → Bytes → Bytes → Call
  completes : Bytes → ℕ → Bytes → Call
  terminals : ControlEvent → Call

unfoldable pub call : Registry → Call → Registry
call r (binds session generation client) = (bind r session generation client).0
call r (sets session generation client native) =
    (set_native_request_id r session generation client native).0
call r (completes session generation client) = (complete_matching r session generation client).0
call r (terminals event) = (terminal_for_event r event).0

unfoldable pub calls : Registry → List Call → Registry
calls r [] = r
calls r (c ∷ cs) = calls (call r c) cs

-- Whether the session has a turn of these ids whose acceptance is still open and that holds a
-- terminal event.
abbrev pub holding : ℕ → Bytes → Option State → Bool
holding generation client none = false
holding generation client (some s) =
    is_turn generation client s
    && not s.accepted
    && not s.indeterminate
    && is_some s.pending_terminal

abbrev pub Holds : Bytes → ℕ → Bytes → Registry → Type 0
Holds session generation client r = holding generation client (find session r) ≡ true

-- A turn that waits for its acceptance.
abbrev pub IsOpen : Bytes → ℕ → Bytes → State → Registry → Type 0
IsOpen session generation client s r =
    (find session r ≡ some s)
    × (is_turn generation client s ≡ true)
    × (s.accepted ≡ false)
    × (s.indeterminate ≡ false)

-- The terminal event that the turn of the session holds.
unfoldable pending_of : Bytes → Registry → Option ControlEvent
pending_of session r = elim (find session r) [ none ↦ none | some s ↦ s.pending_terminal ]

-- Whether the registry says that an event belongs to the turn of its session.
abbrev pub acknowledged : Registry → ControlEvent → Bool
acknowledged r event = (terminal_for_event r event).3

-- The last terminal event of the session that the registry acknowledged: `event`, or one of the calls.
abbrev pub reported : Bytes → Registry → ControlEvent → Call → ControlEvent
reported session r event (binds s g cl) = event
reported session r event (sets s g cl n) = event
reported session r event (completes s g cl) = event
reported session r event (terminals other) =
    if str_eq other.session_id session && acknowledged r other then other else event

unfoldable pub last_reported : Bytes → Registry → ControlEvent → List Call → ControlEvent
last_reported session r event [] = event
last_reported session r event (c ∷ cs) =
    last_reported session (call r c) (reported session r event c) cs
