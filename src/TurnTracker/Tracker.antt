-- ===== src/TurnTracker/Tracker.antt =====
-- turnTracker of daemon/internal/adapters/control_tracker.go. What it tells the outside, the calls
-- of onLifecycle and of the sink, is a list of outputs.
use nekonest.Prelude.{
  ℕ, ℤ, Bool, true, false, not, List, [], ◌∷◌, ◌++◌, Option, none, some, Bytes, bytes_discrete,
  ◌==◌, is_ℤ, if◌then◌else◌, lookup, insert, delete,
}

-- turnTerminal.
pub record Terminal : Type 0 where
  pub exit_code : ℤ
  pub interrupted : Bool

-- turnBinding; `listens` says whether onLifecycle is set.
pub record Binding : Type 0 where
  pub generation : ℕ  -- uint64
  pub client_msg_id : Bytes
  pub listens : Bool
  pub accepted : Bool
  pub terminal : Option Terminal

-- turnTracker; `sink` says whether a sink is set.
pub record Tracker : Type 0 where
  pub agent : Bytes
  pub sink : Bool
  pub bindings : List (Bytes × Binding)

-- TurnLifecycle of daemon/internal/adapters/adapter.go, as far as the tracker sends it.
pub data Lifecycle : Type 0 where
  turn_accepted turn_terminal_success turn_terminal_failure turn_interrupted : Lifecycle

pub data Output : Type 0 where
  on_lifecycle : ℕ → Bytes → Lifecycle → Output
  control_event : Bytes → ℕ → Bytes → Lifecycle → Output

-- What begin reads of a PromptRequest.
pub record Request : Type 0 where
  pub generation : ℕ
  pub client_msg_id : Bytes
  pub listens : Bool

abbrev pub find : Bytes → List (Bytes × Binding) → Option Binding
find = lookup bytes_discrete

abbrev pub put : Bytes → Binding → List (Bytes × Binding) → List (Bytes × Binding)
put = insert bytes_discrete

abbrev pub drop_key : Bytes → List (Bytes × Binding) → List (Bytes × Binding)
drop_key = delete bytes_discrete

unfoldable pub new_turn_tracker : Bytes → Tracker
new_turn_tracker agent = record { agent = agent; sink = false; bindings = [] }

unfoldable pub set_sink : Tracker → Bool → Tracker
set_sink t sink = record t { sink = sink }

abbrev pub binding_of : Request → Binding
binding_of request = record {
  generation = request.generation;
  client_msg_id = request.client_msg_id;
  listens = request.listens;
  accepted = false;
  terminal = none;
}

unfoldable pub begin : Tracker → Bytes → Request → Tracker × Bool
begin t session request = elim (find session t.bindings) [
  | some _ ↦ (t, false)
  | none ↦ (record t { bindings = put session (binding_of request) t.bindings }, true)
]

unfoldable pub abort : Tracker → Bytes → ℕ → Tracker
abort t session generation = elim (find session t.bindings) [
  | none ↦ t
  | some b ↦
      if b.generation == generation then record t { bindings = drop_key session t.bindings } else t
]

unfoldable pub detach_all : Tracker → Tracker
detach_all t = record t { bindings = [] }

-- The calls that follow the critical sections of emit and finish.
abbrev pub announce : Tracker → Bytes → Binding → Lifecycle → List Output
announce t session b lifecycle =
    (if b.listens then on_lifecycle b.generation b.client_msg_id lifecycle ∷ [] else [])
    ++ (if t.sink then control_event session b.generation b.client_msg_id lifecycle ∷ [] else [])

unfoldable pub emit : Tracker → Bytes → ℕ → Lifecycle → List Output
emit t session generation lifecycle = elim (find session t.bindings) [
  | none ↦ []
  | some b ↦ if b.generation == generation then announce t session b lifecycle else []
]

abbrev pub lifecycle_of : ℤ → Bool → Lifecycle
lifecycle_of exit_code interrupted =
    if interrupted
    then turn_interrupted
    else if not (is_ℤ exit_code 0)
    then turn_terminal_failure
    else turn_terminal_success

unfoldable pub finish : Tracker → Bytes → ℤ → Bool → Tracker × List Output
finish t session exit_code interrupted = elim (find session t.bindings) [
  | none ↦ (t, [])
  | some b ↦
      if not b.accepted
      then (
        record t {
          bindings =
              put session
                (record b {
                  terminal = some (record { exit_code = exit_code; interrupted = interrupted });
                })
                t.bindings;
        },
        [],
      )
      else (
        record t { bindings = drop_key session t.bindings },
        announce t session b (lifecycle_of exit_code interrupted),
      )
]

-- The tracker with the binding marked as accepted.
abbrev pub mark_accepted : Tracker → Bytes → Binding → Tracker
mark_accepted t session b = record t {
  bindings = put session (record b { accepted = true; terminal = none }) t.bindings;
}

abbrev pub finish_pending : Tracker → Bytes → Option Terminal → Tracker × List Output
finish_pending t session none = (t, [])
finish_pending t session (some p) = finish t session p.exit_code p.interrupted

-- The first critical section of accepted: the tracker, whether the call goes on, and the end that it found
-- pending.
unfoldable pub mark : Tracker → Bytes → ℕ → Tracker × Bool × Option Terminal
mark t session generation = elim (find session t.bindings) [
  | none ↦ (t, false, none)
  | some b ↦
      if b.generation == generation
      then (mark_accepted t session b, true, b.terminal)
      else (t, false, none)
]

-- accepted, when no other call comes between its three critical sections: `mark`, emit and finish.
unfoldable pub accepted : Tracker → Bytes → ℕ → Tracker × List Output
accepted t session generation = elim (find session t.bindings) [
  | none ↦ (t, [])
  | some b ↦
      if not (b.generation == generation)
      then (t, [])
      else let marked = mark_accepted t session b in
        let ended = finish_pending marked session b.terminal in
        (ended.0, emit marked session generation turn_accepted ++ ended.1)
]
