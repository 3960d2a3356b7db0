-- ===== src/ActiveTurn/Registry.antt =====
-- activeTurnRegistry of daemon/cmd/daemon/active_turn.go. Each operation is one step under the
-- registry's mutex and returns the new registry and its result.
use nekonest.Prelude.{
  ℕ, Bool, true, false, not, ◌&&◌, ◌||◌, ite, List, [], Option, none, some, Bytes, bytes_discrete,
  is_empty, ◌==◌, if◌then◌else◌, lookup, insert, delete,
}
use nekonest.Text.{trim_space}

-- ActiveTurnBinding of daemon/internal/adapters/adapter.go.
pub record Binding : Type 0 where
  pub generation : ℕ  -- uint64
  pub client_msg_id : Bytes
  pub native_request_id : Bytes

-- ControlEvent of daemon/internal/adapters/adapter.go: what the registry reads of it, and the
-- fields that say which event it is.
pub record ControlEvent : Type 0 where
  pub session_id : Bytes
  pub agent_type : Bytes
  pub generation : ℕ
  pub client_msg_id : Bytes
  pub native_request_id : Bytes
  pub lifecycle : Bytes
  pub class_name : Bytes
  pub event_id : Bytes

-- activeTurnState.
pub record State : Type 0 where
  pub binding : Binding
  pub accepted : Bool
  pub indeterminate : Bool
  pub native_complete : Bool
  pub pending_terminal : Option ControlEvent

abbrev pub Registry : Type 0
Registry = List (Bytes × State)

abbrev pub find : Bytes → Registry → Option State
find = lookup bytes_discrete

abbrev pub put : Bytes → State → Registry → Registry
put = insert bytes_discrete

abbrev pub drop_key : Bytes → Registry → Registry
drop_key = delete bytes_discrete

abbrev pub str_eq : Bytes → Bytes → Bool
str_eq a b = ite (bytes_discrete a b) true false

abbrev pub new_state : ℕ → Bytes → State
new_state generation client = record {
  binding = record { generation = generation; client_msg_id = client; native_request_id = [] };
  accepted = false;
  indeterminate = false;
  native_complete = false;
  pending_terminal = none;
}

abbrev bind_trimmed : Registry → Bytes → ℕ → Bytes → Registry × Bool
bind_trimmed r session generation client =
    if is_empty session || generation == 0 || is_empty client
    then (r, false)
    else elim (find session r) [
      | some _ ↦ (r, false)
      | none ↦ (put session (new_state generation client) r, true)
    ]

unfoldable pub bind : Registry → Bytes → ℕ → Bytes → Registry × Bool
bind r session generation client =
    bind_trimmed r (trim_space session) generation (trim_space client)

-- `state.binding.Generation == generation && state.binding.ClientMsgID == clientMsgID`.
abbrev pub is_turn : ℕ → Bytes → State → Bool
is_turn generation client s =
    s.binding.generation == generation && str_eq s.binding.client_msg_id client

-- The turn of the session, if it is the one that the caller means.
unfoldable pub turn : Registry → Bytes → ℕ → Bytes → Option State
turn r session generation client = elim (find session r) [
  | none ↦ none
  | some s ↦ if is_turn generation client s then some s else none
]

unfoldable pub set_native_request_id : Registry → Bytes → ℕ → Bytes → Bytes → Registry × Bool
set_native_request_id r session generation client native =
    let trimmed = trim_space native in
    if is_empty trimmed then (r, false) else elim (turn r session generation client) [
      | none ↦ (r, false)
      | some s ↦ (
        put session (record s { binding = record (s.binding) { native_request_id = trimmed } }) r,
        true,
      )
    ]

unfoldable pub current : Registry → Bytes → Option Binding
current r session = elim (find session r) [ none ↦ none | some s ↦ some s.binding ]

unfoldable pub matches : Registry → Bytes → ℕ → Bytes → Bool
matches r session generation client = elim (turn r session generation client) [
  | none ↦ false
  | some _ ↦ true
]

unfoldable pub clear_matching : Registry → Bytes → ℕ → Bytes → Bytes → Registry × Bool
clear_matching r session generation client native = elim (turn r session generation client) [
  | none ↦ (r, false)
  | some s ↦
      if not (is_empty native) && not (str_eq s.binding.native_request_id native)
      then (r, false)
      else (drop_key session r, true)
]

-- The pending terminal event, and whether the turn is completed and its binding gone.
abbrev accept_turn : Registry → Bytes → State → Registry × Option ControlEvent × Bool
accept_turn r session s = elim s.pending_terminal [
  | some event ↦
      (put session (record s { accepted = true; pending_terminal = none }) r, some event, false)
  | none ↦
      if s.native_complete
      then (drop_key session r, none, true)
      else (put session (record s { accepted = true; pending_terminal = none }) r, none, false)
]

unfoldable pub accept : Registry → Bytes → ℕ → Bytes → Registry × Option ControlEvent × Bool
accept r session generation client = elim (turn r session generation client) [
  | none ↦ (r, none, false)
  | some s ↦ accept_turn r session s
]

unfoldable pub complete_matching : Registry → Bytes → ℕ → Bytes → Registry × Bool
complete_matching r session generation client = elim (turn r session generation client) [
  | none ↦ (r, false)
  | some s ↦
      if not s.accepted && not s.indeterminate
      then (put session (record s { native_complete = true }) r, false)
      else (drop_key session r, true)
]

unfoldable pub abandon_acceptance : Registry → Bytes → ℕ → Bytes → Registry × Bool
abandon_acceptance r session generation client = elim (turn r session generation client) [
  | none ↦ (r, false)
  | some s ↦
      if s.native_complete
      then (drop_key session r, true)
      else (put session (record s { indeterminate = true; pending_terminal = none }) r, false)
]

-- The three tests by which terminalForEvent refuses an event of another turn.
abbrev pub attributable : ControlEvent → Binding → Bool
attributable event b =
    (event.generation == 0 || event.generation == b.generation)
    && (is_empty event.client_msg_id || str_eq event.client_msg_id b.client_msg_id)
    && (is_empty event.native_request_id || str_eq event.native_request_id b.native_request_id)

-- The binding, whether the event may be handled now, and whether it belongs to the turn.
unfoldable pub terminal_for_event :
    Registry → ControlEvent → Registry × Option Binding × Bool × Bool
terminal_for_event r event = elim (find event.session_id r) [
  | none ↦ (r, none, false, false)
  | some s ↦
      if not (attributable event s.binding)
      then (r, none, false, false)
      else if not s.accepted
      then (
        put event.session_id (record s { pending_terminal = some event }) r,
        some s.binding,
        false,
        true,
      )
      else (r, some s.binding, true, true)
]
