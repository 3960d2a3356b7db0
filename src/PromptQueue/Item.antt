-- ===== src/PromptQueue/Item.antt =====
-- Queue items, their statuses and their validation (daemon/cmd/daemon/prompt_queue.go).
use nekonest.Prelude.{
  ◌*◌, ◌^◌, if◌then◌else◌, ℕ, ℤ, Bool, true, false, not, ◌&&◌, ◌||◌, ite, List, [], ◌∷◌, ◌++◌,
  Option, Bytes, ascii, bytes_discrete, length, is_empty, ltb, ◌==◌, is_positive, Result, ◌>>◌,
  fail_if,
}
use nekonest.Text.{valid_utf8, is_blank}
use nekonest.AtomicWrite.{IoError}

-- promptQueueStatus. `other` is any string but the seven that the code names.
pub data Status : Type 0 where
  queued running completed blocked_failed blocked_interrupted : Status
  blocked_indeterminate cancelled : Status
  other : Bytes → Status

-- promptQueueItem.
pub record Item : Type 0 where
  pub session_id : Bytes
  pub client_msg_id : Bytes
  pub agent_type : Bytes
  pub prompt : Bytes
  pub attachments : Bytes
  pub sealed_envelope : Bytes
  pub collaboration_mode : Bytes
  pub created_at : ℤ
  pub order : ℕ  -- uint64
  pub status : Status

-- promptQueueDisk.
pub record Disk : Type 0 where
  pub version : ℤ
  pub items : List Item

-- The three strings that validatePromptQueueString names in its message.
pub data Field : Type 0 where
  session_id_name client_msg_id_name agent_type_name : Field

pub data Error : Type 0 where
  required too_long_or_invalid : Field → Error
  order_missing payload_retained invalid_prompt invalid_attachments mixed_payload : Error
  invalid_mode payload_required invalid_status : Error
  not_found cannot_change queue_full invalid_blocker blocker_not_found : Error
  marshal_failed too_large : Error
  write_failed : IoError → Error
  stat_failed secure_failed read_failed parse_failed bad_version duplicate : Error

-- encoding/json, as the queue uses it: the check of a raw value, the encoding of a file and its
-- decoding.
pub record Json : Type 0 where
  pub valid : Bytes → Bool
  pub marshal : Disk → Option Bytes
  pub unmarshal : Bytes → Option Disk

abbrev pub prompt_queue_version : ℕ
prompt_queue_version = 2

abbrev pub prompt_queue_legacy_version : ℕ
prompt_queue_legacy_version = 1

abbrev pub max_prompt_queue_per_session : ℕ
max_prompt_queue_per_session = 20

abbrev pub compact_queue_tombstones_at : ℕ
compact_queue_tombstones_at = 256

abbrev pub retain_queue_tombstones : ℕ
retain_queue_tombstones = 128

abbrev pub max_prompt_queue_bytes : ℕ
max_prompt_queue_bytes = 16 * 2 ^ 20

abbrev pub max_prompt_queue_session_id_bytes : ℕ
max_prompt_queue_session_id_bytes = 512

abbrev pub max_prompt_queue_client_msg_id_size : ℕ
max_prompt_queue_client_msg_id_size = 256

abbrev pub max_prompt_queue_agent_type_bytes : ℕ
max_prompt_queue_agent_type_bytes = 64

abbrev pub is_prompt_queue_terminal : Status → Bool
is_prompt_queue_terminal completed = true
is_prompt_queue_terminal cancelled = true
is_prompt_queue_terminal _ = false

abbrev pub is_prompt_queue_blocked : Status → Bool
is_prompt_queue_blocked blocked_failed = true
is_prompt_queue_blocked blocked_interrupted = true
is_prompt_queue_blocked blocked_indeterminate = true
is_prompt_queue_blocked _ = false

abbrev pub is_queued : Status → Bool
is_queued queued = true
is_queued _ = false

abbrev pub is_running : Status → Bool
is_running running = true
is_running _ = false

abbrev pub is_cancelled : Status → Bool
is_cancelled cancelled = true
is_cancelled _ = false

-- `session_id == id` of the loops.
abbrev pub in_session : Bytes → Item → Bool
in_session id it = ite (bytes_discrete it.session_id id) true false

-- promptQueueKey: the two ids with a zero byte between them.
unfoldable pub prompt_queue_key : Bytes → Bytes → Bytes
prompt_queue_key session_id client_msg_id = session_id ++ (0 ∷ client_msg_id)

abbrev pub has_payload : Item → Bool
has_payload it =
    not (is_empty it.prompt) || not (is_empty it.attachments) || not (is_empty it.sealed_envelope)

unfoldable pub clear_prompt_queue_payload : Item → Item
clear_prompt_queue_payload it = record it {
  prompt = [];
  attachments = [];
  sealed_envelope = [];
  collaboration_mode = [];
}

unfoldable pub validate_prompt_queue_string : Field → Bytes → ℕ → Result Error (Unit {0})
validate_prompt_queue_string name value max = do
  fail_if (is_blank value) (required name)
  fail_if (ltb max (length value) || not (valid_utf8 value)) (too_long_or_invalid name)

-- The tests that enqueue and validatePromptQueueItem share: the three ids.
unfoldable pub validate_ids : Item → Result Error (Unit {0})
unfolding validate_prompt_queue_string
validate_ids it = do
  validate_prompt_queue_string session_id_name it.session_id max_prompt_queue_session_id_bytes
  validate_prompt_queue_string client_msg_id_name it.client_msg_id
      max_prompt_queue_client_msg_id_size
  validate_prompt_queue_string agent_type_name it.agent_type max_prompt_queue_agent_type_bytes

abbrev known_mode : Bytes → Bool
known_mode mode = is_empty mode || ite (bytes_discrete mode (ascii "plan")) true false

abbrev active_status : Status → Bool
active_status s = is_queued s || is_running s || is_prompt_queue_blocked s

module _ (json : Json) where
  -- The tests of the payload, in the order of the code.
  unfoldable pub validate_payload : Item → Result Error (Unit {0})
  validate_payload it = do
    fail_if (not (is_empty it.prompt) && not (valid_utf8 it.prompt)) invalid_prompt
    fail_if (not (is_empty it.attachments) && not (json.valid it.attachments)) invalid_attachments
    fail_if
        (not (is_empty it.sealed_envelope)
          && (not (is_empty it.prompt) || not (is_empty it.attachments)))
        mixed_payload

  validate_active : Item → Result Error (Unit {0})
  validate_active it = do
    validate_payload it
    fail_if (not (known_mode it.collaboration_mode)) invalid_mode
    fail_if (not (has_payload it)) payload_required
    fail_if (not (active_status it.status)) invalid_status

  unfoldable pub validate_prompt_queue_item : Item → Result Error (Unit {0})
  unfolding validate_active
  validate_prompt_queue_item it = do
    validate_ids it
    fail_if (it.order == 0 || not (is_positive it.created_at)) order_missing
    if is_prompt_queue_terminal it.status
        then fail_if (has_payload it) payload_retained
        else validate_active it
