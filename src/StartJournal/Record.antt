-- ===== src/StartJournal/Record.antt =====
-- The records of the journal and their validation (daemon/internal/startjournal/journal.go).
use nekonest.Prelude.{
  ℕ, ℤ, Bool, true, false, not, ◌&&◌, ◌||◌, ite, List, [], ◌∷◌, ◌++◌, Option, Bytes, bytes_discrete,
  length, ltb, ltb_ℤ, ◌==◌, is_empty, if◌then◌else◌, Result, ◌>>◌, fail_if, lookup, insert,
}
use nekonest.Text.{valid_utf8, is_blank}
use nekonest.AtomicWrite.{IoError}
use nekonest.PromptJournal.Record.{ltb_bytes}
use nekonest.PromptJournal.Load.{all_hex}

-- Status. `other` is any string but the four that the code names.
pub data Status : Type 0 where
  starting owned failed indeterminate : Status
  other : Bytes → Status

pub record Request : Type 0 where
  pub agent_type : Bytes
  pub project_dir : Bytes
  pub prompt_digest : Bytes
  pub attachments_digest : Bytes

pub record Record : Type 0 where
  pub key : Bytes
  pub operation_id : Bytes
  pub request : Request
  pub status : Status
  pub session_id : Bytes
  pub prompt_accepted : Bool
  pub message : Bytes
  pub updated_at : ℤ

-- diskJournal.
pub record Disk : Type 0 where
  pub version : ℤ
  pub device_hash : Bytes
  pub records : List Record

pub data Error : Type 0 where
  device_required operation_id_required operation_id_invalid agent_type_invalid : Error
  project_dir_invalid prompt_digest_invalid attachments_digest_invalid conflict : Error
  invalid_terminal session_id_invalid not_found already_finished invalid_transition : Error
  session_id_missing acceptance_missing marshal_failed too_large : Error
  write_failed : IoError → Error
  open_failed secure_failed read_failed close_failed decode_failed bad_version : Error
  other_device key_mismatch invalid_status owned_incomplete invalid_message duplicate : Error

-- encoding/json on the journal's file, and the hexadecimal SHA-256 digest of a string.
pub record Codec : Type 0 where
  pub marshal : Disk → Option Bytes
  pub unmarshal : Bytes → Option Disk
  pub digest : Bytes → Bytes

abbrev pub journal_version : ℕ
journal_version = 1

abbrev pub max_journal_bytes : ℕ
max_journal_bytes = 16777216

abbrev pub max_operation_id_bytes : ℕ
max_operation_id_bytes = 256

abbrev pub max_session_id_bytes : ℕ
max_session_id_bytes = 512

abbrev pub max_agent_type_bytes : ℕ
max_agent_type_bytes = 64

abbrev pub max_project_dir_bytes : ℕ
max_project_dir_bytes = 4096

abbrev pub max_terminal_message_bytes : ℕ
max_terminal_message_bytes = 2048

abbrev pub terminal : Status → Bool
terminal owned = true
terminal failed = true
terminal indeterminate = true
terminal _ = false

abbrev pub is_starting : Status → Bool
is_starting starting = true
is_starting _ = false

abbrev pub is_owned : Status → Bool
is_owned owned = true
is_owned _ = false

abbrev pub same_terminal : Status → Status → Bool
same_terminal owned owned = true
same_terminal failed failed = true
same_terminal indeterminate indeterminate = true
same_terminal _ _ = false

abbrev pub str_eq : Bytes → Bytes → Bool
str_eq a b = ite (bytes_discrete a b) true false

abbrev pub same_request : Record → Request → Bool
same_request r q =
    str_eq r.request.agent_type q.agent_type
    && str_eq r.request.project_dir q.project_dir
    && str_eq r.request.prompt_digest q.prompt_digest
    && str_eq r.request.attachments_digest q.attachments_digest

abbrev pub operation_key : Codec → Bytes → Bytes → Bytes
operation_key codec device operation = codec.digest (device ++ (0 ∷ operation))

unfoldable pub validate_operation_id : Bytes → Result Error (Unit {0})
validate_operation_id operation = do
  fail_if (is_blank operation) operation_id_required
  fail_if (ltb max_operation_id_bytes (length operation) || not (valid_utf8 operation))
      operation_id_invalid

-- `len(digest) != 64`, then hex.DecodeString.
abbrev pub valid_digest : Bytes → Bool
valid_digest digest = length digest == 64 && all_hex digest

abbrev pub valid_name : Bytes → ℕ → Bool
valid_name name max = not (is_blank name || ltb max (length name) || not (valid_utf8 name))

unfoldable pub validate_request : Request → Result Error (Unit {0})
validate_request q = do
  fail_if (not (valid_name q.agent_type max_agent_type_bytes)) agent_type_invalid
  fail_if (not (valid_name q.project_dir max_project_dir_bytes)) project_dir_invalid
  fail_if (not (valid_digest q.prompt_digest)) prompt_digest_invalid
  fail_if (not (is_empty q.attachments_digest) && not (valid_digest q.attachments_digest))
      attachments_digest_invalid

abbrev pub known_status : Status → Bool
known_status (other _) = false
known_status _ = true

abbrev pub valid_text : Bytes → ℕ → Bool
valid_text text max = not (ltb max (length text) || not (valid_utf8 text))

unfoldable pub validate_record : Codec → Bytes → Record → Result Error (Unit {0})
validate_record codec device r = do
  validate_operation_id r.operation_id
  validate_request r.request
  fail_if (not (str_eq r.key (operation_key codec device r.operation_id))) key_mismatch
  fail_if (not (known_status r.status)) invalid_status
  fail_if (is_owned r.status && (is_blank r.session_id || not r.prompt_accepted)) owned_incomplete
  fail_if (not (valid_text r.session_id max_session_id_bytes)) session_id_invalid
  fail_if (not (valid_text r.message max_terminal_message_bytes)) invalid_message

abbrev pub Records : Type 0
Records = List (Bytes × Record)

abbrev pub find : Bytes → Records → Option Record
find = lookup bytes_discrete

abbrev pub put : Bytes → Record → Records → Records
put = insert bytes_discrete

abbrev pub earlier : Record → Record → Bool
earlier a b =
    ltb_ℤ a.updated_at b.updated_at
    || not (ltb_ℤ b.updated_at a.updated_at) && ltb_bytes a.key b.key

insert_earlier : Record → List Record → List Record
insert_earlier x [] = x ∷ []
insert_earlier x (y ∷ ys) = if earlier y x then y ∷ insert_earlier x ys else x ∷ y ∷ ys

-- `sort.Slice` by time and key.
unfoldable pub sort_records : List Record → List Record
unfolding insert_earlier
sort_records [] = []
sort_records (x ∷ xs) = insert_earlier x (sort_records xs)
