-- ===== src/PromptJournal/Record.antt =====
-- The records of the journal, their identifiers and what the journal writes to its file
-- (daemon/cmd/daemon/prompt_journal.go).
use nekonest.Prelude.{
  ℕ, ℤ, Bool, true, false, not, ◌&&◌, ◌||◌, List, [], ◌∷◌, ◌++◌, Option, Bytes, bytes_discrete,
  length, ltb, ltb_ℤ, ◌==◌, if◌then◌else◌, lookup, insert, delete, Result, ◌>>◌, fail_if,
}
use nekonest.Text.{valid_utf8, is_blank}
use nekonest.AtomicWrite.{IoError}

-- promptJournalStatus. `other` is any string but the four that the code names.
pub data Status : Type 0 where
  dispatching accepted committed indeterminate : Status
  other : Bytes → Status

-- promptJournalRecord.
pub record Record : Type 0 where
  pub key : Bytes
  pub session_id : Bytes
  pub client_msg_id : Bytes
  pub legacy_opaque : Bool
  pub status : Status
  pub prompt_echo : Bytes
  pub updated_at : ℤ

-- promptJournalDisk.
pub record Disk : Type 0 where
  pub version : ℤ
  pub device_hash : Bytes
  pub records : List Record

pub data Error : Type 0 where
  session_id_required client_msg_id_required session_id_invalid client_msg_id_invalid : Error
  already_recorded not_found cannot_roll_back cannot_transition invalid_transition full : Error
  marshal_failed too_large : Error
  write_failed : IoError → Error
  stat_failed secure_failed read_failed parse_failed bad_version other_device : Error
  invalid_key partial_identifiers key_mismatch invalid_status duplicate too_many : Error

-- encoding/json on the journal's file, and the hexadecimal SHA-256 digest of a string.
pub record Codec : Type 0 where
  pub marshal : Disk → Option Bytes
  pub unmarshal : Bytes → Option Disk
  pub digest : Bytes → Bytes

abbrev pub prompt_journal_version : ℕ
prompt_journal_version = 2

abbrev pub max_prompt_journal_bytes : ℕ
max_prompt_journal_bytes = 16777216

abbrev pub max_prompt_journal_echo_bytes : ℕ
max_prompt_journal_echo_bytes = 512

abbrev pub max_journal_session_id_bytes : ℕ
max_journal_session_id_bytes = 512

abbrev pub max_journal_client_msg_id_bytes : ℕ
max_journal_client_msg_id_bytes = 256

abbrev pub is_dispatching : Status → Bool
is_dispatching dispatching = true
is_dispatching _ = false

abbrev pub is_accepted : Status → Bool
is_accepted accepted = true
is_accepted _ = false

abbrev pub is_committed : Status → Bool
is_committed committed = true
is_committed _ = false

-- promptJournalKeyFromHash: the digest of the device's hash and the two ids, zero bytes between.
abbrev pub prompt_journal_key : Codec → Bytes → Bytes → Bytes → Bytes
prompt_journal_key codec device session client =
    codec.digest (device ++ (0 ∷ session ++ (0 ∷ client)))

unfoldable pub validate_journal_identifiers : Bytes → Bytes → Result Error (Unit {0})
validate_journal_identifiers session client = do
  fail_if (is_blank session) session_id_required
  fail_if (is_blank client) client_msg_id_required
  fail_if (ltb max_journal_session_id_bytes (length session) || not (valid_utf8 session))
      session_id_invalid
  fail_if (ltb max_journal_client_msg_id_bytes (length client) || not (valid_utf8 client))
      client_msg_id_invalid

abbrev pub Records : Type 0
Records = List (Bytes × Record)

abbrev pub find : Bytes → Records → Option Record
find = lookup bytes_discrete

abbrev pub put : Bytes → Record → Records → Records
put = insert bytes_discrete

abbrev pub drop_key : Bytes → Records → Records
drop_key = delete bytes_discrete

-- Go's order of strings.
abbrev pub ltb_bytes : Bytes → Bytes → Bool
ltb_bytes [] [] = false
ltb_bytes [] (_ ∷ _) = true
ltb_bytes (_ ∷ _) [] = false
ltb_bytes (a ∷ r) (b ∷ s) = ltb a b || a == b && ltb_bytes r s

-- The order of the records in the file: by time, then by key.
abbrev pub earlier : Record → Record → Bool
earlier a b =
    ltb_ℤ a.updated_at b.updated_at
    || not (ltb_ℤ b.updated_at a.updated_at) && ltb_bytes a.key b.key

insert_earlier : Record → List Record → List Record
insert_earlier x [] = x ∷ []
insert_earlier x (y ∷ ys) = if earlier y x then y ∷ insert_earlier x ys else x ∷ y ∷ ys

-- `sort.Slice` by time and key.
unfoldable pub sort_records : List Record → List Record
unfolding insert_earlier
sort_records [] = []
sort_records (x ∷ xs) = insert_earlier x (sort_records xs)
