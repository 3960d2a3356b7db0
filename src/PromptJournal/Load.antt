-- ===== src/PromptJournal/Load.antt =====
-- loadPromptJournal of daemon/cmd/daemon/prompt_journal.go: the journal that a daemon starts with.
use nekonest.Prelude.{
  ℕ, zero, suc, ℤ, Bool, true, false, not, ◌&&◌, ◌||◌, ite, List, [], ◌∷◌, Option, none, some,
  Bytes, bytes_discrete, length, leb, ltb, ◌==◌, is_empty, is_positive, pos_part, is_ℤ,
  if◌then◌else◌, Result, ok, err, ◌>>◌, fail_if,
}
use nekonest.Text.Bounded.{bounded_utf8}
use nekonest.AtomicWrite.{Syscalls}
use nekonest.PromptJournal.Record.{
  Record, Status, indeterminate, other, Disk, Error, Codec, Records, stat_failed, too_large,
  secure_failed, read_failed, parse_failed, bad_version, other_device, invalid_key,
  partial_identifiers, key_mismatch, invalid_status, duplicate, too_many, prompt_journal_version,
  max_prompt_journal_bytes, max_prompt_journal_echo_bytes, is_dispatching, prompt_journal_key,
  validate_journal_identifiers, find, put,
}
use nekonest.PromptJournal.Journal.{Journal, evict_oldest_committed, persist_records}

-- Which of the calls before the file is decoded succeed.
pub record Opening : Type 0 where
  pub stat : Bool
  pub chmod : Bool
  pub read : Bool

abbrev pub max_accepted_prompt_ids : ℕ
max_accepted_prompt_ids = 4096

abbrev pub is_hex : ℕ → Bool
is_hex c = leb 0x30 c && leb c 0x39 || leb 0x61 c && leb c 0x66 || leb 0x41 c && leb c 0x46

abbrev pub all_hex : Bytes → Bool
all_hex [] = true
all_hex (c ∷ r) = is_hex c && all_hex r

-- validJournalKey: 64 hexadecimal digits.
unfoldable pub valid_journal_key : Bytes → Bool
valid_journal_key key = length key == 64 && all_hex key

abbrev pub is_known : Status → Bool
is_known (other _) = false
is_known _ = true

-- A record of a file of version 1 is opaque.
abbrev pub relabel : Bool → Record → Record
relabel legacy r = if legacy then record r { legacy_opaque = true } else r

abbrev pub recover : Record → Record
recover r = if is_dispatching r.status then record r { status = indeterminate } else r

abbrev pub bound_echo : Record → Record
bound_echo r = record r { prompt_echo = bounded_utf8 r.prompt_echo max_prompt_journal_echo_bytes }

unfoldable pub normalize : Bool → Record → Record
normalize legacy r = bound_echo (recover (relabel legacy r))

abbrev pub normalizes : Record → Bool
normalizes r =
    is_dispatching r.status
    || not (
        ite
          (bytes_discrete (bounded_utf8 r.prompt_echo max_prompt_journal_echo_bytes) r.prompt_echo)
          true false)

module _ (codec : Codec) (device : Bytes) where
  -- The tests of a record's identifiers.
  unfoldable pub check_identifiers : Bool → Record → Result Error (Unit {0})
  check_identifiers legacy r =
      if legacy
      then ok tt
      else if r.legacy_opaque
      then fail_if (not (is_empty r.session_id) || not (is_empty r.client_msg_id))
          partial_identifiers
      else (do
        validate_journal_identifiers r.session_id r.client_msg_id
        fail_if
            (not (
              ite
                (bytes_discrete r.key
                  (prompt_journal_key codec device r.session_id r.client_msg_id))
                true false))
            key_mismatch)

  abbrev pub check_fresh : Option Record → Result Error (Unit {0})
  check_fresh none = ok tt
  check_fresh (some _) = err duplicate

  unfoldable pub check_record : Bool → Record → Records → Result Error (Unit {0})
  check_record legacy r m = do
    fail_if (not (valid_journal_key r.key)) invalid_key
    check_identifiers legacy r
    fail_if (not (is_known r.status)) invalid_status
    check_fresh (find r.key m)

  -- The loop over the records of the file: the map, and whether a record was changed.
  unfoldable pub load_records : Bool → List Record → Records → Bool → Result Error (Records × Bool)
  load_records legacy [] m changed = ok (m, changed)
  load_records legacy (r ∷ rest) m changed = elim (check_record legacy r m) [
    | err e ↦ err e
    | ok _ ↦ load_records legacy rest (put r.key (normalize legacy r) m) (changed || normalizes r)
  ]

-- The loop of trimCommitted, on fuel: each turn drops a record, so their number is enough.
unfoldable pub trim : ℕ → ℕ → Records → Result Error Records
trim zero max m = ok m
trim (suc fuel) max m = elim (evict_oldest_committed m) [
  | err _ ↦ if leb (length m) max then ok m else err too_many
  | ok less ↦ let rest = trim fuel max less in if leb (length m) max then ok m else rest
]

unfoldable pub trim_committed : ℕ → Records → Result Error Records
trim_committed max m = trim (length m) max m

abbrev pub limit_of : ℤ → ℕ
limit_of max = if is_positive max then pos_part max else max_accepted_prompt_ids

module _ (codec : Codec) (device : Bytes) (max : ℕ) where
  abbrev pub trimmed : Result Error (Records × Bool) → Result Error (Records × Bool)
  trimmed (err e) = err e
  trimmed (ok (m, changed)) = elim (trim_committed max m) [
    | err e ↦ err e
    | ok less ↦ ok (less, changed)
  ]

  -- What the file's content says: the records, and whether the loop changed one.
  unfoldable pub load_disk : Disk → Result Error (Records × Bool)
  load_disk disk =
      let legacy = is_ℤ disk.version 1 in
      if not legacy && not (is_ℤ disk.version prompt_journal_version)
      then err bad_version
      else if not (ite (bytes_discrete disk.device_hash device) true false)
      then err other_device
      else trimmed (load_records codec device legacy disk.records [] legacy)

  abbrev pub journal_of : Records → Option Bytes → Journal
  journal_of m file = record { device_hash = device; max = max; records = m; file = file }

  abbrev pub with_persisted :
      Records → Option Bytes × Result Error (Unit {0}) → Option Bytes × Result Error Journal
  with_persisted m (file, ok _) = (file, ok (journal_of m file))
  with_persisted m (file, err e) = (file, err e)

  -- `if changed { persist }`, where a trimmed record counts as a change.
  abbrev pub finish_load :
      Syscalls
      → Option Bytes
      → Disk
      → Result Error (Records × Bool)
      → Option Bytes × Result Error Journal
  finish_load os file disk (err e) = (file, err e)
  finish_load os file disk (ok (m, changed)) =
      if changed || not (length m == length disk.records)
      then with_persisted m (persist_records codec os device file m)
      else (file, ok (journal_of m file))

  abbrev pub load_content :
      Syscalls → Option Bytes → Option Disk → Option Bytes × Result Error Journal
  load_content os file none = (file, err parse_failed)
  load_content os file (some disk) = finish_load os file disk (load_disk disk)

  abbrev pub load_opened : Opening → Syscalls → Bytes → Option Bytes × Result Error Journal
  load_opened open_file os content =
      if not open_file.stat
      then (some content, err stat_failed)
      else if ltb max_prompt_journal_bytes (length content)
      then (some content, err too_large)
      else if not open_file.chmod
      then (some content, err secure_failed)
      else if not open_file.read
      then (some content, err read_failed)
      else load_content os (some content) (codec.unmarshal content)

-- The file after the load, and the journal. `none` is a file that does not exist; `device` is the
-- digest of the device's id.
unfoldable pub load_prompt_journal :
    Codec → Opening → Syscalls → Bytes → ℤ → Option Bytes → Option Bytes × Result Error Journal
load_prompt_journal codec open_file os device_id max none =
    let device = codec.digest device_id in
    with_persisted codec device (limit_of max) [] (persist_records codec os device none [])
load_prompt_journal codec open_file os device_id max (some content) =
    load_opened codec (codec.digest device_id) (limit_of max) open_file os content
