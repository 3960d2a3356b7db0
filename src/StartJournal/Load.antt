-- ===== src/StartJournal/Load.antt =====
-- Load of daemon/internal/startjournal/journal.go: a start that was under way when the daemon stopped
-- becomes indeterminate.
use nekonest.Prelude.{
  ℤ, Bool, false, not, ◌||◌, List, [], ◌∷◌, Option, none, some, Bytes, ascii, length, ltb, is_ℤ,
  if◌then◌else◌, Result, ok, err, ◌>>◌,
}
use nekonest.Text.{is_blank}
use nekonest.AtomicWrite.{Syscalls}
use nekonest.StartJournal.Record.{
  Record, Disk, Error, Codec, Records, indeterminate, device_required, open_failed, secure_failed,
  read_failed, close_failed, decode_failed, bad_version, other_device, duplicate, too_large,
  journal_version, max_journal_bytes, is_starting, str_eq, validate_record, find, put,
}
use nekonest.StartJournal.Journal.{Journal, persist}

-- Which of the calls before the file is decoded succeed.
pub record Opening : Type 0 where
  pub open_file : Bool
  pub chmod : Bool
  pub read : Bool
  pub close : Bool

abbrev pub recovered_message : Bytes
recovered_message =
    ascii
      "thread start outcome is indeterminate after daemon restart; automatic retry is disabled to prevent duplicate native threads"

unfoldable pub recover : ℤ → Record → Record
recover now r =
    if is_starting r.status
    then record r { status = indeterminate; message = recovered_message; updated_at = now }
    else r

abbrev pub check_fresh : Option Record → Result Error (Unit {0})
check_fresh none = ok tt
check_fresh (some _) = err duplicate

module _ (codec : Codec) (device : Bytes) (now : ℤ) where
  unfoldable pub check_record : Record → Records → Result Error (Unit {0})
  check_record r m = do validate_record codec device r; check_fresh (find r.key m)

  -- The loop over the records: the map, and whether a record was recovered.
  unfoldable pub load_records : List Record → Records → Bool → Result Error (Records × Bool)
  load_records [] m changed = ok (m, changed)
  load_records (r ∷ rest) m changed = elim (check_record r m) [
    | err e ↦ err e
    | ok _ ↦ load_records rest (put r.key (recover now r) m) (changed || is_starting r.status)
  ]

  unfoldable pub load_disk : Disk → Result Error (Records × Bool)
  load_disk disk =
      if not (is_ℤ disk.version journal_version)
      then err bad_version
      else if not (str_eq disk.device_hash device)
      then err other_device
      else load_records disk.records [] false

  abbrev pub journal_of : Records → Option Bytes → Journal
  journal_of m file = record { device_hash = device; records = m; file = file }

  abbrev pub with_persisted :
      Records → Option Bytes × Result Error (Unit {0}) → Option Bytes × Result Error Journal
  with_persisted m (file, ok _) = (file, ok (journal_of m file))
  with_persisted m (file, err e) = (file, err e)

  abbrev pub finish_load :
      Syscalls → Option Bytes → Result Error (Records × Bool) → Option Bytes × Result Error Journal
  finish_load os file (err e) = (file, err e)
  finish_load os file (ok (m, changed)) =
      if changed
      then with_persisted m (persist codec os device file m)
      else (file, ok (journal_of m file))

  abbrev pub load_content :
      Syscalls → Option Bytes → Option Disk → Option Bytes × Result Error Journal
  load_content os file none = (file, err decode_failed)
  load_content os file (some disk) = finish_load os file (load_disk disk)

  abbrev pub load_opened : Opening → Syscalls → Bytes → Option Bytes × Result Error Journal
  load_opened opening os content =
      if not opening.open_file
      then (some content, err open_failed)
      else if not opening.chmod
      then (some content, err secure_failed)
      else if not opening.read
      then (some content, err read_failed)
      else if not opening.close
      then (some content, err close_failed)
      else if ltb max_journal_bytes (length content)
      then (some content, err too_large)
      else load_content os (some content) (codec.unmarshal content)

  abbrev pub load_file : Opening → Syscalls → Option Bytes → Option Bytes × Result Error Journal
  load_file opening os none = (none, ok (journal_of [] none))
  load_file opening os (some content) = load_opened opening os content

-- The file after the load, and the journal. `none` is a file that does not exist.
unfoldable pub load :
    Codec → Opening → Syscalls → ℤ → Bytes → Option Bytes → Option Bytes × Result Error Journal
load codec opening os now device_id file =
    if is_blank device_id
    then (file, err device_required)
    else load_file codec (codec.digest device_id) now opening os file
