-- ===== src/StartJournal/Journal.antt =====
-- Journal of daemon/internal/startjournal/journal.go: its operations, each one step under its mutex.
use nekonest.Prelude.{
  ℤ, pos, Bool, true, false, not, ◌&&◌, ◌||◌, [], Option, none, some, Bytes, length, ltb,
  if◌then◌else◌, values, Result, ok, err,
}
use nekonest.Text.{is_blank}
use nekonest.Text.Bounded.{bounded_utf8}
use nekonest.AtomicWrite.{IoError, Syscalls, write_file_atomic}
use nekonest.PromptQueue.Steps.{is_err}
use nekonest.StartJournal.Record.{
  Status, starting, indeterminate, Request, Record, Disk, Error, Codec, Records, conflict,
  invalid_terminal, session_id_invalid, not_found, already_finished, invalid_transition,
  session_id_missing, acceptance_missing, marshal_failed, too_large, write_failed, journal_version,
  max_journal_bytes, max_session_id_bytes, max_terminal_message_bytes, terminal, is_starting,
  is_owned, same_terminal, str_eq, same_request, operation_key, validate_operation_id,
  validate_request, valid_text, find, put, sort_records,
}

-- Journal, with the file that stands at its path.
pub record Journal : Type 0 where
  pub device_hash : Bytes
  pub records : Records
  pub file : Option Bytes

abbrev pub disk_of : Bytes → Records → Disk
disk_of device m = record {
  version = pos journal_version;
  device_hash = device;
  records = sort_records (values m);
}

abbrev pub io_result :
    Option Bytes × Result IoError (Unit {0}) → Option Bytes × Result Error (Unit {0})
io_result (file, ok _) = (file, ok tt)
io_result (file, err e) = (file, err (write_failed e))

abbrev pub started : Bytes → Bytes → Request → ℤ → Record
started key operation request now = record {
  key = key;
  operation_id = operation;
  request = request;
  status = starting;
  session_id = [];
  prompt_accepted = false;
  message = [];
  updated_at = now;
}

abbrev pub ended : Record → Status → Bytes → Bytes → Bool → ℤ → Record
ended r status session message accepted now = record r {
  status = status;
  session_id = session;
  prompt_accepted = accepted;
  message = message;
  updated_at = now;
}

-- Whether a finished record has this whole result.
abbrev pub same_result : Record → Status → Bytes → Bytes → Bool → Bool
same_result r status session message accepted =
    same_terminal r.status status
    && str_eq r.session_id session
    && str_eq r.message message
    && (if accepted then r.prompt_accepted else not r.prompt_accepted)

module _ (codec : Codec) where
  unfoldable pub lookup_record : Journal → Bytes → Option Record
  lookup_record j operation =
      if is_err (validate_operation_id operation)
      then none
      else find (operation_key codec j.device_hash operation) j.records

  abbrev pub closed : Record → Bytes → ℤ → Record
  closed r message now = record r {
    status = indeterminate;
    message = bounded_utf8 message max_terminal_message_bytes;
    updated_at = now;
  }

  abbrev pub fail_closed_found :
      Journal → Bytes → Bytes → ℤ → Option Record → Journal × Option Record
  fail_closed_found j key message now none = (j, none)
  fail_closed_found j key message now (some r) =
      if is_starting r.status
      then (
        record j { records = put key (closed r message now) j.records },
        some (closed r message now),
      )
      else (j, some r)

  unfoldable pub fail_closed : Journal → ℤ → Bytes → Bytes → Journal × Option Record
  fail_closed j now operation message =
      if is_err (validate_operation_id operation)
      then (j, none)
      else let key = operation_key codec j.device_hash operation in
        fail_closed_found j key message now (find key j.records)

module _ (codec : Codec) (os : Syscalls) where
  -- persist: the file after the call, and its result.
  unfoldable pub persist : Bytes → Option Bytes → Records → Option Bytes × Result Error (Unit {0})
  persist device file m = elim (codec.marshal (disk_of device m)) [
    | none ↦ (file, err marshal_failed)
    | some content ↦
        if ltb max_journal_bytes (length content)
        then (file, err too_large)
        else io_result (write_file_atomic os file content)
  ]

  abbrev pub settle {ℓ} :
      {A : Type ℓ}
      → Journal
      → Records
      → A
      → Option Bytes × Result Error (Unit {0})
      → Journal × Result Error A
  settle j next a (file, ok _) = (record j { records = next; file = file }, ok a)
  settle j next a (file, err e) = (record j { file = file }, err e)

  unfoldable pub commit {ℓ} : {A : Type ℓ} → Journal → Records → A → Journal × Result Error A
  commit j next a = settle j next a (persist j.device_hash j.file next)

  -- The part of Begin under the mutex.
  abbrev pub begin_found :
      Journal → ℤ → Bytes → Bytes → Request → Option Record → Journal × Result Error (Record × Bool)
  begin_found j now key operation request (some existing) =
      if not (str_eq existing.operation_id operation) || not (same_request existing request)
      then (j, err conflict)
      else (j, ok (existing, false))
  begin_found j now key operation request none =
      let new = started key operation request now in commit j (put key new j.records) (new, true)

  abbrev pub begin_checked :
      Journal
      → ℤ
      → Bytes
      → Request
      → Result Error (Unit {0})
      → Journal × Result Error (Record × Bool)
  begin_checked j now operation request (err e) = (j, err e)
  begin_checked j now operation request (ok _) =
      let key = operation_key codec j.device_hash operation in
      begin_found j now key operation request (find key j.records)

  abbrev pub begin_named :
      Journal
      → ℤ
      → Bytes
      → Request
      → Result Error (Unit {0})
      → Journal × Result Error (Record × Bool)
  begin_named j now operation request (err e) = (j, err e)
  begin_named j now operation request (ok _) =
      begin_checked j now operation request (validate_request request)

  unfoldable pub begin : Journal → ℤ → Bytes → Request → Journal × Result Error (Record × Bool)
  begin j now operation request =
      begin_named j now operation request (validate_operation_id operation)

  -- The part of FinishWithPromptOutcome under the mutex.
  abbrev pub finish_found :
      Journal
      → ℤ
      → Bytes
      → Status
      → Bytes
      → Bytes
      → Bool
      → Option Record
      → Journal × Result Error Record
  finish_found j now key status session message accepted none = (j, err not_found)
  finish_found j now key status session message accepted (some r) =
      if terminal r.status
      then (if same_result r status session message accepted
          then (j, ok r)
          else (j, err already_finished))
      else if not (is_starting r.status)
      then (j, err invalid_transition)
      else if is_owned status && is_blank session
      then (j, err session_id_missing)
      else if is_owned status && not accepted
      then (j, err acceptance_missing)
      else commit j (put key (ended r status session message accepted now) j.records)
          (ended r status session message accepted now)

  abbrev pub finish_named :
      Journal
      → ℤ
      → Bytes
      → Status
      → Bytes
      → Bytes
      → Bool
      → Result Error (Unit {0})
      → Journal × Result Error Record
  finish_named j now operation status session message accepted (err e) = (j, err e)
  finish_named j now operation status session message accepted (ok _) =
      if not (valid_text session max_session_id_bytes)
      then (j, err session_id_invalid)
      else let key = operation_key codec j.device_hash operation in
        finish_found j now key status session (bounded_utf8 message max_terminal_message_bytes)
          accepted (find key j.records)

  unfoldable pub finish_with_prompt_outcome :
      Journal → ℤ → Bytes → Status → Bytes → Bytes → Bool → Journal × Result Error Record
  finish_with_prompt_outcome j now operation status session message accepted =
      if not (terminal status)
      then (j, err invalid_terminal)
      else finish_named j now operation status session message accepted
          (validate_operation_id operation)
