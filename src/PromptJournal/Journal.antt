-- ===== src/PromptJournal/Journal.antt =====
-- promptJournal of daemon/cmd/daemon/prompt_journal.go: its operations. Each is one step under the
-- journal's mutex.
use nekonest.Prelude.{
  ℕ, ℤ, pos, Bool, true, false, not, ◌&&◌, List, [], ◌∷◌, Option, none, some, Bytes, length, leb,
  ltb, ltb_ℤ, is_empty, if◌then◌else◌, values, Result, ok, err,
}
use nekonest.Text.Bounded.{bounded_utf8}
use nekonest.AtomicWrite.{IoError, Syscalls, write_file_atomic}
use nekonest.PromptJournal.Record.{
  Status, dispatching, accepted, committed, indeterminate, Record, Disk, Error, Codec, Records,
  already_recorded, not_found, cannot_roll_back, cannot_transition, invalid_transition, full,
  marshal_failed, too_large, write_failed, prompt_journal_version, max_prompt_journal_bytes,
  max_prompt_journal_echo_bytes, is_dispatching, is_accepted, is_committed, prompt_journal_key,
  validate_journal_identifiers, find, put, drop_key, sort_records,
}

-- promptJournal, with the file that stands at its path.
pub record Journal : Type 0 where
  pub device_hash : Bytes
  pub max : ℕ
  pub records : Records
  pub file : Option Bytes

abbrev pub same_status : Status → Status → Bool
same_status dispatching dispatching = true
same_status accepted accepted = true
same_status committed committed = true
same_status indeterminate indeterminate = true
same_status _ _ = false

-- The guard of each step from one status to another.
abbrev pub allowed : Status → Status → Result Error (Unit {0})
allowed from accepted = if is_dispatching from then ok tt else err cannot_transition
allowed from indeterminate = if is_dispatching from then ok tt else err cannot_transition
allowed from committed = if is_accepted from then ok tt else err cannot_transition
allowed from _ = err invalid_transition

-- The loop of evictOldestCommitted: the committed record of the least time.
abbrev pub older : Option Record → Record → Option Record
older none r = some r
older (some best) r = if ltb_ℤ r.updated_at best.updated_at then some r else some best

unfoldable pub oldest_committed : List Record → Option Record → Option Record
oldest_committed [] best = best
oldest_committed (r ∷ rest) best =
    oldest_committed rest (if is_committed r.status then older best r else best)

unfoldable pub evict_oldest_committed : Records → Result Error Records
evict_oldest_committed m = elim (oldest_committed (values m) none) [
  | none ↦ err full
  | some oldest ↦ ok (drop_key oldest.key m)
]

-- `if len(next) >= j.max { evict }`.
unfoldable pub make_room : ℕ → Records → Result Error Records
make_room max m = if leb max (length m) then evict_oldest_committed m else ok m

abbrev pub new_record : Bytes → Bytes → Bytes → Bytes → ℤ → Record
new_record key session client prompt now = record {
  key = key;
  session_id = session;
  client_msg_id = client;
  legacy_opaque = false;
  status = dispatching;
  prompt_echo = bounded_utf8 prompt max_prompt_journal_echo_bytes;
  updated_at = now;
}

-- A record on its way to another status; an opaque one gets its identifiers.
abbrev pub moved_record : Record → Bytes → Bytes → Status → ℤ → Record
moved_record r session client status now = record {
  key = r.key;
  session_id = if r.legacy_opaque then session else r.session_id;
  client_msg_id = if r.legacy_opaque then client else r.client_msg_id;
  legacy_opaque = false;
  status = status;
  prompt_echo = r.prompt_echo;
  updated_at = now;
}

module _ (codec : Codec) where
  unfoldable pub state : Journal → Bytes → Bytes → Option Record
  state j session client =
      if is_empty client
      then none
      else find (prompt_journal_key codec j.device_hash session client) j.records

-- uncommittedAccepted.
select_accepted : List Record → List Record
select_accepted [] = []
select_accepted (r ∷ rest) =
    let others = select_accepted rest in
    if is_accepted r.status && not r.legacy_opaque then r ∷ others else others

unfoldable pub uncommitted_accepted : Journal → List Record
unfolding select_accepted
uncommitted_accepted j = sort_records (select_accepted (values j.records))

abbrev pub disk_of : Bytes → Records → Disk
disk_of device m = record {
  version = pos prompt_journal_version;
  device_hash = device;
  records = sort_records (values m);
}

abbrev pub io_result :
    Option Bytes × Result IoError (Unit {0}) → Option Bytes × Result Error (Unit {0})
io_result (file, ok _) = (file, ok tt)
io_result (file, err e) = (file, err (write_failed e))

module _ (codec : Codec) (os : Syscalls) where
  -- persistRecords: the file after the call, and its result.
  unfoldable pub persist_records :
      Bytes → Option Bytes → Records → Option Bytes × Result Error (Unit {0})
  persist_records device file m = elim (codec.marshal (disk_of device m)) [
    | none ↦ (file, err marshal_failed)
    | some content ↦
        if ltb max_prompt_journal_bytes (length content)
        then (file, err too_large)
        else io_result (write_file_atomic os file content)
  ]

  abbrev pub settle :
      Journal → Records → Option Bytes × Result Error (Unit {0}) → Journal × Result Error (Unit {0})
  settle j next (file, ok _) = (record j { records = next; file = file }, ok tt)
  settle j next (file, err e) = (record j { file = file }, err e)

  -- `if err := j.persistRecords(next); err != nil { return err }; j.records = next`.
  unfoldable pub commit : Journal → Records → Journal × Result Error (Unit {0})
  commit j next = settle j next (persist_records j.device_hash j.file next)

  abbrev pub dispatch_room :
      Journal → Bytes → Record → Result Error Records → Journal × Result Error (Unit {0})
  dispatch_room j key new (err e) = (j, err e)
  dispatch_room j key new (ok room) = commit j (put key new room)

  -- The part of markDispatching under the mutex.
  abbrev pub dispatch_found :
      Journal → Bytes → Record → Option Record → Journal × Result Error (Unit {0})
  dispatch_found j key new (some _) = (j, err already_recorded)
  dispatch_found j key new none = dispatch_room j key new (make_room j.max j.records)

  unfoldable pub mark_dispatching :
      Journal → ℤ → Bytes → Bytes → Bytes → Journal × Result Error (Unit {0})
  mark_dispatching j now session client prompt =
      elim (validate_journal_identifiers session client) [
        | err e ↦ (j, err e)
        | ok _ ↦
            let key = prompt_journal_key codec j.device_hash session client in
            dispatch_found j key (new_record key session client prompt now) (find key j.records)
      ]

  abbrev pub rollback_found : Journal → Bytes → Option Record → Journal × Result Error (Unit {0})
  rollback_found j key none = (j, err not_found)
  rollback_found j key (some current) =
      if not (is_dispatching current.status)
      then (j, err cannot_roll_back)
      else commit j (drop_key key j.records)

  unfoldable pub rollback_dispatching : Journal → Bytes → Bytes → Journal × Result Error (Unit {0})
  rollback_dispatching j session client = elim (validate_journal_identifiers session client) [
    | err e ↦ (j, err e)
    | ok _ ↦
        let key = prompt_journal_key codec j.device_hash session client in
        rollback_found j key (find key j.records)
  ]

  abbrev pub transition_allowed :
      Journal → Bytes → Record → Result Error (Unit {0}) → Journal × Result Error (Unit {0})
  transition_allowed j key new (err e) = (j, err e)
  transition_allowed j key new (ok _) = commit j (put key new j.records)

  abbrev pub transition_found :
      Journal
      → ℤ
      → Bytes
      → Bytes
      → Bytes
      → Status
      → Option Record
      → Journal × Result Error (Unit {0})
  transition_found j now key session client status none = (j, err not_found)
  transition_found j now key session client status (some current) =
      if same_status current.status status
      then (j, ok tt)
      else transition_allowed j key (moved_record current session client status now)
          (allowed current.status status)

  unfoldable pub transition :
      Journal → ℤ → Bytes → Bytes → Status → Journal × Result Error (Unit {0})
  transition j now session client status = elim (validate_journal_identifiers session client) [
    | err e ↦ (j, err e)
    | ok _ ↦
        let key = prompt_journal_key codec j.device_hash session client in
        transition_found j now key session client status (find key j.records)
  ]

  abbrev pub mark_accepted : Journal → ℤ → Bytes → Bytes → Journal × Result Error (Unit {0})
  mark_accepted j now session client = transition j now session client accepted

  abbrev pub mark_indeterminate : Journal → ℤ → Bytes → Bytes → Journal × Result Error (Unit {0})
  mark_indeterminate j now session client = transition j now session client indeterminate

  abbrev pub mark_committed : Journal → ℤ → Bytes → Bytes → Journal × Result Error (Unit {0})
  mark_committed j now session client = transition j now session client committed
