-- ===== src/PromptQueue/Load.antt =====
-- loadPromptQueue of daemon/cmd/daemon/prompt_queue.go: the queue that a daemon starts with.
use nekonest.Prelude.{
  ℕ, Bool, true, false, not, ◌&&◌, ◌||◌, ite, List, [], ◌∷◌, Option, none, some, Bytes, ascii,
  bytes_discrete, length, ltb, if◌then◌else◌, Result, ok, err, is_ℤ,
}
use nekonest.AtomicWrite.{Syscalls}
use nekonest.PromptQueue.Item.{
  Item, Status, other, blocked_indeterminate, Disk, Json, Error, stat_failed, too_large,
  secure_failed, read_failed, parse_failed, bad_version, duplicate, is_running,
  is_prompt_queue_terminal, has_payload, prompt_queue_key, validate_prompt_queue_item,
  prompt_queue_version, prompt_queue_legacy_version, max_prompt_queue_bytes,
}
use nekonest.PromptQueue.Store.{Items, Queue, find, put, persist}

-- Which of the calls before the file is decoded succeed; `stat` also where it finds that there is no file.
pub record Opening : Type 0 where
  pub stat : Bool
  pub chmod : Bool
  pub read : Bool

abbrev pub is_paused : Status → Bool
is_paused (other name) = ite (bytes_discrete name (ascii "paused")) true false
is_paused _ = false

-- The first two tests of the loop: what was running when the daemon stopped, or paused in the old
-- format, becomes indeterminate; a finished item gives up its payload.
abbrev pub is_interrupted : Bool → Item → Bool
is_interrupted legacy it = is_running it.status || legacy && is_paused it.status

abbrev pub recover : Bool → Item → Item
recover legacy it =
    if is_interrupted legacy it then record it { status = blocked_indeterminate } else it

abbrev pub is_heavy_tombstone : Item → Bool
is_heavy_tombstone it = is_prompt_queue_terminal it.status && has_payload it

abbrev pub strip : Item → Item
strip it =
    if is_heavy_tombstone it
    then record it { prompt = []; attachments = []; sealed_envelope = [] }
    else it

unfoldable pub normalize : Bool → Item → Item
normalize legacy it = strip (recover legacy it)

unfoldable pub normalizes : Bool → Item → Bool
normalizes legacy it = is_interrupted legacy it || is_heavy_tombstone (recover legacy it)

-- What the loop has built so far.
pub record Loaded : Type 0 where
  pub items : Items
  pub next_id : ℕ
  pub changed : Bool

unfoldable pub load_one : Bool → Item → Loaded → Loaded
load_one legacy it l =
    let new = normalize legacy it in
    record {
      items = put (prompt_queue_key new.session_id new.client_msg_id) new l.items;
      next_id = if ltb l.next_id new.order then new.order else l.next_id;
      changed = l.changed || normalizes legacy it;
    }

abbrev pub no_items : Bool → Loaded
no_items changed = record { items = []; next_id = 0; changed = changed }

abbrev pub unsupported : Disk → Bool
unsupported disk =
    not (is_ℤ disk.version prompt_queue_version)
    && not (is_ℤ disk.version prompt_queue_legacy_version)

module _ (json : Json) where
  unfoldable pub check_one : Bool → Item → Loaded → Result Error (Unit {0})
  check_one legacy it l =
      let new = normalize legacy it in
      elim (validate_prompt_queue_item json new) [
        | err e ↦ err e
        | ok _ ↦ elim (find (prompt_queue_key new.session_id new.client_msg_id) l.items) [
          | some _ ↦ err duplicate
          | none ↦ ok tt
        ]
      ]

  unfoldable pub load_items : Bool → List Item → Loaded → Result Error Loaded
  load_items legacy [] l = ok l
  load_items legacy (it ∷ rest) l = elim (check_one legacy it l) [
    | err e ↦ err e
    | ok _ ↦ load_items legacy rest (load_one legacy it l)
  ]

  unfoldable pub load_disk : Disk → Result Error Loaded
  load_disk disk =
      if unsupported disk
      then err bad_version
      else let legacy = is_ℤ disk.version prompt_queue_legacy_version in
        load_items legacy disk.items (no_items legacy)

  abbrev pub queue_of : Loaded → Option Bytes → Queue
  queue_of l file = record { items = l.items; next_id = l.next_id; file = file }

  abbrev pub with_persisted :
      Loaded → Option Bytes × Result Error (Unit {0}) → Option Bytes × Result Error Queue
  with_persisted l (file, ok _) = (file, ok (queue_of l file))
  with_persisted l (file, err e) = (file, err e)

  -- `if changed { persist }`.
  abbrev pub finish_load : Syscalls → Option Bytes → Loaded → Option Bytes × Result Error Queue
  finish_load os file l =
      if l.changed
      then with_persisted l (persist json os file l.items)
      else (file, ok (queue_of l file))

  abbrev pub decode : Bytes → Result Error Loaded
  decode content = elim (json.unmarshal content) [
    | none ↦ err parse_failed
    | some disk ↦ load_disk disk
  ]

  -- The file after the load, and the queue. `none` is a file that does not exist.
  unfoldable pub load_prompt_queue :
      Opening → Syscalls → Option Bytes → Option Bytes × Result Error Queue
  load_prompt_queue open_file os none =
      if not open_file.stat
      then (none, err stat_failed)
      else with_persisted (no_items true) (persist json os none [])
  load_prompt_queue open_file os (some content) =
      if not open_file.stat
      then (some content, err stat_failed)
      else if ltb max_prompt_queue_bytes (length content)
      then (some content, err too_large)
      else if not open_file.chmod
      then (some content, err secure_failed)
      else if not open_file.read
      then (some content, err read_failed)
      else elim (decode content) [
        | err e ↦ (some content, err e)
        | ok l ↦ finish_load os (some content) l
      ]
