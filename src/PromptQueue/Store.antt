-- ===== src/PromptQueue/Store.antt =====
-- The queue's state, what it writes to its file, and the tombstone compaction
-- (daemon/cmd/daemon/prompt_queue.go).
use nekonest.Prelude.{
  ℕ, pos, Bool, not, ◌&&◌, List, [], ◌∷◌, Option, none, some, Bytes, bytes_discrete, length, count,
  drop, ltb, if◌then◌else◌, values, lookup, insert, delete, Result, ok, err,
}
use nekonest.AtomicWrite.{IoError, Syscalls, write_file_atomic}
use nekonest.PromptQueue.Item.{
  Item, Disk, Error, marshal_failed, too_large, write_failed, Json, prompt_queue_version,
  max_prompt_queue_bytes, compact_queue_tombstones_at, retain_queue_tombstones,
  is_prompt_queue_terminal, in_session, prompt_queue_key,
}

abbrev pub Items : Type 0
Items = List (Bytes × Item)

-- promptQueue, with the file that stands at its path.
pub record Queue : Type 0 where
  pub items : Items
  pub next_id : ℕ  -- uint64
  pub file : Option Bytes

abbrev pub find : Bytes → Items → Option Item
find = lookup bytes_discrete

abbrev pub put : Bytes → Item → Items → Items
put = insert bytes_discrete

abbrev pub is_active_in : Bytes → Item → Bool
is_active_in session it = in_session session it && not (is_prompt_queue_terminal it.status)

abbrev pub is_tombstone_in : Bytes → Item → Bool
is_tombstone_in session it = in_session session it && is_prompt_queue_terminal it.status

unfoldable pub active_count : Items → Bytes → ℕ
active_count items session = count (is_active_in session) (values items)

insert_ascending : Item → List Item → List Item
insert_ascending x [] = x ∷ []
insert_ascending x (y ∷ ys) = if ltb y.order x.order then y ∷ insert_ascending x ys else x ∷ y ∷ ys

-- `sort.Slice` by rising order.
unfoldable pub sort_ascending : List Item → List Item
unfolding insert_ascending
sort_ascending [] = []
sort_ascending (x ∷ xs) = insert_ascending x (sort_ascending xs)

unfoldable pub insert_descending : Item → List Item → List Item
insert_descending x [] = x ∷ []
insert_descending x (y ∷ ys) =
    if ltb x.order y.order then y ∷ insert_descending x ys else x ∷ y ∷ ys

-- `sort.Slice` by falling order.
unfoldable pub sort_descending : List Item → List Item
unfolding insert_descending
sort_descending [] = []
sort_descending (x ∷ xs) = insert_descending x (sort_descending xs)

unfoldable pub tombstones : Bytes → List Item → List Item
tombstones session [] = []
tombstones session (it ∷ rest) =
    let others = tombstones session rest in
    if is_tombstone_in session it then it ∷ others else others

unfoldable pub delete_items : List Item → Items → Items
delete_items [] items = items
delete_items (it ∷ rest) items =
    delete_items rest
      (delete bytes_discrete (prompt_queue_key it.session_id it.client_msg_id) items)

-- compactPromptQueueTombstones: from 256 tombstones on, a session keeps the 128 newest.
unfoldable pub compact_prompt_queue_tombstones : Items → Bytes → Items
compact_prompt_queue_tombstones items session =
    let terminal = tombstones session (values items) in
    if ltb (length terminal) compact_queue_tombstones_at
    then items
    else delete_items (drop retain_queue_tombstones (sort_descending terminal)) items

-- What persist encodes.
unfoldable pub disk_of : Items → Disk
disk_of items = record { version = pos prompt_queue_version; items = sort_ascending (values items) }

abbrev io_result : Option Bytes × Result IoError (Unit {0}) → Option Bytes × Result Error (Unit {0})
io_result (file, ok _) = (file, ok tt)
io_result (file, err e) = (file, err (write_failed e))

module _ (json : Json) (os : Syscalls) where
  -- persist: the file after the call, and its result.
  unfoldable pub persist : Option Bytes → Items → Option Bytes × Result Error (Unit {0})
  persist file items = elim (json.marshal (disk_of items)) [
    | none ↦ (file, err marshal_failed)
    | some content ↦
        if ltb max_prompt_queue_bytes (length content)
        then (file, err too_large)
        else io_result (write_file_atomic os file content)
  ]

  abbrev settle {ℓ} :
      {A : Type ℓ}
      → Queue
      → Queue
      → A
      → Option Bytes × Result Error (Unit {0})
      → Queue × Result Error A
  settle before after a (file, ok _) = (record after { file = file }, ok a)
  settle before after a (file, err e) = (record before { file = file }, err e)

  -- `if err := q.persist(next); err != nil { return err }; q.items = next`: the new state is
  -- taken over only once its items are written.
  unfoldable pub commit {ℓ} : {A : Type ℓ} → Queue → Queue → A → Queue × Result Error A
  commit before after a = settle before after a (persist before.file after.items)
