-- ===== src/PromptQueue/Enqueue.antt =====
-- enqueue of daemon/cmd/daemon/prompt_queue.go. Under the queue's mutex it is one step, which
-- returns the new queue and its result.
use nekonest.Prelude.{
  ℕ, ℤ, ◌+◌, ◌%◌, ◌^◌, Bool, true, false, not, none, some, leb, if◌then◌else◌, Result, ok, err,
  ◌>>◌, fail_if,
}
use nekonest.AtomicWrite.{Syscalls}
use nekonest.PromptQueue.Item.{
  queued, Item, Error, Json, queue_full, payload_required, max_prompt_queue_per_session,
  prompt_queue_key, has_payload, validate_ids, validate_payload, validate_prompt_queue_item,
}
use nekonest.PromptQueue.Store.{
  Queue, find, put, active_count, compact_prompt_queue_tombstones, commit,
}

abbrev pub u64 : ℕ → ℕ
u64 n = n % 2 ^ 64

-- The item that enqueue adds: the next order (a uint64 sum), the time, queued.
abbrev pub stamp : Queue → ℤ → Item → Item
stamp q now it = record it { order = u64 (q.next_id + 1); created_at = now; status = queued }

abbrev pub with_new : Queue → Item → Queue
with_new q it = record q {
  items =
      put (prompt_queue_key it.session_id it.client_msg_id) it
        (compact_prompt_queue_tombstones q.items it.session_id);
  next_id = it.order;
}

module _ (json : Json) where
  unfoldable pub check_new : Item → Result Error (Unit {0})
  check_new it = do
    validate_ids it
    validate_payload json it
    fail_if (not (has_payload it)) payload_required

module _ (json : Json) (os : Syscalls) where
  abbrev pub add_new : Queue → Item → Queue × Result Error (Item × Bool)
  add_new q it = elim (validate_prompt_queue_item json it) [
    | err e ↦ (q, err e)
    | ok _ ↦ commit json os q (with_new q it) (it, true)
  ]

  abbrev pub enqueue_locked : Queue → ℤ → Item → Queue × Result Error (Item × Bool)
  enqueue_locked q now it = elim (find (prompt_queue_key it.session_id it.client_msg_id) q.items) [
    | some current ↦ (q, ok (current, false))
    | none ↦
        if leb max_prompt_queue_per_session (active_count q.items it.session_id)
        then (q, err queue_full)
        else add_new q (stamp q now it)
  ]

  unfoldable pub enqueue : Queue → ℤ → Item → Queue × Result Error (Item × Bool)
  enqueue q now it = elim (check_new json it) [
    | err e ↦ (q, err e)
    | ok _ ↦ enqueue_locked q now it
  ]
