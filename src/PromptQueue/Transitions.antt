-- ===== src/PromptQueue/Transitions.antt =====
-- The operations that move an item from one status to the next
-- (daemon/cmd/daemon/prompt_queue.go). Each is one step under the queue's mutex.
use nekonest.Prelude.{
  ite, ◌==◌, bytes_discrete, Bool, true, false, not, ◌&&◌, ◌||◌, Option, none, some, Bytes,
  if◌then◌else◌, values, Result, ok, err, count,
}
use nekonest.AtomicWrite.{Syscalls}
use nekonest.PromptQueue.Item.{
  blocked_indeterminate, cancelled, is_cancelled, cannot_change, invalid_blocker, blocker_not_found,
  not_found, Status, queued, running, completed, Item, Error, Json, is_prompt_queue_blocked,
  is_queued, is_running, prompt_queue_key, clear_prompt_queue_payload,
}
use nekonest.PromptQueue.Store.{Queue, find, put, compact_prompt_queue_tombstones, commit}
use nekonest.PromptQueue.Queries.{
  Scan, stopped, candidate, scan_claim, block_item, runs_in, is_acknowledged, resume_item,
  rewrite_items,
}

unfoldable pub status_discrete : Discrete Status
unfolding bytes_discrete
status_discrete = hlevel bytes_discrete

abbrev pub is_indeterminate : Status → Bool
is_indeterminate blocked_indeterminate = true
is_indeterminate _ = false

abbrev pub replace : Queue → Bytes → Item → Queue
replace q key it = record q { items = put key it q.items }

abbrev pub replace_compacted : Queue → Bytes → Bytes → Item → Queue
replace_compacted q session key it = record q {
  items = compact_prompt_queue_tombstones (put key it q.items) session;
}

abbrev pub finished : Item → Status → Item
finished it status = clear_prompt_queue_payload (record it { status = status })

-- The guards of block and of cancel.
abbrev pub cannot_block : Status → Status → Bool
cannot_block from to =
    not (is_prompt_queue_blocked to) || not (is_queued from) && not (is_running from)

abbrev pub cannot_cancel : Status → Bool
cannot_cancel from = not (is_queued from) && not (is_prompt_queue_blocked from)

module _ (json : Json) (os : Syscalls) where
  abbrev pub claim_found : Queue → Scan → Queue × Result Error (Option Item)
  claim_found q stopped = (q, ok none)
  claim_found q (candidate none) = (q, ok none)
  claim_found q (candidate (some it)) =
      let claimed = record it { status = running } in
      commit json os q (replace q (prompt_queue_key it.session_id it.client_msg_id) claimed)
        (some claimed)

  unfoldable pub claim_next : Queue → Bytes → Queue × Result Error (Option Item)
  claim_next q session = claim_found q (scan_claim session (values q.items) none)

  abbrev pub transition_found :
      Queue → Bytes → Status → Status → Option Item → Queue × Result Error (Unit {0})
  transition_found q key from to none = (q, err not_found)
  transition_found q key from to (some current) =
      ite (status_discrete current.status to) (q, ok tt)
        (ite (status_discrete current.status from)
          (commit json os q (replace q key (record current { status = to })) tt)
          (q, err cannot_change))

  unfoldable pub transition :
      Queue → Bytes → Bytes → Status → Status → Queue × Result Error (Unit {0})
  transition q session client from to =
      let key = prompt_queue_key session client in transition_found q key from to (find key q.items)

  unfoldable pub mark_running : Queue → Bytes → Bytes → Queue × Result Error (Unit {0})
  unfolding transition
  mark_running q session client = transition q session client queued running

  unfoldable pub release_claim : Queue → Bytes → Bytes → Queue × Result Error (Unit {0})
  unfolding transition
  release_claim q session client = transition q session client running queued

  abbrev pub complete_found : Queue → Bytes → Bytes → Option Item → Queue × Result Error (Unit {0})
  complete_found q session key none = (q, err not_found)
  complete_found q session key (some current) =
      if not (is_running current.status)
      then (q, err cannot_change)
      else commit json os q (replace_compacted q session key (finished current completed)) tt

  unfoldable pub complete : Queue → Bytes → Bytes → Queue × Result Error (Unit {0})
  complete q session client =
      let key = prompt_queue_key session client in complete_found q session key (find key q.items)

  abbrev pub block_found : Queue → Bytes → Status → Option Item → Queue × Result Error (Unit {0})
  block_found q key status none = (q, err not_found)
  block_found q key status (some current) =
      if cannot_block current.status status
      then (q, err cannot_change)
      else commit json os q (replace q key (record current { status = status })) tt

  unfoldable pub block : Queue → Bytes → Bytes → Status → Queue × Result Error (Unit {0})
  block q session client status =
      let key = prompt_queue_key session client in block_found q key status (find key q.items)

  abbrev pub cancel_found : Queue → Bytes → Bytes → Option Item → Queue × Result Error (Unit {0})
  cancel_found q session key none = (q, err not_found)
  cancel_found q session key (some current) =
      if is_cancelled current.status
      then (q, ok tt)
      else if cannot_cancel current.status
      then (q, err cannot_change)
      else commit json os q (replace_compacted q session key (finished current cancelled)) tt

  unfoldable pub cancel : Queue → Bytes → Bytes → Queue × Result Error (Unit {0})
  cancel q session client =
      let key = prompt_queue_key session client in cancel_found q session key (find key q.items)

  abbrev pub skip_found : Queue → Bytes → Bytes → Option Item → Queue × Result Error (Unit {0})
  skip_found q session key none = (q, err blocker_not_found)
  skip_found q session key (some current) =
      if not (is_indeterminate current.status)
      then (q, err blocker_not_found)
      else commit json os q (replace_compacted q session key (finished current completed)) tt

  unfoldable pub skip_indeterminate : Queue → Bytes → Bytes → Queue × Result Error (Unit {0})
  skip_indeterminate q session client =
      let key = prompt_queue_key session client in skip_found q session key (find key q.items)

  unfoldable pub block_session : Queue → Bytes → Status → Queue × Result Error (Unit {0})
  block_session q session status =
      if not (is_prompt_queue_blocked status)
      then (q, err invalid_blocker)
      else if count (runs_in session) (values q.items) == 0
      then (q, ok tt)
      else commit json os q (record q { items = rewrite_items (block_item session status) q.items })
          tt

  unfoldable pub resume_session : Queue → Bytes → Queue × Result Error (Unit {0})
  resume_session q session =
      if count (is_acknowledged session) (values q.items) == 0
      then (q, ok tt)
      else commit json os q (record q { items = rewrite_items (resume_item session) q.items }) tt
