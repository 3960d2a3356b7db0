-- ===== src/PromptQueue/Counts.antt =====
-- How the changes of daemon/cmd/daemon/prompt_queue.go move the number of running and of active
-- items of a session.
use nekonest.Prelude.{
  ◌≤◌, ◌≡◌, refl, Bool, true, ◌&&◌, List, [], ◌∷◌, Option, none, Bytes, arith, bytes_discrete,
  count, values, count-delete-le, delete, lookup-delete, if◌then◌else◌, drop,
}
use nekonest.PromptQueue.Item.{
  Item, Status, in_session, is_queued, is_prompt_queue_blocked, prompt_queue_key,
  clear_prompt_queue_payload, retain_queue_tombstones,
}
use nekonest.PromptQueue.Store.{
  Items, find, is_active_in, delete_items, compact_prompt_queue_tombstones, tombstones,
  sort_descending,
}
use nekonest.PromptQueue.Queries.{
  scan_claim, candidate, older, runs_in, block_item, resume_item, rewrite_items,
}

-- Compaction drops entries only.
count-delete_items :
    (p : Item → Bool) (dead : List Item) (m : Items)
    → count p (values (delete_items dead m)) ≤ count p (values m)
unfolding delete_items
count-delete_items p [] m = omega arith
count-delete_items p (it ∷ rest) m =
    let key = prompt_queue_key it.session_id it.client_msg_id in
    omega (
      arith,
      count-delete_items p rest (delete bytes_discrete key m),
      count-delete-le bytes_discrete p key m,
    )

pub count-compact :
    (p : Item → Bool) (m : Items) (session : Bytes)
    → count p (values (compact_prompt_queue_tombstones m session)) ≤ count p (values m)
unfolding compact_prompt_queue_tombstones
count-compact p m session = ground (
  arith,
  count-delete_items p
      (drop retain_queue_tombstones (sort_descending (tombstones session (values m)))) m,
)

find-delete_items :
    (key : Bytes) (dead : List Item) (m : Items)
    → find key m ≡ none
    → find key (delete_items dead m) ≡ none
unfolding delete_items
find-delete_items key [] m h = h
find-delete_items key (it ∷ rest) m h =
    let dead = prompt_queue_key it.session_id it.client_msg_id in
    find-delete_items key rest (delete bytes_discrete dead m)
      (ground (arith, lookup-delete bytes_discrete dead key m))

pub find-compact_none :
    (key : Bytes) (m : Items) (session : Bytes)
    → find key m ≡ none
    → find key (compact_prompt_queue_tombstones m session) ≡ none
unfolding compact_prompt_queue_tombstones
find-compact_none key m session h = ground (
  arith,
  find-delete_items key
      (drop retain_queue_tombstones (sort_descending (tombstones session (values m)))) m h,
)

-- A scan that ends with a candidate has met no running item.
pub scan_claim-none_runs :
    (session : Bytes) (l : List Item) (best : Option Item) {found : Option Item}
    → scan_claim session l best ≡ candidate found
    → count (runs_in session) l ≡ 0
unfolding scan_claim
scan_claim-none_runs session [] best h = refl
scan_claim-none_runs session (it ∷ rest) best {found} h = ground (
  arith,
  scan_claim-none_runs session rest
      (if in_session session it && is_queued it.status then older best it else best)
      {found = found},
)

-- Blocking takes running items away and keeps the active ones; resuming takes active ones away.
pub count-block :
    (session s : Bytes) (to : Status) (m : Items)
    → is_prompt_queue_blocked to ≡ true
    → (count (runs_in s) (values (rewrite_items (block_item session to) m))
        ≤ count (runs_in s) (values m))
      × (count (is_active_in s) (values (rewrite_items (block_item session to) m))
          ≤ count (is_active_in s) (values m))
unfolding rewrite_items
count-block session s to [] h = (omega arith, omega arith)
count-block session s to ((k, it) ∷ m) h = ground (arith, count-block session s to m)

pub count-resume :
    (session s : Bytes) (m : Items)
    → (count (runs_in s) (values (rewrite_items (resume_item session) m))
        ≤ count (runs_in s) (values m))
      × (count (is_active_in s) (values (rewrite_items (resume_item session) m))
          ≤ count (is_active_in s) (values m))
unfolding rewrite_items clear_prompt_queue_payload
count-resume session s [] = (omega arith, omega arith)
count-resume session s ((k, it) ∷ m) = ground (arith, count-resume session s m)
