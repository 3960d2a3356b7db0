-- ===== src/PromptQueue/Numbering.antt =====
-- Every command keeps the orders of daemon/cmd/daemon/prompt_queue.go distinct and below the last
-- one that was given out; so what enqueue adds comes after all that waits.
use nekonest.Prelude.{
  ℕ, ◌+◌, ◌≤◌, ◌<◌, ◌≡◌, ◌≢◌, refl, List, [], ◌∷◌, none, some, Bytes, values, arith, drop, length,
  ltb, Bool-cases, inl, inr,
}
use nekonest.AtomicWrite.{Syscalls}
use nekonest.PromptQueue.Item.{
  Item, Status, Json, clear_prompt_queue_payload, compact_queue_tombstones_at,
  retain_queue_tombstones,
}
use nekonest.PromptQueue.Store.{
  delete_items, Items, Queue, find, put, compact_prompt_queue_tombstones, tombstones,
  sort_descending,
}
use nekonest.PromptQueue.Enqueue.{u64}
use nekonest.PromptQueue.Queries.{rewrite_items, block_item, resume_item}
use nekonest.PromptQueue.Steps.{
  Change, same, added, claimed, moved, closed, blocked, resumed, Command, step, run,
}
use nekonest.PromptQueue.Edges.{step-Change}
use nekonest.PromptQueue.Keyed.{IsKeyed, key_of, find-listed, Change-IsKeyed}
use nekonest.PromptQueue.Counts.{find-compact_none}
use nekonest.PromptQueue.Fifo.{scan_claim-Oldest}
use nekonest.PromptQueue.Orders.{
  EveryOrder, Unused, Distinct, Ordered, EveryOrder-put, EveryOrder-find, EveryOrder-delete_items,
  EveryOrder-rewrite, Distinct-overwrite, Distinct-add, Distinct-delete_items, Distinct-rewrite,
}

pub compact_cases {ℓ} :
    (P : Items → Type ℓ) (m : Items) (session : Bytes)
    → P m
    → ((dead : List Item) → P (delete_items dead m))
    → P (compact_prompt_queue_tombstones m session)
unfolding compact_prompt_queue_tombstones
compact_cases P m session whole less =
    let dead = tombstones session (values m) in
    elim (Bool-cases (ltb (length dead) compact_queue_tombstones_at)) [
      | inl few ↦ rw few whole
      | inr many ↦ rw many (less (drop retain_queue_tombstones (sort_descending dead)))
    ]

compact-EveryOrder :
    (Q : ℕ → Type 0) (m : Items) (session : Bytes)
    → EveryOrder Q m
    → EveryOrder Q (compact_prompt_queue_tombstones m session)
compact-EveryOrder Q m session e =
    compact_cases (EveryOrder Q) m session e (λ dead. EveryOrder-delete_items Q dead m e)

compact-Distinct :
    (m : Items) (session : Bytes)
    → Distinct m
    → Distinct (compact_prompt_queue_tombstones m session)
compact-Distinct m session d =
    compact_cases Distinct m session d (λ dead. Distinct-delete_items dead m d)

-- Overwriting an item by one of the same order keeps the numbering.
overwrite-Ordered :
    (key : Bytes) (old it : Item) (m : Items) (n : ℕ)
    → find key m ≡ some old
    → it.order ≡ old.order
    → Ordered m n
    → Ordered (put key it m) n
overwrite-Ordered key old it m n found eq v = record {
  up_to =
      EveryOrder-put (λ o. o ≤ n) key it m
        (rw eq (EveryOrder-find (λ o. o ≤ n) key m found v.up_to)) v.up_to;
  distinct = Distinct-overwrite key old it m found eq v.distinct;
  fits = v.fits;
}

compact-Ordered :
    (m : Items) (n : ℕ) (session : Bytes)
    → Ordered m n
    → Ordered (compact_prompt_queue_tombstones m session) n
compact-Ordered m n session v = record {
  up_to = compact-EveryOrder (λ o. o ≤ n) m session v.up_to;
  distinct = compact-Distinct m session v.distinct;
  fits = v.fits;
}

rewrite-Ordered :
    (f : Item → Item) (m : Items) (n : ℕ)
    → ((it : Item) → (f it).order ≡ it.order)
    → Ordered m n
    → Ordered (rewrite_items f m) n
rewrite-Ordered f m n keeps v = record {
  up_to = EveryOrder-rewrite (λ o. o ≤ n) f keeps m v.up_to;
  distinct = Distinct-rewrite f keeps m v.distinct;
  fits = v.fits;
}

raise :
    (m : Items) (n o : ℕ)
    → n < o
    → EveryOrder (λ x. x ≤ n) m
    → EveryOrder (λ x. x ≤ o) m × Unused o m
raise [] n o h e = (tt, tt)
raise ((k, it) ∷ m) n o h e =
    let (up, fresh) = raise m n o h e.1 in ((omega arith, up), (omega arith, fresh))

add-Ordered :
    (it : Item) (m : Items) (n : ℕ)
    → find (key_of it) m ≡ none
    → it.order ≡ u64 (n + 1)
    → it.order ≢ 0
    → Ordered m n
    → Ordered (put (key_of it) it (compact_prompt_queue_tombstones m it.session_id)) it.order
add-Ordered it m n missing number valid v =
    let kept = compact-Ordered m n it.session_id v in
    let m' = compact_prompt_queue_tombstones m it.session_id in
    let above : n < it.order = omega (arith, v.fits) in
    let (up, fresh) = raise m' n it.order above kept.up_to in
    record {
      up_to = EveryOrder-put (λ o. o ≤ it.order) (key_of it) it m' (omega arith) up;
      distinct =
          Distinct-add (key_of it) it m' (find-compact_none (key_of it) m it.session_id missing)
            fresh kept.distinct;
      fits = omega (arith, v.fits);
    }

block_item-order :
    (session : Bytes) (to : Status) (it : Item) → (block_item session to it).order ≡ it.order
block_item-order session to it = ground arith

resume_item-order : (session : Bytes) (it : Item) → (resume_item session it).order ≡ it.order
unfolding clear_prompt_queue_payload
resume_item-order session it = ground arith

Change-Ordered :
    {m m' : Items} {n n' : ℕ} → Change m n m' n' → IsKeyed m → Ordered m n → Ordered m' n'
unfolding clear_prompt_queue_payload
Change-Ordered same k v = v
Change-Ordered {m} {n = n} (added it missing room waits number valid) k v =
    add-Ordered it m n missing number valid v
Change-Ordered {m} {n = n} (claimed session it h) k v =
    overwrite-Ordered (key_of it) it _ m n
      (find-listed it m k (scan_claim-Oldest session (values m) it h).0.listed) refl v
Change-Ordered {m} {n = n} (moved key it to found live still stopped) k v =
    overwrite-Ordered key it _ m n found refl v
Change-Ordered {m} {n = n} (closed session key it to found live dead) k v =
    compact-Ordered _ n session (overwrite-Ordered key it _ m n found refl v)
Change-Ordered {m} {n = n} (blocked session to h) k v =
    rewrite-Ordered (block_item session to) m n (block_item-order session to) v
Change-Ordered {m} {n = n} (resumed session) k v =
    rewrite-Ordered (resume_item session) m n (resume_item-order session) v

-- Through any sequence of commands, with any failing writes, a keyed map stays keyed, the orders of
-- its items stay distinct and at most the last order given out, and that stays a uint64.
pub run-Ordered :
    (json : Json) (q : Queue) (cs : List (Syscalls × Command))
    → IsKeyed q.items
    → Ordered q.items q.next_id
    → IsKeyed (run json q cs).items × Ordered (run json q cs).items (run json q cs).next_id
unfolding run
run-Ordered json q [] k v = (k, v)
run-Ordered json q (c ∷ cs) k v =
    run-Ordered json (step json q c) cs (Change-IsKeyed (step-Change json q c) k)
      (Change-Ordered (step-Change json q c) k v)
