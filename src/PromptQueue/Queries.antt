-- ===== src/PromptQueue/Queries.antt =====
-- The queue's queries and the loops over its map (daemon/cmd/daemon/prompt_queue.go).
use nekonest.Prelude.{
  ℕ, suc, Bool, true, false, ◌&&◌, ◌||◌, List, [], ◌∷◌, Option, none, some, Bytes, ltb,
  if◌then◌else◌, is_empty, values, count,
}
use nekonest.PromptQueue.Item.{
  Status, completed, blocked_failed, blocked_interrupted, Item, is_prompt_queue_blocked, is_queued,
  is_running, in_session, prompt_queue_key, clear_prompt_queue_payload,
}
use nekonest.PromptQueue.Store.{Items, Queue, find, is_active_in, sort_ascending}

-- What claimNext has found when its loop ends.
pub data Scan : Type 0 where
  stopped : Scan
  candidate : Option Item → Scan

-- `!found || item.Order < candidate.Order`.
abbrev pub older : Option Item → Item → Option Item
older none it = some it
older (some best) it = if ltb it.order best.order then some it else some best

-- The loop of claimNext.
unfoldable pub scan_claim : Bytes → List Item → Option Item → Scan
scan_claim session [] best = candidate best
scan_claim session (it ∷ rest) best =
    let later =
      scan_claim session rest
        (if in_session session it && is_queued it.status then older best it else best) in
    if in_session session it && (is_running it.status || is_prompt_queue_blocked it.status)
    then stopped
    else later

-- The loop of next.
unfoldable pub scan_next : Bytes → List Item → Option Item → Option Item
scan_next session [] best = best
scan_next session (it ∷ rest) best =
    scan_next session rest
      (if in_session session it && is_queued it.status then older best it else best)

unfoldable pub next : Queue → Bytes → Option Item
next q session = scan_next session (values q.items) none

unfoldable pub item : Queue → Bytes → Bytes → Option Item
item q session client = find (prompt_queue_key session client) q.items

unfoldable pub first_match : (Item → Bool) → List Item → Option Item
first_match p [] = none
first_match p (it ∷ rest) = if p it then some it else first_match p rest

abbrev pub runs_in : Bytes → Item → Bool
runs_in session it = in_session session it && is_running it.status

unfoldable pub has_active : Queue → Bytes → Bool
unfolding first_match
has_active q session = elim (first_match (is_active_in session) (values q.items)) [
  | none ↦ false
  | some _ ↦ true
]

unfoldable pub running_item : Queue → Bytes → Option Item
running_item q session = first_match (runs_in session) (values q.items)

select : (Item → Bool) → List Item → List Item
select p [] = []
select p (it ∷ rest) = let others = select p rest in if p it then it ∷ others else others

unfoldable pub list : Queue → Bytes → List Item
unfolding select
list q session =
    sort_ascending (select (λ it. is_empty session || in_session session it) (values q.items))

abbrev pub waits_before : Bytes → ℕ → Item → Bool
waits_before session order it = in_session session it && is_queued it.status && ltb it.order order

unfoldable pub position : Queue → Bytes → Bytes → ℕ
position q session client = elim (find (prompt_queue_key session client) q.items) [
  | none ↦ 0
  | some it ↦
      if is_queued it.status
      then suc (count (waits_before session it.order) (values q.items))
      else 0
]

-- The bodies of the loops of blockSession and resumeSession, one entry after another.
abbrev pub block_item : Bytes → Status → Item → Item
block_item session status it = if runs_in session it then record it { status = status } else it

abbrev pub is_acknowledgeable : Status → Bool
is_acknowledgeable blocked_failed = true
is_acknowledgeable blocked_interrupted = true
is_acknowledgeable _ = false

abbrev pub is_acknowledged : Bytes → Item → Bool
is_acknowledged session it = in_session session it && is_acknowledgeable it.status

abbrev pub resume_item : Bytes → Item → Item
resume_item session it =
    if is_acknowledged session it
    then clear_prompt_queue_payload (record it { status = completed })
    else it

unfoldable pub rewrite_items : (Item → Item) → Items → Items
rewrite_items f [] = []
rewrite_items f ((k, it) ∷ rest) = (k, f it) ∷ rewrite_items f rest
