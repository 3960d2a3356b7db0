-- ===== src/PromptQueue/Steps.antt =====
-- The life of a queue as a sequence of commands, and the changes that a command can make to the
-- map of items (daemon/cmd/daemon/prompt_queue.go). markRunning is left out: no other code of the
-- daemon calls it.
use nekonest.Prelude.{
  err, ok, Bool, Result, ℕ, ◌≢◌, ◌+◌, Result-cases, inl, inr, ℤ, ◌≡◌, ◌<◌, true, false, List, [],
  ◌∷◌, none, some, Bytes, values,
}
use nekonest.AtomicWrite.{Syscalls}
use nekonest.PromptQueue.Item.{
  Error, Item, Status, Json, queued, running, prompt_queue_key, is_prompt_queue_blocked,
  is_prompt_queue_terminal, is_running, max_prompt_queue_per_session,
}
use nekonest.PromptQueue.Store.{
  persist, Items, Queue, find, put, commit, compact_prompt_queue_tombstones, active_count,
}
use nekonest.PromptQueue.Queries.{scan_claim, candidate, block_item, resume_item, rewrite_items}
use nekonest.PromptQueue.Enqueue.{u64, enqueue}
use nekonest.PromptQueue.Transitions.{
  claim_next, release_claim, complete, block, cancel, skip_indeterminate, block_session,
  resume_session, finished,
}

pub data Command : Type 0 where
  enqueues : ℤ → Item → Command
  claims resumes : Bytes → Command
  releases completes cancels skips : Bytes → Bytes → Command
  blocks : Bytes → Bytes → Status → Command
  blocks_session : Bytes → Status → Command

abbrev pub is_err {ℓ κ} : {E : Type ℓ} {A : Type κ} → Result E A → Bool
is_err (ok _) = false
is_err (err _) = true

abbrev pub verdict {ℓ} : {A : Type ℓ} → Queue × Result Error A → Queue × Bool
verdict r = (r.0, is_err r.1)

-- The queue after a command, and whether the operation returned an error.
unfoldable pub outcome : Json → Queue → Syscalls × Command → Queue × Bool
outcome json q (os, enqueues now it) = verdict (enqueue json os q now it)
outcome json q (os, claims session) = verdict (claim_next json os q session)
outcome json q (os, resumes session) = verdict (resume_session json os q session)
outcome json q (os, releases session client) = verdict (release_claim json os q session client)
outcome json q (os, completes session client) = verdict (complete json os q session client)
outcome json q (os, cancels session client) = verdict (cancel json os q session client)
outcome json q (os, skips session client) = verdict (skip_indeterminate json os q session client)
outcome json q (os, blocks session client status) = verdict (block json os q session client status)
outcome json q (os, blocks_session session status) =
    verdict (block_session json os q session status)

unfoldable pub step : Json → Queue → Syscalls × Command → Queue
unfolding outcome
step json q c = (outcome json q c).0

unfoldable pub run : Json → Queue → List (Syscalls × Command) → Queue
run json q [] = q
run json q (c ∷ cs) = run json (step json q c) cs

-- What one command may do to the items and to the last order that was given out.
pub data Change (m : Items) (n : ℕ) : Items → ℕ → Type 0 where
  same : Change m n m n
  added :
      (it : Item)
      → find (prompt_queue_key it.session_id it.client_msg_id) m ≡ none
      → active_count m it.session_id < max_prompt_queue_per_session
      → it.status ≡ queued
      → it.order ≡ u64 (n + 1)
      → it.order ≢ 0
      → Change m n
          (put
            (prompt_queue_key it.session_id it.client_msg_id)
            it
            (compact_prompt_queue_tombstones m it.session_id))
          it.order
  claimed :
      (session : Bytes) (it : Item)
      → scan_claim session (values m) none ≡ candidate (some it)
      → Change m n
          (put (prompt_queue_key it.session_id it.client_msg_id) (record it { status = running }) m)
          n
  moved :
      (key : Bytes) (it : Item) (to : Status)
      → find key m ≡ some it
      → is_prompt_queue_terminal it.status ≡ false
      → is_prompt_queue_terminal to ≡ false
      → is_running to ≡ false
      → Change m n (put key (record it { status = to }) m) n
  closed :
      (session key : Bytes) (it : Item) (to : Status)
      → find key m ≡ some it
      → is_prompt_queue_terminal it.status ≡ false
      → is_prompt_queue_terminal to ≡ true
      → Change m n (compact_prompt_queue_tombstones (put key (finished it to) m) session) n
  blocked :
      (session : Bytes) (to : Status)
      → is_prompt_queue_blocked to ≡ true
      → Change m n (rewrite_items (block_item session to) m) n
  resumed : (session : Bytes) → Change m n (rewrite_items (resume_item session) m) n

-- From one queue to the next.
abbrev pub Edge : Queue → Queue → Type 0
Edge q r = Change q.items q.next_id r.items r.next_id

module _ (json : Json) (os : Syscalls) where
  -- After a commit the items and the last order are the new ones, or the old ones.
  pub commit-keeps {ℓ} :
      {A : Type 0} (P : Items → ℕ → Type ℓ) (before after : Queue) (a : A)
      → P before.items before.next_id
      → P after.items after.next_id
      → P (commit json os before after a).0.items (commit json os before after a).0.next_id
  unfolding commit
  commit-keeps P before after a p q =
      elim (Result-cases (persist json os before.file after.items).1) [
        | inl (u, e) ↦ rw (e, commit) q
        | inr (x, e) ↦ rw (e, commit) p
      ]
