-- ===== src/PromptQueue/Edges.antt =====
-- Every command makes one of the changes of `Change`: the operations of
-- daemon/cmd/daemon/prompt_queue.go, one lemma for each.
use nekonest.Prelude.{
  Bool, ok, ◌≢◌, ◌+◌, ite-keeps, ◌==◌, ℤ, ◌≡◌, refl, inl, inr, true, false, Option, none, some,
  Bytes, values, arith, Bool-cases, Result, Result-cases, Option-cases, leb, ◌<◌, count,
}
use nekonest.AtomicWrite.{Syscalls}
use nekonest.PromptQueue.Item.{
  Item, Status, Json, Error, queued, running, completed, cancelled, prompt_queue_key,
  is_prompt_queue_blocked, is_prompt_queue_terminal, is_running, is_cancelled,
  max_prompt_queue_per_session, validate_prompt_queue_item,
}
use nekonest.PromptQueue.Store.{commit, Queue, find, active_count}
use nekonest.PromptQueue.Queries.{Scan, stopped, scan_claim, candidate, runs_in, is_acknowledged}
use nekonest.PromptQueue.Enqueue.{u64, enqueue, enqueue_locked, add_new, with_new, stamp, check_new}
use nekonest.PromptQueue.Transitions.{
  cannot_block, cannot_cancel, claim_next, claim_found, release_claim, transition, transition_found,
  complete, complete_found, block, block_found, cancel, cancel_found, skip_indeterminate,
  skip_found, is_indeterminate, block_session, resume_session, status_discrete,
}
use nekonest.PromptQueue.Steps.{
  is_err, outcome, Edge, Command, enqueues, claims, resumes, releases, completes, cancels, skips,
  blocks, blocks_session, step, Change, same, added, claimed, moved, closed, blocked, resumed,
  commit-keeps,
}

-- What is running, queued, blocked or indeterminate is not finished.
running-active : (s : Status) → is_running s ≡ true → is_prompt_queue_terminal s ≡ false
running-active s h = ground arith

indeterminate-active : (s : Status) → is_indeterminate s ≡ true → is_prompt_queue_terminal s ≡ false
indeterminate-active s h = ground arith

blocked-active :
    (s : Status)
    → is_prompt_queue_blocked s ≡ true
    → (is_prompt_queue_terminal s ≡ false) × (is_running s ≡ false)
blocked-active s h = ground arith

pub order_of_valid :
    (json : Json) (it : Item) {u : Unit {0}}
    → validate_prompt_queue_item json it ≡ ok u
    → it.order ≢ 0
unfolding validate_prompt_queue_item
order_of_valid json it h = ground arith

-- What holds of the queue, and of every commit from it along an edge, holds after each operation.
module _ {ℓ} (json : Json) (os : Syscalls) (q : Queue) (P : Queue → Bool → Type ℓ)
    (unchanged : (b : Bool) → P q b)
    (committed : (A : Type 0) (a : A) (after : Queue)
      → Edge q after
      → P (commit json os q after a).0 (is_err (commit json os q after a).1)) where
  abbrev After : {A : Type 0} → Queue × Result Error A → Type ℓ
  After r = P r.0 (is_err r.1)

  add_new-cases :
      (it : Item)
      → find (prompt_queue_key it.session_id it.client_msg_id) q.items ≡ none
      → active_count q.items it.session_id < max_prompt_queue_per_session
      → it.status ≡ queued
      → it.order ≡ u64 (q.next_id + 1)
      → After (add_new json os q it)
  add_new-cases it missing room waits number =
      elim (Result-cases (validate_prompt_queue_item json it)) [
        | inl (u, e) ↦
            rw (e, add_new)
              (committed _ _ (with_new q it)
                (added it missing room waits number (order_of_valid json it e)))
        | inr (x, e) ↦ rw (e, add_new) (unchanged _)
      ]

  enqueue_locked-cases : (now : ℤ) (it : Item) → After (enqueue_locked json os q now it)
  enqueue_locked-cases now it =
      elim (Option-cases (find (prompt_queue_key it.session_id it.client_msg_id) q.items)) [
        | inr (current, e) ↦ rw (e, enqueue_locked) (unchanged _)
        | inl e ↦
            rw (e, enqueue_locked)
              (elim (Bool-cases
                (leb max_prompt_queue_per_session (active_count q.items it.session_id))) [
                  | inl full ↦ rw full (unchanged _)
                  | inr room ↦ rw room (add_new-cases (stamp q now it) e (ground arith) refl refl)
                ])
      ]

  enqueue-cases : (now : ℤ) (it : Item) → After (enqueue json os q now it)
  unfolding enqueue
  enqueue-cases now it = elim (Result-cases (check_new json it)) [
    | inl (u, e) ↦ rw (e, enqueue) (enqueue_locked-cases now it)
    | inr (x, e) ↦ rw (e, enqueue) (unchanged _)
  ]

  claim_found-cases :
      (session : Bytes) (found : Scan)
      → scan_claim session (values q.items) none ≡ found
      → After (claim_found json os q found)
  claim_found-cases session stopped e = (unchanged _)
  claim_found-cases session (candidate none) e = (unchanged _)
  claim_found-cases session (candidate (some it)) e = committed _ _ _ (claimed session it e)

  transition_found-cases :
      (key : Bytes) (o : Option Item)
      → find key q.items ≡ o
      → After (transition_found json os q key running queued o)
  transition_found-cases key none e = (unchanged _)
  transition_found-cases key (some it) e =
      ite-keeps (status_discrete it.status queued) (λ r. After r) (λ _. (unchanged _))
        (λ _.
          ite-keeps (status_discrete it.status running) (λ r. After r)
            (λ r. committed _ _ _ (moved key it queued e (running-active _ (rw r)) refl refl))
            (λ _. (unchanged _)))

  complete_found-cases :
      (session key : Bytes) (o : Option Item)
      → find key q.items ≡ o
      → After (complete_found json os q session key o)
  complete_found-cases session key none e = (unchanged _)
  complete_found-cases session key (some it) e = elim (Bool-cases (is_running it.status)) [
    | inl r ↦ rw r (committed _ _ _ (closed session key it completed e (running-active _ r) refl))
    | inr r ↦ rw r (unchanged _)
  ]

  block_found-cases :
      (key : Bytes) (to : Status) (o : Option Item)
      → find key q.items ≡ o
      → After (block_found json os q key to o)
  block_found-cases key to none e = (unchanged _)
  block_found-cases key to (some it) e = elim (Bool-cases (cannot_block it.status to)) [
    | inl r ↦ rw r (unchanged _)
    | inr r ↦
        rw r (committed _ _ _ (moved key it to e (ground arith) (ground arith) (ground arith)))
  ]

  cancel_found-cases :
      (session key : Bytes) (o : Option Item)
      → find key q.items ≡ o
      → After (cancel_found json os q session key o)
  cancel_found-cases session key none e = (unchanged _)
  cancel_found-cases session key (some it) e = elim (Bool-cases (is_cancelled it.status)) [
    | inl r ↦ rw r (unchanged _)
    | inr r ↦ rw r (elim (Bool-cases (cannot_cancel it.status)) [
      | inl x ↦ rw x (unchanged _)
      | inr x ↦ rw x (committed _ _ _ (closed session key it cancelled e (ground arith) refl))
    ])
  ]

  skip_found-cases :
      (session key : Bytes) (o : Option Item)
      → find key q.items ≡ o
      → After (skip_found json os q session key o)
  skip_found-cases session key none e = (unchanged _)
  skip_found-cases session key (some it) e = elim (Bool-cases (is_indeterminate it.status)) [
    | inl r ↦
        rw r (committed _ _ _ (closed session key it completed e (indeterminate-active _ r) refl))
    | inr r ↦ rw r (unchanged _)
  ]

  block_session-cases : (session : Bytes) (to : Status) → After (block_session json os q session to)
  unfolding block_session
  block_session-cases session to = elim (Bool-cases (is_prompt_queue_blocked to)) [
    | inr r ↦ rw (r, block_session) (unchanged _)
    | inl r ↦
        rw (r, block_session)
          (elim (Bool-cases (count (runs_in session) (values q.items) == 0)) [
            | inl none_runs ↦ rw none_runs (unchanged _)
            | inr some_run ↦ rw some_run (committed _ _ _ (blocked session to r))
          ])
  ]

  resume_session-cases : (session : Bytes) → After (resume_session json os q session)
  unfolding resume_session
  resume_session-cases session =
      elim (Bool-cases (count (is_acknowledged session) (values q.items) == 0)) [
        | inl no_block ↦ rw no_block (unchanged _)
        | inr some_block ↦ rw some_block (committed _ _ _ (resumed session))
      ]

  -- Whatever the command.
  pub step_cases : (c : Command) → P (outcome json q (os, c)).0 (outcome json q (os, c)).1
  unfolding outcome claim_next release_claim transition complete block cancel skip_indeterminate
  step_cases (enqueues now it) = enqueue-cases now it
  step_cases (claims session) = claim_found-cases session _ refl
  step_cases (resumes session) = resume_session-cases session
  step_cases (releases session client) =
      transition_found-cases (prompt_queue_key session client) _ refl
  step_cases (completes session client) =
      complete_found-cases session (prompt_queue_key session client) _ refl
  step_cases (cancels session client) =
      cancel_found-cases session (prompt_queue_key session client) _ refl
  step_cases (skips session client) =
      skip_found-cases session (prompt_queue_key session client) _ refl
  step_cases (blocks session client status) =
      block_found-cases (prompt_queue_key session client) status _ refl
  step_cases (blocks_session session status) = block_session-cases session status

-- Whatever the command and the writes that fail, one step makes one of the changes.
pub step-Change : (json : Json) (q : Queue) (c : Syscalls × Command) → Edge q (step json q c)
unfolding step
step-Change json q (os, c) =
    step_cases json os q (λ r _. Edge q r) (λ _. same)
      (λ A a after e. commit-keeps json os (Change q.items q.next_id) q after a same e) c
