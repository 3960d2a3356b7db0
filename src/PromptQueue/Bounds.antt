-- ===== src/PromptQueue/Bounds.antt =====
-- The limits that the queue of daemon/cmd/daemon/prompt_queue.go keeps: one running item and
-- twenty active items for each session.
use nekonest.Prelude.{
  ℕ, true, false, ◌≤◌, ◌<◌, ◌≡◌, List, [], ◌∷◌, none, some, Bytes, arith, count, values,
  bytes_discrete, count-insert,
}
use nekonest.AtomicWrite.{Syscalls}
use nekonest.PromptQueue.Item.{
  is_queued, queued, Item, Status, Json, running, is_running, is_prompt_queue_terminal,
  prompt_queue_key, max_prompt_queue_per_session, clear_prompt_queue_payload,
}
use nekonest.PromptQueue.Store.{
  Items, Queue, find, put, is_active_in, active_count, compact_prompt_queue_tombstones,
}
use nekonest.PromptQueue.Queries.{scan_claim, candidate, runs_in}
use nekonest.PromptQueue.Transitions.{finished}
use nekonest.PromptQueue.Steps.{
  Command, Change, same, added, claimed, moved, closed, blocked, resumed, step, run,
}
use nekonest.PromptQueue.Keyed.{IsKeyed, find-listed, key_of, Change-IsKeyed}
use nekonest.PromptQueue.Edges.{step-Change}
use nekonest.PromptQueue.Fifo.{scan_claim-Oldest}
use nekonest.PromptQueue.Counts.{
  count-compact, find-compact_none, scan_claim-none_runs, count-block, count-resume,
}

-- The two limits, for one session.
pub record WithinLimits (session : Bytes) (m : Items) : Type 0 where
  pub one_running : count (runs_in session) (values m) ≤ 1
  pub few_active : active_count m session ≤ max_prompt_queue_per_session

pub queued-active : (s : Status) → is_queued s ≡ true → is_prompt_queue_terminal s ≡ false
queued-active s h = ground arith

module _ (s : Bytes) (m : Items) (w : WithinLimits s m) where
  added-WithinLimits :
      (it : Item)
      → find (prompt_queue_key it.session_id it.client_msg_id) m ≡ none
      → active_count m it.session_id < max_prompt_queue_per_session
      → it.status ≡ queued
      → WithinLimits s (
          put
            (prompt_queue_key it.session_id it.client_msg_id)
            it
            (compact_prompt_queue_tombstones m it.session_id))
  unfolding active_count
  added-WithinLimits it missing room waits =
      let key = prompt_queue_key it.session_id it.client_msg_id in
      let kept = compact_prompt_queue_tombstones m it.session_id in
      let gone = find-compact_none key m it.session_id missing in
      ground (
        arith,
        gone,
        count-insert bytes_discrete (runs_in s) key it kept,
        count-insert bytes_discrete (is_active_in s) key it kept,
        count-compact (runs_in s) m it.session_id,
        count-compact (is_active_in s) m it.session_id,
      )

  claimed-WithinLimits :
      (session : Bytes) (it : Item)
      → IsKeyed m
      → scan_claim session (values m) none ≡ candidate (some it)
      → WithinLimits s
          (put (prompt_queue_key it.session_id it.client_msg_id) (record it { status = running }) m)
  unfolding active_count
  claimed-WithinLimits session it k h =
      let new = record it { status = running } in
      let (oldest, clear) = scan_claim-Oldest session (values m) it h in
      ground (
        arith,
        oldest.of_session,
        queued-active it.status oldest.waits,
        find-listed it m k oldest.listed,
        scan_claim-none_runs session (values m) none h,
        count-insert bytes_discrete (runs_in s) (key_of it) new m,
        count-insert bytes_discrete (is_active_in s) (key_of it) new m,
      )

  moved-WithinLimits :
      (key : Bytes) (it : Item) (to : Status)
      → find key m ≡ some it
      → is_prompt_queue_terminal it.status ≡ false
      → is_prompt_queue_terminal to ≡ false
      → is_running to ≡ false
      → WithinLimits s (put key (record it { status = to }) m)
  unfolding active_count
  moved-WithinLimits key it to found live still stopped =
      let new = record it { status = to } in
      ground (
        arith,
        count-insert bytes_discrete (runs_in s) key new m,
        count-insert bytes_discrete (is_active_in s) key new m,
      )

  closed-WithinLimits :
      (session key : Bytes) (it : Item) (to : Status)
      → find key m ≡ some it
      → is_prompt_queue_terminal to ≡ true
      → WithinLimits s (compact_prompt_queue_tombstones (put key (finished it to) m) session)
  unfolding active_count clear_prompt_queue_payload
  closed-WithinLimits session key it to found dead =
      let new = finished it to in
      ground (
        arith,
        count-insert bytes_discrete (runs_in s) key new m,
        count-insert bytes_discrete (is_active_in s) key new m,
        count-compact (runs_in s) (put key new m) session,
        count-compact (is_active_in s) (put key new m) session,
      )

-- What a queue keeps between two commands.
pub record Inv (m : Items) : Type 0 where
  pub keyed : IsKeyed m
  pub limits : (session : Bytes) → WithinLimits session m

Change-WithinLimits :
    (s : Bytes) {m m' : Items} {n n' : ℕ}
    → Change m n m' n'
    → IsKeyed m
    → WithinLimits s m
    → WithinLimits s m'
unfolding active_count
Change-WithinLimits s same k w = w
Change-WithinLimits s {m} (added it missing room waits number valid) k w =
    added-WithinLimits s m w it missing room waits
Change-WithinLimits s {m} (claimed session it h) k w = claimed-WithinLimits s m w session it k h
Change-WithinLimits s {m} (moved key it to found live still stopped) k w =
    moved-WithinLimits s m w key it to found live still stopped
Change-WithinLimits s {m} (closed session key it to found live dead) k w =
    closed-WithinLimits s m w session key it to found dead
Change-WithinLimits s {m} (blocked session to h) k w =
    omega (arith, count-block session s to m h, w)
Change-WithinLimits s {m} (resumed session) k w = omega (arith, count-resume session s m, w)

pub step-Inv :
    (json : Json) (q : Queue) (c : Syscalls × Command) → Inv q.items → Inv (step json q c).items
step-Inv json q c v = record {
  keyed = Change-IsKeyed (step-Change json q c) v.keyed;
  limits = λ session. Change-WithinLimits session (step-Change json q c) v.keyed (v.limits session);
}

-- Through any sequence of commands, with any failing writes, each session keeps at most one running
-- item and at most twenty active ones, if that holds at the start and the map is keyed.
pub run-Inv :
    (json : Json) (q : Queue) (cs : List (Syscalls × Command))
    → Inv q.items
    → Inv (run json q cs).items
unfolding run
run-Inv json q [] v = v
run-Inv json q (c ∷ cs) v = run-Inv json (step json q c) cs (step-Inv json q c v)
