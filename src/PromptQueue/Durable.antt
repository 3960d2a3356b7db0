-- ===== src/PromptQueue/Durable.antt =====
-- The queue in memory and its file: persist and its callers in
-- daemon/cmd/daemon/prompt_queue.go write before they take the new state over.
use nekonest.Prelude.{
  false, ◌≡◌, refl, ◌⊎◌, inl, inr, true, List, [], ◌∷◌, Option, some, Bytes, arith, ok, err,
  Option-cases, Bool-cases, ltb, length,
}
use nekonest.AtomicWrite.{
  write_file_atomic_cases, Syscalls, write_file_atomic-chmod_failed, chmod_failed,
}
use nekonest.PromptQueue.Item.{
  too_large, marshal_failed, Json, Error, write_failed, max_prompt_queue_bytes,
}
use nekonest.PromptQueue.Store.{Items, Queue, disk_of, persist, commit}
use nekonest.PromptQueue.Steps.{Command, step, run, outcome}
use nekonest.PromptQueue.Edges.{step_cases}

-- The file holds the encoding of the items.
abbrev pub Synced : Json → Items → Option Bytes → Type 0
Synced json items file =
    (content : Bytes) × (json.marshal (disk_of items) ≡ some content) × (file ≡ some content)

module _ (json : Json) (os : Syscalls) where
  -- A call of persist succeeds, with the file replaced, or fails; a failure leaves the file as it
  -- was, if no chmod fails.
  persist_cases :
      (file : Option Bytes) (items : Items)
      → (((persist json os file items).1 ≡ ok tt)
          × Synced json items (persist json os file items).0)
        ⊎ ((e : Error) × ((persist json os file items).1 ≡ err e)
            × (os.chmod ≡ true → (persist json os file items).0 ≡ file))
  unfolding persist
  persist_cases file items = elim (Option-cases (json.marshal (disk_of items))) [
    | inl unencodable ↦ inr (marshal_failed, ground arith, ground arith)
    | inr (content, e) ↦ elim (Bool-cases (ltb max_prompt_queue_bytes (length content))) [
      | inl large ↦ inr (too_large, ground arith, ground arith)
      | inr fits ↦ elim (write_file_atomic_cases os file content) [
        | inl (done, new) ↦ inl (ground arith, (content, e, ground arith))
        | inr (x, failed, old) ↦ inr (write_failed x, ground arith, ground arith)
      ]
    ]
  ]

  -- A commit: the new state with the file written, or an error and the old state.
  pub commit_cases :
      {A : Type 0} (before after : Queue) (a : A)
      → let r = commit json os before after a in
        ((r.1 ≡ ok a)
          × (r.0.items ≡ after.items)
          × (r.0.next_id ≡ after.next_id)
          × Synced json after.items r.0.file)
        ⊎ ((e : Error) × (r.1 ≡ err e)
            × (r.0.items ≡ before.items)
            × (r.0.next_id ≡ before.next_id)
            × (os.chmod ≡ true → r.0.file ≡ before.file))
  unfolding commit
  commit_cases before after a = elim (persist_cases before.file after.items) [
    | inl (done, s) ↦ inl (ground arith, ground arith, ground arith, (s.0, s.1, ground arith))
    | inr (x, failed, old) ↦ inr (x, ground arith, ground arith, ground arith, ground arith)
  ]

-- What the queue keeps of its file when no chmod fails.
abbrev pub WorkingChmod : List (Syscalls × Command) → Type 0
WorkingChmod [] = Unit
WorkingChmod ((os, c) ∷ cs) = (os.chmod ≡ true) × WorkingChmod cs

commit-Synced :
    (json : Json) (os : Syscalls) {A : Type 0} (before after : Queue) (a : A)
    → os.chmod ≡ true
    → Synced json before.items before.file
    → let r = (commit json os before after a).0 in Synced json r.items r.file
commit-Synced json os before after a works s = elim (commit_cases json os before after a) [
  | inl (done, items, number, new) ↦ rw items new
  | inr (x, failed, items, number, old) ↦ rw (items, old works) s
]

pub step-Synced :
    (json : Json) (q : Queue) (os : Syscalls) (c : Command)
    → os.chmod ≡ true
    → Synced json q.items q.file
    → let r = step json q (os, c) in Synced json r.items r.file
unfolding step
step-Synced json q os c works s =
    step_cases json os q (λ r _. Synced json r.items r.file) (λ _. s)
      (λ A a after e. commit-Synced json os q after a works s) c

-- Through any sequence of commands whose final chmods succeed, whichever other calls of the
-- operating system and whichever encodings fail, the file holds the encoding of the items in
-- memory, if it does at the start.
pub run-Synced :
    (json : Json) (q : Queue) (cs : List (Syscalls × Command))
    → WorkingChmod cs
    → Synced json q.items q.file
    → let r = run json q cs in Synced json r.items r.file
unfolding run
run-Synced json q [] w s = s
run-Synced json q ((os, c) ∷ cs) w s =
    run-Synced json (step json q (os, c)) cs w.1 (step-Synced json q os c w.0 s)

file_or_chmod :
    (os : Syscalls) {file before : Option Bytes}
    → (os.chmod ≡ true → file ≡ before)
    → (file ≡ before) ⊎ (os.chmod ≡ false)
file_or_chmod os old = elim (Bool-cases os.chmod) [ inl y ↦ inl (old y) | inr n ↦ inr n ]

-- An operation that returns an error leaves the items and the last order in memory as they were,
-- whatever call of the operating system failed; and the file too, if it was not the final chmod.
pub outcome_failed :
    (json : Json) (q : Queue) (os : Syscalls) (c : Command)
    → (outcome json q (os, c)).1 ≡ true
    → let r = (outcome json q (os, c)).0 in
      (r.items ≡ q.items) × (r.next_id ≡ q.next_id) × ((r.file ≡ q.file) ⊎ (os.chmod ≡ false))
outcome_failed json q os c =
    step_cases json os q
      (λ r failed.
        failed ≡ true
        → (r.items ≡ q.items) × (r.next_id ≡ q.next_id) × ((r.file ≡ q.file) ⊎ (os.chmod ≡ false)))
      (λ b f. (refl, refl, inl refl))
      (λ A a after e f. elim (commit_cases json os q after a) [
        | inl (done, items, number, new) ↦ cc
        | inr (x, failed, items, number, old) ↦ (items, number, file_or_chmod os old)
      ])
      c

-- Where everything but the final chmod succeeds, an operation that writes returns an error and
-- keeps the old items in memory, while the file already holds the new ones.
pub commit_chmod_failed :
    (json : Json) (os : Syscalls) {A : Type 0} (before after : Queue) (a : A)
    → (commit json os before after a).1 ≡ err (write_failed chmod_failed)
    → let r = (commit json os before after a).0 in
      (r.items ≡ before.items) × Synced json after.items r.file
unfolding commit persist
commit_chmod_failed json os before after a h =
    elim (Option-cases (json.marshal (disk_of after.items))) [
      | inl unencodable ↦ absurd (ground arith)
      | inr (content, e) ↦ (
        ground arith,
        (content, e, ground (arith, write_file_atomic-chmod_failed os before.file content)),
      )
    ]
