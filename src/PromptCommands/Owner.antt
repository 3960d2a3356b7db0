-- ===== src/PromptCommands/Owner.antt =====
-- Which call of RegisterPromptCommand owns the forwarding of a prompt
-- (server/internal/db/prompt_commands.go).
use mathlib.Core.Option.{none, some-injective}
use mathlib.Core.Logic.{if_pos}
use mathlib.Core.Option.{some-injective}
use nekonest.Prelude.{
  ℕ, ◌≡◌, ◌⊎◌, refl, sym, ap, ◌∙◌, Bool, true, false, ◌&&◌, ◌||◌, not, some, Bytes, ℤ, arith, ite,
  inl, inr, Option-cases, Bool-cases, Result, ok, err, lookup-insert_self, is_empty, bytes_discrete,
}
use nekonest.PromptCommands.Table.{
  PromptCommand, Status, registered, failed, Key, Table, Statement, inserts, retries, find, changed,
  execute, target, key_discrete, is_failed, is_registered, key_of, registered_row,
}
use nekonest.PromptCommands.Commands.{
  Error, Replies, get_prompt_command, transition, same_payload, register_stored,
  register_prompt_command,
}

-- The row stands in the table, is registered and carries the payload of the command.
pub record IsOwned (t : Table) (cmd row : PromptCommand) : Type 0 where
  pub stored : find (key_of cmd) t ≡ some row
  pub fresh : row.status ≡ registered
  pub same : same_payload row cmd ≡ true

-- Why a call may own the forwarding: the prompt was new, it was registered and is still to be forwarded, or
-- it had failed in a way that may be retried and the call asks for that.
pub data Reason (t : Table) (cmd : PromptCommand) (retry : Bool) : Type 0 where
  is_new : find (key_of cmd) t ≡ none → Reason t cmd retry
  not_forwarded :
      (old : PromptCommand)
      → find (key_of cmd) t ≡ some old
      → same_payload old cmd ≡ true
      → old.status ≡ registered
      → Reason t cmd retry
  failed_before :
      (old : PromptCommand)
      → find (key_of cmd) t ≡ some old
      → same_payload old cmd ≡ true
      → old.status ≡ failed
      → old.retry_allowed ≡ true
      → retry ≡ true
      → Reason t cmd retry

-- A result that names a row as owned.
abbrev Owns : Table × Result Error (PromptCommand × Bool) → Table → PromptCommand → Type 0
Owns r t row = r ≡ (t, ok (row, true))

owned-fields :
    {t t' : Table} {row row' : PromptCommand} {b : Bool}
    → Owns (t, ok (row, b)) t' row'
    → (t ≡ t') × (row ≡ row') × (b ≡ true)
owned-fields e = let q = ap (λ r. r.1) e in (ap (λ r. r.0) e, ground arith, ground arith)

failed-owned : {t t' : Table} {row : PromptCommand} {e : Error} → ¬ Owns (t, err e) t' row
failed-owned h = let q = ap (λ r. r.1) h in ground arith

IsOwned-here :
    {t t' : Table} {cmd row row' : PromptCommand}
    → find (key_of cmd) t ≡ some row
    → row.status ≡ registered
    → same_payload row cmd ≡ true
    → Owns (t, ok (row, true)) t' row'
    → IsOwned t' cmd row'
IsOwned-here {cmd = cmd} f r s e =
    let (q, p, b) = owned-fields e in
    record {
      stored = ap (find (key_of cmd)) (sym q) ∙ f ∙ ap some p;
      fresh = ap PromptCommand.status (sym p) ∙ r;
      same = ap (λ x. same_payload x cmd) (sym p) ∙ s;
    }

is_registered_lem : (s : Status) → is_registered s ≡ true → s ≡ registered
is_registered_lem s h = ground arith

same_self : (x : Bytes) → ite (bytes_discrete x x) true false ≡ true
same_self x = if_pos (bytes_discrete x x) refl _ _

same_payload_self :
    (cmd : PromptCommand) (now : ℤ) → same_payload (registered_row cmd now) cmd ≡ true
same_payload_self cmd now =
    rw
      (
        same_self cmd.session_id,
        same_self cmd.prompt,
        same_self cmd.attachments_json,
        same_self cmd.sealed_envelope_json,
      )
      refl

transition-owned :
    (t : Table) (r : Replies) (s : Statement) {t' : Table} {row : PromptCommand}
    → Owns (transition t r s) t' row
    → ((execute t s).0 ≡ t') × ((execute t s).1 ≡ 1) × (find (target s) t' ≡ some row)
unfolding transition get_prompt_command
transition-owned t r s e = elim (Bool-cases r.exec) [
  | inr n ↦ absurd (failed-owned (rw n at e))
  | inl y ↦ elim (Bool-cases r.rows_affected) [
    | inr n ↦ absurd (failed-owned (rw (y, n) at e))
    | inl c ↦ elim (Bool-cases r.get) [
      | inr n ↦ absurd (failed-owned (rw (y, c, n) at e))
      | inl g ↦ elim (Option-cases (find (target s) (execute t s).0)) [
        | inl f ↦ absurd (failed-owned (rw (y, c, g, f) at e))
        | inr (found, f) ↦
            let (q, p, b) = owned-fields (rw (y, c, g, f) at e) in
            (q, ground (arith, b), ap (find (target s)) (sym q) ∙ f ∙ ap some p)
      ]
    ]
  ]
]

retries-row :
    (t : Table) (k : Key) (now : ℤ) {stored : PromptCommand}
    → find k t ≡ some stored
    → (execute t (retries k now)).1 ≡ 1
    → find k (execute t (retries k now)).0 ≡ some (changed (retries k now) stored)
unfolding execute
retries-row t k now {stored} f one =
    elim (Bool-cases (is_failed stored.status && stored.retry_allowed)) [
      | inl a ↦ rw (f, a) (lookup-insert_self key_discrete k (changed (retries k now) stored) t)
      | inr a ↦ absurd (ground (arith, f, a, one))
    ]

retry-IsOwned :
    (t : Table) (stored cmd : PromptCommand) (again : Replies) (now : ℤ) {t' : Table}
    {row : PromptCommand}
    → find (key_of cmd) t ≡ some stored
    → same_payload stored cmd ≡ true
    → Owns (transition t again (retries (key_of cmd) now)) t' row
    → IsOwned t' cmd row
retry-IsOwned t stored cmd again now f s e =
    let (q, one, g) = transition-owned t again (retries (key_of cmd) now) e in
    let after = retries-row t (key_of cmd) now f one in
    IsOwned-here after refl s
      (rw (q, some-injective _ _ (sym after ∙ ap (find (key_of cmd)) q ∙ g)) refl)

register_stored-IsOwned :
    (t : Table) (affected : ℕ) (stored cmd : PromptCommand) (retry : Bool) (again : Replies)
    (now : ℤ) {t' : Table} {row : PromptCommand}
    → find (key_of cmd) t ≡ some stored
    → ((affected ≡ 1) × (stored.status ≡ registered) × (same_payload stored cmd ≡ true))
      ⊎ (affected ≡ 0)
    → Owns (register_stored t affected stored cmd retry again now) t' row
    → IsOwned t' cmd row
register_stored-IsOwned t affected stored cmd retry again now f why e = elim why [
  | inl (one, r, s) ↦ IsOwned-here f r s (rw one at e)
  | inr zero ↦ elim (Bool-cases (same_payload stored cmd)) [
    | inr n ↦ absurd (failed-owned (rw (zero, n) at e))
    | inl s ↦ elim (Bool-cases (is_registered stored.status)) [
      | inl r ↦ IsOwned-here f (is_registered_lem stored.status r) s (rw (zero, s, r) at e)
      | inr old ↦
          elim (Bool-cases
            (not (is_failed stored.status) || not stored.retry_allowed || not retry)) [
              | inl kept ↦
                  let (q, p, b) = owned-fields (rw (zero, s, old, kept) at e) in
                  absurd (ground arith)
              | inr due ↦ retry-IsOwned t stored cmd again now f s (rw (zero, s, old, due) at e)
            ]
    ]
  ]
]

insert-affected :
    (t : Table) (cmd : PromptCommand) (now : ℤ) {stored : PromptCommand}
    → find (key_of cmd) (execute t (inserts cmd now)).0 ≡ some stored
    → (((execute t (inserts cmd now)).1 ≡ 1)
        × (stored.status ≡ registered)
        × (same_payload stored cmd ≡ true))
      ⊎ ((execute t (inserts cmd now)).1 ≡ 0)
unfolding execute
insert-affected t cmd now f = elim (Option-cases (find (key_of cmd) t)) [
  | inr (row, e) ↦ inr (ground (arith, e))
  | inl e ↦
      let new = registered_row cmd now in
      let there = lookup-insert_self key_discrete (key_of cmd) new t in
      let same = some-injective _ _ (sym there ∙ rw e at f) in
      inl (
        ground (arith, e),
        ap PromptCommand.status (sym same),
        ap (λ x. same_payload x cmd) (sym same) ∙ same_payload_self cmd now,
      )
]

is_failed_lem : (s : Status) → is_failed s ≡ true → s ≡ failed
is_failed_lem s h = ground arith

-- The reason for which the row that was read is owned, when the INSERT has added nothing.
stored-Reason :
    (t after : Table) (stored cmd : PromptCommand) (retry : Bool) (again : Replies) (now : ℤ)
    {t' : Table} {row : PromptCommand}
    → find (key_of cmd) t ≡ some stored
    → Owns (register_stored after 0 stored cmd retry again now) t' row
    → Reason t cmd retry
stored-Reason t after stored cmd retry again now f e = elim (Bool-cases (same_payload stored cmd)) [
  | inr n ↦ absurd (failed-owned (rw n at e))
  | inl s ↦ elim (Bool-cases (is_registered stored.status)) [
    | inl r ↦ not_forwarded stored f s (is_registered_lem stored.status r)
    | inr old ↦
        elim (Bool-cases (not (is_failed stored.status) || not stored.retry_allowed || not retry)) [
          | inl kept ↦
              let (q, p, b) = owned-fields (rw (s, old, kept) at e) in absurd (ground arith)
          | inr due ↦
              failed_before stored f s (is_failed_lem stored.status (ground arith)) (ground arith)
                (ground arith)
        ]
  ]
]

inserted-Reason :
    (t : Table) (cmd stored : PromptCommand) (retry : Bool) (again : Replies) (now later : ℤ)
    {t' : Table} {row : PromptCommand}
    → find (key_of cmd) (execute t (inserts cmd now)).0 ≡ some stored
    → Owns
        (register_stored
          (execute t (inserts cmd now)).0
          (execute t (inserts cmd now)).1
          stored
          cmd
          retry
          again
          later)
        t'
        row
    → Reason t cmd retry
unfolding execute
inserted-Reason t cmd stored retry again now later f e = elim (Option-cases (find (key_of cmd) t)) [
  | inl missing ↦ is_new missing
  | inr (old, found) ↦
      let there : find (key_of cmd) t ≡ some stored = rw found at f in
      stored-Reason t t stored cmd retry again later there (rw found at e)
]

register-IsOwned :
    (t : Table) (cmd : PromptCommand) (retry : Bool) (first again : Replies) (now later : ℤ)
    {t' : Table} {row : PromptCommand}
    → register_prompt_command t cmd retry first again now later ≡ (t', ok (row, true))
    → IsOwned t' cmd row
unfolding register_prompt_command get_prompt_command
register-IsOwned t cmd retry first again now later e =
    let after = (execute t (inserts cmd now)).0 in
    elim (Bool-cases
      (is_empty cmd.device_id || is_empty cmd.client_msg_id || is_empty cmd.session_id)) [
        | inl bad ↦ absurd (failed-owned (rw bad at e))
        | inr fine ↦ elim (Bool-cases first.exec) [
          | inr n ↦ absurd (failed-owned (rw (fine, n) at e))
          | inl y ↦ elim (Bool-cases first.rows_affected) [
            | inr n ↦ absurd (failed-owned (rw (fine, y, n) at e))
            | inl c ↦ elim (Bool-cases first.get) [
              | inr n ↦ absurd (failed-owned (rw (fine, y, c, n) at e))
              | inl g ↦ elim (Option-cases (find (key_of cmd) after)) [
                | inl f ↦ absurd (failed-owned (rw (fine, y, c, g, f) at e))
                | inr (stored, f) ↦
                    register_stored-IsOwned after (execute t (inserts cmd now)).1 stored cmd retry
                      again later f (insert-affected t cmd now f) (rw (fine, y, c, g, f) at e)
              ]
            ]
          ]
        ]
      ]

register-Reason :
    (t : Table) (cmd : PromptCommand) (retry : Bool) (first again : Replies) (now later : ℤ)
    {t' : Table} {row : PromptCommand}
    → register_prompt_command t cmd retry first again now later ≡ (t', ok (row, true))
    → Reason t cmd retry
unfolding register_prompt_command get_prompt_command
register-Reason t cmd retry first again now later e =
    let after = (execute t (inserts cmd now)).0 in
    elim (Bool-cases
      (is_empty cmd.device_id || is_empty cmd.client_msg_id || is_empty cmd.session_id)) [
        | inl bad ↦ absurd (failed-owned (rw bad at e))
        | inr fine ↦ elim (Bool-cases first.exec) [
          | inr n ↦ absurd (failed-owned (rw (fine, n) at e))
          | inl y ↦ elim (Bool-cases first.rows_affected) [
            | inr n ↦ absurd (failed-owned (rw (fine, y, n) at e))
            | inl c ↦ elim (Bool-cases first.get) [
              | inr n ↦ absurd (failed-owned (rw (fine, y, c, n) at e))
              | inl g ↦ elim (Option-cases (find (key_of cmd) after)) [
                | inl f ↦ absurd (failed-owned (rw (fine, y, c, g, f) at e))
                | inr (stored, f) ↦
                    inserted-Reason t cmd stored retry again now later f
                      (rw (fine, y, c, g, f) at e)
              ]
            ]
          ]
        ]
      ]

-- A call of RegisterPromptCommand that no other statement interrupts and that says that the caller owns the
-- forwarding leaves the row in the table as registered, with the session, text, attachments and envelope of
-- the call. Before the call there was no row for the prompt, or one with this payload that was still
-- registered, or one with this payload that had failed and may be retried, and the call asked for a retry.
pub register_prompt_command-IsOwned :
    (t : Table) (cmd : PromptCommand) (retry : Bool) (first again : Replies) (now later : ℤ)
    {t' : Table} {row : PromptCommand}
    → register_prompt_command t cmd retry first again now later ≡ (t', ok (row, true))
    → IsOwned t' cmd row × Reason t cmd retry
register_prompt_command-IsOwned t cmd retry first again now later e = (
  register-IsOwned t cmd retry first again now later e,
  register-Reason t cmd retry first again now later e,
)
