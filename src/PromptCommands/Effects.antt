-- ===== src/PromptCommands/Effects.antt =====
-- What one statement does to one row (server/internal/db/prompt_commands.go).
use mathlib.Core.Logic.{if_neg, if_pos}
use nekonest.Prelude.{
  ◌≡◌, refl, sym, ap, ◌∙◌, true, Option, none, some, ℤ, lookup-insert, inl, inr, Option-cases,
  Bool-cases,
}
use nekonest.PromptCommands.Table.{
  PromptCommand, Key, Table, Statement, inserts, retries, forwards, accepts, commits, blocks, fails,
  key_of, key_discrete, find, put, applies, changed, registered_row, target, execute, insert_row,
}

-- A statement leaves a row, or adds it, or changes it.
pub data Effect (s : Statement) (k : Key)
    : Option PromptCommand → Option PromptCommand → Type 0 where
  unchanged : (row : Option PromptCommand) → Effect s k row row
  added :
      (cmd : PromptCommand) (now : ℤ)
      → s ≡ inserts cmd now
      → key_of cmd ≡ k
      → Effect s k none (some (registered_row cmd now))
  updated :
      (row : PromptCommand)
      → target s ≡ k
      → applies s row ≡ true
      → Effect s k (some row) (some (changed s row))

find-put : (k j : Key) (row : PromptCommand) (t : Table) → k ≡ j → find j (put k row t) ≡ some row
find-put k j row t e = lookup-insert key_discrete k j row t ∙ if_pos (key_discrete k j) e _ _

insert-Effect :
    (t : Table) (cmd : PromptCommand) (now : ℤ) (k : Key)
    → find (key_of cmd) t ≡ none
    → Effect (inserts cmd now) k (find k t) (find k (put (key_of cmd) (registered_row cmd now) t))
insert-Effect t cmd now k e = elim (key_discrete (key_of cmd) k) [
  | yes s ↦
      let before : find k t ≡ none = ap (λ x. find x t) (sym s) ∙ e in
      rw (before, find-put (key_of cmd) k (registered_row cmd now) t s) (added cmd now refl s)
  | no n ↦
      rw
        (
          lookup-insert key_discrete (key_of cmd) k (registered_row cmd now) t,
          if_neg (key_discrete (key_of cmd) k) n,
        )
        (unchanged _)
]

change-Effect :
    (t : Table) (s : Statement) (k : Key) (row : PromptCommand)
    → find (target s) t ≡ some row
    → applies s row ≡ true
    → Effect s k (find k t) (find k (put (target s) (changed s row) t))
change-Effect t s k row e h = elim (key_discrete (target s) k) [
  | yes same ↦
      let before : find k t ≡ some row = ap (λ x. find x t) (sym same) ∙ e in
      rw (before, find-put (target s) k (changed s row) t same) (updated row same h)
  | no n ↦
      rw
        (
          lookup-insert key_discrete (target s) k (changed s row) t,
          if_neg (key_discrete (target s) k) n,
        )
        (unchanged _)
]

absent-Effect :
    (t : Table) (s : Statement) (k : Key)
    → find (target s) t ≡ none
    → Effect s k (find k t) (find k (insert_row t s).0)
absent-Effect t (inserts cmd now) k e = insert-Effect t cmd now k e
absent-Effect t (retries key now) k e = unchanged _
absent-Effect t (forwards key now) k e = unchanged _
absent-Effect t (accepts key now) k e = unchanged _
absent-Effect t (commits key now) k e = unchanged _
absent-Effect t (blocks key message now) k e = unchanged _
absent-Effect t (fails key message outcome retry now) k e = unchanged _

pub execute-Effect :
    (t : Table) (s : Statement) (k : Key) → Effect s k (find k t) (find k (execute t s).0)
unfolding execute
execute-Effect t s k = elim (Option-cases (find (target s) t)) [
  | inl e ↦ rw e (absent-Effect t s k e)
  | inr (row, e) ↦ elim (Bool-cases (applies s row)) [
    | inl h ↦ rw (e, h) (change-Effect t s k row e h)
    | inr h ↦ rw (e, h) (unchanged _)
  ]
]
