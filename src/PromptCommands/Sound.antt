-- ===== src/PromptCommands/Sound.antt =====
-- What holds of every row of the table (server/internal/db/prompt_commands.go).
use mathlib.Core.Option.{some-injective}
use nekonest.Prelude.{◌≡◌, refl, true, List, [], ◌∷◌, some, arith, Option, subst}
use nekonest.PromptCommands.Table.{
  PromptCommand, Status, accepted, failed, Key, Table, Statement, inserts, retries, forwards,
  accepts, commits, blocks, fails, find, applies, changed, execute, execute_all, is_accepted,
}
use nekonest.PromptCommands.Effects.{Effect, unchanged, added, updated, execute-Effect}

-- Only a failed prompt may be retried, and only an accepted one was committed.
pub record IsSound (row : PromptCommand) : Type 0 where
  pub retried : row.retry_allowed ≡ true → row.status ≡ failed
  pub committed : row.commit_sent ≡ true → row.status ≡ accepted

abbrev pub AllSound : Table → Type 0
AllSound t = (k : Key) (row : PromptCommand) → find k t ≡ some row → IsSound row

is_accepted_lem : (s : Status) → is_accepted s ≡ true → s ≡ accepted
is_accepted_lem s h = ground arith

changed-IsSound :
    (s : Statement) (row : PromptCommand)
    → applies s row ≡ true
    → IsSound row
    → IsSound (changed s row)
changed-IsSound (inserts cmd now) row h w = w
changed-IsSound (retries key now) row h w = record {
  retried = λ y. absurd (ground arith);
  committed = λ y. absurd (let e = w.committed y in ground (arith, h, e));
}
changed-IsSound (forwards key now) row h w = record {
  retried = λ y. absurd (let e = w.retried y in ground (arith, h, e));
  committed = λ y. absurd (let e = w.committed y in ground (arith, h, e));
}
changed-IsSound (accepts key now) row h w = record {
  retried = λ y. absurd (ground arith);
  committed = λ y. refl;
}
changed-IsSound (commits key now) row h w = record {
  retried = λ y. w.retried y;
  committed = λ y. is_accepted_lem row.status h;
}
changed-IsSound (blocks key message now) row h w = record {
  retried = λ y. absurd (ground arith);
  committed = λ y. absurd (let e = w.committed y in ground (arith, h, e));
}
changed-IsSound (fails key message outcome retry now) row h w = record {
  retried = λ y. refl;
  committed = λ y. absurd (let e = w.committed y in ground (arith, h, e));
}

Effect-IsSound :
    {s : Statement} {k : Key} {before after : Option PromptCommand}
    → Effect s k before after
    → ((row : PromptCommand) → before ≡ some row → IsSound row)
    → (row : PromptCommand) → after ≡ some row
    → IsSound row
Effect-IsSound (unchanged _) w row e = w row e
Effect-IsSound (added cmd now r q) w row e =
    subst IsSound (some-injective _ _ e)
      (record { retried = λ y. absurd (ground arith); committed = λ y. absurd (ground arith) })
Effect-IsSound {s} (updated old q h) w row e =
    subst IsSound (some-injective _ _ e) (changed-IsSound s old h (w old refl))

-- Statements in any order keep every row sound.
pub execute_all-AllSound :
    (t : Table) (ss : List Statement) → AllSound t → AllSound (execute_all t ss)
unfolding execute_all
execute_all-AllSound t [] w = w
execute_all-AllSound t (s ∷ rest) w =
    execute_all-AllSound (execute t s).0 rest
      (λ k row. Effect-IsSound (execute-Effect t s k) (w k) row)
