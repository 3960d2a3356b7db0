-- ===== src/PromptCommands/Retry.antt =====
-- Who may send a failed prompt again (server/internal/db/prompt_commands.go).
use mathlib.Core.Option.{some-injective}
use nekonest.Prelude.{
  ◌≡◌, refl, ap, ◌∙◌, Bool, true, false, ◌&&◌, List, [], ◌∷◌, some, ℤ, arith, Option, ite, inl, inr,
  Option-cases, Bool-cases, lookup-insert_self,
}
use nekonest.PromptCommands.Table.{
  PromptCommand, Key, Table, Statement, inserts, retries, forwards, accepts, commits, blocks, fails,
  find, changed, execute, execute_all, target, key_discrete, is_failed,
}
use nekonest.PromptCommands.Effects.{Effect, unchanged, added, updated, execute-Effect}

-- No statement reports a failure of the prompt with this key.
abbrev pub spares : Key → List Statement → Bool
spares k [] = true
spares k (inserts cmd now ∷ rest) = spares k rest
spares k (retries key now ∷ rest) = spares k rest
spares k (forwards key now ∷ rest) = spares k rest
spares k (accepts key now ∷ rest) = spares k rest
spares k (commits key now ∷ rest) = spares k rest
spares k (blocks key message now ∷ rest) = spares k rest
spares k (fails key message outcome retry now ∷ rest) =
    ite (key_discrete key k) false (spares k rest)

-- The prompt is recorded, and not to be retried.
abbrev pub IsClaimed : Option PromptCommand → Type 0
IsClaimed row = (c : PromptCommand) × (row ≡ some c) × (c.retry_allowed ≡ false)

spares_rest :
    (k : Key) (s : Statement) (rest : List Statement)
    → spares k (s ∷ rest) ≡ true
    → spares k rest ≡ true
spares_rest k (inserts cmd now) rest h = h
spares_rest k (retries key now) rest h = h
spares_rest k (forwards key now) rest h = h
spares_rest k (accepts key now) rest h = h
spares_rest k (commits key now) rest h = h
spares_rest k (blocks key message now) rest h = h
spares_rest k (fails key message outcome retry now) rest h = ground arith

changed-claimed :
    (k : Key) (s : Statement) (rest : List Statement) (row : PromptCommand)
    → spares k (s ∷ rest) ≡ true
    → target s ≡ k
    → row.retry_allowed ≡ false
    → (changed s row).retry_allowed ≡ false
changed-claimed k (inserts cmd now) rest row h q e = e
changed-claimed k (retries key now) rest row h q e = refl
changed-claimed k (forwards key now) rest row h q e = e
changed-claimed k (accepts key now) rest row h q e = refl
changed-claimed k (commits key now) rest row h q e = e
changed-claimed k (blocks key message now) rest row h q e = refl
changed-claimed k (fails key message outcome retry now) rest row h q e =
    absurd (ground (arith, h, q))

Effect-IsClaimed :
    {s : Statement} {k : Key} {before after : Option PromptCommand} (rest : List Statement)
    → Effect s k before after
    → spares k (s ∷ rest) ≡ true
    → IsClaimed before
    → IsClaimed after
Effect-IsClaimed rest (unchanged _) h w = w
Effect-IsClaimed rest (added cmd now r q) h (c, e, f) = (_, refl, refl)
Effect-IsClaimed {s} {k} rest (updated old q a) h (c, e, f) =
    let same : old ≡ c = some-injective old c e in
    (
      changed s old,
      refl,
      changed-claimed k s rest old h q (ap PromptCommand.retry_allowed same ∙ f),
    )

execute_all-IsClaimed :
    (t : Table) (ss : List Statement) (k : Key)
    → spares k ss ≡ true
    → IsClaimed (find k t)
    → IsClaimed (find k (execute_all t ss))
unfolding execute_all
execute_all-IsClaimed t [] k h w = w
execute_all-IsClaimed t (s ∷ rest) k h w =
    execute_all-IsClaimed (execute t s).0 rest k (spares_rest k s rest h)
      (Effect-IsClaimed rest (execute-Effect t s k) h w)

retries-IsClaimed :
    (t : Table) (k : Key) (now : ℤ)
    → (execute t (retries k now)).1 ≡ 1
    → IsClaimed (find k (execute t (retries k now)).0)
unfolding execute
retries-IsClaimed t k now h = elim (Option-cases (find k t)) [
  | inl e ↦ absurd (ground (arith, e, h))
  | inr (row, e) ↦ elim (Bool-cases (is_failed row.status && row.retry_allowed)) [
    | inl a ↦ (
      changed (retries k now) row,
      rw (e, a) (lookup-insert_self key_discrete k (changed (retries k now) row) t),
      refl,
    )
    | inr a ↦ absurd (ground (arith, e, a, h))
  ]
]

claimed-retries :
    (t : Table) (k : Key) (now : ℤ) → IsClaimed (find k t) → (execute t (retries k now)).1 ≡ 0
unfolding execute
claimed-retries t k now (c, e, f) = ground (arith, e, f)

-- When the UPDATE by which RegisterPromptCommand claims the retry of a failed prompt has changed its row, each
-- later UPDATE of this kind for the prompt changes no row, whatever statements of any calls come between
-- them, as long as none of these reports the prompt as failed.
pub retries_once :
    (t : Table) (ss : List Statement) (k : Key) (now later : ℤ)
    → (execute t (retries k now)).1 ≡ 1
    → spares k ss ≡ true
    → (execute (execute_all (execute t (retries k now)).0 ss) (retries k later)).1 ≡ 0
retries_once t ss k now later h clean =
    claimed-retries (execute_all (execute t (retries k now)).0 ss) k later
      (execute_all-IsClaimed (execute t (retries k now)).0 ss k clean (retries-IsClaimed t k now h))
