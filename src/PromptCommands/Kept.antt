-- ===== src/PromptCommands/Kept.antt =====
-- What a recorded prompt keeps for good (server/internal/db/prompt_commands.go).
use mathlib.Core.Option.{some, Option, some-injective}
use nekonest.Prelude.{◌∷◌, List, ℤ, ◌∙◌, Bytes, ◌≡◌, refl, true, arith, []}
use nekonest.PromptCommands.Table.{
  execute, find, Table, execute_all, Key, PromptCommand, accepted, Statement, inserts, retries,
  forwards, accepts, commits, blocks, fails, applies, changed,
}
use nekonest.PromptCommands.Effects.{Effect, execute-Effect, unchanged, added, updated}

-- What the phone asked for, and when.
abbrev pub payload : PromptCommand → Bytes × Bytes × Bytes × Bytes × ℤ
payload row =
    (row.session_id, row.prompt, row.attachments_json, row.sealed_envelope_json, row.created_at)

-- The row is the same prompt, an accepted one stays accepted, and one that was committed stays so.
pub record Kept (before after : PromptCommand) : Type 0 where
  pub same : payload after ≡ payload before
  pub stays :
      before.status ≡ accepted
      → (after.status ≡ accepted) × (before.commit_sent ≡ true → after.commit_sent ≡ true)

changed-payload : (s : Statement) (row : PromptCommand) → payload (changed s row) ≡ payload row
changed-payload (inserts cmd now) row = refl
changed-payload (retries key now) row = refl
changed-payload (forwards key now) row = refl
changed-payload (accepts key now) row = refl
changed-payload (commits key now) row = refl
changed-payload (blocks key message now) row = refl
changed-payload (fails key message outcome retry now) row = refl

-- Only the statement of MarkPromptCommitted applies to an accepted row.
changed-stays :
    (s : Statement) (row : PromptCommand)
    → applies s row ≡ true
    → row.status ≡ accepted
    → ((changed s row).status ≡ accepted)
      × (row.commit_sent ≡ true → (changed s row).commit_sent ≡ true)
changed-stays (inserts cmd now) row h e = (e, λ c. c)
changed-stays (retries key now) row h e = absurd (ground (arith, h, e))
changed-stays (forwards key now) row h e = absurd (ground (arith, h, e))
changed-stays (accepts key now) row h e = absurd (ground (arith, h, e))
changed-stays (commits key now) row h e = (e, λ c. refl)
changed-stays (blocks key message now) row h e = absurd (ground (arith, h, e))
changed-stays (fails key message outcome retry now) row h e = absurd (ground (arith, h, e))

Kept-refl : (row : PromptCommand) → Kept row row
Kept-refl row = record { same = refl; stays = λ e. (e, λ c. c) }

Kept-trans : {a b c : PromptCommand} → Kept a b → Kept b c → Kept a c
Kept-trans h k = record {
  same = k.same ∙ h.same;
  stays = λ e. let (e', f) = h.stays e in let (e'', g) = k.stays e' in (e'', λ c. g (f c));
}

Effect-Kept :
    {s : Statement} {k : Key} {before after : Option PromptCommand} (row : PromptCommand)
    → Effect s k before after
    → before ≡ some row
    → (row' : PromptCommand) × (after ≡ some row') × Kept row row'
Effect-Kept row (unchanged _) e = (row, e, Kept-refl row)
Effect-Kept row (added cmd now r q) e = absurd (ground arith)
Effect-Kept {s} row (updated old q h) e =
    rw (← some-injective old row e)
      (changed s old, refl, record { same = changed-payload s old; stays = changed-stays s old h })

-- Whatever statements are executed, those of calls that run at once included: a recorded prompt stays
-- recorded with the session, text, attachments and envelope that it was registered with; once it is
-- accepted it stays accepted; and once it is committed as well it stays so.
pub execute_all-Kept :
    (t : Table) (ss : List Statement) (k : Key) (row : PromptCommand)
    → find k t ≡ some row
    → (row' : PromptCommand) × (find k (execute_all t ss) ≡ some row') × Kept row row'
unfolding execute_all
execute_all-Kept t [] k row e = (row, e, Kept-refl row)
execute_all-Kept t (s ∷ rest) k row e =
    let (next, found, kept) = Effect-Kept row (execute-Effect t s k) e in
    let (last, found', kept') = execute_all-Kept (execute t s).0 rest k next found in
    (last, found', Kept-trans kept kept')
