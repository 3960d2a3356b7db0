-- ===== src/PromptCommands/Calls.antt =====
-- The methods of server/internal/db/prompt_commands.go as sequences of statements.
use nekonest.Prelude.{
  ℕ, ◌≡◌, refl, Bool, List, [], ◌∷◌, Bytes, ℤ, ◌&&◌, ◌||◌, not, inl, inr, Bool-cases, is_empty,
  Result-cases, ◌==◌, subst,
}
use nekonest.PromptCommands.Table.{
  PromptCommand, Key, Table, Statement, inserts, retries, forwards, accepts, commits, execute,
  execute_all, is_failed, is_registered, key_of,
}
use nekonest.PromptCommands.Commands.{
  Replies, transition, failure, mark_prompt_forwarded, mark_prompt_accepted, mark_prompt_committed,
  mark_prompt_failed, register_prompt_command, register_stored, get_prompt_command, same_payload,
}
use nekonest.PromptCommands.Sound.{AllSound, execute_all-AllSound}

pub data Call : Type 0 where
  registers : PromptCommand → Bool → Replies → Replies → ℤ → ℤ → Call
  forwarded accepted : Replies → Key → ℤ → Call
  committed : Bool → Key → ℤ → Call
  failed : Replies → Key → Bytes → Bytes → Bool → ℤ → Call

unfoldable pub call : Table → Call → Table
call t (registers cmd retry first again now later) =
    (register_prompt_command t cmd retry first again now later).0
call t (forwarded r key now) = (mark_prompt_forwarded t r key now).0
call t (accepted r key now) = (mark_prompt_accepted t r key now).0
call t (committed answers key now) = (mark_prompt_committed t answers key now).0
call t (failed r key message outcome retry now) =
    (mark_prompt_failed t r key message outcome retry now).0

unfoldable pub calls : Table → List Call → Table
calls t [] = t
calls t (c ∷ rest) = calls (call t c) rest

-- One table comes from another by statements.
abbrev Ran : Table → Table → Type 0
Ran t t' = (ss : List Statement) × (execute_all t ss ≡ t')

Ran-refl : (t : Table) → Ran t t
unfolding execute_all
Ran-refl t = ([], refl)

Ran-before : (t : Table) (s : Statement) {t' : Table} → Ran (execute t s).0 t' → Ran t t'
unfolding execute_all
Ran-before t s (ss, e) = (s ∷ ss, e)

transition-Ran : (t : Table) (r : Replies) (s : Statement) → Ran t (transition t r s).0
unfolding transition
transition-Ran t r s = elim (Bool-cases r.exec) [
  | inr n ↦ rw n (Ran-refl t)
  | inl y ↦ rw y (Ran-before t s (Ran-refl _))
]

register_stored-Ran :
    (t : Table) (affected : ℕ) (stored cmd : PromptCommand) (retry : Bool) (again : Replies)
    (now : ℤ)
    → Ran t (register_stored t affected stored cmd retry again now).0
register_stored-Ran t affected stored cmd retry again now =
    elim (Bool-cases (affected == 0 && not (same_payload stored cmd))) [
      | inl y ↦ rw y (Ran-refl t)
      | inr n ↦ elim (Bool-cases (affected == 1)) [
        | inl y ↦ rw (n, y) (Ran-refl t)
        | inr m ↦ elim (Bool-cases (is_registered stored.status)) [
          | inl y ↦ rw (n, m, y) (Ran-refl t)
          | inr old ↦
              elim (Bool-cases
                (not (is_failed stored.status) || not stored.retry_allowed || not retry)) [
                  | inl y ↦ rw (n, m, old, y) (Ran-refl t)
                  | inr y ↦ rw (n, m, old, y) (transition-Ran t again (retries (key_of cmd) now))
                ]
        ]
      ]
    ]

register-Ran :
    (t : Table) (cmd : PromptCommand) (retry : Bool) (first again : Replies) (now later : ℤ)
    → Ran t (register_prompt_command t cmd retry first again now later).0
unfolding register_prompt_command
register-Ran t cmd retry first again now later =
    let after = (execute t (inserts cmd now)).0 in
    let inserted = Ran-before t (inserts cmd now) (Ran-refl after) in
    elim (Bool-cases
      (is_empty cmd.device_id || is_empty cmd.client_msg_id || is_empty cmd.session_id)) [
        | inl bad ↦ rw bad (Ran-refl t)
        | inr fine ↦ elim (Bool-cases first.exec) [
          | inr n ↦ rw (fine, n) (Ran-refl t)
          | inl y ↦ elim (Bool-cases first.rows_affected) [
            | inr n ↦ rw (fine, y, n) inserted
            | inl c ↦ elim (Result-cases (get_prompt_command after (key_of cmd) first.get)) [
              | inr (e, g) ↦ rw (fine, y, c, g) inserted
              | inl (stored, g) ↦
                  rw (fine, y, c, g)
                    (Ran-before t (inserts cmd now) (
                      register_stored-Ran after (execute t (inserts cmd now)).1 stored cmd retry
                        again later))
            ]
          ]
        ]
      ]

call-Ran : (t : Table) (c : Call) → Ran t (call t c)
unfolding call mark_prompt_forwarded mark_prompt_accepted mark_prompt_committed mark_prompt_failed
call-Ran t (registers cmd retry first again now later) =
    register-Ran t cmd retry first again now later
call-Ran t (forwarded r key now) = transition-Ran t r (forwards key now)
call-Ran t (accepted r key now) = transition-Ran t r (accepts key now)
call-Ran t (committed answers key now) = elim (Bool-cases answers) [
  | inr n ↦ rw n (Ran-refl t)
  | inl y ↦ rw y (Ran-before t (commits key now) (Ran-refl _))
]
call-Ran t (failed r key message outcome retry now) =
    transition-Ran t r (failure key message outcome retry now)

-- After any calls of the methods, whichever of their queries fail: a row may be retried only when it
-- failed, and was committed only when it is accepted, if that holds at the start.
pub calls-AllSound : (t : Table) (cs : List Call) → AllSound t → AllSound (calls t cs)
unfolding calls
calls-AllSound t [] w = w
calls-AllSound t (c ∷ rest) w =
    let (ss, e) = call-Ran t c in
    calls-AllSound (call t c) rest (subst AllSound e (execute_all-AllSound t ss w))
