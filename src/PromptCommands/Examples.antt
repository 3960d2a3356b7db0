-- ===== src/PromptCommands/Examples.antt =====
-- Runs of the prompt records of server/internal/db/prompt_commands.go at small inputs.
use nekonest.Prelude.{
  ◌≡◌, refl, true, false, List, [], ◌∷◌, some, ascii, pos, arith, lookup, insert, bytes_discrete,
}
use nekonest.PromptCommands.Table.{
  PromptCommand, registered, accepted, failed, Key, Statement, inserts, retries, forwards, commits,
  fails, blocks, find, execute, execute_all, key_discrete,
}
use nekonest.PromptCommands.Commands.{
  Replies, register_prompt_command, get_prompt_command, transition,
}
use nekonest.PromptCommands.Kept.{Kept, execute_all-Kept}
use nekonest.PromptCommands.Retry.{retries_once}
use nekonest.PromptCommands.Owner.{Reason, IsOwned, register_prompt_command-IsOwned}
use nekonest.PromptCommands.Sound.{AllSound}
use nekonest.PromptCommands.Calls.{Call, calls, calls-AllSound}

abbrev key : Key
key = (ascii "d", ascii "m")

abbrev asked : PromptCommand
asked = record {
  device_id = ascii "d";
  client_msg_id = ascii "m";
  session_id = ascii "s";
  prompt = ascii "hi";
  attachments_json = [];
  sealed_envelope_json = [];
  status = registered;
  error = [];
  outcome = [];
  retry_allowed = false;
  commit_sent = false;
  created_at = pos 1;
  updated_at = pos 1;
}

abbrev may_retry : PromptCommand
may_retry = record asked { status = failed; retry_allowed = true }

abbrev done : PromptCommand
done = record asked { status = accepted }

abbrev statements : List Statement
statements =
    commits key (pos 2)
    ∷ fails key [] [] true (pos 3)
    ∷ inserts (record asked { prompt = ascii "no" }) (pos 4)
    ∷ []

execute_all-Kept_example :
    (row : PromptCommand) × (find key (execute_all ((key, done) ∷ []) statements) ≡ some row)
    × Kept done row
unfolding lookup bytes_discrete key_discrete
execute_all-Kept_example = execute_all-Kept ((key, done) ∷ []) statements key done refl

abbrev answers : Replies
answers = record { exec = true; rows_affected = true; get = true }

abbrev unlucky : Replies
unlucky = record { exec = true; rows_affected = true; get = false }

abbrev history : List Call
history =
    Call.registers asked false answers answers (pos 2) (pos 3)
    ∷ Call.failed unlucky key [] (ascii "offline") true (pos 4)
    ∷ Call.accepted answers key (pos 5)
    ∷ Call.committed true key (pos 6)
    ∷ []

calls-AllSound_example : AllSound (calls [] history)
unfolding lookup
calls-AllSound_example = calls-AllSound [] history (λ k row e. absurd (ground arith))

retries_once_example :
    (execute
      (execute_all
        (execute ((key, may_retry) ∷ []) (retries key (pos 5))).0
        (forwards key (pos 6) ∷ blocks key [] (pos 7) ∷ []))
      (retries key (pos 8))).1
    ≡ 0
unfolding execute lookup bytes_discrete key_discrete
retries_once_example =
    retries_once ((key, may_retry) ∷ []) (forwards key (pos 6) ∷ blocks key [] (pos 7) ∷ []) key
      (pos 5) (pos 8) refl refl

register_prompt_command-IsOwned_example :
    IsOwned
      ((key, record asked { updated_at = pos 9 }) ∷ [])
      asked
      (record asked { updated_at = pos 9 })
    × Reason ((key, may_retry) ∷ []) asked true
unfolding register_prompt_command get_prompt_command transition execute lookup insert bytes_discrete
    key_discrete
register_prompt_command-IsOwned_example =
    register_prompt_command-IsOwned ((key, may_retry) ∷ []) asked true answers answers (pos 8)
      (pos 9) refl
