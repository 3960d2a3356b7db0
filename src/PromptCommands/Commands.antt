-- ===== src/PromptCommands/Commands.antt =====
-- The methods of server/internal/db/prompt_commands.go. Each call of database/sql succeeds or fails as
-- its argument says, and a failed Exec leaves the table as it was; a nil command is refused like an empty id.
use nekonest.Prelude.{
  ℕ, Bool, true, false, not, ◌&&◌, ◌||◌, Option, none, some, Bytes, ascii, bytes_discrete, ℤ, ite,
  if◌then◌else◌, is_empty, ◌==◌, Result, ok, err,
}
use nekonest.PromptCommands.Table.{
  PromptCommand, Key, Table, Statement, inserts, retries, forwards, accepts, commits, blocks, fails,
  key_of, find, is_registered, is_failed, execute, target,
}

pub data Error : Type 0 where
  ids_required database no_rows : Error
  conflict : PromptCommand → Error

-- Whether Exec, RowsAffected and the query that reads the row back succeed.
pub record Replies : Type 0 where
  pub exec : Bool
  pub rows_affected : Bool
  pub get : Bool

abbrev str_eq : Bytes → Bytes → Bool
str_eq a b = ite (bytes_discrete a b) true false

abbrev pub scanned : Option PromptCommand → Result Error PromptCommand
scanned none = err no_rows
scanned (some row) = ok row

-- GetPromptCommand.
unfoldable pub get_prompt_command : Table → Key → Bool → Result Error PromptCommand
get_prompt_command t key answers = if answers then scanned (find key t) else err database

-- `cmd, affected == 1`.
abbrev pub with_count : ℕ → Result Error PromptCommand → Result Error (PromptCommand × Bool)
with_count affected (err e) = err e
with_count affected (ok row) = ok (row, affected == 1)

-- A statement and promptTransitionResult.
unfoldable pub transition :
    Table → Replies → Statement → Table × Result Error (PromptCommand × Bool)
transition t r s =
    if not r.exec
    then (t, err database)
    else let (after, affected) = execute t s in
      (
        after,
        if not r.rows_affected
            then err database
            else with_count affected (get_prompt_command after (target s) r.get),
      )

unfoldable pub mark_prompt_forwarded :
    Table → Replies → Key → ℤ → Table × Result Error (PromptCommand × Bool)
mark_prompt_forwarded t r key now = transition t r (forwards key now)

unfoldable pub mark_prompt_accepted :
    Table → Replies → Key → ℤ → Table × Result Error (PromptCommand × Bool)
mark_prompt_accepted t r key now = transition t r (accepts key now)

unfoldable pub mark_prompt_committed : Table → Bool → Key → ℤ → Table × Result Error (Unit {0})
mark_prompt_committed t answers key now =
    if answers then ((execute t (commits key now)).0, ok tt) else (t, err database)

-- The statement of MarkPromptFailed.
abbrev pub failure : Key → Bytes → Bytes → Bool → ℤ → Statement
failure key message outcome retry now =
    if str_eq outcome (ascii "indeterminate")
    then blocks key message now
    else fails key message (if is_empty outcome then ascii "failed" else outcome) retry now

unfoldable pub mark_prompt_failed :
    Table → Replies → Key → Bytes → Bytes → Bool → ℤ → Table × Result Error (PromptCommand × Bool)
mark_prompt_failed t r key message outcome retry now =
    transition t r (failure key message outcome retry now)

-- The fields that a key is bound to.
abbrev pub same_payload : PromptCommand → PromptCommand → Bool
same_payload a b =
    str_eq a.session_id b.session_id
    && str_eq a.prompt b.prompt
    && str_eq a.attachments_json b.attachments_json
    && str_eq a.sealed_envelope_json b.sealed_envelope_json

-- What RegisterPromptCommand does once it has read the row: `affected` is the count of the INSERT.
abbrev pub register_stored :
    Table
    → ℕ
    → PromptCommand
    → PromptCommand
    → Bool
    → Replies
    → ℤ
    → Table × Result Error (PromptCommand × Bool)
register_stored t affected stored cmd retry_failed again now =
    if affected == 0 && not (same_payload stored cmd)
    then (t, err (conflict stored))
    else if affected == 1
    then (t, ok (stored, true))
    else if is_registered stored.status
    then (t, ok (stored, true))
    else if not (is_failed stored.status) || not stored.retry_allowed || not retry_failed
    then (t, ok (stored, false))
    else transition t again (retries (key_of cmd) now)

abbrev pub register_read :
    Table
    → ℕ
    → Result Error PromptCommand
    → PromptCommand
    → Bool
    → Replies
    → ℤ
    → Table × Result Error (PromptCommand × Bool)
register_read t affected (err e) cmd retry_failed again now = (t, err e)
register_read t affected (ok stored) cmd retry_failed again now =
    register_stored t affected stored cmd retry_failed again now

-- RegisterPromptCommand, with the answers to its two statements and the two times that it reads, when no
-- statement of another call comes between its own.
unfoldable pub register_prompt_command :
    Table
    → PromptCommand
    → Bool
    → Replies
    → Replies
    → ℤ
    → ℤ
    → Table × Result Error (PromptCommand × Bool)
register_prompt_command t cmd retry_failed first again now later =
    if is_empty cmd.device_id || is_empty cmd.client_msg_id || is_empty cmd.session_id
    then (t, err ids_required)
    else if not first.exec
    then (t, err database)
    else let (after, affected) = execute t (inserts cmd now) in
      if not first.rows_affected
      then (after, err database)
      else register_read after affected (get_prompt_command after (key_of cmd) first.get) cmd
          retry_failed again later
