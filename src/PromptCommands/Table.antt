-- ===== src/PromptCommands/Table.antt =====
-- The table prompt_commands of server/internal/db/db.go and the statements that
-- server/internal/db/prompt_commands.go executes on it. The table is a map from its primary key, and each
-- statement is one step, so calls that run at once are a sequence of statements.
use nekonest.Prelude.{
  ℕ, Bool, true, false, not, ◌&&◌, ◌||◌, List, [], ◌∷◌, Option, none, some, Bytes, ascii,
  bytes_discrete, ℤ, if◌then◌else◌, lookup, insert, ap,
}

-- The values that the CHECK of the column admits.
pub data Status : Type 0 where
  registered pending accepted failed indeterminate : Status

-- PromptCommand.
pub record PromptCommand : Type 0 where
  pub device_id : Bytes
  pub client_msg_id : Bytes
  pub session_id : Bytes
  pub prompt : Bytes
  pub attachments_json : Bytes
  pub sealed_envelope_json : Bytes
  pub status : Status
  pub error : Bytes
  pub outcome : Bytes
  pub retry_allowed : Bool
  pub commit_sent : Bool
  pub created_at : ℤ
  pub updated_at : ℤ

abbrev pub Key : Type 0
Key = Bytes × Bytes

unfoldable pub key_discrete : Discrete Key
key_discrete (a, b) (c, d) = elim (bytes_discrete a c) [
  | no p ↦ no (λ e. p (ap (λ k. k.0) e))
  | yes p ↦ elim (bytes_discrete b d) [ no q ↦ no (λ e. q (ap (λ k. k.1) e)) | yes q ↦ yes (cc) ]
]

abbrev pub Table : Type 0
Table = List (Key × PromptCommand)

abbrev pub key_of : PromptCommand → Key
key_of cmd = (cmd.device_id, cmd.client_msg_id)

abbrev pub find : Key → Table → Option PromptCommand
find = lookup key_discrete

abbrev pub put : Key → PromptCommand → Table → Table
put = insert key_discrete

abbrev pub is_registered : Status → Bool
is_registered registered = true
is_registered pending = false
is_registered accepted = false
is_registered failed = false
is_registered indeterminate = false

abbrev pub is_failed : Status → Bool
is_failed registered = false
is_failed pending = false
is_failed accepted = false
is_failed failed = true
is_failed indeterminate = false

abbrev pub is_accepted : Status → Bool
is_accepted registered = false
is_accepted pending = false
is_accepted accepted = true
is_accepted failed = false
is_accepted indeterminate = false

-- `status IN ('registered', 'pending')`.
abbrev pub is_open : Status → Bool
is_open registered = true
is_open pending = true
is_open accepted = false
is_open failed = false
is_open indeterminate = false

-- The statements: the INSERT and the UPDATE of RegisterPromptCommand, those of MarkPromptForwarded,
-- MarkPromptAccepted and MarkPromptCommitted, and the two of MarkPromptFailed.
pub data Statement : Type 0 where
  inserts : PromptCommand → ℤ → Statement
  retries forwards accepts commits : Key → ℤ → Statement
  blocks : Key → Bytes → ℤ → Statement
  fails : Key → Bytes → Bytes → Bool → ℤ → Statement

abbrev pub target : Statement → Key
target (inserts cmd now) = key_of cmd
target (retries key now) = key
target (forwards key now) = key
target (accepts key now) = key
target (commits key now) = key
target (blocks key message now) = key
target (fails key message outcome retry now) = key

-- The condition of a statement on the status and on retry_allowed, and what it sets.
abbrev pub applies : Statement → PromptCommand → Bool
applies (inserts cmd now) row = false
applies (retries key now) row = is_failed row.status && row.retry_allowed
applies (forwards key now) row = is_registered row.status
applies (accepts key now) row = not (is_accepted row.status)
applies (commits key now) row = is_accepted row.status
applies (blocks key message now) row = is_open row.status || is_failed row.status
applies (fails key message outcome retry now) row = is_open row.status

abbrev pub changed : Statement → PromptCommand → PromptCommand
changed (inserts cmd now) row = row
changed (retries key now) row = record row {
  status = registered;
  error = [];
  outcome = [];
  retry_allowed = false;
  updated_at = now;
}
changed (forwards key now) row = record row { status = pending; updated_at = now }
changed (accepts key now) row = record row {
  status = accepted;
  error = [];
  outcome = ascii "accepted";
  retry_allowed = false;
  commit_sent = false;
  updated_at = now;
}
changed (commits key now) row = record row { commit_sent = true; updated_at = now }
changed (blocks key message now) row = record row {
  status = indeterminate;
  error = message;
  outcome = ascii "indeterminate";
  retry_allowed = false;
  updated_at = now;
}
changed (fails key message outcome retry now) row = record row {
  status = failed;
  error = message;
  outcome = outcome;
  retry_allowed = retry;
  updated_at = now;
}

-- The row that the INSERT adds.
abbrev pub registered_row : PromptCommand → ℤ → PromptCommand
registered_row cmd now = record cmd {
  status = registered;
  error = [];
  outcome = [];
  retry_allowed = false;
  commit_sent = false;
  created_at = now;
  updated_at = now;
}

-- A statement where no row has its key: only the INSERT affects one.
abbrev pub insert_row : Table → Statement → Table × ℕ
insert_row t (inserts cmd now) = (put (key_of cmd) (registered_row cmd now) t, 1)
insert_row t (retries key now) = (t, 0)
insert_row t (forwards key now) = (t, 0)
insert_row t (accepts key now) = (t, 0)
insert_row t (commits key now) = (t, 0)
insert_row t (blocks key message now) = (t, 0)
insert_row t (fails key message outcome retry now) = (t, 0)

abbrev pub update_row : Table → Statement → Option PromptCommand → Table × ℕ
update_row t s none = insert_row t s
update_row t s (some row) = if applies s row then (put (target s) (changed s row) t, 1) else (t, 0)

-- The table after a statement, and the number of rows that it affected.
unfoldable pub execute : Table → Statement → Table × ℕ
execute t s = update_row t s (find (target s) t)

-- Statements one after the other.
unfoldable pub execute_all : Table → List Statement → Table
execute_all t [] = t
execute_all t (s ∷ rest) = execute_all (execute t s).0 rest
