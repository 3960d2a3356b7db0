-- ===== src/AtomicWrite.antt =====
-- writeFileAtomic of daemon/cmd/daemon/prompt_journal.go, with which the daemon replaces its
-- durable files. The calls of the operating system succeed or fail as the caller's environment
-- says; a write goes to a temporary file, so the file itself changes at the rename only.
use nekonest.Prelude.{
  Result-cases, inl, inr, ◌⊎◌, ◌≡◌, ◌≢◌, Bool, true, not, Option, some, arith, Bytes, Result, ok,
  err, if◌then◌else◌,
}

-- Which calls succeed.
pub record Syscalls : Type 0 where
  pub mkdir_all : Bool
  pub create_temp : Bool
  pub chmod_temp : Bool
  pub write : Bool
  pub sync : Bool
  pub close : Bool
  pub rename : Bool
  pub chmod : Bool

pub data IoError : Type 0 where
  mkdir_failed create_failed chmod_temp_failed write_failed : IoError
  sync_failed close_failed rename_failed chmod_failed : IoError

-- The file after the call, and what the call returns.
unfoldable pub write_file_atomic :
    Syscalls → Option Bytes → Bytes → Option Bytes × Result IoError (Unit {0})
write_file_atomic os file content =
    if not os.mkdir_all
    then (file, err mkdir_failed)
    else if not os.create_temp
    then (file, err create_failed)
    else if not os.chmod_temp
    then (file, err chmod_temp_failed)
    else if not os.write
    then (file, err write_failed)
    else if not os.sync
    then (file, err sync_failed)
    else if not os.close
    then (file, err close_failed)
    else if not os.rename
    then (file, err rename_failed)
    else if not os.chmod
    then (some content, err chmod_failed)
    else (some content, ok tt)

-- A call succeeds and the file holds the whole content; or its last chmod fails and the file
-- holds the content all the same; or another call fails and the file is as it was.
write_file_atomic_lem :
    (os : Syscalls) (file : Option Bytes) (content : Bytes)
    → let r = write_file_atomic os file content in
      ((r.1 ≡ ok tt) × (r.0 ≡ some content))
      ⊎ ((r.1 ≡ err chmod_failed) × (r.0 ≡ some content))
      ⊎ ((e : IoError) × (r.1 ≡ err e) × (e ≢ chmod_failed) × (r.0 ≡ file))
unfolding write_file_atomic
write_file_atomic_lem os file content = elim (Result-cases (write_file_atomic os file content).1) [
  | inl (u, e) ↦ inl (e, ground arith)
  | inr (chmod_failed, e) ↦ inr (inl (e, ground arith))
  | inr (mkdir_failed, e) ↦ inr (inr (mkdir_failed, e, cc, ground arith))
  | inr (create_failed, e) ↦ inr (inr (create_failed, e, cc, ground arith))
  | inr (chmod_temp_failed, e) ↦ inr (inr (chmod_temp_failed, e, cc, ground arith))
  | inr (write_failed, e) ↦ inr (inr (write_failed, e, cc, ground arith))
  | inr (sync_failed, e) ↦ inr (inr (sync_failed, e, cc, ground arith))
  | inr (close_failed, e) ↦ inr (inr (close_failed, e, cc, ground arith))
  | inr (rename_failed, e) ↦ inr (inr (rename_failed, e, cc, ground arith))
]

-- Where the last chmod failed, the file holds the new content.
pub write_file_atomic-chmod_failed :
    (os : Syscalls) (file : Option Bytes) (content : Bytes)
    → (write_file_atomic os file content).1 ≡ err chmod_failed
    → (write_file_atomic os file content).0 ≡ some content
unfolding write_file_atomic
write_file_atomic-chmod_failed os file content h = ground arith

-- The two ends of a call: the content is in place, or an error is returned and, unless the last
-- chmod failed, the file is as it was.
pub write_file_atomic_cases :
    (os : Syscalls) (file : Option Bytes) (content : Bytes)
    → let r = write_file_atomic os file content in
      ((r.1 ≡ ok tt) × (r.0 ≡ some content))
      ⊎ ((e : IoError) × (r.1 ≡ err e) × (os.chmod ≡ true → r.0 ≡ file))
unfolding write_file_atomic
write_file_atomic_cases os file content =
    elim (Result-cases (write_file_atomic os file content).1) [
      | inl (u, e) ↦ inl (e, ground arith)
      | inr (x, e) ↦ inr (x, e, ground arith)
    ]

-- Where every call succeeds so does the whole.
abbrev pub working : Syscalls
working = record {
  mkdir_all = true;
  create_temp = true;
  chmod_temp = true;
  write = true;
  sync = true;
  close = true;
  rename = true;
  chmod = true;
}
