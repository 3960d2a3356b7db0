-- ===== src/PromptJournal/Durable.antt =====
-- The journal in memory and its file: persistRecords and its callers in
-- daemon/cmd/daemon/prompt_journal.go write before they take the new records over.
use nekonest.Prelude.{
  ◌≡◌, refl, ◌⊎◌, inl, inr, true, false, Option, some, Bytes, Result, ok, err, arith, ltb, length,
  Option-cases, Bool-cases,
}
use nekonest.AtomicWrite.{Syscalls, write_file_atomic_cases}
use nekonest.PromptJournal.Record.{
  Codec, Records, Error, marshal_failed, too_large, write_failed, max_prompt_journal_bytes,
}
use nekonest.PromptJournal.Journal.{Journal, commit, persist_records, disk_of}
use nekonest.PromptJournal.Steps.{Command, After, kept, wrote, outcome, outcome-After}

-- The file holds the encoding of the records.
abbrev pub Synced : Codec → Bytes → Records → Option Bytes → Type 0
Synced codec device m file =
    (content : Bytes) × (codec.marshal (disk_of device m) ≡ some content) × (file ≡ some content)

-- What a call that writes leaves behind: the new records in memory and in the file, or an error and
-- the old records, with the old file unless the last chmod failed.
abbrev pub Settled : Codec → Syscalls → Journal → Journal × Result Error (Unit {0}) → Type 0
Settled codec os j r =
    ((r.1 ≡ ok tt) × Synced codec j.device_hash r.0.records r.0.file)
    ⊎ ((e : Error) × (r.1 ≡ err e)
        × (r.0.records ≡ j.records)
        × ((r.0.file ≡ j.file) ⊎ (os.chmod ≡ false)))

file_or_chmod :
    (os : Syscalls) {file before : Option Bytes}
    → (os.chmod ≡ true → file ≡ before)
    → (file ≡ before) ⊎ (os.chmod ≡ false)
file_or_chmod os old = elim (Bool-cases os.chmod) [ inl y ↦ inl (old y) | inr n ↦ inr n ]

commit-Settled :
    (codec : Codec) (os : Syscalls) (j : Journal) (next : Records)
    → Settled codec os j (commit codec os j next)
unfolding commit persist_records
commit-Settled codec os j next = elim (Option-cases (codec.marshal (disk_of j.device_hash next))) [
  | inl bad ↦ inr (marshal_failed, ground arith, ground arith, inl (ground arith))
  | inr (content, e) ↦ elim (Bool-cases (ltb max_prompt_journal_bytes (length content))) [
    | inl large ↦ inr (too_large, ground arith, ground arith, inl (ground arith))
    | inr fits ↦ elim (write_file_atomic_cases os j.file content) [
      | inl (done, new) ↦ inl (ground arith, (content, ground arith, ground arith))
      | inr (x, failed, old) ↦ inr (
        write_failed x,
        ground arith,
        ground arith,
        file_or_chmod os (λ c. ground (arith, old c)),
      )
    ]
  ]
]

After-Settled :
    {codec : Codec} {os : Syscalls} {j : Journal} {c : Command}
    {r : Journal × Result Error (Unit {0})}
    → After codec os j c r
    → (r.0 ≡ j) ⊎ Settled codec os j r
After-Settled (kept x) = inl refl
After-Settled {codec} {os} {j} (wrote next change) = inr (commit-Settled codec os j next)

-- An operation changes nothing; or it succeeds, and the file holds the encoding of the records in
-- memory; or it returns an error, the records in memory are as they were, and so is the file unless
-- its last chmod failed.
pub outcome-Settled :
    (codec : Codec) (os : Syscalls) (j : Journal) (c : Command)
    → let r = outcome codec j (os, c) in (r.0 ≡ j) ⊎ Settled codec os j r
outcome-Settled codec os j c = After-Settled (outcome-After codec os j c)
