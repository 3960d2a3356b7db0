-- ===== src/PromptJournal/Steps.antt =====
-- The life of a journal as a sequence of operations, and what one operation can do to the records
-- (daemon/cmd/daemon/prompt_journal.go).
use nekonest.Prelude.{
  Option-cases, ℤ, ◌≡◌, refl, true, inl, inr, List, [], ◌∷◌, none, some, Bytes, Result, ok,
  Result-cases, Bool-cases,
}
use nekonest.AtomicWrite.{Syscalls}
use nekonest.PromptJournal.Record.{
  Status, accepted, committed, indeterminate, Record, Error, Codec, Records, is_dispatching,
  prompt_journal_key, validate_journal_identifiers, find, put, drop_key,
}
use nekonest.PromptJournal.Journal.{
  Journal, same_status, allowed, make_room, new_record, moved_record, commit, mark_dispatching,
  rollback_dispatching, transition, mark_accepted, mark_indeterminate, mark_committed,
}

pub data Command : Type 0 where
  dispatches : ℤ → Bytes → Bytes → Bytes → Command
  rolls_back : Bytes → Bytes → Command
  accepts gives_up commits : ℤ → Bytes → Bytes → Command

unfoldable pub outcome : Codec → Journal → Syscalls × Command → Journal × Result Error (Unit {0})
outcome codec j (os, dispatches now session client prompt) =
    mark_dispatching codec os j now session client prompt
outcome codec j (os, rolls_back session client) = rollback_dispatching codec os j session client
outcome codec j (os, accepts now session client) = mark_accepted codec os j now session client
outcome codec j (os, gives_up now session client) = mark_indeterminate codec os j now session client
outcome codec j (os, commits now session client) = mark_committed codec os j now session client

unfoldable pub run : Codec → Journal → List (Syscalls × Command) → Journal
run codec j [] = j
run codec j (c ∷ cs) = run codec (outcome codec j c).0 cs

-- Whether a command asks for a record to be moved to a status.
abbrev pub Names : Codec → Bytes → Bytes → Status → Command → Type 0
Names codec device key status (accepts now s c) =
    (status ≡ accepted) × (key ≡ prompt_journal_key codec device s c)
Names codec device key status (gives_up now s c) =
    (status ≡ indeterminate) × (key ≡ prompt_journal_key codec device s c)
Names codec device key status (commits now s c) =
    (status ≡ committed) × (key ≡ prompt_journal_key codec device s c)
Names codec device key status _ = ⊥

-- What one operation writes.
pub data Change (codec : Codec) (j : Journal) : Command → Records → Type 0 where
  dispatched :
      (now : ℤ) (session client prompt key : Bytes) (room : Records)
      → key ≡ prompt_journal_key codec j.device_hash session client
      → find key j.records ≡ none
      → make_room j.max j.records ≡ ok room
      → Change codec j
          (dispatches now session client prompt)
          (put key (new_record key session client prompt now) room)
  rolled_back :
      (session client key : Bytes) (r : Record)
      → key ≡ prompt_journal_key codec j.device_hash session client
      → find key j.records ≡ some r
      → is_dispatching r.status ≡ true
      → Change codec j (rolls_back session client) (drop_key key j.records)
  moved :
      (c : Command) (now : ℤ) (session client key : Bytes) (status : Status) (r : Record)
      → find key j.records ≡ some r
      → allowed r.status status ≡ ok tt
      → Names codec j.device_hash key status c
      → Change codec j c (put key (moved_record r session client status now) j.records)

-- An operation keeps the journal or commits a change.
pub data After (codec : Codec) (os : Syscalls) (j : Journal) (c : Command)
    : Journal × Result Error (Unit {0}) → Type 0 where
  kept : (x : Result Error (Unit {0})) → After codec os j c (j, x)
  wrote : (next : Records) → Change codec j c next → After codec os j c (commit codec os j next)

module _ (codec : Codec) (os : Syscalls) (j : Journal) where
  dispatch-After :
      (now : ℤ) (session client prompt : Bytes)
      → After codec os j
          (dispatches now session client prompt)
          (mark_dispatching codec os j now session client prompt)
  unfolding mark_dispatching
  dispatch-After now session client prompt =
      let key = prompt_journal_key codec j.device_hash session client in
      elim (Result-cases (validate_journal_identifiers session client)) [
        | inr (x, e) ↦ rw (e, mark_dispatching) (After.kept _)
        | inl (u, e) ↦ elim (Option-cases (find key j.records)) [
          | inr (r, f) ↦ rw (e, mark_dispatching) (rw f (After.kept _))
          | inl f ↦ elim (Result-cases (make_room j.max j.records)) [
            | inr (x, full) ↦ rw (e, mark_dispatching) (rw f (rw full (After.kept _)))
            | inl (room, made) ↦
                rw (e, mark_dispatching)
                  (rw f (
                    rw made (
                      After.wrote _
                        (Change.dispatched now session client prompt key room refl f made))))
          ]
        ]
      ]

  rollback-After :
      (session client : Bytes)
      → After codec os j
          (rolls_back session client)
          (rollback_dispatching codec os j session client)
  unfolding rollback_dispatching
  rollback-After session client =
      let key = prompt_journal_key codec j.device_hash session client in
      elim (Result-cases (validate_journal_identifiers session client)) [
        | inr (x, e) ↦ rw (e, rollback_dispatching) (After.kept _)
        | inl (u, e) ↦ elim (Option-cases (find key j.records)) [
          | inl f ↦ rw (e, rollback_dispatching) (rw f (After.kept _))
          | inr (r, f) ↦ elim (Bool-cases (is_dispatching r.status)) [
            | inr moved_on ↦ rw (e, rollback_dispatching) (rw (f, moved_on) (After.kept _))
            | inl waits ↦
                rw (e, rollback_dispatching)
                  (rw (f, waits)
                    (After.wrote _ (Change.rolled_back session client key r refl f waits)))
          ]
        ]
      ]

  transition-After :
      (c : Command) (now : ℤ) (session client : Bytes) (status : Status)
      → Names codec j.device_hash (prompt_journal_key codec j.device_hash session client) status c
      → After codec os j c (transition codec os j now session client status)
  unfolding transition
  transition-After c now session client status names =
      let key = prompt_journal_key codec j.device_hash session client in
      elim (Result-cases (validate_journal_identifiers session client)) [
        | inr (x, e) ↦ rw (e, transition) (After.kept _)
        | inl (u, e) ↦ elim (Option-cases (find key j.records)) [
          | inl f ↦ rw (e, transition) (rw f (After.kept _))
          | inr (r, f) ↦ elim (Bool-cases (same_status r.status status)) [
            | inl there ↦ rw (e, transition) (rw (f, there) (After.kept _))
            | inr elsewhere ↦ elim (Result-cases (allowed r.status status)) [
              | inr (x, refused) ↦
                  rw (e, transition) (rw (f, elsewhere) (rw refused (After.kept _)))
              | inl (v, may) ↦
                  rw (e, transition)
                    (rw (f, elsewhere)
                      (rw may (
                        After.wrote _
                          (Change.moved c now session client key status r f may names))))
            ]
          ]
        ]
      ]

pub outcome-After :
    (codec : Codec) (os : Syscalls) (j : Journal) (c : Command)
    → After codec os j c (outcome codec j (os, c))
unfolding outcome
outcome-After codec os j (dispatches now session client prompt) =
    dispatch-After codec os j now session client prompt
outcome-After codec os j (rolls_back session client) = rollback-After codec os j session client
outcome-After codec os j (accepts now session client) =
    transition-After codec os j (accepts now session client) now session client accepted
      (refl, refl)
outcome-After codec os j (gives_up now session client) =
    transition-After codec os j (gives_up now session client) now session client indeterminate
      (refl, refl)
outcome-After codec os j (commits now session client) =
    transition-After codec os j (commits now session client) now session client committed
      (refl, refl)
