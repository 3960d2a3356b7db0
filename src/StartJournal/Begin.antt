-- ===== src/StartJournal/Begin.antt =====
-- One operation id, one thread start (daemon/internal/startjournal/journal.go).
use nekonest.Prelude.{
  ℤ, ◌≡◌, true, false, inl, inr, Bytes, ok, err, arith, Result-cases, Option-cases, bytes_discrete,
  lookup-insert_self,
}
use nekonest.AtomicWrite.{Syscalls}
use nekonest.StartJournal.Record.{
  Record, Request, Codec, conflict, find, put, same_request, operation_key, validate_operation_id,
  validate_request,
}
use nekonest.StartJournal.Journal.{Journal, begin, started, commit, persist}

-- A start that was recorded is replayed to a second call with the same request, which changes nothing,
-- and refused as a conflict to a call with another valid request.
pub begin_again :
    (codec : Codec) (os os' : Syscalls) (j : Journal) (now later : ℤ) (operation : Bytes)
    (request different : Request) {r : Record}
    → (begin codec os j now operation request).1 ≡ ok (r, true)
    → validate_request different ≡ ok tt
    → same_request r different ≡ false
    → let after = (begin codec os j now operation request).0 in
      (begin codec os' after later operation request ≡ (after, ok (r, false)))
      × (begin codec os' after later operation different ≡ (after, err conflict))
unfolding begin commit
begin_again codec os os' j now later operation request different {r} h valid unlike =
    let key = operation_key codec j.device_hash operation in
    let new = started key operation request now in
    let found = lookup-insert_self bytes_discrete key new j.records in
    elim (Result-cases (validate_operation_id operation)) [
      | inr (x, e) ↦ absurd (ground arith)
      | inl (u, e) ↦ elim (Result-cases (validate_request request)) [
        | inr (x, f) ↦ absurd (ground arith)
        | inl (v, f) ↦ elim (Option-cases (find key j.records)) [
          | inr (old, g) ↦ absurd (ground arith)
          | inl g ↦
              elim (Result-cases
                (persist codec os j.device_hash j.file (put key new j.records)).1) [
                  | inr (x, p) ↦ absurd (ground arith)
                  | inl (w, p) ↦ (ground (arith, found), ground (arith, found))
                ]
        ]
      ]
    ]
