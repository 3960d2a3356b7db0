-- ===== src/PromptJournal/Once.antt =====
-- A prompt is given to its agent at most once: what the journal of
-- daemon/cmd/daemon/prompt_journal.go remembers of a dispatched prompt.
use mathlib.Core.Logic.{if_neg}
use nekonest.Prelude.{
  true, ℕ, ℤ, ◌≡◌, ◌≢◌, refl, sym, ◌∙◌, inl, inr, false, List, [], ◌∷◌, some, Bytes, Result, ok,
  err, arith, bytes_discrete, lookup-insert, lookup-delete, lookup-insert_self, ite-keeps,
  Option-cases, Result-cases,
}
use nekonest.AtomicWrite.{Syscalls}
use nekonest.PromptJournal.Record.{
  Record, Error, Codec, Records, Status, already_recorded, is_committed, prompt_journal_key,
  validate_journal_identifiers, find, put, drop_key,
}
use nekonest.PromptJournal.Journal.{Journal, make_room, new_record, moved_record, mark_dispatching}
use nekonest.PromptJournal.Steps.{
  Command, dispatches, rolls_back, accepts, gives_up, commits, Change, dispatched, rolled_back,
  moved, After, kept, wrote, outcome, run, outcome-After, Names,
}
use nekonest.PromptJournal.Bounds.{IsKeyed, IsWithin, make_room_cases, commit_cases, After-IsWithin}

-- The journal remembers a prompt that is not committed.
abbrev pub Recorded : Bytes → Records → Type 0
Recorded key m = (r : Record) × (find key m ≡ some r) × (is_committed r.status ≡ false)

-- The operation neither rolls back nor commits the prompt of the key.
abbrev pub Leaves : Codec → Bytes → Bytes → Command → Type 0
Leaves codec device key (rolls_back s c) = prompt_journal_key codec device s c ≢ key
Leaves codec device key (commits now s c) = prompt_journal_key codec device s c ≢ key
Leaves codec device key _ = Unit

abbrev pub AllLeave : Codec → Bytes → Bytes → List (Syscalls × Command) → Type 0
AllLeave codec device key [] = Unit
AllLeave codec device key ((os, c) ∷ cs) = Leaves codec device key c × AllLeave codec device key cs

pub put_other-Recorded :
    (key other : Bytes) (new : Record) (m : Records)
    → (other ≡ key → is_committed new.status ≡ false)
    → Recorded key m
    → Recorded key (put other new m)
put_other-Recorded key other new m h (r, found, live) =
    rw (lookup-insert bytes_discrete other key new m) (
      ite-keeps (bytes_discrete other key)
        (λ o. (x : Record) × (o ≡ some x) × (is_committed x.status ≡ false)) (λ e. (new, refl, h e))
        (λ _. (r, found, live)))

drop_other-Recorded :
    (key other : Bytes) (m : Records)
    → other ≢ key
    → Recorded key m
    → Recorded key (drop_key other m)
drop_other-Recorded key other m n (r, found, live) = (
  r,
  lookup-delete bytes_discrete other key m ∙ if_neg (bytes_discrete other key) n _ _ ∙ found,
  live,
)

-- An eviction does not drop a record that is not committed.
pub drop_evicted-Recorded :
    (key : Bytes) (x : Record) (m : Records)
    → find x.key m ≡ some x
    → is_committed x.status ≡ true
    → Recorded key m
    → Recorded key (drop_key x.key m)
drop_evicted-Recorded key x m gone done (r, found, live) =
    drop_other-Recorded key x.key m
      (λ e.
        absurd
          (let found' : find x.key m ≡ some r = rw e found in let eq : x ≡ r = cc in ground arith))
      (r, found, live)

room-Recorded :
    (key : Bytes) (max : ℕ) (m : Records) {room : Records}
    → IsKeyed m
    → make_room max m ≡ ok room
    → Recorded key m
    → Recorded key room
room-Recorded key max m {room} w h (r, found, live) =
    elim (make_room_cases max m {room = room} w h) [
      | inl (same, less) ↦ rw same (r, found, live)
      | inr (x, gone, done, rest) ↦
          rw rest (drop_evicted-Recorded key x m gone done (r, found, live))
    ]

moved-live :
    (codec : Codec) (device key other : Bytes) (status : Status) (c : Command)
    → Names codec device other status c
    → Leaves codec device key c
    → other ≡ key
    → is_committed status ≡ false
moved-live codec device key other status (dispatches now s c p) n l e = absurd n
moved-live codec device key other status (rolls_back s c) n l e = absurd n
moved-live codec device key other status (accepts now s c) (p, q) l e = rw p refl
moved-live codec device key other status (gives_up now s c) (p, q) l e = rw p refl
moved-live codec device key other status (commits now s c) (p, q) l e = absurd (l (sym q ∙ e))

Change-Recorded :
    {codec : Codec} {j : Journal} {c : Command} {next : Records} (key : Bytes)
    → Change codec j c next
    → IsKeyed j.records
    → Leaves codec j.device_hash key c
    → Recorded key j.records
    → Recorded key next
Change-Recorded {j = j} key (dispatched now session client prompt other room k free made) w l r =
    put_other-Recorded key other (new_record other session client prompt now) room (λ _. refl)
      (room-Recorded key j.max j.records {room = room} w made r)
Change-Recorded {j = j} key (rolled_back session client other x k found waits) w l r =
    drop_other-Recorded key other j.records (λ e. l (sym k ∙ e)) r
Change-Recorded {codec} {j} key (moved c now session client other status x found may names) w l r =
    put_other-Recorded key other (moved_record x session client status now) j.records
      (moved-live codec j.device_hash key other status c names l) r

After-Recorded :
    {codec : Codec} {os : Syscalls} {j : Journal} {c : Command}
    {r : Journal × Result Error (Unit {0})} (key : Bytes)
    → After codec os j c r
    → IsKeyed j.records
    → Leaves codec j.device_hash key c
    → Recorded key j.records
    → (r.0.device_hash ≡ j.device_hash) × Recorded key r.0.records
After-Recorded key (kept x) w l r = (refl, r)
After-Recorded {codec} {os} {j} key (wrote next change) w l r =
    let (max, device, ends) = commit_cases codec os j next in
    (
      device,
      elim ends [
        | inl (done, new) ↦ rw new (Change-Recorded key change w l r)
        | inr (x, failed, old) ↦ rw old r
      ],
    )

run-Recorded :
    (codec : Codec) (j : Journal) (cs : List (Syscalls × Command)) (key : Bytes)
    → IsWithin j.max j.records
    → AllLeave codec j.device_hash key cs
    → Recorded key j.records
    → ((run codec j cs).device_hash ≡ j.device_hash) × Recorded key (run codec j cs).records
unfolding run
run-Recorded codec j [] key w l r = (refl, r)
run-Recorded codec j ((os, c) ∷ cs) key w l r =
    let after = outcome-After codec os j c in
    let (device, r') = After-Recorded key after w.keyed l.0 r in
    let (max, w') = After-IsWithin after w in
    let next = (outcome codec j (os, c)).0 in
    let (same, found) = run-Recorded codec next cs key (rw max w') (rw device l.1) r' in
    (same ∙ device, found)

mark_dispatching-Recorded :
    (codec : Codec) (os : Syscalls) (j : Journal) (now : ℤ) (session client prompt : Bytes)
    → (mark_dispatching codec os j now session client prompt).1 ≡ ok tt
    → (validate_journal_identifiers session client ≡ ok tt)
      × Recorded
          (prompt_journal_key codec j.device_hash session client)
          (mark_dispatching codec os j now session client prompt).0.records
unfolding mark_dispatching
mark_dispatching-Recorded codec os j now session client prompt h =
    let key = prompt_journal_key codec j.device_hash session client in
    let new = new_record key session client prompt now in
    elim (Result-cases (validate_journal_identifiers session client)) [
      | inr (x, e) ↦ absurd (ground arith)
      | inl (u, e) ↦ elim (Option-cases (find key j.records)) [
        | inr (r, f) ↦ absurd (ground arith)
        | inl f ↦ elim (Result-cases (make_room j.max j.records)) [
          | inr (x, full) ↦ absurd (ground arith)
          | inl (room, made) ↦
              let (max, device, ends) = commit_cases codec os j (put key new room) in
              elim ends [
                | inr (x, failed, old) ↦ absurd (ground arith)
                | inl (done, records) ↦
                    let r : Recorded key
                        (mark_dispatching codec os j now session client prompt).0.records =
                      (new, ground (arith, lookup-insert_self bytes_discrete key new room), refl) in
                    (e, r)
              ]
        ]
      ]
    ]

After-device :
    {codec : Codec} {os : Syscalls} {j : Journal} {c : Command}
    {r : Journal × Result Error (Unit {0})}
    → After codec os j c r
    → r.0.device_hash ≡ j.device_hash
After-device (kept x) = refl
After-device {codec} {os} {j} (wrote next change) = (commit_cases codec os j next).1

pub known :
    (codec : Codec) (os : Syscalls) (j : Journal) (now : ℤ) (session client prompt : Bytes)
    → validate_journal_identifiers session client ≡ ok tt
    → Recorded (prompt_journal_key codec j.device_hash session client) j.records
    → mark_dispatching codec os j now session client prompt ≡ (j, err already_recorded)
unfolding mark_dispatching
known codec os j now session client prompt v (r, found, live) =
    rw (v, mark_dispatching) (rw found refl)

-- A prompt that was recorded for dispatch is not recorded again, whatever operations follow, on this
-- prompt or others and with any failing writes, as long as this one is neither rolled back nor
-- committed: the second attempt is refused and changes nothing.
pub mark_dispatching_once :
    (codec : Codec) (os os' : Syscalls) (j : Journal) (now later : ℤ)
    (session client prompt prompt' : Bytes) (cs : List (Syscalls × Command))
    → IsWithin j.max j.records
    → (mark_dispatching codec os j now session client prompt).1 ≡ ok tt
    → AllLeave codec j.device_hash (prompt_journal_key codec j.device_hash session client) cs
    → let after = run codec (mark_dispatching codec os j now session client prompt).0 cs in
      mark_dispatching codec os' after later session client prompt' ≡ (after, err already_recorded)
unfolding outcome
mark_dispatching_once codec os os' j now later session client prompt prompt' cs w h l =
    let key = prompt_journal_key codec j.device_hash session client in
    let first = (mark_dispatching codec os j now session client prompt).0 in
    let step = outcome-After codec os j (dispatches now session client prompt) in
    let (max, w') = After-IsWithin step w in
    let device = After-device step in
    let (v, r) = mark_dispatching-Recorded codec os j now session client prompt h in
    let (same, r') = run-Recorded codec first cs key (rw max w') (rw device l) r in
    known codec os' (run codec first cs) later session client prompt' v (rw (same, device) r')
