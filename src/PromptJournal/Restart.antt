-- ===== src/PromptJournal/Restart.antt =====
-- What a restart of the daemon keeps of the journal of daemon/cmd/daemon/prompt_journal.go.
use mathlib.Core.List.{Memᴰ}
use nekonest.Prelude.{
  ℕ, zero, suc, ℤ, ◌≡◌, ◌≤◌, ◌<◌, sym, ◌⊎◌, inl, inr, Bool, false, not, ◌||◌, List, [], ◌∷◌, Option,
  none, some, Bytes, Result, ok, err, arith, length, leb, is_ℤ, ◌==◌, bytes_discrete,
  length-delete_present, lookup-insert_self, Bool-cases, Result-cases, subst,
}
use nekonest.AtomicWrite.{Syscalls}
use nekonest.PromptJournal.Record.{
  Record, Error, Codec, Records, Disk, already_recorded, is_committed, prompt_journal_key,
  validate_journal_identifiers, find, put,
}
use nekonest.PromptJournal.Journal.{
  Journal, evict_oldest_committed, mark_dispatching, persist_records,
}
use nekonest.PromptJournal.Bounds.{
  IsKeyed, IsWithin, put-IsKeyed, drop_key-IsKeyed, evict_oldest_committed-drops,
}
use nekonest.PromptJournal.Once.{Recorded, put_other-Recorded, drop_evicted-Recorded, known}
use nekonest.PromptJournal.Load.{
  Opening, normalize, normalizes, check_record, load_records, trim, trim_committed, limit_of,
  load_disk, load_prompt_journal, load_opened, load_content, finish_load, with_persisted, trimmed,
}

normalize-key : (legacy : Bool) (r : Record) → (normalize legacy r).key ≡ r.key
unfolding normalize
normalize-key legacy r = ground arith

normalize-live :
    (legacy : Bool) (r : Record)
    → is_committed r.status ≡ false
    → is_committed (normalize legacy r).status ≡ false
unfolding normalize
normalize-live legacy r h = ground arith

module _ (max : ℕ) where
  trim-keeps :
      (fuel : ℕ) (m : Records) {less : Records}
      → IsKeyed m
      → length m ≤ fuel
      → trim fuel max m ≡ ok less
      → IsKeyed less × (length less ≤ max) × ((key : Bytes) → Recorded key m → Recorded key less)
  unfolding trim
  trim-keeps zero m {less} w n h = let e : m ≡ less = cc in rw (← e) (w, omega arith, λ key r. r)
  trim-keeps (suc fuel) m {less} w n h = elim (Bool-cases (leb (length m) max)) [
    | inl fits ↦ let e : m ≡ less = ground arith in rw (← e) (w, ground arith, λ key r. r)
    | inr large ↦ elim (Result-cases (evict_oldest_committed m)) [
      | inr (x, stuck) ↦ absurd (ground arith)
      | inl (room, e) ↦
          let (x, found, done, rest) = evict_oldest_committed-drops m {room = room} w e in
          let keyed : IsKeyed room = rw rest (drop_key-IsKeyed x.key m w) in
          let shorter : length room < length m =
            rw rest (length-delete_present bytes_discrete x.key x m found) in
          let (w', small, kept) =
            trim-keeps fuel room {less = less} keyed (omega arith) (ground arith) in
          (w', small, λ key r. kept key (rw rest (drop_evicted-Recorded key x m found done r)))
    ]
  ]

module _ (codec : Codec) (device : Bytes) (legacy : Bool) where
  check_record-fresh :
      (r : Record) (m : Records) {u : Unit {0}}
      → check_record codec device legacy r m ≡ ok u
      → find r.key m ≡ none
  unfolding check_record
  check_record-fresh r m h = ground arith

  load_records-keeps :
      (l : List Record) (m : Records) (changed : Bool) {loaded : Records × Bool}
      → IsKeyed m
      → load_records codec device legacy l m changed ≡ ok loaded
      → IsKeyed loaded.0
  unfolding load_records
  load_records-keeps [] m changed {loaded} w h =
      let e : (m, changed) ≡ loaded = cc in subst (λ (x : Records × Bool). IsKeyed x.0) e w
  load_records-keeps (r ∷ l) m changed {loaded} w h =
      elim (Result-cases (check_record codec device legacy r m)) [
        | inr (x, e) ↦ absurd (ground arith)
        | inl (u, e) ↦
            load_records-keeps l (put r.key (normalize legacy r) m) (changed || normalizes r)
              {loaded = loaded}
              (put-IsKeyed r.key (normalize legacy r) m (sym (normalize-key legacy r)) w)
              (ground arith)
      ]

  load_one-Recorded :
      (r x : Record) (rest : List Record) (m : Records)
      → is_committed r.status ≡ false
      → find x.key m ≡ none
      → Memᴰ r (x ∷ rest) ⊎ Recorded r.key m
      → Memᴰ r rest ⊎ Recorded r.key (put x.key (normalize legacy x) m)
  load_one-Recorded r x rest m live fresh (inl (Memᴰ.tail p)) = inl p
  load_one-Recorded r x rest m live fresh (inl (Memᴰ.head e)) = inr (
      subst (λ (y : Record). Recorded r.key (put y.key (normalize legacy y) m)) e
        (
          normalize legacy r,
          lookup-insert_self bytes_discrete r.key (normalize legacy r) m,
          normalize-live legacy r live,
        ))
  load_one-Recorded r x rest m live fresh (inr (y, found, alive)) =
      inr
        (put_other-Recorded r.key x.key (normalize legacy x) m (λ e. absurd (cc)) (y, found, alive))

  load_records-Recorded :
      (r : Record) (l : List Record) (m : Records) (changed : Bool) {loaded : Records × Bool}
      → is_committed r.status ≡ false
      → load_records codec device legacy l m changed ≡ ok loaded
      → Memᴰ r l ⊎ Recorded r.key m
      → Recorded r.key loaded.0
  unfolding load_records
  load_records-Recorded r [] m changed live h (inl p) = elim p [ ]
  load_records-Recorded r [] m changed {loaded} live h (inr found) =
      let e : (m, changed) ≡ loaded = cc in
      subst (λ (x : Records × Bool). Recorded r.key x.0) e found
  load_records-Recorded r (x ∷ l) m changed {loaded} live h c =
      elim (Result-cases (check_record codec device legacy x m)) [
        | inr (bad, e) ↦ absurd (ground arith)
        | inl (u, e) ↦
            load_records-Recorded r l (put x.key (normalize legacy x) m) (changed || normalizes x)
              {loaded = loaded} live (ground arith)
              (load_one-Recorded r x l m live (check_record-fresh x m e) c)
      ]

-- What a loaded map keeps of the records of the file.
abbrev pub Keeps : ℕ → List Record → Records → Type 0
Keeps max l m =
    IsKeyed m
    × (length m ≤ max)
    × ((r : Record) → Memᴰ r l → is_committed r.status ≡ false → Recorded r.key m)

trimmed-Keeps :
    (codec : Codec) (device : Bytes) (max : ℕ) (legacy : Bool) (l : List Record)
    {loaded : Records × Bool}
    → trimmed codec device max (load_records codec device legacy l [] legacy) ≡ ok loaded
    → Keeps max l loaded.0
unfolding trim_committed
trimmed-Keeps codec device max legacy l {loaded} h =
    elim (Result-cases (load_records codec device legacy l [] legacy)) [
      | inr (x, e) ↦ absurd (ground arith)
      | inl ((m, changed), e) ↦ elim (Result-cases (trim (length m) max m)) [
        | inr (x, stuck) ↦ absurd (ground arith)
        | inl (less, f) ↦
            let empty : IsKeyed [] = record { keys = tt; unique = tt } in
            let w =
              load_records-keeps codec device legacy l [] legacy {loaded = (m, changed)} empty e in
            let (w', small, kept) = trim-keeps max (length m) m {less = less} w (omega arith) f in
            let same : less ≡ loaded.0 = ground arith in
            subst (λ (x : Records). Keeps max l x) same
              (
                w',
                small,
                λ r p live. kept r.key (
                    load_records-Recorded codec device legacy r l [] legacy {loaded = (m, changed)}
                      live e (inl p)),
              )
      ]
    ]

load_disk-Keeps :
    (codec : Codec) (device : Bytes) (max : ℕ) (disk : Disk) {loaded : Records × Bool}
    → load_disk codec device max disk ≡ ok loaded
    → Keeps max disk.records loaded.0
unfolding load_disk
load_disk-Keeps codec device max disk {loaded} h =
    trimmed-Keeps codec device max (is_ℤ disk.version 1) disk.records {loaded = loaded}
      (ground arith)

with_persisted-ok :
    (codec : Codec) (device : Bytes) (max : ℕ) (m : Records)
    (p : Option Bytes × Result Error (Unit {0})) {j : Journal}
    → (with_persisted codec device max m p).1 ≡ ok j
    → (j.device_hash ≡ device) × (j.max ≡ max) × (j.records ≡ m)
with_persisted-ok codec device max m (file, ok _) h = ground arith
with_persisted-ok codec device max m (file, err e) h = absurd (cc)

finish_load-ok :
    (codec : Codec) (device : Bytes) (max : ℕ) (os : Syscalls) (file : Option Bytes) (disk : Disk)
    (loaded : Records × Bool) {j : Journal}
    → (finish_load codec device max os file disk (ok loaded)).1 ≡ ok j
    → (j.device_hash ≡ device) × (j.max ≡ max) × (j.records ≡ loaded.0)
finish_load-ok codec device max os file disk (m, changed) {j} h =
    elim (Bool-cases (changed || not (length m == length disk.records))) [
      | inl y ↦
          with_persisted-ok codec device max m (persist_records codec os device file m) {j = j}
            (ground arith)
      | inr n ↦ ground arith
    ]

load_content-ok :
    (codec : Codec) (device : Bytes) (max : ℕ) (os : Syscalls) (file : Option Bytes) (disk : Disk)
    {j : Journal}
    → (load_content codec device max os file (some disk)).1 ≡ ok j
    → (j.device_hash ≡ device) × (j.max ≡ max) × Keeps max disk.records j.records
load_content-ok codec device max os file disk {j} h =
    elim (Result-cases (load_disk codec device max disk)) [
      | inr (x, e) ↦ absurd (ground arith)
      | inl (loaded, e) ↦
          let (device', max', m) =
            finish_load-ok codec device max os file disk loaded {j = j} (ground arith) in
          (device', max', rw m (load_disk-Keeps codec device max disk {loaded = loaded} e))
    ]

load_opened-ok :
    (codec : Codec) (device : Bytes) (max : ℕ) (open_file : Opening) (os : Syscalls)
    (content : Bytes) {j : Journal}
    → (load_opened codec device max open_file os content).1 ≡ ok j
    → (load_content codec device max os (some content) (codec.unmarshal content)).1 ≡ ok j
load_opened-ok codec device max open_file os content h = ground arith

-- Whatever the daemon did before it stopped: a prompt that its file records as anything but
-- committed, dispatching included, is refused by the journal that a restart loads from the file,
-- and that journal has no key twice and keeps within its limit.
pub load_prompt_journal-refuses :
    (codec : Codec) (open_file : Opening) (os os' : Syscalls) (device_id : Bytes) (max : ℤ)
    (content : Bytes) (disk : Disk) (r : Record) (now : ℤ) (session client prompt : Bytes)
    {j : Journal}
    → codec.unmarshal content ≡ some disk
    → (load_prompt_journal codec open_file os device_id max (some content)).1 ≡ ok j
    → Memᴰ r disk.records
    → is_committed r.status ≡ false
    → r.key ≡ prompt_journal_key codec (codec.digest device_id) session client
    → validate_journal_identifiers session client ≡ ok tt
    → IsWithin (limit_of max) j.records
      × (mark_dispatching codec os' j now session client prompt ≡ (j, err already_recorded))
unfolding load_prompt_journal
load_prompt_journal-refuses codec open_file os os' device_id max content disk r now session client
      prompt {j} decoded h p live key valid =
    let device = codec.digest device_id in
    let opened = load_opened-ok codec device (limit_of max) open_file os content {j = j} h in
    let (device', max', keeps) =
      load_content-ok codec device (limit_of max) os (some content) disk {j = j}
        (rw decoded at opened) in
    let (w, small, kept) = keeps in
    (
      record { keyed = w; small = small },
      known codec os' j now session client prompt valid (rw (device', ← key) (kept r p live)),
    )
