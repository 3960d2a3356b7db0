-- ===== src/PromptJournal/Bounds.antt =====
-- The map of the journal (daemon/cmd/daemon/prompt_journal.go): each record under its key, no key
-- twice, and no more records than the limit.
use mathlib.Core.List.{Memᴰ}
use mathlib.Core.Logic.{if_pos, if_neg}
use nekonest.Prelude.{
  ℕ, suc, ◌≡◌, ◌≢◌, ◌≤◌, ◌<◌, refl, sym, ap, ◌∙◌, ◌⊎◌, inl, inr, true, List, [], ◌∷◌, Option, none,
  some, Bytes, Result, ok, err, arith, values, length, leb, ltb_ℤ, bytes_discrete, Every, Unique,
  Absent, Every-insert, Every-delete, Every-lookup, subst, insert-Unique, delete-Unique, lookup,
  length-insert_absent, length-insert_present, length-delete_le, length-delete_present, Bool-cases,
  Option-cases, Result-cases,
}
use nekonest.AtomicWrite.{Syscalls}
use nekonest.PromptJournal.Record.{Record, Error, Codec, Records, is_committed, find, put, drop_key}
use nekonest.PromptJournal.Journal.{
  Journal, older, oldest_committed, evict_oldest_committed, make_room, commit, persist_records,
  new_record, moved_record,
}
use nekonest.PromptJournal.Steps.{
  Command, Change, dispatched, rolled_back, moved, After, kept, wrote, outcome, run, outcome-After,
}

abbrev IsKey : Bytes → Record → Type 0
IsKey key r = key ≡ r.key

pub record IsKeyed (m : Records) : Type 0 where
  pub keys : Every IsKey m
  pub unique : Unique m

pub put-IsKeyed :
    (key : Bytes) (r : Record) (m : Records) → key ≡ r.key → IsKeyed m → IsKeyed (put key r m)
put-IsKeyed key r m e w = record {
  keys = Every-insert bytes_discrete IsKey key r m e w.keys;
  unique = insert-Unique bytes_discrete key r m w.unique;
}

pub drop_key-IsKeyed : (key : Bytes) (m : Records) → IsKeyed m → IsKeyed (drop_key key m)
drop_key-IsKeyed key m w = record {
  keys = Every-delete bytes_discrete IsKey key m w.keys;
  unique = delete-Unique bytes_discrete key m w.unique;
}

Absent-key :
    (j : Bytes) (r : Record) (m : Records)
    → Every IsKey m
    → Absent j m
    → Memᴰ r (values m)
    → j ≢ r.key
Absent-key j r [] w a p = elim p [ ]
Absent-key j r ((k, x) ∷ m) w a (Memᴰ.head p) = λ e. a.0 (w.0 ∙ ap Record.key (sym p) ∙ sym e)
Absent-key j r ((k, x) ∷ m) w a (Memᴰ.tail p) = Absent-key j r m w.1 a.1 p

pub find-listed : (r : Record) (m : Records) → IsKeyed m → Memᴰ r (values m) → find r.key m ≡ some r
unfolding lookup
find-listed r [] w p = elim p [ ]
find-listed r ((j, x) ∷ m) w (Memᴰ.head p) =
    rw (if_pos _ (w.keys.0 ∙ ap Record.key (sym p))) (ap some (sym p))
find-listed r ((j, x) ∷ m) w (Memᴰ.tail p) =
    rw (if_neg _ (Absent-key j r m w.keys.1 w.unique.0 p))
      (find-listed r m (record { keys = w.keys.1; unique = w.unique.1 }) p)

-- What the loop of an eviction ends with: what it began with, or a committed record.
abbrev pub Evictable : List Record → Option Record → Record → Type 0
Evictable l best r = (best ≡ some r) ⊎ (Memᴰ r l × (is_committed r.status ≡ true))

older-one :
    (best : Option Record) (x r : Record) → older best x ≡ some r → (best ≡ some r) ⊎ (x ≡ r)
older-one none x r h = inr (cc)
older-one (some b) x r h = elim (Bool-cases (ltb_ℤ x.updated_at b.updated_at)) [
  | inl lt ↦ inr (ground arith)
  | inr ge ↦ inl (ground arith)
]

oldest_committed-Evictable :
    (l : List Record) (best : Option Record) (r : Record)
    → oldest_committed l best ≡ some r
    → Evictable l best r
unfolding oldest_committed
oldest_committed-Evictable [] best r h = inl h
oldest_committed-Evictable (x ∷ l) best r h = elim (Bool-cases (is_committed x.status)) [
  | inr n ↦ elim (oldest_committed-Evictable l best r (ground arith)) [
    | inl e ↦ inl e
    | inr (p, c) ↦ inr (Memᴰ.tail p, c)
  ]
  | inl y ↦ elim (oldest_committed-Evictable l (older best x) r (ground arith)) [
    | inr (p, c) ↦ inr (Memᴰ.tail p, c)
    | inl e ↦ elim (older-one best x r e) [
      | inl b ↦ inl b
      | inr q ↦ inr (Memᴰ.head (sym q), rw (← q) y)
    ]
  ]
]

-- Where an eviction succeeds, it drops one committed record of the map.
pub evict_oldest_committed-drops :
    (m : Records) {room : Records}
    → IsKeyed m
    → evict_oldest_committed m ≡ ok room
    → (r : Record) × (find r.key m ≡ some r)
      × (is_committed r.status ≡ true)
      × (room ≡ drop_key r.key m)
unfolding evict_oldest_committed
evict_oldest_committed-drops m w h = elim (Option-cases (oldest_committed (values m) none)) [
  | inl empty ↦ absurd (ground arith)
  | inr (r, e) ↦ elim (oldest_committed-Evictable (values m) none r e) [
    | inl impossible ↦ absurd (cc)
    | inr (p, c) ↦ (r, find-listed r m w p, c, ground arith)
  ]
]

-- The two ends of make_room: there is room, or a committed record goes.
pub make_room_cases :
    (max : ℕ) (m : Records) {room : Records}
    → IsKeyed m
    → make_room max m ≡ ok room
    → ((room ≡ m) × (length m < max))
      ⊎ ((r : Record) × (find r.key m ≡ some r)
          × (is_committed r.status ≡ true)
          × (room ≡ drop_key r.key m))
unfolding make_room
make_room_cases max m {room} w h = elim (Bool-cases (leb max (length m))) [
  | inr less ↦ inl (ground arith, ground arith)
  | inl full ↦ inr (evict_oldest_committed-drops m {room = room} w (ground arith))
]

-- What the journal keeps between two operations.
pub record IsWithin (max : ℕ) (m : Records) : Type 0 where
  pub keyed : IsKeyed m
  pub small : length m ≤ max

room-IsWithin :
    (max : ℕ) (m : Records) {room : Records}
    → IsWithin max m
    → make_room max m ≡ ok room
    → IsKeyed room × (length room < max)
room-IsWithin max m {room} w h = elim (make_room_cases max m {room = room} w.keyed h) [
  | inl (same, less) ↦ (rw same w.keyed, rw same less)
  | inr (r, found, done, less) ↦ (
    rw less (drop_key-IsKeyed r.key m w.keyed),
    rw less (omega (arith, length-delete_present bytes_discrete r.key r m found, w.small)),
  )
]

length-put_le : (key : Bytes) (r : Record) (m : Records) → length (put key r m) ≤ suc (length m)
length-put_le key r m = elim (Option-cases (find key m)) [
  | inl free ↦ omega (arith, length-insert_absent bytes_discrete key r m free)
  | inr (x, found) ↦ omega (arith, length-insert_present bytes_discrete key r x m found)
]

Change-IsWithin :
    {codec : Codec} {j : Journal} {c : Command} {next : Records}
    → Change codec j c next
    → IsWithin j.max j.records
    → IsWithin j.max next
Change-IsWithin {j = j} (dispatched now session client prompt key room k free made) w =
    let new = new_record key session client prompt now in
    let (keyed, less) = room-IsWithin j.max j.records {room = room} w made in
    record {
      keyed = put-IsKeyed key new room refl keyed;
      small = omega (arith, length-put_le key new room);
    }
Change-IsWithin {j = j} (rolled_back session client key r k found waits) w = record {
  keyed = drop_key-IsKeyed key j.records w.keyed;
  small = omega (arith, length-delete_le bytes_discrete key j.records, w.small);
}
Change-IsWithin {j = j} (moved c now session client key status r found may names) w =
    let new = moved_record r session client status now in
    record {
      keyed =
          put-IsKeyed key new j.records
            (Every-lookup bytes_discrete IsKey key j.records w.keyed.keys found) w.keyed;
      small =
          omega (arith, length-insert_present bytes_discrete key new r j.records found, w.small);
    }

-- A commit leaves the records as they were, with an error, or makes them the new ones.
pub commit_cases :
    (codec : Codec) (os : Syscalls) (j : Journal) (next : Records)
    → let r = commit codec os j next in
      (r.0.max ≡ j.max)
      × (r.0.device_hash ≡ j.device_hash)
      × (((r.1 ≡ ok tt) × (r.0.records ≡ next))
          ⊎ ((e : Error) × (r.1 ≡ err e) × (r.0.records ≡ j.records)))
unfolding commit
commit_cases codec os j next =
    elim (Result-cases (persist_records codec os j.device_hash j.file next).1) [
      | inl (u, e) ↦ (ground arith, ground arith, inl (ground arith, ground arith))
      | inr (x, e) ↦ (ground arith, ground arith, inr (x, ground arith, ground arith))
    ]

pub After-IsWithin :
    {codec : Codec} {os : Syscalls} {j : Journal} {c : Command}
    {r : Journal × Result Error (Unit {0})}
    → After codec os j c r
    → IsWithin j.max j.records
    → (r.0.max ≡ j.max) × IsWithin j.max r.0.records
After-IsWithin (kept x) w = (refl, w)
After-IsWithin {codec} {os} {j} (wrote next change) w =
    let (max, device, ends) = commit_cases codec os j next in
    (
      max,
      elim ends [
        | inl (done, new) ↦ rw new (Change-IsWithin change w)
        | inr (x, failed, old) ↦ rw old w
      ],
    )

-- Through any sequence of operations, with any failing writes, the journal has no key twice and each
-- record under its own key, and never more records than its limit, if that holds at the start.
pub run-IsWithin :
    (codec : Codec) (j : Journal) (cs : List (Syscalls × Command))
    → IsWithin j.max j.records
    → IsWithin j.max (run codec j cs).records
unfolding run
run-IsWithin codec j [] w = w
run-IsWithin codec j ((os, c) ∷ cs) w =
    let (max, within) = After-IsWithin (outcome-After codec os j c) w in
    let next = (outcome codec j (os, c)).0 in
    subst (λ m. IsWithin m (run codec next cs).records) max
      (run-IsWithin codec next cs (rw max within))
