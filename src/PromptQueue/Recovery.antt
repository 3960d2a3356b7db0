-- ===== src/PromptQueue/Recovery.antt =====
-- What a restart of the daemon makes of the queue (daemon/cmd/daemon/prompt_queue.go).
use mathlib.Core.Path.{subst₂}
use nekonest.Prelude.{
  is_ℤ, Bool-cases, subst, ℕ, ◌≤◌, ◌≡◌, refl, sym, inl, inr, Bool, true, false, List, [], ◌∷◌,
  Option, none, some, Bytes, arith, Result, ok, err, Every, Every-insert, bytes_discrete,
  Result-cases, Option-cases, if◌then◌else◌, ltb,
}
use nekonest.AtomicWrite.{Syscalls}
use nekonest.PromptQueue.Item.{
  stat_failed, prompt_queue_legacy_version, Disk, blocked_indeterminate, Item, Json, Error,
  validate_prompt_queue_item, is_running,
}
use nekonest.PromptQueue.Store.{persist, Items, Queue, find}
use nekonest.PromptQueue.Keyed.{IsKeyed, key_of, put-IsKeyed}
use nekonest.PromptQueue.Load.{
  finish_load, with_persisted, decode, no_items, unsupported, is_heavy_tombstone, is_interrupted,
  strip, Loaded, Opening, normalize, load_one, check_one, load_items, load_disk, load_prompt_queue,
}

-- What holds of a queue that was loaded.
pub record IsRecovered (json : Json) (m : Items) (n : ℕ) : Type 0 where
  pub keyed : IsKeyed m
  pub valid : Every (λ _ it. validate_prompt_queue_item json it ≡ ok tt) m
  pub none_runs : Every (λ _ it. is_running it.status ≡ false) m
  pub up_to : Every (λ _ it. it.order ≤ n) m

strip-key : (it : Item) → key_of (strip it) ≡ key_of it
strip-key it = elim (Bool-cases (is_heavy_tombstone it)) [ inl y ↦ rw y refl | inr n ↦ rw n refl ]

UpTo-mono :
    (n n' : ℕ) (m : Items)
    → n ≤ n'
    → Every (λ _ it. it.order ≤ n) m
    → Every (λ _ it. it.order ≤ n') m
UpTo-mono n n' [] h e = tt
UpTo-mono n n' ((k, it) ∷ m) h e = (omega arith, UpTo-mono n n' m h e.1)

normalize-stops : (legacy : Bool) (it : Item) → is_running (normalize legacy it).status ≡ false
unfolding normalize
normalize-stops legacy it = ground arith

pub normalize-key : (legacy : Bool) (it : Item) → key_of (normalize legacy it) ≡ key_of it
unfolding normalize
normalize-key legacy it = elim (Bool-cases (is_interrupted legacy it)) [
  | inl y ↦ rw y (strip-key (record it { status = blocked_indeterminate }))
  | inr n ↦ rw n (strip-key it)
]

pub check_one-ok :
    (json : Json) (legacy : Bool) (it : Item) (l : Loaded) {u : Unit {0}}
    → check_one json legacy it l ≡ ok u
    → (validate_prompt_queue_item json (normalize legacy it) ≡ ok tt)
      × (find (key_of (normalize legacy it)) l.items ≡ none)
unfolding check_one
check_one-ok json legacy it l h = ground arith

load_one-IsRecovered :
    (json : Json) (legacy : Bool) (it : Item) (l : Loaded)
    → validate_prompt_queue_item json (normalize legacy it) ≡ ok tt
    → IsRecovered json l.items l.next_id
    → IsRecovered json (load_one legacy it l).items (load_one legacy it l).next_id
unfolding load_one
load_one-IsRecovered json legacy it l valid w =
    let new = normalize legacy it in
    let n = (if ltb l.next_id new.order then new.order else l.next_id) in
    let m = l.items in
    let key = key_of new in
    record {
      keyed = put-IsKeyed key new m refl w.keyed;
      valid =
          Every-insert bytes_discrete (λ _ x. validate_prompt_queue_item json x ≡ ok tt) key new m
            valid w.valid;
      none_runs =
          Every-insert bytes_discrete (λ _ x. is_running x.status ≡ false) key new m
            (normalize-stops legacy it) w.none_runs;
      up_to =
          Every-insert bytes_discrete (λ _ x. x.order ≤ n) key new m (ground arith)
            (UpTo-mono l.next_id n m (ground arith) w.up_to);
    }

load_items-IsRecovered :
    (json : Json) (legacy : Bool) (items : List Item) (l : Loaded) {r : Loaded}
    → IsRecovered json l.items l.next_id
    → load_items json legacy items l ≡ ok r
    → IsRecovered json r.items r.next_id
unfolding load_items
load_items-IsRecovered json legacy [] l {r} w h =
    let e : l ≡ r = cc in subst (λ (x : Loaded). IsRecovered json x.items x.next_id) e w
load_items-IsRecovered json legacy (it ∷ rest) l {r} w h =
    elim (Result-cases (check_one json legacy it l)) [
      | inr (x, e) ↦ absurd (ground arith)
      | inl (u, e) ↦
          load_items-IsRecovered json legacy rest (load_one legacy it l) {r = r}
            (load_one-IsRecovered json legacy it l (check_one-ok json legacy it l e).0 w)
            (ground arith)
    ]

load_disk-IsRecovered :
    (json : Json) (disk : Disk) {r : Loaded}
    → load_disk json disk ≡ ok r
    → IsRecovered json r.items r.next_id
unfolding load_disk
load_disk-IsRecovered json disk {r} h = elim (Bool-cases (unsupported disk)) [
  | inl bad ↦ absurd (ground arith)
  | inr good ↦
      load_items-IsRecovered json (is_ℤ disk.version prompt_queue_legacy_version) disk.items
        (no_items (is_ℤ disk.version prompt_queue_legacy_version)) {r = r}
        (record {
          keyed = record { keys = tt; unique = tt };
          valid = tt;
          none_runs = tt;
          up_to = tt;
        })
        (ground arith)
]

empty-IsRecovered : (json : Json) → IsRecovered json [] 0
empty-IsRecovered json = record {
  keyed = record { keys = tt; unique = tt };
  valid = tt;
  none_runs = tt;
  up_to = tt;
}

-- What a queue is loaded from: nothing, or the items of the file.
abbrev pub Started : Json → Option Bytes → Loaded → Type 0
Started json none l = l ≡ no_items true
Started json (some content) l = decode json content ≡ ok l

Started-IsRecovered :
    (json : Json) (file : Option Bytes) (l : Loaded)
    → Started json file l
    → IsRecovered json l.items l.next_id
Started-IsRecovered json none l h = rw h (empty-IsRecovered json)
Started-IsRecovered json (some content) l h = elim (Option-cases (json.unmarshal content)) [
  | inl bad ↦ absurd (ground arith)
  | inr (disk, e) ↦ load_disk-IsRecovered json disk {r = l} (ground arith)
]

abbrev LoadedFrom : Json → Option Bytes → Queue → Type 0
LoadedFrom json file q =
    (l : Loaded) × Started json file l × (q.items ≡ l.items) × (q.next_id ≡ l.next_id)

with_persisted-ok :
    (json : Json) (l : Loaded) (p : Option Bytes × Result Error (Unit {0})) {q : Queue}
    → (with_persisted json l p).1 ≡ ok q
    → (q.items ≡ l.items) × (q.next_id ≡ l.next_id)
with_persisted-ok json l (file, ok _) h = ground arith
with_persisted-ok json l (file, err e) h = cc

finish_load-ok :
    (json : Json) (os : Syscalls) (file : Option Bytes) (l : Loaded) {q : Queue}
    → (finish_load json os file l).1 ≡ ok q
    → (q.items ≡ l.items) × (q.next_id ≡ l.next_id)
finish_load-ok json os file l {q} h = elim (Bool-cases l.changed) [
  | inl y ↦ with_persisted-ok json l (persist json os file l.items) {q = q} (ground arith)
  | inr n ↦ ground arith
]

pub load_prompt_queue-ok :
    (json : Json) (open_file : Opening) (os : Syscalls) (file : Option Bytes) {q : Queue}
    → (load_prompt_queue json open_file os file).1 ≡ ok q
    → LoadedFrom json file q
unfolding load_prompt_queue
load_prompt_queue-ok json open_file os none {q} h =
    let made = with_persisted json (no_items true) (persist json os none []) in
    elim (Bool-cases open_file.stat) [
      | inr n ↦ absurd (let bad : err stat_failed ≡ ok q = rw n at h in cc)
      | inl y ↦
          let done : made.1 ≡ ok q = rw y at h in
          let (items, number) =
            with_persisted-ok json (no_items true) (persist json os none []) {q = q} done in
          (no_items true, refl, items, number)
    ]
load_prompt_queue-ok json open_file os (some content) {q} h =
    elim (Result-cases (decode json content)) [
      | inr (x, e) ↦ absurd (ground arith)
      | inl (l, e) ↦
          let (items, number) = finish_load-ok json os (some content) l {q = q} (ground arith) in
          (l, e, items, number)
    ]

-- Whatever the file holds, a queue that loads has every item under its own key and no key twice,
-- has no running item, holds valid items only, and numbers new items after all of them.
pub load_prompt_queue-IsRecovered :
    (json : Json) (open_file : Opening) (os : Syscalls) (file : Option Bytes) {q : Queue}
    → (load_prompt_queue json open_file os file).1 ≡ ok q
    → IsRecovered json q.items q.next_id
unfolding load_prompt_queue
load_prompt_queue-IsRecovered json open_file os file {q} h =
    let (l, from_disk, items, number) = load_prompt_queue-ok json open_file os file h in
    subst₂ (IsRecovered json) (sym items) (sym number) (Started-IsRecovered json file l from_disk)
