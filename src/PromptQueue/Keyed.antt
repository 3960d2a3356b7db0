-- ===== src/PromptQueue/Keyed.antt =====
-- The map of daemon/cmd/daemon/prompt_queue.go holds each item under the key of its two ids, and
-- no key twice.
use mathlib.Core.List.{Memᴰ}
use mathlib.Core.Logic.{if_pos, if_neg}
use nekonest.Prelude.{
  ℕ, ◌≡◌, ◌≢◌, refl, sym, ap, ◌∙◌, List, [], ◌∷◌, some, Bytes, bytes_discrete, values, Every,
  Unique, Absent, Every-insert, Every-delete, Every-lookup, insert-Unique, delete-Unique, delete,
  lookup, drop, length, ltb, Bool-cases, inl, inr,
}
use nekonest.PromptQueue.Item.{
  Item, Status, prompt_queue_key, clear_prompt_queue_payload, compact_queue_tombstones_at,
  retain_queue_tombstones,
}
use nekonest.PromptQueue.Store.{
  Items, find, put, compact_prompt_queue_tombstones, delete_items, tombstones, sort_descending,
}
use nekonest.PromptQueue.Queries.{rewrite_items, block_item, resume_item, is_acknowledged, runs_in}
use nekonest.PromptQueue.Steps.{Change, same, added, claimed, moved, closed, blocked, resumed}

abbrev pub key_of : Item → Bytes
key_of it = prompt_queue_key it.session_id it.client_msg_id

abbrev pub IsKey : Bytes → Item → Type 0
IsKey key it = key ≡ key_of it

pub record IsKeyed (m : Items) : Type 0 where
  pub keys : Every IsKey m
  pub unique : Unique m

pub put-IsKeyed :
    (key : Bytes) (it : Item) (m : Items) → key ≡ key_of it → IsKeyed m → IsKeyed (put key it m)
put-IsKeyed key it m e w = record {
  keys = Every-insert bytes_discrete IsKey key it m e w.keys;
  unique = insert-Unique bytes_discrete key it m w.unique;
}

delete_items-IsKeyed : (dead : List Item) (m : Items) → IsKeyed m → IsKeyed (delete_items dead m)
unfolding delete_items
delete_items-IsKeyed [] m w = w
delete_items-IsKeyed (it ∷ rest) m w =
    delete_items-IsKeyed rest (delete bytes_discrete (key_of it) m) (record {
      keys = Every-delete bytes_discrete IsKey (key_of it) m w.keys;
      unique = delete-Unique bytes_discrete (key_of it) m w.unique;
    })

pub compact-IsKeyed :
    (m : Items) (session : Bytes) → IsKeyed m → IsKeyed (compact_prompt_queue_tombstones m session)
unfolding compact_prompt_queue_tombstones
compact-IsKeyed m session w =
    let dead = tombstones session (values m) in
    elim (Bool-cases (ltb (length dead) compact_queue_tombstones_at)) [
      | inl few ↦ rw few w
      | inr many ↦
          rw many (delete_items-IsKeyed (drop retain_queue_tombstones (sort_descending dead)) m w)
    ]

-- A loop that keeps every item's ids keeps the map keyed.
module _ (f : Item → Item) (keeps : (it : Item) → key_of (f it) ≡ key_of it) where
  rewrite-keys : (m : Items) → Every IsKey m → Every IsKey (rewrite_items f m)
  unfolding rewrite_items
  rewrite-keys [] w = tt
  rewrite-keys ((k, it) ∷ m) w = (w.0 ∙ sym (keeps it), rewrite-keys m w.1)

  rewrite-Absent : (k : Bytes) (m : Items) → Absent k m → Absent k (rewrite_items f m)
  unfolding rewrite_items
  rewrite-Absent k [] a = tt
  rewrite-Absent k ((j, it) ∷ m) a = (a.0, rewrite-Absent k m a.1)

  rewrite-Unique : (m : Items) → Unique m → Unique (rewrite_items f m)
  unfolding rewrite_items
  rewrite-Unique [] u = tt
  rewrite-Unique ((k, it) ∷ m) u = (rewrite-Absent k m u.0, rewrite-Unique m u.1)

  rewrite-IsKeyed : (m : Items) → IsKeyed m → IsKeyed (rewrite_items f m)
  rewrite-IsKeyed m w = record { keys = rewrite-keys m w.keys; unique = rewrite-Unique m w.unique }

block_item-key :
    (session : Bytes) (to : Status) (it : Item) → key_of (block_item session to it) ≡ key_of it
block_item-key session to it = elim (Bool-cases (runs_in session it)) [
  | inl y ↦ rw y refl
  | inr n ↦ rw n refl
]

resume_item-key : (session : Bytes) (it : Item) → key_of (resume_item session it) ≡ key_of it
unfolding clear_prompt_queue_payload
resume_item-key session it = elim (Bool-cases (is_acknowledged session it)) [
  | inl y ↦ rw y refl
  | inr n ↦ rw n refl
]

-- Every change keeps the map keyed.
pub Change-IsKeyed : {m m' : Items} {n n' : ℕ} → Change m n m' n' → IsKeyed m → IsKeyed m'
unfolding clear_prompt_queue_payload
Change-IsKeyed same w = w
Change-IsKeyed {m} (added it missing room waits number valid) w =
    put-IsKeyed (key_of it) it _ refl (compact-IsKeyed m it.session_id w)
Change-IsKeyed {m} (claimed session it h) w = put-IsKeyed (key_of it) _ m refl w
Change-IsKeyed {m} (moved key it to found live still stopped) w =
    put-IsKeyed key _ m (Every-lookup bytes_discrete IsKey key m w.keys found) w
Change-IsKeyed {m} (closed session key it to found live dead) w =
    compact-IsKeyed _ session
      (put-IsKeyed key _ m (Every-lookup bytes_discrete IsKey key m w.keys found) w)
Change-IsKeyed {m} (blocked session to h) w =
    rewrite-IsKeyed (block_item session to) (block_item-key session to) m w
Change-IsKeyed {m} (resumed session) w =
    rewrite-IsKeyed (resume_item session) (resume_item-key session) m w

Absent-key :
    (k : Bytes) (it : Item) (m : Items)
    → Every IsKey m
    → Absent k m
    → Memᴰ it (values m)
    → k ≢ key_of it
Absent-key k it ((j, w) ∷ m) e a (Memᴰ.head p) q = a.0 (e.0 ∙ ap key_of (sym p) ∙ sym q)
Absent-key k it ((j, w) ∷ m) e a (Memᴰ.tail p) q = Absent-key k it m e.1 a.1 p q
Absent-key k it [] e a p q = elim p [ ]

-- So a listed item is the one that its key finds.
pub find-listed :
    (it : Item) (m : Items) → IsKeyed m → Memᴰ it (values m) → find (key_of it) m ≡ some it
unfolding lookup
find-listed it [] w p = elim p [ ]
find-listed it ((j, x) ∷ m) w (Memᴰ.head p) =
    rw (if_pos _ (w.keys.0 ∙ ap key_of (sym p))) (ap some (sym p))
find-listed it ((j, x) ∷ m) w (Memᴰ.tail p) =
    rw (if_neg _ (Absent-key j it m w.keys.1 w.unique.0 p))
      (find-listed it m (record { keys = w.keys.1; unique = w.unique.1 }) p)
