-- ===== src/PromptQueue/Compaction.antt =====
-- Which tombstones compactPromptQueueTombstones of daemon/cmd/daemon/prompt_queue.go drops.
use Prim.Native.Nat.{zero, suc}
use mathlib.Core.List.{Memᴰ}
use mathlib.Core.Option.{some-injective}
use nekonest.Prelude.{
  ℕ, ◌≤◌, ◌≡◌, refl, sym, ap, ◌∙◌, ◌⊎◌, inl, inr, Bool, true, ◌&&◌, leb, ltb, List, [], ◌∷◌, none,
  some, Bytes, arith, bytes_discrete, lookup-delete, delete, values, Bool-cases, length, drop,
  count,
}
use nekonest.PromptQueue.Item.{
  Status, clear_prompt_queue_payload, Item, compact_queue_tombstones_at, retain_queue_tombstones,
}
use nekonest.PromptQueue.Store.{
  Items, find, compact_prompt_queue_tombstones, delete_items, tombstones, sort_descending,
  insert_descending, is_tombstone_in,
}
use nekonest.PromptQueue.Transitions.{finished}
use nekonest.PromptQueue.Keyed.{IsKeyed, key_of, find-listed}

-- A finished item of the session of `it` that is not older.
abbrev pub not_older : Item → Item → Bool
not_older it x = is_tombstone_in it.session_id x && leb it.order x.order

abbrev at_least : ℕ → Item → Bool
at_least n x = leb n x.order

find-delete_items :
    (key : Bytes) (dead : List Item) (m : Items)
    → (find key (delete_items dead m) ≡ find key m)
      ⊎ ((find key (delete_items dead m) ≡ none) × (x : Item) × Memᴰ x dead × (key_of x ≡ key))
unfolding delete_items
find-delete_items key [] m = inl refl
find-delete_items key (x ∷ rest) m =
    let gone = lookup-delete bytes_discrete (key_of x) key m in
    elim (find-delete_items key rest (delete bytes_discrete (key_of x) m)) [
      | inr (e, y, p, k) ↦ inr (e, y, Memᴰ.tail p, k)
      | inl e ↦ elim (bytes_discrete (key_of x) key) [
        | yes k ↦ inr (ground (arith, k, e, gone), x, Memᴰ.head refl, k)
        | no n ↦ inl (ground (arith, n, e, gone))
      ]
    ]

Memᴰ-drop : (n : ℕ) (l : List Item) {x : Item} → Memᴰ x (drop n l) → Memᴰ x l
Memᴰ-drop zero l p = p
Memᴰ-drop (suc n) [] p = p
Memᴰ-drop (suc n) (y ∷ l) p = Memᴰ.tail (Memᴰ-drop n l p)

Memᴰ-insert_descending :
    (y : Item) (l : List Item) {x : Item} → Memᴰ x (insert_descending y l) → Memᴰ x (y ∷ l)
unfolding insert_descending
Memᴰ-insert_descending y [] p = p
Memᴰ-insert_descending y (z ∷ l) {x} p = elim (Bool-cases (ltb y.order z.order)) [
  | inr n ↦ rw n at p
  | inl lt ↦
      let q : Memᴰ x (z ∷ insert_descending y l) = rw lt at p in
      elim q [
        | Memᴰ.head e ↦ Memᴰ.tail (Memᴰ.head e)
        | Memᴰ.tail r ↦ elim (Memᴰ-insert_descending y l r) [
          | Memᴰ.head e ↦ Memᴰ.head e
          | Memᴰ.tail t ↦ Memᴰ.tail (Memᴰ.tail t)
        ]
      ]
]

Memᴰ-sort_descending : (l : List Item) {x : Item} → Memᴰ x (sort_descending l) → Memᴰ x l
unfolding sort_descending
Memᴰ-sort_descending [] p = p
Memᴰ-sort_descending (y ∷ l) p = elim (Memᴰ-insert_descending y (sort_descending l) p) [
  | Memᴰ.head e ↦ Memᴰ.head e
  | Memᴰ.tail q ↦ Memᴰ.tail (Memᴰ-sort_descending l q)
]

Memᴰ-tombstones :
    (session : Bytes) (l : List Item) {x : Item}
    → Memᴰ x (tombstones session l)
    → Memᴰ x l × (is_tombstone_in session x ≡ true)
unfolding tombstones
Memᴰ-tombstones session [] p = elim p [ ]
Memᴰ-tombstones session (y ∷ l) {x} p = elim (Bool-cases (is_tombstone_in session y)) [
  | inr n ↦ let (q, t) = Memᴰ-tombstones session l (rw n at p) in (Memᴰ.tail q, t)
  | inl d ↦
      let q : Memᴰ x (y ∷ tombstones session l) = rw d at p in
      elim q [
        | Memᴰ.head e ↦ (Memᴰ.head e, ap (is_tombstone_in session) e ∙ d)
        | Memᴰ.tail r ↦ let (s, t) = Memᴰ-tombstones session l r in (Memᴰ.tail s, t)
      ]
]

-- No item of the list has a larger order.
abbrev UpTo : ℕ → List Item → Type 0
UpTo n [] = Unit
UpTo n (x ∷ rest) = (x.order ≤ n) × UpTo n rest

abbrev IsDescending : List Item → Type 0
IsDescending [] = Unit
IsDescending (x ∷ rest) = UpTo x.order rest × IsDescending rest

UpTo-le : {n k : ℕ} (l : List Item) → n ≤ k → UpTo n l → UpTo k l
UpTo-le [] h u = tt
UpTo-le (x ∷ rest) h (u, us) = (omega (arith, u, h), UpTo-le rest h us)

UpTo-Memᴰ : {n : ℕ} (l : List Item) {x : Item} → UpTo n l → Memᴰ x l → x.order ≤ n
UpTo-Memᴰ [] u p = elim p [ ]
UpTo-Memᴰ (y ∷ rest) (u, us) (Memᴰ.head e) = rw e u
UpTo-Memᴰ (y ∷ rest) (u, us) (Memᴰ.tail p) = UpTo-Memᴰ rest us p

insert_descending-UpTo :
    {n : ℕ} (x : Item) (l : List Item) → x.order ≤ n → UpTo n l → UpTo n (insert_descending x l)
unfolding insert_descending
insert_descending-UpTo x [] h u = (h, tt)
insert_descending-UpTo x (y ∷ l) h (u, us) = elim (Bool-cases (ltb x.order y.order)) [
  | inl lt ↦ rw lt (u, insert_descending-UpTo x l h us)
  | inr ge ↦ rw ge (h, (u, us))
]

insert_descending-IsDescending :
    (x : Item) (l : List Item) → IsDescending l → IsDescending (insert_descending x l)
unfolding insert_descending
insert_descending-IsDescending x [] d = (tt, tt)
insert_descending-IsDescending x (y ∷ l) (u, d) = elim (Bool-cases (ltb x.order y.order)) [
  | inl lt ↦
      let below : x.order ≤ y.order = ground arith in
      rw lt (insert_descending-UpTo x l below u, insert_descending-IsDescending x l d)
  | inr ge ↦
      let above : y.order ≤ x.order = ground arith in rw ge ((above, UpTo-le l above u), (u, d))
]

sort_descending-IsDescending : (l : List Item) → IsDescending (sort_descending l)
unfolding sort_descending
sort_descending-IsDescending [] = tt
sort_descending-IsDescending (x ∷ l) =
    insert_descending-IsDescending x (sort_descending l) (sort_descending-IsDescending l)

-- Before an item that stands behind n others there are n that are not older.
drop-not_older :
    (n : ℕ) (l : List Item) {x : Item}
    → IsDescending l
    → Memᴰ x (drop n l)
    → n ≤ count (at_least x.order) l
drop-not_older zero l d p = omega arith
drop-not_older (suc n) [] d p = elim p [ ]
drop-not_older (suc n) (y ∷ l) {x} (u, d) p =
    let first : x.order ≤ y.order = UpTo-Memᴰ l u (Memᴰ-drop n l p) in
    let rest = drop-not_older n l d p in ground (arith, first, rest)

count-insert_descending :
    (p : Item → Bool) (x : Item) (l : List Item) → count p (insert_descending x l) ≡ count p (x ∷ l)
unfolding insert_descending
count-insert_descending p x [] = refl
count-insert_descending p x (y ∷ l) = ground (arith, count-insert_descending p x l)

count-sort_descending : (p : Item → Bool) (l : List Item) → count p (sort_descending l) ≡ count p l
unfolding sort_descending
count-sort_descending p [] = refl
count-sort_descending p (x ∷ l) =
    omega (arith, count-insert_descending p x (sort_descending l), count-sort_descending p l)

length-tombstones :
    (session : Bytes) (l : List Item)
    → length (tombstones session l) ≡ count (is_tombstone_in session) l
unfolding tombstones
length-tombstones session [] = refl
length-tombstones session (x ∷ l) = ground (arith, length-tombstones session l)

count-tombstones :
    (session : Bytes) (p : Item → Bool) (l : List Item)
    → count p (tombstones session l) ≡ count (λ x. is_tombstone_in session x && p x) l
unfolding tombstones
count-tombstones session p [] = refl
count-tombstones session p (x ∷ l) = ground (arith, count-tombstones session p l)

-- Compaction drops an item only when its session has 256 finished items or more, of which 128 are not
-- older than this one.
pub compact-fate :
    (key : Bytes) (it : Item) (m : Items) (session : Bytes)
    → IsKeyed m
    → find key m ≡ some it
    → let after = find key (compact_prompt_queue_tombstones m session) in
      (after ≡ some it)
      ⊎ ((after ≡ none)
          × (compact_queue_tombstones_at ≤ count (is_tombstone_in it.session_id) (values m))
          × (retain_queue_tombstones ≤ count (not_older it) (values m)))
unfolding compact_prompt_queue_tombstones
compact-fate key it m session w h =
    let all = tombstones session (values m) in
    let dead = drop retain_queue_tombstones (sort_descending all) in
    elim (Bool-cases (ltb (length all) compact_queue_tombstones_at)) [
      | inl few ↦ rw few (inl h)
      | inr many ↦
          let full : compact_queue_tombstones_at ≤ length all = ground arith in
          rw many (elim (find-delete_items key dead m) [
            | inl e ↦ inl (e ∙ h)
            | inr (e, x, p, k) ↦
                let sorted = Memᴰ-drop retain_queue_tombstones (sort_descending all) p in
                let (l, t) = Memᴰ-tombstones session (values m) (Memᴰ-sort_descending all sorted) in
                let same : x ≡ it =
                  some-injective _ _ (sym (find-listed x m w l) ∙ ap (λ j. find j m) k ∙ h) in
                let mine : session ≡ it.session_id = ground (arith, t, same) in
                let crowd = length-tombstones session (values m) in
                let newer =
                  drop-not_older retain_queue_tombstones (sort_descending all)
                    (sort_descending-IsDescending all) p in
                let counted = count-sort_descending (at_least x.order) all in
                let among = count-tombstones session (at_least x.order) (values m) in
                inr (
                  e,
                  rw (sym mine) (omega (arith, full, crowd)),
                  rw (sym mine, sym same) (omega (arith, newer, counted, among)),
                )
          ])
    ]

-- Finishing an item keeps its key and its order.
pub finished-key : (it : Item) (to : Status) → key_of it ≡ key_of (finished it to)
unfolding clear_prompt_queue_payload
finished-key it to = refl

pub finished-order : (it : Item) (to : Status) → (finished it to).order ≡ it.order
unfolding clear_prompt_queue_payload
finished-order it to = refl
