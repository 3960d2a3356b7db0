-- ===== src/AcceptanceCache/Ring.antt =====
-- The ring of keys in promptAcceptanceCache (daemon/cmd/daemon/prompt_state.go) as a queue.
use mathlib.Core.List.{append_assoc, append-nil}
use native.Mathlib.Nat.{mod-eq_of_lt, mod_self, mod-lt}
use nekonest.Prelude.{
  ℕ, zero, suc, ◌+◌, ◌%◌, ◌≤◌, ◌<◌, ◌≡◌, refl, sym, ap, ◌∙◌, true, false, List, [], ◌∷◌, ◌++◌,
  Bytes, arith, length, take, drop, ltb, if◌then◌else◌, inl, inr, Bool-cases, length-append, ltb→lt,
  ltb→ge,
}
use nekonest.AcceptanceCache.Cache.{Cache, set_index, add_new}

-- The keys of the cache, the oldest first.
abbrev pub queue_of : Cache → List Bytes
queue_of c = drop c.next c.order ++ take c.next c.order

-- The place of the next eviction lies in the ring, and is its start while there is room.
pub record IsRing (c : Cache) : Type 0 where
  pub room : length c.order ≤ c.max
  pub place : c.next < c.max
  pub filling : length c.order < c.max → c.next ≡ 0

-- A queue of at most `max` keys: the newest goes to its end, the oldest makes room.
abbrev pub enqueue : ℕ → List Bytes → Bytes → List Bytes
enqueue max queue key =
    if ltb (length queue) max then queue ++ (key ∷ []) else drop 1 queue ++ (key ∷ [])

length-set_index : (n : ℕ) (key : Bytes) (xs : List Bytes) → length (set_index n key xs) ≡ length xs
unfolding set_index
length-set_index n key [] = refl
length-set_index zero key (x ∷ xs) = refl
length-set_index (suc n) key (x ∷ xs) = ap suc (length-set_index n key xs)

take-set_index :
    (n : ℕ) (key : Bytes) (xs : List Bytes)
    → n < length xs
    → take (suc n) (set_index n key xs) ≡ take n xs ++ (key ∷ [])
unfolding set_index
take-set_index n key [] h = absurd (omega arith)
take-set_index zero key (x ∷ xs) h = refl
take-set_index (suc n) key (x ∷ xs) h = ap (λ l. x ∷ l) (take-set_index n key xs (omega arith))

drop-set_index :
    (n : ℕ) (key : Bytes) (xs : List Bytes) → drop (suc n) (set_index n key xs) ≡ drop (suc n) xs
unfolding set_index
drop-set_index n key [] = refl
drop-set_index zero key (x ∷ xs) = refl
drop-set_index (suc n) key (x ∷ xs) = drop-set_index n key xs

drop-rest :
    (n : ℕ) (xs ys : List Bytes) → n < length xs → drop 1 (drop n xs ++ ys) ≡ drop (suc n) xs ++ ys
drop-rest n [] ys h = absurd (omega arith)
drop-rest zero (x ∷ xs) ys h = refl
drop-rest (suc n) (x ∷ xs) ys h = drop-rest n xs ys (omega arith)

drop_all : (n : ℕ) (xs : List Bytes) → length xs ≤ n → drop n xs ≡ []
drop_all zero [] h = refl
drop_all zero (x ∷ xs) h = absurd (omega arith)
drop_all (suc n) [] h = refl
drop_all (suc n) (x ∷ xs) h = drop_all n xs (omega arith)

take_all : (n : ℕ) (xs : List Bytes) → length xs ≤ n → take n xs ≡ xs
take_all zero [] h = refl
take_all zero (x ∷ xs) h = absurd (omega arith)
take_all (suc n) [] h = refl
take_all (suc n) (x ∷ xs) h = ap (λ l. x ∷ l) (take_all n xs (omega arith))

length-rotate : (n : ℕ) (xs : List Bytes) → length (drop n xs ++ take n xs) ≡ length xs
length-rotate zero xs = ap length (append-nil xs)
length-rotate (suc n) [] = refl
length-rotate (suc n) (x ∷ xs) =
    let rest = length-rotate n xs in
    omega (
      arith,
      rest,
      length-append (drop n xs) (x ∷ take n xs),
      length-append (drop n xs) (take n xs),
    )

-- The place of the eviction moves by one, and from the end to the start.
evicted-queue :
    (max n : ℕ) (key : Bytes) (order : List Bytes)
    → length order ≡ max
    → n < max
    → let moved = set_index n key order in
      drop ((n + 1) % max) moved ++ take ((n + 1) % max) moved
      ≡ drop 1 (drop n order ++ take n order) ++ (key ∷ [])
evicted-queue max n key order full small =
    let moved = set_index n key order in
    let begun = take-set_index n key order (omega (arith, full)) in
    let ended = drop-set_index n key order in
    let gone = drop-rest n order (take n order) (omega (arith, full)) in
    elim (Bool-cases (ltb (n + 1) max)) [
      | inl y ↦
          let at : (n + 1) % max ≡ suc n = mod-eq_of_lt (ltb→lt (n + 1) max y) ∙ omega arith in
          rw (at, begun, ended, gone)
            (sym (append_assoc (drop (suc n) order) (take n order) (key ∷ [])))
      | inr m ↦
          let large = ltb→ge (n + 1) max m in
          let end : n + 1 ≡ max = omega arith in
          let at : (n + 1) % max ≡ 0 = ap (λ x. x % max) end ∙ mod_self max in
          let nothing : drop (suc n) order ≡ [] = drop_all (suc n) order (omega (arith, full)) in
          let whole : take (suc n) moved ≡ moved =
            take_all (suc n) moved (omega (arith, full, length-set_index n key order)) in
          rw (at, gone, nothing) (append-nil moved ∙ sym whole ∙ begun)
    ]

-- A key that the cache did not have goes to the end of the queue of keys, and makes room for itself when
-- the queue is full, by the oldest; and the ring is ready for the next.
pub add_new-enqueues :
    (c : Cache) (key echo : Bytes)
    → IsRing c
    → (queue_of (add_new c key echo) ≡ enqueue c.max (queue_of c) key) × IsRing (add_new c key echo)
add_new-enqueues c key echo w = elim (Bool-cases (ltb (length c.order) c.max)) [
  | inl y ↦
      let small = ltb→lt (length c.order) c.max y in
      let at = w.filling small in
      let long = length-append c.order (key ∷ []) in
      let before : queue_of c ≡ c.order = rw at (append-nil c.order) in
      let after : drop c.next (c.order ++ (key ∷ [])) ++ take c.next (c.order ++ (key ∷ []))
          ≡ c.order ++ (key ∷ []) =
        rw at (append-nil (c.order ++ (key ∷ []))) in
      let short : ltb (length (queue_of c)) c.max ≡ true =
        ap (λ n. ltb n c.max) (length-rotate c.next c.order) ∙ y in
      rw (y, short)
        (
          after ∙ ap (λ l. l ++ (key ∷ [])) (sym before),
          record { room = omega (arith, long); place = w.place; filling = λ _. at },
        )
  | inr m ↦
      let full = ltb→ge (length c.order) c.max m in
      let exact : length c.order ≡ c.max = let r = w.room in omega arith in
      let kept = length-set_index c.next key c.order in
      let positive : 0 < c.max = let p = w.place in omega arith in
      let long : ltb (length (queue_of c)) c.max ≡ false =
        ap (λ n. ltb n c.max) (length-rotate c.next c.order) ∙ m in
      rw (m, long)
        (
          evicted-queue c.max c.next key c.order exact w.place,
          record {
            room = omega (arith, kept);
            place = mod-lt (c.next + 1) positive;
            filling = λ less. absurd (omega (arith, less, kept, exact));
          },
        )
]
