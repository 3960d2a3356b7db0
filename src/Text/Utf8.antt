-- ===== src/Text/Utf8.antt =====
-- `utf8.ValidString` of Go's library, one byte at a time.
use nekonest.Prelude.{
  ℕ, zero, suc, ◌≡◌, refl, Bool, true, false, ◌&&◌, [], ◌∷◌, ◌++◌, Bytes, leb, ltb, ◌==◌,
  if◌then◌else◌,
}

-- What must follow: `rest` continuation bytes, the first of them between `low` and `high`.
pub record Expect : Type 0 where
  rest : ℕ
  low : ℕ
  high : ℕ

abbrev expect : ℕ → ℕ → ℕ → Expect
expect n l h = record { rest = n; low = l; high = h }

-- The bytes that may follow a first byte; none can follow an illegal one (`low` above `high`).
lead : ℕ → Expect
lead a =
    if ltb a 0x80
    then expect 0 0 0
    else if ltb a 0xC2
    then expect 1 1 0
    else if ltb a 0xE0
    then expect 1 0x80 0xBF
    else if a == 0xE0
    then expect 2 0xA0 0xBF
    else if a == 0xED
    then expect 2 0x80 0x9F
    else if ltb a 0xF0
    then expect 2 0x80 0xBF
    else if a == 0xF0
    then expect 3 0x90 0xBF
    else if ltb a 0xF4
    then expect 3 0x80 0xBF
    else if a == 0xF4
    then expect 3 0x80 0x8F
    else expect 1 1 0

valid_rest : ℕ → ℕ → ℕ → Bytes → Bool
unfolding lead
valid_rest zero l h [] = true
valid_rest (suc n) l h [] = false
valid_rest zero l h (a ∷ r) = valid_rest (lead a).rest (lead a).low (lead a).high r
valid_rest (suc n) l h (b ∷ r) = leb l b && leb b h && valid_rest n 0x80 0xBF r

unfoldable pub valid_utf8 : Bytes → Bool
unfolding valid_rest
valid_utf8 v = valid_rest 0 0 0 v

and_mono : (a : Bool) {b c : Bool} → (b ≡ true → c ≡ true) → a && b ≡ true → a && c ≡ true
and_mono true f e = f e
and_mono false f e = e

-- Valid text followed by valid text is valid.
valid_rest-append :
    (n l h : ℕ) (xs ys : Bytes)
    → valid_rest n l h xs ≡ true
    → valid_rest 0 0 0 ys ≡ true
    → valid_rest n l h (xs ++ ys) ≡ true
unfolding valid_rest
valid_rest-append zero l h [] [] p q = refl
valid_rest-append zero l h [] (y ∷ ys) p q = q
valid_rest-append (suc n) l h [] ys p q = cc
valid_rest-append zero l h (a ∷ r) ys p q =
    valid_rest-append (lead a).rest (lead a).low (lead a).high r ys p q
valid_rest-append (suc n) l h (b ∷ r) ys p q =
    and_mono (leb l b && leb b h) (λ e. valid_rest-append n 0x80 0xBF r ys e q) p

pub valid_utf8-append :
    (xs ys : Bytes) → valid_utf8 xs ≡ true → valid_utf8 ys ≡ true → valid_utf8 (xs ++ ys) ≡ true
unfolding valid_utf8
valid_utf8-append xs ys p q = valid_rest-append 0 0 0 xs ys p q
