-- ===== src/Protocol/Digits.antt =====
-- strconv.Atoi and strconv.Itoa of Go's library, on 64 bits.
use nekonest.Prelude.{
  ℕ, zero, suc, ◌+◌, ◌*◌, ◌/◌, ◌%◌, ◌^◌, ◌<◌, ◌≡◌, refl, ap, ◌∙◌, Bool, ◌&&◌, [], ◌∷◌, ◌++◌, Option,
  none, some, Bytes, ℤ, pos, negsuc, ltb, leb, ◌==◌, if◌then◌else◌, arith, ◌-◌, Bool-cases, inl,
  inr, ltb→lt, ltb→ge,
}

abbrev pub is_digit : ℕ → Bool
is_digit c = leb 48 c && leb c 57

-- The number that digits denote, after those that made `n`; none if another byte is among them.
unfoldable pub digits_value : ℕ → Bytes → Option ℕ
digits_value n [] = some n
digits_value n (c ∷ rest) =
    let more = digits_value (n * 10 + (c - 48)) rest in if is_digit c then more else none

-- A number with its sign; none where it does not fit into an int.
abbrev pub non_negative : Option ℕ → Option ℤ
non_negative none = none
non_negative (some n) = if ltb n (2 ^ 63) then some (pos n) else none

abbrev pub negated : Option ℕ → Option ℤ
negated none = none
negated (some zero) = some (pos 0)
negated (some (suc n)) = if ltb n (2 ^ 63) then some (negsuc n) else none

abbrev pub unsigned : Bytes → Option ℕ
unsigned [] = none
unsigned (c ∷ rest) = digits_value 0 (c ∷ rest)

-- strconv.Atoi.
unfoldable pub atoi : Bytes → Option ℤ
atoi [] = none
atoi (c ∷ rest) =
    if c == 45
    then negated (unsigned rest)
    else if c == 43
    then non_negative (unsigned rest)
    else non_negative (unsigned (c ∷ rest))

-- The digits of a number that is below `fuel`.
unfoldable pub digits : ℕ → ℕ → Bytes
digits zero n = []
digits (suc fuel) n =
    let front = digits fuel (n / 10) in
    if ltb n 10 then (48 + n) ∷ [] else front ++ ((48 + n % 10) ∷ [])

-- strconv.Itoa.
unfoldable pub itoa : ℤ → Bytes
itoa (pos n) = digits (suc n) n
itoa (negsuc n) = 45 ∷ digits (suc (suc n)) (suc n)

abbrev pub then_digit : Option ℕ → ℕ → Option ℕ
then_digit none d = none
then_digit (some n) d = some (n * 10 + d)

digits_value-append :
    (n d : ℕ) (xs : Bytes)
    → d < 10
    → digits_value n (xs ++ ((48 + d) ∷ [])) ≡ then_digit (digits_value n xs) d
unfolding digits_value
digits_value-append n d [] h = ground arith
digits_value-append n d (x ∷ xs) h = ground (arith, digits_value-append (n * 10 + (x - 48)) d xs h)

pub digits_value-digits : (fuel n : ℕ) → n < fuel → digits_value 0 (digits fuel n) ≡ some n
unfolding digits digits_value
digits_value-digits zero n h = absurd (omega arith)
digits_value-digits (suc fuel) n h = elim (Bool-cases (ltb n 10)) [
  | inl y ↦
      let small = ltb→lt n 10 y in rw y (digits_value-append 0 n [] small ∙ ap some (omega arith))
  | inr m ↦
      let large = ltb→ge n 10 m in
      rw m (
        digits_value-append 0 (n % 10) (digits fuel (n / 10)) (omega arith)
        ∙ ap (λ o. then_digit o (n % 10)) (digits_value-digits fuel (n / 10) (omega arith))
        ∙ ap some (omega arith))
]

-- The shape of a printed number: it is digits, at least one.
pub data IsDigits : Bytes → Type 0 where
  last : (d : ℕ) → d < 10 → IsDigits ((48 + d) ∷ [])
  next : (d : ℕ) {rest : Bytes} → d < 10 → IsDigits rest → IsDigits ((48 + d) ∷ rest)

IsDigits-append : {xs : Bytes} (d : ℕ) → d < 10 → IsDigits xs → IsDigits (xs ++ ((48 + d) ∷ []))
IsDigits-append d h (last e g) = next e g (last d h)
IsDigits-append d h (next e g rest) = next e g (IsDigits-append d h rest)

pub digits-IsDigits : (fuel n : ℕ) → n < fuel → IsDigits (digits fuel n)
unfolding digits
digits-IsDigits zero n h = absurd (omega arith)
digits-IsDigits (suc fuel) n h = elim (Bool-cases (ltb n 10)) [
  | inl y ↦ rw y (last n (ltb→lt n 10 y))
  | inr m ↦
      let large = ltb→ge n 10 m in
      rw m (IsDigits-append (n % 10) (omega arith) (digits-IsDigits fuel (n / 10) (omega arith)))
]

unsigned-IsDigits : {xs : Bytes} → IsDigits xs → unsigned xs ≡ digits_value 0 xs
unsigned-IsDigits (last d h) = refl
unsigned-IsDigits (next d h rest) = refl

atoi-IsDigits : {xs : Bytes} → IsDigits xs → atoi xs ≡ non_negative (digits_value 0 xs)
unfolding atoi
atoi-IsDigits (last d h) = ground arith
atoi-IsDigits (next d h rest) = ground arith

-- A number that fits into an int is read back from what is printed.
pub atoi-itoa : (n : ℕ) → n < 2 ^ 63 → atoi (itoa (pos n)) ≡ some (pos n)
unfolding itoa
atoi-itoa n h =
    atoi-IsDigits (digits-IsDigits (suc n) n (omega arith))
    ∙ ap non_negative (digits_value-digits (suc n) n (omega arith))
    ∙ ground arith
