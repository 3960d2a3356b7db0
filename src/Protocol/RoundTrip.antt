-- ===== src/Protocol/RoundTrip.antt =====
-- Printing and reading of protocol versions (relaycore/protocol/types.go).
use mathlib.Core.Logic.{if_pos}
use mathlib.Core.List.{reverse-cons, reverse-append}
use nekonest.Prelude.{
  ℕ, suc, ◌+◌, ◌^◌, ◌<◌, ◌≡◌, refl, ap, ◌∙◌, true, false, [], ◌∷◌, ◌++◌, reverse, Bytes,
  bytes_discrete, pos, arith, ok, is_empty, ltb_ℤ,
}
use nekonest.Text.{trim_space, is_plain, trim_space_plain}
use nekonest.Protocol.Digits.{IsDigits, last, next, digits-IsDigits, itoa, atoi-itoa}
use nekonest.Protocol.Version.{split_dots, parse_protocol_version, format_protocol_version, str_eq}

pub itoa-IsDigits : (n : ℕ) → IsDigits (itoa (pos n))
unfolding itoa
itoa-IsDigits n = digits-IsDigits (suc n) n (omega arith)

IsDigits-front :
    {xs : Bytes} → IsDigits xs → (c : ℕ) × (r : Bytes) × (xs ≡ c ∷ r) × (is_plain c ≡ true)
IsDigits-front (last d h) = (48 + d, [], refl, ground arith)
IsDigits-front (next d {rest} h g) = (48 + d, rest, refl, ground arith)

IsDigits-back :
    {xs : Bytes} → IsDigits xs → (c : ℕ) × (r : Bytes) × (reverse xs ≡ c ∷ r) × (is_plain c ≡ true)
IsDigits-back (last d h) = (48 + d, [], refl, ground arith)
IsDigits-back (next d {rest} h g) =
    let (c, r, e, p) = IsDigits-back g in
    (c, r ++ ((48 + d) ∷ []), reverse-cons (48 + d) rest ∙ ap (λ l. l ++ ((48 + d) ∷ [])) e, p)

split_dots-digits : {xs : Bytes} → IsDigits xs → split_dots xs ≡ xs ∷ []
unfolding split_dots
split_dots-digits (last d h) = ground arith
split_dots-digits (next d {rest} h g) = let e = split_dots-digits g in ground arith

split_dots-append :
    {xs : Bytes} (ys : Bytes) → IsDigits xs → split_dots (xs ++ (46 ∷ ys)) ≡ xs ∷ split_dots ys
unfolding split_dots
split_dots-append ys (last d h) = ground arith
split_dots-append ys (next d {rest} h g) = let e = split_dots-append ys g in ground arith

pub split_dots-format :
    (a b : ℕ)
    → split_dots (format_protocol_version (pos a) (pos b)) ≡ itoa (pos a) ∷ itoa (pos b) ∷ []
unfolding format_protocol_version
split_dots-format a b =
    split_dots-append (itoa (pos b)) (itoa-IsDigits a)
    ∙ ap (λ l. itoa (pos a) ∷ l) (split_dots-digits (itoa-IsDigits b))

trim_space-format :
    (a b : ℕ)
    → trim_space (format_protocol_version (pos a) (pos b)) ≡ format_protocol_version (pos a) (pos b)
unfolding format_protocol_version
trim_space-format a b =
    let (c, r, e, p) = IsDigits-front (itoa-IsDigits a) in
    let (d, s, f, q) = IsDigits-back (itoa-IsDigits b) in
    let front = itoa (pos a) in
    let back = itoa (pos b) in
    trim_space_plain (front ++ (46 ∷ back)) c d (r ++ (46 ∷ back)) (s ++ (46 ∷ []) ++ reverse front)
      (ap (λ l. l ++ (46 ∷ back)) e)
      (reverse-append front (46 ∷ back)
        ∙ ap (λ l. l ++ reverse front) (reverse-cons 46 back ∙ ap (λ l. l ++ (46 ∷ [])) f)
        ∙ refl)
      p q

str_eq_self : (x : Bytes) → str_eq x x ≡ true
str_eq_self x = if_pos (bytes_discrete x x) refl _ _

pub not_negative : (n : ℕ) → ltb_ℤ (pos n) (pos 0) ≡ false
not_negative n = ground arith

-- Reading a version that was printed gives it back, for a major and a minor version from 0 to 2 ^ 63 - 1.
pub parse_protocol_version-format :
    (a b : ℕ)
    → a < 2 ^ 63
    → b < 2 ^ 63
    → parse_protocol_version (format_protocol_version (pos a) (pos b))
      ≡ ok (record { major = pos a; minor = pos b })
unfolding parse_protocol_version format_protocol_version
parse_protocol_version-format a b small small' =
    let (c, r, e, p) = IsDigits-front (itoa-IsDigits a) in
    let filled : is_empty (format_protocol_version (pos a) (pos b)) ≡ false = rw e refl in
    rw
      (
        trim_space-format a b,
        filled,
        split_dots-format a b,
        atoi-itoa a small,
        not_negative a,
        atoi-itoa b small',
        not_negative b,
        str_eq_self (itoa (pos a)),
        str_eq_self (itoa (pos b)),
      )
      refl
