-- ===== src/Text/Space.antt =====
-- `strings.TrimSpace` of Go's library: white space is what `unicode.IsSpace` names.
use mathlib.Core.List.{reverse-reverse}
use nekonest.Prelude.{
  arith, ℕ, zero, suc, ◌≡◌, refl, Bool, ◌&&◌, ◌||◌, [], ◌∷◌, reverse, Bytes, ascii, leb, ◌==◌,
  is_empty, if◌then◌else◌, true, sym, ap, ◌∙◌,
}

is_space1 : ℕ → Bool
is_space1 a = a == 0x20 || leb 0x09 a && leb a 0x0D

is_space2 : ℕ → ℕ → Bool
is_space2 a b = a == 0xC2 && (b == 0x85 || b == 0xA0)

is_space3 : ℕ → ℕ → ℕ → Bool
is_space3 a b c =
    a == 0xE1 && b == 0x9A && c == 0x80
    || a == 0xE2 && b == 0x80 && (leb 0x80 c && leb c 0x8A || c == 0xA8 || c == 0xA9 || c == 0xAF)
    || a == 0xE2 && b == 0x81 && c == 0x9F
    || a == 0xE3 && b == 0x80 && c == 0x80

-- How many bytes the white space at the front takes: 0 if none stands there.
space_width : Bytes → ℕ
unfolding is_space1 is_space2 is_space3
space_width [] = 0
space_width (a ∷ []) = if is_space1 a then 1 else 0
space_width (a ∷ b ∷ []) = if is_space1 a then 1 else if is_space2 a b then 2 else 0
space_width (a ∷ b ∷ c ∷ _) =
    if is_space1 a then 1 else if is_space2 a b then 2 else if is_space3 a b c then 3 else 0

-- The same at the end of a text, whose bytes come last first.
space_width_back : Bytes → ℕ
unfolding is_space1 is_space2 is_space3
space_width_back [] = 0
space_width_back (a ∷ []) = if is_space1 a then 1 else 0
space_width_back (b ∷ a ∷ []) = if is_space1 b then 1 else if is_space2 a b then 2 else 0
space_width_back (c ∷ b ∷ a ∷ _) =
    if is_space1 c then 1 else if is_space2 b c then 2 else if is_space3 a b c then 3 else 0

-- Drops white space, of the width that the function finds, from the front; `skip` counts the
-- bytes left of the one at hand.
trim_front : (Bytes → ℕ) → ℕ → Bytes → Bytes
trim_front width skip [] = []
trim_front width (suc skip) (a ∷ r) = trim_front width skip r
trim_front width zero (a ∷ r) = elim (width (a ∷ r)) [ zero ↦ a ∷ r | suc w ↦ trim_front width w r ]

unfoldable pub trim_space : Bytes → Bytes
unfolding space_width space_width_back trim_front
trim_space v = reverse (trim_front space_width_back 0 (reverse (trim_front space_width 0 v)))

unfoldable pub is_blank : Bytes → Bool
unfolding trim_space
is_blank v = is_empty (trim_space v)

trim_test : trim_space (ascii "  a b\t") ≡ ascii "a b"
unfolding trim_space
trim_test = refl

-- A text that begins and ends with bytes between '!' and DEL has no white space to trim.
abbrev pub is_plain : ℕ → Bool
is_plain a = leb 0x21 a && leb a 0x7F

space_width_plain : (a : ℕ) (r : Bytes) → is_plain a ≡ true → space_width (a ∷ r) ≡ 0
unfolding space_width is_space1 is_space2 is_space3
space_width_plain a [] h = ground arith
space_width_plain a (b ∷ []) h = ground arith
space_width_plain a (b ∷ c ∷ r) h = ground arith

space_width_back_plain : (a : ℕ) (r : Bytes) → is_plain a ≡ true → space_width_back (a ∷ r) ≡ 0
unfolding space_width_back is_space1 is_space2 is_space3
space_width_back_plain a [] h = ground arith
space_width_back_plain a (b ∷ []) h = ground arith
space_width_back_plain a (b ∷ c ∷ r) h = ground arith

trim_front_plain :
    (width : Bytes → ℕ) (a : ℕ) (r : Bytes) → width (a ∷ r) ≡ 0 → trim_front width 0 (a ∷ r) ≡ a ∷ r
unfolding trim_front
trim_front_plain width a r h = ground (arith, h)

pub trim_space_plain :
    (v : Bytes) (a b : ℕ) (r s : Bytes)
    → v ≡ a ∷ r
    → reverse v ≡ b ∷ s
    → is_plain a ≡ true
    → is_plain b ≡ true
    → trim_space v ≡ v
unfolding trim_space
trim_space_plain v a b r s front back h k =
    let first : trim_front space_width 0 v ≡ v =
      ap (trim_front space_width 0) front
      ∙ trim_front_plain space_width a r (space_width_plain a r h)
      ∙ sym front in
    let second : trim_front space_width_back 0 (reverse v) ≡ reverse v =
      ap (trim_front space_width_back 0) back
      ∙ trim_front_plain space_width_back b s (space_width_back_plain b s k)
      ∙ sym back in
    ap (λ x. reverse (trim_front space_width_back 0 (reverse x))) first
    ∙ ap reverse second
    ∙ reverse-reverse v
