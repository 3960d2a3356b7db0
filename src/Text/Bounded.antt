-- ===== src/Text/Bounded.antt =====
-- The bounded copies of user text: boundedUTF8 of daemon/cmd/daemon/prompt_journal.go and of
-- daemon/internal/startjournal/journal.go, boundedPromptEcho of daemon/cmd/daemon/prompt_state.go.
use nekonest.Prelude.{
  ℕ, zero, suc, ◌-◌, ◌≤◌, ◌<◌, ◌≡◌, refl, true, false, [], ◌++◌, arith, Bytes, ascii, leb, length,
  take, length-append, length-take, if◌then◌else◌, Bool-cases, inl, inr, ◌⊎◌,
}
use nekonest.Text.Utf8.{valid_utf8, valid_utf8-append}

abbrev pub ellipsis : Bytes
ellipsis = ascii "..."

-- The loop `for cut > 0 && !utf8.ValidString(value[:cut])`.
pub valid_cut : ℕ → Bytes → ℕ
valid_cut zero v = 0
valid_cut (suc cut) v = elim (valid_utf8 (take (suc cut) v)) [
  | true ↦ suc cut
  | false ↦ valid_cut cut v
]

unfoldable pub bounded_utf8 : Bytes → ℕ → Bytes
unfolding valid_cut
bounded_utf8 value max_bytes =
    if leb max_bytes 0
    then []
    else if leb (length value) max_bytes
    then value
    else if leb max_bytes 3
    then take max_bytes ellipsis
    else take (valid_cut (max_bytes - 3) value) value ++ ellipsis

pub valid_cut-le : (cut : ℕ) (v : Bytes) → valid_cut cut v ≤ cut
unfolding valid_cut
valid_cut-le zero v = omega arith
valid_cut-le (suc cut) v = ground (arith, valid_cut-le cut v)

valid_cut-valid : (cut : ℕ) (v : Bytes) → valid_utf8 (take (valid_cut cut v) v) ≡ true
unfolding valid_cut valid_utf8
valid_cut-valid zero v = refl
valid_cut-valid (suc cut) v = elim (Bool-cases (valid_utf8 (take (suc cut) v))) [
  | inl good ↦ rw (good, valid_cut) good
  | inr bad ↦ rw (bad, valid_cut) (valid_cut-valid cut v)
]

ellipsis-valid : valid_utf8 ellipsis ≡ true
unfolding valid_utf8
ellipsis-valid = refl

-- The copy of any text fits any bound.
pub length-bounded_utf8 : (v : Bytes) (n : ℕ) → length (bounded_utf8 v n) ≤ n
unfolding bounded_utf8
length-bounded_utf8 v n = ground (
  arith,
  length-take n ellipsis,
  length-append (take (valid_cut (n - 3) v) v) ellipsis,
  length-take (valid_cut (n - 3) v) v,
  valid_cut-le (n - 3) v,
)

-- Under a bound of more than three bytes, the copy is valid UTF-8 if the text was or if the text was
-- longer than the bound, even where the bound falls inside a character.
bounded_utf8-valid :
    (v : Bytes) (n : ℕ)
    → 3 < n
    → (valid_utf8 v ≡ true) ⊎ (n < length v)
    → valid_utf8 (bounded_utf8 v n) ≡ true
unfolding bounded_utf8
bounded_utf8-valid v n h c = ground (
  arith,
  valid_utf8-append (take (valid_cut (n - 3) v) v) ellipsis,
  valid_cut-valid (n - 3) v,
  ellipsis-valid,
)
