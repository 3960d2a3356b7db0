-- ===== src/SessionLocks/Users.antt =====
-- How many goroutines use or hold an entry of daemon/cmd/daemon/prompt_state.go.
use mathlib.Core.Logic.{if_pos, if_neg}
use nekonest.Prelude.{
  ℕ, ◌+◌, ◌≤◌, ◌≡◌, ◌≢◌, refl, sym, ap, ◌∙◌, Bool, true, false, List, [], ◌∷◌, Option, none, some,
  Bytes, ℕ_discrete, ◌==◌, if◌then◌else◌, lookup, lookup-insert, arith, count, values, count-insert,
  weight,
}
use nekonest.SessionLocks.Locks.{
  Goroutine, outside, waiting, inside, leaving, System, or_outside, at, move,
}

abbrev pub uses : ℕ → Goroutine → Bool
uses e outside = false
uses e (waiting session e') = e' == e
uses e (inside session e') = e' == e
uses e (leaving session e') = e' == e

abbrev pub holds : ℕ → Goroutine → Bool
holds e outside = false
holds e (waiting session e') = false
holds e (inside session e') = e' == e
holds e (leaving session e') = false

-- The session whose entry the goroutine uses.
abbrev pub session_of : Goroutine → Option (Bytes × ℕ)
session_of outside = none
session_of (waiting session e) = some (session, e)
session_of (inside session e) = some (session, e)
session_of (leaving session e) = some (session, e)

abbrev pub one_if : Bool → ℕ
one_if b = if b then 1 else 0

weight-or_outside :
    (p : Goroutine → Bool) (o : Option Goroutine)
    → p outside ≡ false
    → weight ℕ_discrete p o ≡ one_if (p (or_outside o))
weight-or_outside p none h = ground (arith, h)
weight-or_outside p (some g) h = refl

-- A move changes a count by what the goroutine was and what it becomes.
pub count-move :
    (p : Goroutine → Bool) (i : ℕ) (g : Goroutine) (s : System)
    → p outside ≡ false
    → count p (values (move i g s).goroutines) + one_if (p (at i s))
      ≡ count p (values s.goroutines) + one_if (p g)
count-move p i g s h =
    ap (λ n. count p (values (move i g s).goroutines) + n)
      (sym (weight-or_outside p (lookup ℕ_discrete i s.goroutines) h))
    ∙ count-insert ℕ_discrete p i g s.goroutines

pub at-move_self : (i : ℕ) (g : Goroutine) (s : System) → at i (move i g s) ≡ g
at-move_self i g s =
    ap or_outside (lookup-insert ℕ_discrete i i g s.goroutines ∙ if_pos (ℕ_discrete i i) refl _ _)

pub at-move_other : (i j : ℕ) (g : Goroutine) (s : System) → i ≢ j → at j (move i g s) ≡ at j s
at-move_other i j g s n =
    ap or_outside (lookup-insert ℕ_discrete i j g s.goroutines ∙ if_neg (ℕ_discrete i j) n _ _)

-- Who stands in the list is counted.
count-some :
    (p : Goroutine → Bool) (i : ℕ) (m : List (ℕ × Goroutine))
    → p outside ≡ false
    → p (or_outside (lookup ℕ_discrete i m)) ≡ true
    → 1 ≤ count p (values m)
unfolding lookup
count-some p i [] h y = absurd (cc)
count-some p i ((j, g) ∷ m) h y = elim (ℕ_discrete j i) [
  | yes e ↦ let q : p g ≡ true = ground (arith, y, e) in ground (arith, q)
  | no n ↦ let rest = count-some p i m h (ground (arith, y, n)) in omega (arith, rest)
]

-- Two goroutines that are counted are counted twice.
count-two :
    (p : Goroutine → Bool) (i j : ℕ) (m : List (ℕ × Goroutine))
    → p outside ≡ false
    → i ≢ j
    → p (or_outside (lookup ℕ_discrete i m)) ≡ true
    → p (or_outside (lookup ℕ_discrete j m)) ≡ true
    → 2 ≤ count p (values m)
unfolding lookup
count-two p i j [] h n y z = absurd (cc)
count-two p i j ((k, g) ∷ m) h n y z = elim (ℕ_discrete k i) [
  | yes e ↦
      let q : p g ≡ true = ground (arith, y, e) in
      let other : k ≢ j = λ s. n (sym e ∙ s) in
      let rest = count-some p j m h (ground (arith, z, other)) in ground (arith, q, rest)
  | no a ↦ elim (ℕ_discrete k j) [
    | yes e ↦
        let q : p g ≡ true = ground (arith, z, e) in
        let rest = count-some p i m h (ground (arith, y, a)) in ground (arith, q, rest)
    | no b ↦
        let rest = count-two p i j m h n (ground (arith, y, a)) (ground (arith, z, b)) in
        omega (arith, rest)
  ]
]

pub at-count :
    (p : Goroutine → Bool) (i : ℕ) (s : System)
    → p outside ≡ false
    → p (at i s) ≡ true
    → 1 ≤ count p (values s.goroutines)
at-count p i s h y = count-some p i s.goroutines h y

pub at-two :
    (p : Goroutine → Bool) (i j : ℕ) (s : System)
    → p outside ≡ false
    → p (at i s) ≡ true
    → p (at j s) ≡ true
    → count p (values s.goroutines) ≤ 1
    → i ≡ j
at-two p i j s h y z few = elim (ℕ_discrete i j) [
  | yes e ↦ e
  | no n ↦ absurd (let two = count-two p i j s.goroutines h n y z in omega arith)
]
