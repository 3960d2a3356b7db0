-- ===== src/SessionLocks/Counted.antt =====
-- The counts of the entries of daemon/cmd/daemon/prompt_state.go.
use mathlib.Core.Logic.{if_pos, if_neg}
use nekonest.Prelude.{
  ℕ, ◌+◌, ◌<◌, ◌≡◌, ◌≢◌, refl, sym, ap, ◌∙◌, false, Option, none, some, Bytes, ℕ_discrete, ◌==◌,
  lookup-insert, arith, count, values, inl, inr, subst, Option-cases,
}
use nekonest.SessionLocks.Locks.{
  Goroutine, outside, waiting, System, SessionLock, at, move, find_entry, put_entry, create,
}
use nekonest.SessionLocks.Users.{uses, holds, one_if, count-move}

abbrev pub refs_of : Option SessionLock → ℕ
refs_of none = 0
refs_of (some entry) = entry.refs

abbrev pub held_of : Option SessionLock → ℕ
held_of none = 0
held_of (some entry) = one_if entry.locked

-- An entry's count is the number of its users, its mutex is locked by as many goroutines as hold it, and
-- addresses are not used twice.
pub record Counted (s : System) : Type 0 where
  pub refs : (e : ℕ) → count (uses e) (values s.goroutines) ≡ refs_of (find_entry e s)
  pub held : (e : ℕ) → count (holds e) (values s.goroutines) ≡ held_of (find_entry e s)
  pub below : (e : ℕ) (entry : SessionLock) → find_entry e s ≡ some entry → e < s.fresh

-- What a move of one goroutine between two states of one entry changes.
pub record Moves (s : System) (i e : ℕ) (g : Goroutine) (old new : SessionLock) : Type 0 where
  pub refs : new.refs + one_if (uses e (at i s)) ≡ old.refs + one_if (uses e g)
  pub held : one_if new.locked + one_if (holds e (at i s)) ≡ one_if old.locked + one_if (holds e g)
  pub others :
      (e' : ℕ)
      → e ≢ e'
      → (one_if (uses e' (at i s)) ≡ one_if (uses e' g))
        × (one_if (holds e' (at i s)) ≡ one_if (holds e' g))

pub find-put_entry_self :
    (e : ℕ) (entry : SessionLock) (s : System) {e' : ℕ}
    → e ≡ e'
    → find_entry e' (put_entry e entry s) ≡ some entry
find-put_entry_self e entry s {e'} h =
    lookup-insert ℕ_discrete e e' entry s.entries ∙ if_pos (ℕ_discrete e e') h _ _

pub find-put_entry_other :
    (e e' : ℕ) (entry : SessionLock) (s : System)
    → e ≢ e'
    → find_entry e' (put_entry e entry s) ≡ find_entry e' s
find-put_entry_other e e' entry s n =
    lookup-insert ℕ_discrete e e' entry s.entries ∙ if_neg (ℕ_discrete e e') n _ _

pub put-Counted :
    (s : System) (i e : ℕ) (g : Goroutine) (old new : SessionLock)
    → Counted s
    → find_entry e s ≡ some old
    → Moves s i e g old new
    → Counted (move i g (put_entry e new s))
put-Counted s i e g old new c f m = record {
  refs = λ e'.
      let moved = count-move (uses e') i g s refl in
      let before = c.refs e' in
      elim (ℕ_discrete e e') [
        | yes q ↦ rw (find-put_entry_self e new s q) (
            let was : refs_of (find_entry e' s) ≡ old.refs =
              ap refs_of (ap (λ x. find_entry x s) (sym q) ∙ f) in
            let now =
              subst (λ x. new.refs + one_if (uses x (at i s)) ≡ old.refs + one_if (uses x g)) q
                m.refs in
            omega (arith, moved, before, was, now))
        | no n ↦
            rw (find-put_entry_other e e' new s n)
              (let (same, same') = m.others e' n in omega (arith, moved, before, same))
      ];
  held = λ e'.
      let moved = count-move (holds e') i g s refl in
      let before = c.held e' in
      elim (ℕ_discrete e e') [
        | yes q ↦ rw (find-put_entry_self e new s q) (
            let was : held_of (find_entry e' s) ≡ one_if old.locked =
              ap held_of (ap (λ x. find_entry x s) (sym q) ∙ f) in
            let now =
              subst
                (λ x.
                  one_if new.locked + one_if (holds x (at i s))
                  ≡ one_if old.locked + one_if (holds x g))
                q m.held in
            omega (arith, moved, before, was, now))
        | no n ↦
            rw (find-put_entry_other e e' new s n)
              (let (same, same') = m.others e' n in omega (arith, moved, before, same'))
      ];
  below = λ e' entry h. elim (ℕ_discrete e e') [
    | yes q ↦ subst (λ x. x < s.fresh) q (c.below e old f)
    | no n ↦ c.below e' entry (sym (find-put_entry_other e e' new s n) ∙ h)
  ];
}

-- The next address is no entry's.
pub fresh-none : (s : System) → Counted s → find_entry s.fresh s ≡ none
fresh-none s c = elim (Option-cases (find_entry s.fresh s)) [
  | inl e ↦ e
  | inr (entry, e) ↦ absurd (let b = c.below s.fresh entry e in omega (arith, b))
]

abbrev pub new_lock : SessionLock
new_lock = record { locked = false; refs = 1 }

pub create-Counted :
    (s : System) (i : ℕ) (session : Bytes)
    → Counted s
    → at i s ≡ outside
    → Counted (move i (waiting session s.fresh) (create session s))
create-Counted s i session c o = record {
  refs = λ e'.
      let moved = count-move (uses e') i (waiting session s.fresh) s refl in
      let before = c.refs e' in
      let out : one_if (uses e' (at i s)) ≡ 0 = ap (λ g. one_if (uses e' g)) o in
      elim (ℕ_discrete s.fresh e') [
        | yes q ↦ rw (find-put_entry_self s.fresh new_lock s q) (
            let none_yet : refs_of (find_entry e' s) ≡ 0 =
              ap refs_of (ap (λ x. find_entry x s) (sym q) ∙ fresh-none s c) in
            let here : one_if (s.fresh == e') ≡ 1 = ground arith in
            omega (arith, moved, before, out, none_yet, here))
        | no n ↦ rw (find-put_entry_other s.fresh e' new_lock s n) (
            let elsewhere : one_if (s.fresh == e') ≡ 0 = ground arith in
            omega (arith, moved, before, out, elsewhere))
      ];
  held = λ e'.
      let moved = count-move (holds e') i (waiting session s.fresh) s refl in
      let before = c.held e' in
      let out : one_if (holds e' (at i s)) ≡ 0 = ap (λ g. one_if (holds e' g)) o in
      elim (ℕ_discrete s.fresh e') [
        | yes q ↦ rw (find-put_entry_self s.fresh new_lock s q) (
            let none_yet : held_of (find_entry e' s) ≡ 0 =
              ap held_of (ap (λ x. find_entry x s) (sym q) ∙ fresh-none s c) in
            omega (arith, moved, before, out, none_yet))
        | no n ↦
            rw (find-put_entry_other s.fresh e' new_lock s n) (omega (arith, moved, before, out))
      ];
  below = λ e' entry h. elim (ℕ_discrete s.fresh e') [
    | yes q ↦ omega (arith, q)
    | no n ↦
        let b = c.below e' entry (sym (find-put_entry_other s.fresh e' new_lock s n) ∙ h) in
        omega (arith, b)
  ];
}
