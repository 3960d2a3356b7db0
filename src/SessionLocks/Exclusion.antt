-- ===== src/SessionLocks/Exclusion.antt =====
-- Goroutines at the lock of one session (daemon/cmd/daemon/prompt_state.go).
use mathlib.Core.Option.{some-injective}
use nekonest.Prelude.{ℕ, ◌≤◌, ◌≡◌, refl, sym, ap, ◌∙◌, some, Bytes, lookup, arith, count, values}
use nekonest.SessionLocks.Locks.{inside, System, at, find_entry, find_lock, Reach, start, later}
use nekonest.SessionLocks.Users.{uses, holds, at-two}
use nekonest.SessionLocks.Steps.{Inv, Step-Inv, own_lock, held_few}

Reach-Inv : {s : System} → Reach s → Inv s
unfolding lookup
Reach-Inv start = record {
  counted = record {
    refs = λ e. refl;
    held = λ e. refl;
    below = λ e entry h. absurd (ground arith);
  };
  listed = record {
    placed = λ i session e h. absurd (ground arith);
    listed = λ session e h. absurd (ground arith);
    single = λ a b e h k. absurd (ground arith);
  };
}
Reach-Inv (later r s) = Step-Inv s (Reach-Inv r)

-- However many goroutines lock and unlock sessions, and in whatever order their steps come, at most one is
-- between lock and unlock of a session.
pub Reach-excludes :
    {s : System} (i j : ℕ) (session : Bytes) (e e' : ℕ)
    → Reach s
    → at i s ≡ inside session e
    → at j s ≡ inside session e'
    → i ≡ j
Reach-excludes {s} i j session e e' r h k =
    let v = Reach-Inv r in
    let mine = own_lock s i (inside session e) session e v.listed h refl in
    let theirs = own_lock s j (inside session e') session e' v.listed k refl in
    let same : e ≡ e' = some-injective _ _ (sym mine ∙ theirs) in
    at-two (holds e) i j s refl (ap (holds e) h ∙ ground arith)
      (ap (holds e) k ∙ ground (arith, same))
      (let all = v.counted.held e in
        held_few (find_entry e s) (count (holds e) (values s.goroutines)) all)

-- An entry stands in the map only while some goroutine uses it, so the map does not outgrow the goroutines.
pub Reach-used :
    {s : System} (session : Bytes) (e : ℕ)
    → Reach s
    → find_lock session s ≡ some e
    → 1 ≤ count (uses e) (values s.goroutines)
Reach-used {s} session e r h =
    let v = Reach-Inv r in
    let all = v.counted.refs e in let one = v.listed.listed session e h in omega (arith, all, one)
