-- ===== src/SessionLocks/Steps.antt =====
-- The steps against the counts and the map (daemon/cmd/daemon/prompt_state.go).
use mathlib.Core.Logic.{if_neg}
use mathlib.Core.Option.{some-injective}
use nekonest.Prelude.{
  ℕ, ◌+◌, ◌-◌, ◌≤◌, ◌≡◌, ◌≢◌, refl, sym, ap, subst, ◌∙◌, true, false, Option, none, some, Bytes,
  bytes_discrete, ℕ_discrete, ◌==◌, lookup, delete, lookup-delete, arith, inl, inr, Bool-cases,
}
use nekonest.SessionLocks.Locks.{
  Goroutine, outside, waiting, inside, leaving, System, SessionLock, at, move, find_entry,
  put_entry, more_refs, find_lock, fewer_refs, Step, creates, joins, locks_entry, unlocks_entry,
  leaves,
}
use nekonest.SessionLocks.Users.{uses, holds, one_if, session_of, at-count, at-move_other}
use nekonest.SessionLocks.Counted.{
  refs_of, held_of, Counted, Moves, put-Counted, create-Counted, find-put_entry_self,
  find-put_entry_other,
}
use nekonest.SessionLocks.Listed.{Listed, put-Listed, create-Listed, move-placed, session_of-uses}

pub record Inv (s : System) : Type 0 where
  pub counted : Counted s
  pub listed : Listed s

-- A goroutine that moves between two states of its entry.
stays-Moves :
    (s : System) (i e : ℕ) (before after : Goroutine) (old new : SessionLock)
    → at i s ≡ before
    → new.refs + one_if (uses e before) ≡ old.refs + one_if (uses e after)
    → one_if new.locked + one_if (holds e before) ≡ one_if old.locked + one_if (holds e after)
    → ((e' : ℕ)
        → e ≢ e'
        → (one_if (uses e' before) ≡ one_if (uses e' after))
          × (one_if (holds e' before) ≡ one_if (holds e' after)))
    → Moves s i e after old new
stays-Moves s i e before after old new h refs held others = record {
  refs = ap (λ g. new.refs + one_if (uses e g)) h ∙ refs;
  held = ap (λ g. one_if new.locked + one_if (holds e g)) h ∙ held;
  others = λ e' n.
      let (a, b) = others e' n in
      (ap (λ g. one_if (uses e' g)) h ∙ a, ap (λ g. one_if (holds e' g)) h ∙ b);
}

-- The entry that a goroutine stands at.
pub own_lock :
    (s : System) (i : ℕ) (g : Goroutine) (session : Bytes) (e : ℕ)
    → Listed s
    → at i s ≡ g
    → session_of g ≡ some (session, e)
    → find_lock session s ≡ some e
own_lock s i g session e w h q = w.placed i session e (ap session_of h ∙ q)

same_pair :
    (s : System) {session session' : Bytes} {e e' : ℕ}
    → find_lock session s ≡ some e
    → ◌≡◌ {A = Option (Bytes × ℕ)} (some (session, e)) (some (session', e'))
    → find_lock session' s ≡ some e'
same_pair s f h =
    let q = some-injective _ _ h in
    ap (λ x. find_lock x s) (sym (ap (λ x. x.0) q)) ∙ f ∙ ap (λ x. some x.1) q

-- An entry that is in the map has users.
used :
    (s : System) (session : Bytes) (e : ℕ) (entry : SessionLock)
    → Listed s
    → find_lock session s ≡ some e
    → find_entry e s ≡ some entry
    → 1 ≤ entry.refs
used s session e entry w mine f = subst (λ o. 1 ≤ refs_of o) f (w.listed session e mine)

find-delete_other :
    (session a : Bytes) (s : System)
    → session ≢ a
    → lookup bytes_discrete a (delete bytes_discrete session s.locks) ≡ find_lock a s
find-delete_other session a s n =
    lookup-delete bytes_discrete session a s.locks ∙ if_neg (bytes_discrete session a) n _ _

find-delete_before :
    (session a : Bytes) (s : System) {e : ℕ}
    → lookup bytes_discrete a (delete bytes_discrete session s.locks) ≡ some e
    → find_lock a s ≡ some e
find-delete_before session a s h = ground (arith, lookup-delete bytes_discrete session a s.locks)

pub held_few : (o : Option SessionLock) (n : ℕ) → n ≡ held_of o → n ≤ 1
held_few none n h = omega arith
held_few (some entry) n h = ground arith

-- The last goroutine takes the entry out of the map.
delete-Listed :
    (s : System) (i : ℕ) (session : Bytes) (e : ℕ) (new : SessionLock)
    → Listed s
    → Counted (move i outside (put_entry e new s))
    → find_lock session s ≡ some e
    → new.refs ≡ 0
    → Listed (
        move i outside
          (record (put_entry e new s) { locks = delete bytes_discrete session s.locks }))
delete-Listed s i session e new w c mine unused =
    let rest : System = record (put_entry e new s) {
      locks = delete bytes_discrete session s.locks;
    } in
    record {
      placed =
          move-placed i outside s rest refl (λ a e' h. absurd (ground arith))
            (λ j a e' n h.
              let before = w.placed j a e' h in
              elim (bytes_discrete session a) [
                | yes q ↦ absurd (
                    let same : e ≡ e' =
                      some-injective _ _ (sym mine ∙ ap (λ x. find_lock x s) q ∙ before) in
                    let there = at-move_other i j outside (put_entry e new s) n in
                    let uses_it = ap (uses e') there ∙ session_of-uses (at j s) a e' h in
                    let one =
                      at-count (uses e') j (move i outside (put_entry e new s)) refl uses_it in
                    let all = c.refs e' in
                    let now = ap refs_of (find-put_entry_self e new s same) in
                    omega (arith, one, all, now, unused))
                | no m ↦ find-delete_other session a s m ∙ before
              ]);
      listed = λ a e' h. elim (bytes_discrete session a) [
        | yes q ↦ absurd (let gone = lookup-delete bytes_discrete session a s.locks in ground arith)
        | no m ↦
            let before = sym (find-delete_other session a s m) ∙ h in
            elim (ℕ_discrete e e') [
              | yes r ↦ absurd (m (w.single session a e mine (before ∙ ap some (sym r))))
              | no n ↦ rw (find-put_entry_other e e' new s n) (w.listed a e' before)
            ]
      ];
      single = λ a b e' h k.
          w.single a b e' (find-delete_before session a s h) (find-delete_before session b s k);
    }

joins-Inv :
    (s : System) (i : ℕ) (session : Bytes) (e : ℕ) (entry : SessionLock)
    → Inv s
    → at i s ≡ outside
    → find_lock session s ≡ some e
    → find_entry e s ≡ some entry
    → Inv (move i (waiting session e) (more_refs e entry s))
joins-Inv s i session e entry v o f g =
    let new : SessionLock = record entry { refs = entry.refs + 1 } in
    record {
      counted = put-Counted s i e (waiting session e) entry new v.counted g (
          stays-Moves s i e outside (waiting session e) entry new o (ground arith) (ground arith)
            (λ e' n. (ground arith, refl)));
      listed =
          put-Listed s i e (waiting session e) new v.listed (omega arith)
            (λ a e' h. same_pair s f h);
    }

locks-Inv :
    (s : System) (i : ℕ) (session : Bytes) (e : ℕ) (entry : SessionLock)
    → Inv s
    → at i s ≡ waiting session e
    → find_entry e s ≡ some entry
    → entry.locked ≡ false
    → Inv (move i (inside session e) (put_entry e (record entry { locked = true }) s))
locks-Inv s i session e entry v h f free =
    let new : SessionLock = record entry { locked = true } in
    let mine = own_lock s i (waiting session e) session e v.listed h refl in
    record {
      counted = put-Counted s i e (inside session e) entry new v.counted f (
          stays-Moves s i e (waiting session e) (inside session e) entry new h refl (ground arith)
            (λ e' n. (refl, ground arith)));
      listed =
          put-Listed s i e (inside session e) new v.listed (used s session e entry v.listed mine f)
            (λ a e' k. same_pair s mine k);
    }

unlocks-Inv :
    (s : System) (i : ℕ) (session : Bytes) (e : ℕ) (entry : SessionLock)
    → Inv s
    → at i s ≡ inside session e
    → find_entry e s ≡ some entry
    → Inv (move i (leaving session e) (put_entry e (record entry { locked = false }) s))
unlocks-Inv s i session e entry v h f =
    let new : SessionLock = record entry { locked = false } in
    let mine = own_lock s i (inside session e) session e v.listed h refl in
    let holds_it : holds e (at i s) ≡ true = ap (holds e) h ∙ ground arith in
    let one = at-count (holds e) i s refl holds_it in
    let all = v.counted.held e ∙ ap held_of f in
    record {
      counted = put-Counted s i e (leaving session e) entry new v.counted f (
          stays-Moves s i e (inside session e) (leaving session e) entry new h refl
            (ground (arith, one, all)) (λ e' n. (refl, ground arith)));
      listed =
          put-Listed s i e (leaving session e) new v.listed (used s session e entry v.listed mine f)
            (λ a e' k. same_pair s mine k);
    }

leaves-Inv :
    (s : System) (i : ℕ) (session : Bytes) (e : ℕ) (entry : SessionLock)
    → Inv s
    → at i s ≡ leaving session e
    → find_entry e s ≡ some entry
    → Inv (move i outside (fewer_refs session e entry s))
leaves-Inv s i session e entry v h f =
    let new : SessionLock = record entry { refs = entry.refs - 1 } in
    let mine = own_lock s i (leaving session e) session e v.listed h refl in
    let some_left = used s session e entry v.listed mine f in
    let c = put-Counted s i e outside entry new v.counted f (
      stays-Moves s i e (leaving session e) outside entry new h (ground (arith, some_left)) refl
        (λ e' n. (ground arith, refl))) in
    elim (Bool-cases (entry.refs - 1 == 0)) [
      | inl y ↦ rw y (record {
        counted = record { refs = c.refs; held = c.held; below = c.below };
        listed = delete-Listed s i session e new v.listed c mine (ground (arith, y));
      })
      | inr n ↦ rw n (record {
        counted = c;
        listed =
            put-Listed s i e outside new v.listed (ground (arith, n))
              (λ a e' k. absurd (ground arith));
      })
    ]

pub Step-Inv : {s s' : System} → Step s s' → Inv s → Inv s'
Step-Inv {s} (creates i session o absent) v = record {
  counted = create-Counted s i session v.counted o;
  listed = create-Listed s i session v.counted v.listed absent;
}
Step-Inv {s} (joins i session e entry o f g) v = joins-Inv s i session e entry v o f g
Step-Inv {s} (locks_entry i session e entry h f free) v = locks-Inv s i session e entry v h f free
Step-Inv {s} (unlocks_entry i session e entry h f) v = unlocks-Inv s i session e entry v h f
Step-Inv {s} (leaves i session e entry h f) v = leaves-Inv s i session e entry v h f
