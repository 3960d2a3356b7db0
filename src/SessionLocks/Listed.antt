-- ===== src/SessionLocks/Listed.antt =====
-- The map of daemon/cmd/daemon/prompt_state.go and the entries in use.
use mathlib.Core.Logic.{if_pos, if_neg}
use mathlib.Core.Option.{some-injective}
use nekonest.Prelude.{
  ℕ, ◌≤◌, ◌≡◌, ◌≢◌, refl, sym, ap, ◌∙◌, true, none, some, Bytes, bytes_discrete, ℕ_discrete, lookup,
  lookup-insert, lookup-insert_self, arith,
}
use nekonest.SessionLocks.Locks.{
  Goroutine, outside, waiting, inside, leaving, System, SessionLock, at, move, find_entry,
  put_entry, create, find_lock, or_outside,
}
use nekonest.SessionLocks.Users.{uses, session_of, at-move_self, at-move_other}
use nekonest.SessionLocks.Counted.{
  refs_of, Counted, find-put_entry_self, find-put_entry_other, fresh-none, new_lock,
}

-- The entry that a goroutine uses is its session's, an entry of the map has users, and of one session.
pub record Listed (s : System) : Type 0 where
  pub placed :
      (i : ℕ) (session : Bytes) (e : ℕ)
      → session_of (at i s) ≡ some (session, e)
      → find_lock session s ≡ some e
  pub listed :
      (session : Bytes) (e : ℕ) → find_lock session s ≡ some e → 1 ≤ refs_of (find_entry e s)
  pub single : (a b : Bytes) (e : ℕ) → find_lock a s ≡ some e → find_lock b s ≡ some e → a ≡ b

pub session_of-uses :
    (g : Goroutine) (session : Bytes) (e : ℕ) → session_of g ≡ some (session, e) → uses e g ≡ true
session_of-uses outside session e h = absurd (ground arith)
session_of-uses (waiting a b) session e h =
    let q = ap (λ x. x.1) (some-injective _ _ h) in ground arith
session_of-uses (inside a b) session e h =
    let q = ap (λ x. x.1) (some-injective _ _ h) in ground arith
session_of-uses (leaving a b) session e h =
    let q = ap (λ x. x.1) (some-injective _ _ h) in ground arith

-- After a move, the others are placed as before.
pub move-placed :
    (i : ℕ) (g : Goroutine) (s t : System)
    → t.goroutines ≡ s.goroutines
    → ((session : Bytes) (e : ℕ) → session_of g ≡ some (session, e) → find_lock session t ≡ some e)
    → ((j : ℕ) (session : Bytes) (e : ℕ)
        → i ≢ j
        → session_of (at j s) ≡ some (session, e)
        → find_lock session t ≡ some e)
    → (j : ℕ) (session : Bytes) (e : ℕ) → session_of (at j (move i g t)) ≡ some (session, e)
    → find_lock session t ≡ some e
move-placed i g s t same own others j session e h = elim (ℕ_discrete i j) [
  | yes q ↦
      own session e
        (ap session_of (sym (ap (λ x. at x (move i g t)) (sym q) ∙ at-move_self i g t)) ∙ h)
  | no n ↦
      let here : at j (move i g t) ≡ at j s =
        at-move_other i j g t n ∙ ap (λ l. or_outside (lookup ℕ_discrete j l)) same in
      others j session e n (ap session_of (sym here) ∙ h)
]

pub put-Listed :
    (s : System) (i e : ℕ) (g : Goroutine) (new : SessionLock)
    → Listed s
    → 1 ≤ new.refs
    → ((session : Bytes) (e' : ℕ)
        → session_of g ≡ some (session, e')
        → find_lock session s ≡ some e')
    → Listed (move i g (put_entry e new s))
put-Listed s i e g new w some_left own = record {
  placed =
      move-placed i g s (put_entry e new s) refl own (λ j session e' n h. w.placed j session e' h);
  listed = λ session e' h. elim (ℕ_discrete e e') [
    | yes q ↦ rw (find-put_entry_self e new s q) some_left
    | no n ↦ rw (find-put_entry_other e e' new s n) (w.listed session e' h)
  ];
  single = w.single;
}

find-create_other :
    (session other : Bytes) (s : System)
    → session ≢ other
    → find_lock other (create session s) ≡ find_lock other s
find-create_other session other s n =
    lookup-insert bytes_discrete session other s.fresh s.locks
    ∙ if_neg (bytes_discrete session other) n _ _

find-create_self :
    (session other : Bytes) (s : System) {e : ℕ}
    → session ≡ other
    → find_lock other (create session s) ≡ some e
    → s.fresh ≡ e
find-create_self session other s q h = some-injective _ _ (
    sym (
      lookup-insert bytes_discrete session other s.fresh s.locks
      ∙ if_pos (bytes_discrete session other) q _ _)
    ∙ h)

fresh-unlisted : (s : System) (a : Bytes) → Counted s → Listed s → find_lock a s ≢ some s.fresh
fresh-unlisted s a c w h =
    let b = w.listed a s.fresh h in let n = ap refs_of (fresh-none s c) in omega (arith, b, n)

pub create-Listed :
    (s : System) (i : ℕ) (session : Bytes)
    → Counted s
    → Listed s
    → find_lock session s ≡ none
    → Listed (move i (waiting session s.fresh) (create session s))
create-Listed s i session c w absent = record {
  placed =
      move-placed i (waiting session s.fresh) s (create session s) refl
        (λ a e h.
          let q = some-injective _ _ h in
          ap (λ x. find_lock x (create session s)) (sym (ap (λ x. x.0) q))
          ∙ lookup-insert_self bytes_discrete session s.fresh s.locks
          ∙ ap (λ x. some x.1) q)
        (λ j a e n h.
          let before = w.placed j a e h in
          find-create_other session a s (λ q.
            absurd
              (let gone = ap (λ x. find_lock x s) q in ground (arith, sym absent ∙ gone ∙ before)))
          ∙ before);
  listed = λ a e h. elim (ℕ_discrete s.fresh e) [
    | yes q ↦ rw (find-put_entry_self s.fresh new_lock s q) (omega arith)
    | no n ↦ elim (bytes_discrete session a) [
      | yes q ↦ absurd (n (find-create_self session a s q h))
      | no m ↦
          rw (find-put_entry_other s.fresh e new_lock s n)
            (w.listed a e (sym (find-create_other session a s m) ∙ h))
    ]
  ];
  single = λ a b e h k. elim (bytes_discrete session a) [
    | yes q ↦ elim (bytes_discrete session b) [
      | yes r ↦ sym q ∙ r
      | no m ↦ absurd (
          fresh-unlisted s b c w (
            sym (find-create_other session b s m)
            ∙ k
            ∙ ap some (sym (find-create_self session a s q h))))
    ]
    | no n ↦ elim (bytes_discrete session b) [
      | yes r ↦ absurd (
          fresh-unlisted s a c w (
            sym (find-create_other session a s n)
            ∙ h
            ∙ ap some (sym (find-create_self session b s r k))))
      | no m ↦
          w.single a b e (sym (find-create_other session a s n) ∙ h)
            (sym (find-create_other session b s m) ∙ k)
    ]
  ];
}
