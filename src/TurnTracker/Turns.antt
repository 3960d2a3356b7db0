-- ===== src/TurnTracker/Turns.antt =====
-- One end for one turn (daemon/internal/adapters/control_tracker.go).
use nekonest.Prelude.{
  lookup, inl, inr, ℕ, ℤ, ◌+◌, ◌≤◌, ◌≡◌, Bool, true, false, List, [], ◌∷◌, ◌++◌, none, some, Bytes,
  bytes_discrete, arith, ite, count, lookup-insert, lookup-delete, if◌then◌else◌, Option-cases,
  is_some,
}
use nekonest.TurnTracker.Tracker.{
  Terminal, Binding, Tracker, Lifecycle, turn_accepted, turn_terminal_success,
  turn_terminal_failure, turn_interrupted, Output, on_lifecycle, control_event, Request, find,
  binding_of, begin, abort, detach_all, announce, emit, lifecycle_of, finish, mark_accepted, mark,
}

-- The critical sections, each with what it tells the outside afterwards. A call of `accepted` is `marks`,
-- then `emits`, then `finishes` if it found an end pending; sections of other calls may come between.
pub data Section : Type 0 where
  begins : Bytes → Request → Section
  aborts marks emits : Bytes → ℕ → Section
  detaches : Section
  finishes : Bytes → ℤ → Bool → Section

unfoldable pub perform : Tracker → Section → Tracker × List Output
perform t (begins session request) = ((begin t session request).0, [])
perform t (aborts session generation) = (abort t session generation, [])
perform t (marks session generation) = ((mark t session generation).0, [])
perform t (emits session generation) = (t, emit t session generation turn_accepted)
perform t detaches = (detach_all t, [])
perform t (finishes session exit_code interrupted) = finish t session exit_code interrupted

unfoldable pub perform_all : Tracker → List Section → Tracker × List Output
perform_all t [] = (t, [])
perform_all t (c ∷ cs) =
    let first = perform t c in let rest = perform_all first.0 cs in (rest.0, first.1 ++ rest.1)

-- An event of the sink that ends a turn of the session.
abbrev pub ends : Bytes → Output → Bool
ends session (on_lifecycle g c l) = false
ends session (control_event s g c turn_accepted) = false
ends session (control_event s g c turn_terminal_success) = ite (bytes_discrete s session) true false
ends session (control_event s g c turn_terminal_failure) = ite (bytes_discrete s session) true false
ends session (control_event s g c turn_interrupted) = ite (bytes_discrete s session) true false

-- Whether the section begins a turn of the session: a begin that is not refused.
abbrev pub starts : Bytes → Tracker → Section → Bool
starts session t (begins s request) =
    if (begin t s request).1 then ite (bytes_discrete s session) true false else false
starts session t _ = false

-- The number of turns of the session that were begun.
unfoldable pub begun : Bytes → Tracker → List Section → ℕ
begun session t [] = 0
begun session t (c ∷ cs) = (if starts session t c then 1 else 0) + begun session (perform t c).0 cs

abbrev pub bound : Bytes → Tracker → ℕ
bound session t = if is_some (find session t.bindings) then 1 else 0

count-append :
    (p : Output → Bool) (xs ys : List Output) → count p (xs ++ ys) ≡ count p xs + count p ys
count-append p [] ys = omega arith
count-append p (x ∷ xs) ys = omega (arith, count-append p xs ys)

announce-ends :
    (session s : Bytes) (t : Tracker) (b : Binding) (l : Lifecycle)
    → count (ends session) (announce t s b l) ≤ ite (bytes_discrete s session) 1 0
announce-ends session s t b turn_accepted = ground arith
announce-ends session s t b turn_terminal_success = ground arith
announce-ends session s t b turn_terminal_failure = ground arith
announce-ends session s t b turn_interrupted = ground arith

emit-ends :
    (session s : Bytes) (t : Tracker) (generation : ℕ)
    → count (ends session) (emit t s generation turn_accepted) ≡ 0
unfolding emit
emit-ends session s t generation = ground arith

finish-ends :
    (session s : Bytes) (t : Tracker) (exit_code : ℤ) (interrupted : Bool)
    → count (ends session) (finish t s exit_code interrupted).1
        + bound session (finish t s exit_code interrupted).0
      ≤ bound session t
unfolding finish
finish-ends session s t exit_code interrupted = elim (Option-cases (find s t.bindings)) [
  | inl absent ↦ ground arith
  | inr (b, e) ↦
      let ended : Terminal = record { exit_code = exit_code; interrupted = interrupted } in
      ground (
        arith,
        announce-ends session s t b (lifecycle_of exit_code interrupted),
        lookup-insert bytes_discrete s session (record b { terminal = some ended }) t.bindings,
        lookup-delete bytes_discrete s session t.bindings,
      )
]

marked-bound :
    (session s : Bytes) (t : Tracker) (b : Binding)
    → find s t.bindings ≡ some b
    → bound session (mark_accepted t s b) ≤ bound session t
marked-bound session s t b e = ground (
  arith,
  lookup-insert bytes_discrete s session (record b { accepted = true; terminal = none }) t.bindings,
)

mark-bound :
    (session s : Bytes) (t : Tracker) (generation : ℕ)
    → bound session (mark t s generation).0 ≤ bound session t
unfolding mark
mark-bound session s t generation = elim (Option-cases (find s t.bindings)) [
  | inl absent ↦ ground arith
  | inr (b, e) ↦ ground (arith, marked-bound session s t b e)
]

perform-ends :
    (session : Bytes) (t : Tracker) (c : Section)
    → count (ends session) (perform t c).1 + bound session (perform t c).0
      ≤ bound session t + (if starts session t c then 1 else 0)
unfolding perform begin abort detach_all lookup
perform-ends session t (begins s request) =
    ground (arith, lookup-insert bytes_discrete s session (binding_of request) t.bindings)
perform-ends session t (aborts s generation) =
    ground (arith, lookup-delete bytes_discrete s session t.bindings)
perform-ends session t detaches = ground arith
perform-ends session t (marks s generation) = omega (arith, mark-bound session s t generation)
perform-ends session t (emits s generation) = omega (arith, emit-ends session s t generation)
perform-ends session t (finishes s exit_code interrupted) =
    omega (arith, finish-ends session s t exit_code interrupted)

-- In any interleaving of the critical sections, those of `accepted` among them, the sink hears at
-- most one end for each turn of the session that was begun, a refused begin not counted, and one for a
-- turn that was bound before; a turn that is still bound has had none of these.
pub perform_all-ends :
    (session : Bytes) (t : Tracker) (cs : List Section)
    → count (ends session) (perform_all t cs).1 + bound session (perform_all t cs).0
      ≤ bound session t + begun session t cs
unfolding perform_all begun
perform_all-ends session t [] = omega arith
perform_all-ends session t (c ∷ cs) =
    let first = perform t c in
    omega (
      arith,
      count-append (ends session) first.1 (perform_all first.0 cs).1,
      perform-ends session t c,
      perform_all-ends session first.0 cs,
    )
