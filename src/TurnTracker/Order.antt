-- ===== src/TurnTracker/Order.antt =====
-- The acceptance of a turn and the end of its process, in either order
-- (daemon/internal/adapters/control_tracker.go).
use mathlib.Core.List.{append-nil}
use nekonest.Prelude.{
  lookup-insert_self, lookup-delete_self, ℕ, ℤ, ◌≡◌, refl, Bool, true, false, List, [], ◌++◌, none,
  some, Bytes, bytes_discrete, arith, count, ◌==◌,
}
use nekonest.TurnTracker.Tracker.{
  Terminal, Binding, Tracker, turn_accepted, Request, find, put, drop_key, binding_of, begin, abort,
  announce, emit, lifecycle_of, finish, finish_pending, mark_accepted, accepted,
}
use nekonest.TurnTracker.Turns.{ends}

find-put :
    (session : Bytes) (b : Binding) (m : List (Bytes × Binding))
    → find session (put session b m) ≡ some b
find-put session b m = lookup-insert_self bytes_discrete session b m

find-drop_key :
    (session : Bytes) (m : List (Bytes × Binding)) → find session (drop_key session m) ≡ none
find-drop_key session m = lookup-delete_self bytes_discrete session m

eq_refl : (n : ℕ) → (n == n) ≡ true
eq_refl n = ground arith

abbrev taken : Binding → Binding
taken b = record b { accepted = true; terminal = none }

module _ (session : Bytes) (t : Tracker) (b : Binding)
    (bound : find session t.bindings ≡ some b) where
  finish-open :
      (exit_code : ℤ) (interrupted : Bool)
      → b.accepted ≡ false
      → finish t session exit_code interrupted ≡ (
        record t {
          bindings =
              put session
                (record b {
                  terminal = some (record { exit_code = exit_code; interrupted = interrupted });
                })
                t.bindings;
        },
        [],
      )
  unfolding finish
  finish-open exit_code interrupted a = rw (bound, finish) (rw a refl)

  finish-accepted :
      (exit_code : ℤ) (interrupted : Bool)
      → b.accepted ≡ true
      → finish t session exit_code interrupted ≡ (
        record t { bindings = drop_key session t.bindings },
        announce t session b (lifecycle_of exit_code interrupted),
      )
  unfolding finish
  finish-accepted exit_code interrupted a = rw (bound, finish) (rw a refl)

  emit-bound : emit t session b.generation turn_accepted ≡ announce t session b turn_accepted
  unfolding emit
  emit-bound = rw (bound, emit) (rw (eq_refl b.generation) refl)

  accepted-bound : accepted t session b.generation ≡ (
    (finish_pending (mark_accepted t session b) session b.terminal).0,
    emit (mark_accepted t session b) session b.generation turn_accepted
        ++ (finish_pending (mark_accepted t session b) session b.terminal).1,
  )
  unfolding accepted
  accepted-bound = rw (bound, accepted) (rw (eq_refl b.generation) refl)

module _ (session : Bytes) (t : Tracker) (b : Binding)
    (bound : find session t.bindings ≡ some b) where
  -- The acceptance of a turn whose process still runs.
  accepted-running :
      b.terminal ≡ none
      → accepted t session b.generation
        ≡ (mark_accepted t session b, announce t session (taken b) turn_accepted)
  accepted-running p =
      rw
        (
          accepted-bound session t b bound,
          p,
          emit-bound session (mark_accepted t session b) (taken b)
              (find-put session (taken b) t.bindings),
        )
        (rw append-nil refl)

  -- The acceptance of a turn whose process has ended.
  accepted-ended :
      (ended : Terminal)
      → b.terminal ≡ some ended
      → accepted t session b.generation ≡ (
        record t { bindings = drop_key session (put session (taken b) t.bindings) },
        announce t session (taken b) turn_accepted
            ++ announce t session (taken b) (lifecycle_of ended.exit_code ended.interrupted),
      )
  accepted-ended ended p =
      rw
        (
          accepted-bound session t b bound,
          p,
          emit-bound session (mark_accepted t session b) (taken b)
              (find-put session (taken b) t.bindings),
          finish-accepted session (mark_accepted t session b) (taken b)
              (find-put session (taken b) t.bindings) ended.exit_code ended.interrupted refl,
        )
        refl

-- The end of the native process may come before the acceptance or after it: the outputs are the
-- same, the acceptance first, and the turn is gone.
pub accepted_finish_commute :
    (session : Bytes) (t : Tracker) (b : Binding) (exit_code : ℤ) (interrupted : Bool)
    → find session t.bindings ≡ some b
    → b.accepted ≡ false
    → b.terminal ≡ none
    → let early = finish t session exit_code interrupted in
      let then_accepted = accepted early.0 session b.generation in
      let first_accepted = accepted t session b.generation in
      let late = finish first_accepted.0 session exit_code interrupted in
      (early.1 ≡ [])
      × (then_accepted.1 ≡ first_accepted.1 ++ late.1)
      × (find session then_accepted.0.bindings ≡ none)
      × (find session late.0.bindings ≡ none)
accepted_finish_commute session t b exit_code interrupted e a p =
    let ended : Terminal = record { exit_code = exit_code; interrupted = interrupted } in
    let held : Binding = record b { terminal = some ended } in
    let stored : Tracker = record t { bindings = put session held t.bindings } in
    let marked = mark_accepted t session b in
    let first = finish-open session t b e exit_code interrupted a in
    let second = accepted-ended session stored held (find-put session held t.bindings) ended refl in
    let third = accepted-running session t b e p in
    let last =
      finish-accepted session marked (taken b) (find-put session (taken b) t.bindings) exit_code
        interrupted refl in
    rw (first, second, third, last) (refl, refl, find-drop_key session _, find-drop_key session _)

ends-announce :
    (session : Bytes) (t : Tracker) (b : Binding) (exit_code : ℤ) (interrupted : Bool)
    → t.sink ≡ true
    → count (ends session) (announce t session b (lifecycle_of exit_code interrupted)) ≡ 1
ends-announce session t b exit_code interrupted k = ground arith

abort-bound :
    (session : Bytes) (t : Tracker) (b : Binding)
    → find session t.bindings ≡ some b
    → abort t session b.generation ≡ record t { bindings = drop_key session t.bindings }
unfolding abort
abort-bound session t b e = rw (e, abort) (rw (eq_refl b.generation) refl)

begin-free :
    (session : Bytes) (t : Tracker) (request : Request)
    → find session t.bindings ≡ none
    → begin t session request
      ≡ (record t { bindings = put session (binding_of request) t.bindings }, true)
unfolding begin
begin-free session t request e = rw (e, begin) refl

-- finish takes no generation: where a turn was aborted and another turn of its session has begun
-- and been accepted, the end of the aborted turn's process is taken for the end of the newer turn.
pub finish-ends_newer_turn :
    (session : Bytes) (t : Tracker) (old : Binding) (request : Request) (exit_code : ℤ)
    (interrupted : Bool)
    → find session t.bindings ≡ some old
    → t.sink ≡ true
    → let fresh = (begin (abort t session old.generation) session request).0 in
      let running = (accepted fresh session request.generation).0 in
      let ended = finish running session exit_code interrupted in
      (count (ends session) ended.1 ≡ 1) × (find session ended.0.bindings ≡ none)
finish-ends_newer_turn session t old request exit_code interrupted e k =
    let free : Tracker = record t { bindings = drop_key session t.bindings } in
    let fresh : Tracker = record t { bindings = put session (binding_of request) free.bindings } in
    let marked = mark_accepted fresh session (binding_of request) in
    let first = abort-bound session t old e in
    let second = begin-free session free request (find-drop_key session t.bindings) in
    let third =
      accepted-running session fresh (binding_of request)
        (find-put session (binding_of request) free.bindings) refl in
    let last =
      finish-accepted session marked (taken (binding_of request))
        (find-put session (taken (binding_of request)) fresh.bindings) exit_code interrupted refl in
    rw (first, second, third, last)
      (
        ends-announce session marked (taken (binding_of request)) exit_code interrupted k,
        find-drop_key session _,
      )
