-- ===== src/ActiveTurn/Completion.antt =====
-- Completion of a turn and late callbacks in daemon/cmd/daemon/active_turn.go.
use nekonest.Prelude.{
  ℕ, ◌≡◌, true, false, [], ◌∷◌, none, Bytes, bytes_discrete, arith, insert, delete, lookup-insert,
}
use nekonest.ActiveTurn.Registry.{State, Registry, put, drop_key, turn, accept, complete_matching}
use nekonest.ActiveTurn.Race.{IsOpen}

drop_key-put :
    (session : Bytes) (s : State) (r : Registry)
    → drop_key session (put session s r) ≡ drop_key session r
unfolding insert delete
drop_key-put session s [] = ground arith
drop_key-put session s ((k, x) ∷ r) = ground (arith, drop_key-put session s r)

-- The completion callback of a turn that has no terminal event may come before its acceptance or
-- after it: either way the second of the two calls, and it alone, reports the completion, and both
-- orders leave the registry without the binding and otherwise as it was.
pub accept_complete_commute :
    (session : Bytes) (generation : ℕ) (client : Bytes) (r : Registry) (s : State)
    → IsOpen session generation client s r
    → s.pending_terminal ≡ none
    → s.native_complete ≡ false
    → let early = complete_matching r session generation client in
      let then_accept = accept early.0 session generation client in
      let first_accept = accept r session generation client in
      let late = complete_matching first_accept.0 session generation client in
      (early.1 ≡ false)
      × (then_accept.2 ≡ true)
      × (then_accept.0 ≡ drop_key session r)
      × (first_accept.2 ≡ false)
      × (late.1 ≡ true)
      × (late.0 ≡ drop_key session r)
unfolding complete_matching accept turn
accept_complete_commute session generation client r s o p c =
    let completed = record s { native_complete = true } in
    let taken = record s { accepted = true; pending_terminal = none } in
    let l = lookup-insert bytes_discrete session session completed r in
    let m = lookup-insert bytes_discrete session session taken r in
    let d = drop_key-put session completed r in
    let e = drop_key-put session taken r in
    (
      ground arith,
      ground (arith, l),
      ground (arith, l, d),
      ground arith,
      ground (arith, m),
      ground (arith, m, e),
    )
