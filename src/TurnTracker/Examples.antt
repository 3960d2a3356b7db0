-- ===== src/TurnTracker/Examples.antt =====
-- Runs of the tracker of daemon/internal/adapters/control_tracker.go at small inputs.
use nekonest.Prelude.{
  pos, ◌≡◌, ◌≤◌, ◌+◌, refl, true, false, List, [], ◌∷◌, none, ascii, bytes_discrete, count, lookup,
}
use nekonest.TurnTracker.Tracker.{Binding, Tracker, Request, find, begin, abort, accepted, finish}
use nekonest.TurnTracker.Turns.{
  Section, begins, marks, emits, finishes, perform_all, ends, bound, begun, perform_all-ends,
}
use nekonest.TurnTracker.Order.{finish-ends_newer_turn}

abbrev turn : Binding
turn = record {
  generation = 4;
  client_msg_id = ascii "c";
  listens = true;
  accepted = false;
  terminal = none;
}

abbrev tracker : Tracker
tracker = record { agent = ascii "codex"; sink = true; bindings = (ascii "s", turn) ∷ [] }

abbrev newer : Request
newer = record { generation = 5; client_msg_id = ascii "d"; listens = true }

-- The end of the turn comes before its acceptance, a begin is refused, and a newer turn is begun.
abbrev history : List Section
history =
    finishes (ascii "s") (pos 0) false
    ∷ marks (ascii "s") 4
    ∷ begins (ascii "s") newer
    ∷ emits (ascii "s") 4
    ∷ finishes (ascii "s") (pos 0) false
    ∷ begins (ascii "s") newer
    ∷ []

perform_all-ends_example :
    count (ends (ascii "s")) (perform_all tracker history).1
      + bound (ascii "s") (perform_all tracker history).0
    ≤ bound (ascii "s") tracker + begun (ascii "s") tracker history
perform_all-ends_example = perform_all-ends (ascii "s") tracker history

finish-ends_newer_turn_example :
    let fresh = (begin (abort tracker (ascii "s") 4) (ascii "s") newer).0 in
    let running = (accepted fresh (ascii "s") 5).0 in
    let ended = finish running (ascii "s") (pos 0) true in
    (count (ends (ascii "s")) ended.1 ≡ 1) × (find (ascii "s") ended.0.bindings ≡ none)
unfolding lookup bytes_discrete
finish-ends_newer_turn_example =
    finish-ends_newer_turn (ascii "s") tracker turn newer (pos 0) true refl refl
