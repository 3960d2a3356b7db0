-- ===== src/ActiveTurn/Examples.antt =====
-- Runs of the registry of daemon/cmd/daemon/active_turn.go at small inputs.
use nekonest.Prelude.{◌≡◌, refl, true, false, List, [], ◌∷◌, ascii, bytes_discrete, lookup}
use nekonest.ActiveTurn.Registry.{
  ControlEvent, State, Registry, drop_key, new_state, accept, complete_matching,
}
use nekonest.ActiveTurn.Race.{Call, terminals, binds, completes, sets}
use nekonest.ActiveTurn.Completion.{accept_complete_commute}

abbrev started : State
started = new_state 4 (ascii "c")

abbrev one_turn : Registry
one_turn = (ascii "s", started) ∷ []

abbrev ended : ControlEvent
ended = record {
  session_id = ascii "s";
  agent_type = ascii "codex";
  generation = 4;
  client_msg_id = ascii "c";
  native_request_id = [];
  lifecycle = ascii "turn_terminal_success";
  class_name = [];
  event_id = ascii "e";
}

abbrev meanwhile : List Call
meanwhile =
    completes (ascii "s") 4 (ascii "c")
    ∷ binds (ascii "s") 5 (ascii "d")
    ∷ sets (ascii "s") 4 (ascii "c") (ascii "n")
    ∷ []

abbrev later_end : ControlEvent
later_end = record ended { event_id = ascii "f" }

abbrev all_calls : List Call
all_calls = terminals later_end ∷ meanwhile

accept_complete_commute_example :
    let early = complete_matching one_turn (ascii "s") 4 (ascii "c") in
    let then_accept = accept early.0 (ascii "s") 4 (ascii "c") in
    let first_accept = accept one_turn (ascii "s") 4 (ascii "c") in
    let late = complete_matching first_accept.0 (ascii "s") 4 (ascii "c") in
    (early.1 ≡ false)
    × (then_accept.2 ≡ true)
    × (then_accept.0 ≡ drop_key (ascii "s") one_turn)
    × (first_accept.2 ≡ false)
    × (late.1 ≡ true)
    × (late.0 ≡ drop_key (ascii "s") one_turn)
unfolding lookup bytes_discrete
accept_complete_commute_example =
    accept_complete_commute (ascii "s") 4 (ascii "c") one_turn started (refl, refl, refl, refl) refl
      refl
