-- ===== src/Relay/Examples.antt =====
-- Runs of the connection manager of relaycore/connections.go at small inputs.
use nekonest.Prelude.{
  is_some, Option, ◌≡◌, refl, true, false, Bool, List, [], ◌∷◌, none, some, Bytes, ascii, arith,
  lookup, insert, bytes_discrete, ok, err,
}
use nekonest.Relay.Outbound.{
  Line, Reach, start, later, enqueues, receives, writes, begins_close, drains, begin_close,
  drain_one, release_bytes, enqueue_phone, writing,
}
use nekonest.Relay.Bounded.{IsBounded, Reach-IsBounded}
use nekonest.Relay.Delivery.{IsInOrder, Reach-IsInOrder}
use nekonest.Relay.Phones.{Phones, no_phones, conns_of, add_phone_authenticated, still_subscribed}
use nekonest.Relay.Calls.{calls, calls-IsConsistent, IsConsistent, broadcasts, drops, resubscribes}
use nekonest.Relay.Newest.{add_phone_authenticated-newest}
use nekonest.Relay.Daemons.{
  Daemons, Session, device_offline, try_add_daemon_versioned, remove_daemon, is_live_daemon,
  write_daemon_generation, send_to_daemon,
}
use nekonest.Relay.Catalog.{
  Report, clean_sessions, cache_sessions, update_session_list_from, update_sealed_catalog_from,
  get_device_session_snapshot,
}
use nekonest.Relay.Generations.{IsCoherent}
use nekonest.Relay.Registry.{Call, new_daemons, calls-IsCoherent}
use nekonest.Relay.Hooks.{
  Section, Hooked, performs, tells, perform_all, Balanced, perform_all-Balanced,
}
use nekonest.Relay.Superseded.{try_add_daemon_versioned-supersedes}
use nekonest.Relay.Snapshot.{
  with_id, entries, last_of, of_agent, get_device_session_snapshot-update,
}

abbrev frame : Bytes
frame = 7 ∷ 8 ∷ []

-- One frame is being written while close drains: it has dropped the second of three frames.
abbrev sent : Line
sent = record {
  out = record { queue = frame ∷ []; closed = true; reserved_bytes = 4 };
  draining = true;
  writer = writing frame;
  taken = frame ∷ frame ∷ frame ∷ [];
  written = frame ∷ [];
}

sending : Reach sent
unfolding enqueue_phone begin_close drain_one release_bytes
sending =
    let received = later (later start (enqueues frame refl)) (receives frame [] refl refl) in
    let queued = later (later received (enqueues frame refl)) (enqueues frame refl) in
    let closing = later (later queued (writes frame refl refl refl)) (begins_close refl refl) in
    later closing (drains frame (frame ∷ []) refl refl)

Reach-IsBounded_example : IsBounded sent
Reach-IsBounded_example = Reach-IsBounded sending

Reach-IsInOrder_example : IsInOrder sent
Reach-IsInOrder_example = Reach-IsInOrder sending

abbrev device : Bytes
device = ascii "d"

no_phones-IsConsistent : IsConsistent no_phones
unfolding lookup still_subscribed
no_phones-IsConsistent = record {
  links = record { unique = tt; linked = λ c. refl };
  small = λ other. ground arith;
}

calls-IsConsistent_example : IsConsistent (
    calls no_phones (
      nekonest.Relay.Calls.adds device 1 (ascii "p") false
      ∷ resubscribes (ascii "e") 1
      ∷ broadcasts device frame
      ∷ drops 1
      ∷ []))
calls-IsConsistent_example = calls-IsConsistent no_phones _ no_phones-IsConsistent

abbrev nine : Phones
nine = record {
  conns = (device, 1 ∷ 2 ∷ 3 ∷ 4 ∷ 5 ∷ 6 ∷ 7 ∷ 8 ∷ []) ∷ [];
  outbounds = [];
  principals = [];
}

add_phone_authenticated-newest_example :
    conns_of device (add_phone_authenticated nine device 9 (ascii "p") false).phones.conns
    ≡ 2 ∷ 3 ∷ 4 ∷ 5 ∷ 6 ∷ 7 ∷ 8 ∷ 9 ∷ []
unfolding lookup bytes_discrete
add_phone_authenticated-newest_example =
    add_phone_authenticated-newest nine device 9 (ascii "p") false

new_daemons-IsCoherent : (reject : Bool) → IsCoherent (new_daemons reject)
unfolding lookup
new_daemons-IsCoherent reject = record {
  points = λ other g e. absurd (ground arith);
  current = λ g dc f alive. absurd (ground arith);
  below = λ g dc f. absurd (ground arith);
}

abbrev connects : Call
connects = nekonest.Relay.Registry.adds device 5 (ascii "1")

abbrev history : List Call
history = connects ∷ nekonest.Relay.Registry.removes device 6 ∷ connects ∷ []

abbrev one_daemon : Daemons
one_daemon = (nekonest.Relay.Registry.calls (new_daemons false) (connects ∷ [])).0

calls-IsCoherent_example : IsCoherent (nekonest.Relay.Registry.calls (new_daemons false) history).0
calls-IsCoherent_example =
    calls-IsCoherent (new_daemons false) history (new_daemons-IsCoherent false) (omega arith)

one_daemon-IsCoherent : IsCoherent one_daemon
one_daemon-IsCoherent =
    calls-IsCoherent (new_daemons false) (connects ∷ []) (new_daemons-IsCoherent false)
      (omega arith)

-- The hook of the first removal comes after the device is back.
abbrev sections : List Section
sections =
    performs connects
    ∷ performs (nekonest.Relay.Registry.removes device 5)
    ∷ performs connects
    ∷ tells 0
    ∷ []

abbrev no_hooks : Hooked
no_hooks = record { daemons = new_daemons false; late = [] }

perform_all-Balanced_example :
    Balanced device no_hooks (perform_all no_hooks sections).1 (perform_all no_hooks sections).0
perform_all-Balanced_example =
    perform_all-Balanced no_hooks device sections (new_daemons-IsCoherent false) (omega arith) refl

abbrev session : Session
session = record { id = ascii "s"; agent_type = ascii "codex"; body = [] }

try_add_daemon_versioned-supersedes_example :
    let after = (try_add_daemon_versioned one_daemon device 6 (ascii "2")).0 in
    (is_live_daemon after 1 ≡ false)
    × (write_daemon_generation after 1 ≡ err device_offline)
    × (send_to_daemon after device ≡ ok 6)
    × (remove_daemon after device 5 ≡ (after, []))
    × (update_session_list_from (λ _. true) after 1 (some session ∷ []) none [] ≡ (after, none))
    × (update_sealed_catalog_from after 1 (some frame) ≡ (after, none))
unfolding nekonest.Relay.Registry.calls nekonest.Relay.Registry.call try_add_daemon_versioned lookup
    insert bytes_discrete
try_add_daemon_versioned-supersedes_example =
    try_add_daemon_versioned-supersedes one_daemon device 1 6 5 (ascii "2") (λ _. true)
      (some session ∷ []) none [] frame one_daemon-IsCoherent (omega arith) refl refl
      (λ e. absurd (omega arith))

abbrev again : Session
again = record session { body = 1 ∷ [] }

-- The session is reported twice, between an empty entry and one without an id.
abbrev listed : List (Option Session)
listed = none ∷ some session ∷ some (record session { id = [] }) ∷ some again ∷ []

get_device_session_snapshot-update_example :
    let r = update_session_list_from (λ _. true) one_daemon 1 listed none (ascii "1.3") in
    let told = get_device_session_snapshot r.0 device in
    (report : Report) × (r.1 ≡ some report)
    × (report.device_id ≡ device)
    × (with_id (ascii "s") report.sessions ≡ session ∷ again ∷ [])
    × (with_id (ascii "s") told.0 ≡ again ∷ [])
    × (report.capabilities ≡ told.1)
    × (is_some told.1 ≡ false)
    × (of_agent (ascii "codex") told.1 ≡ [])
    × (report.version ≡ ascii "1.3")
    × (told.2 ≡ ascii "1.3")
unfolding nekonest.Relay.Registry.calls nekonest.Relay.Registry.call try_add_daemon_versioned lookup
    insert bytes_discrete clean_sessions cache_sessions entries last_of
get_device_session_snapshot-update_example =
    get_device_session_snapshot-update (λ _. true) one_daemon device 1 listed none (ascii "1.3")
      (ascii "s") (ascii "codex") one_daemon-IsCoherent refl
