-- ===== src/Relay/Presence.antt =====
-- What one call of relaycore/connections.go tells of the daemons, by its own hooks.
use nekonest.Prelude.{
  ◌%◌, ℕ, ◌+◌, ◌^◌, ◌≡◌, refl, ◌&&◌, Bool, true, false, List, [], ◌∷◌, Option, none, some, Bytes,
  bytes_discrete, arith, lookup-insert, lookup-delete, inl, inr, Option-cases, Bool-cases,
  if◌then◌else◌,
}
use nekonest.Relay.Daemons.{
  DaemonConn, Daemons, Event, device_up, version_change, device_down, find_live, str_eq,
  try_add_daemon_versioned, take_down, is_daemon_online, announce, publish, deref, is_open,
}
use nekonest.Relay.Generations.{IsCoherent}
use nekonest.Relay.Registry.{Call, adds, removes, closes, call, remove_daemon-cases}

-- Whether a device is online after an event, for one who knew before; none when the event does not
-- fit what was known.
abbrev pub hear : Bytes → Bool → Event → Option Bool
hear device online (device_up other version) =
    if str_eq other device then (if online then none else some true) else some online
hear device online (version_change other version) =
    if str_eq other device then (if online then some true else none) else some online
hear device online (device_down other) =
    if str_eq other device then (if online then some false else none) else some online

abbrev pub and_then : Option Bool → (Bool → Option Bool) → Option Bool
and_then none f = none
and_then (some b) f = f b

unfoldable pub hears : Bytes → Bool → List Event → Option Bool
hears device online [] = some online
hears device online (e ∷ rest) = and_then (hear device online e) (λ b. hears device b rest)

abbrev pub is_close : Call → Bool
is_close (adds device conn version) = false
is_close (removes device conn) = false
is_close closes = true

take_down-heard :
    (d : Daemons) (device other : Bytes) (g : ℕ) (dc : DaemonConn)
    → find_live other d.live ≡ some g
    → hears device (is_daemon_online d device) (device_down other ∷ [])
      ≡ some (is_daemon_online (take_down d other g dc) device)
unfolding hears is_daemon_online
take_down-heard d device other g dc e = elim (bytes_discrete other device) [
  | yes s ↦ ground (arith, lookup-delete bytes_discrete other device d.live)
  | no n ↦ ground (arith, lookup-delete bytes_discrete other device d.live)
]

publish-heard :
    (d : Daemons) (device other : Bytes) (conn : ℕ) (version : Bytes)
    → IsCoherent d
    → hears device
        (is_daemon_online d device)
        (announce other version (deref (find_live other d.live) d.store))
      ≡ some (is_daemon_online (publish d conn other version (find_live other d.live)) device)
unfolding hears is_daemon_online
publish-heard d device other conn version w =
    let g' = (d.next_generation + 1) % 2 ^ 64 in
    elim (Option-cases (find_live other d.live)) [
      | inl e ↦ elim (bytes_discrete other device) [
        | yes s ↦ ground (arith, lookup-insert bytes_discrete other device g' d.live)
        | no n ↦ ground (arith, lookup-insert bytes_discrete other device g' d.live)
      ]
      | inr (g, e) ↦
          let (dc, f, q, alive) = w.points other g e in
          elim (bytes_discrete other device) [
            | yes s ↦ elim (bytes_discrete dc.app_version version) [
              | yes v ↦ ground (arith, lookup-insert bytes_discrete other device g' d.live)
              | no v ↦ ground (arith, lookup-insert bytes_discrete other device g' d.live)
            ]
            | no n ↦ elim (bytes_discrete dc.app_version version) [
              | yes v ↦ ground (arith, lookup-insert bytes_discrete other device g' d.live)
              | no v ↦ ground (arith, lookup-insert bytes_discrete other device g' d.live)
            ]
          ]
    ]

pub call-heard :
    (d : Daemons) (device : Bytes) (c : Call)
    → IsCoherent d
    → is_close c ≡ false
    → hears device (is_daemon_online d device) (call d c).1
      ≡ some (is_daemon_online (call d c).0 device)
unfolding call try_add_daemon_versioned hears
call-heard d device (adds other conn version) w h =
    elim (Bool-cases (d.reject_new && is_open (deref (find_live other d.live) d.store))) [
      | inl y ↦ rw y refl
      | inr n ↦ rw n (publish-heard d device other conn version w)
    ]
call-heard d device (removes other conn) w h = elim (remove_daemon-cases d other conn) [
  | inl e ↦ rw e refl
  | inr (g, dc, e, f, same, r) ↦ rw r (take_down-heard d device other g dc e)
]
call-heard d device closes w h = absurd (ground arith)
