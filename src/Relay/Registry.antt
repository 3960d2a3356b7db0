-- ===== src/Relay/Registry.antt =====
-- Calls that add and remove daemons, in any order (relaycore/connections.go).
use nekonest.Prelude.{
  ℕ, ◌+◌, ◌^◌, ◌≤◌, ◌<◌, ◌≡◌, ◌≢◌, refl, sym, ap, ◌∙◌, Bool, false, List, [], ◌∷◌, ◌++◌, some,
  Bytes, bytes_discrete, ℕ_discrete, arith, length, lookup-insert, inl, inr, Option-cases,
  Bool-cases, ◌==◌, lookup, ◌&&◌, ◌⊎◌,
}
use nekonest.Relay.Daemons.{
  DaemonConn, Daemons, Event, device_down, find_live, find_dc, put_dc, closed_dc, close_old,
  try_add_daemon_versioned, take_down, remove_daemon, close_all, close_daemons, deref, is_open,
}
use nekonest.Relay.Generations.{IsCoherent, publish-IsCoherent, take_down-IsCoherent}

pub data Call : Type 0 where
  adds : Bytes → ℕ → Bytes → Call
  removes : Bytes → ℕ → Call
  closes : Call

-- The manager after a call and the events of the call.
unfoldable pub call : Daemons → Call → Daemons × List Event
call d (adds device conn version) =
    let r = try_add_daemon_versioned d device conn version in (r.0, r.1)
call d (removes device conn) = remove_daemon d device conn
call d closes = (close_daemons d, [])

unfoldable pub calls : Daemons → List Call → Daemons × List Event
calls d [] = (d, [])
calls d (c ∷ rest) = let r = call d c in let s = calls r.0 rest in (s.0, r.1 ++ s.1)

abbrev pub new_daemons : Bool → Daemons
new_daemons reject = record { live = []; store = []; next_generation = 0; reject_new = reject }

close_old_open :
    (g0 g : ℕ) (store : List (ℕ × DaemonConn)) (dc : DaemonConn)
    → find_dc g (close_old (some g0) store) ≡ some dc
    → dc.closed ≡ false
    → (find_dc g store ≡ some dc) × (g0 ≢ g)
close_old_open g0 g store dc f alive = elim (Option-cases (find_dc g0 store)) [
  | inl e ↦
      let same : find_dc g store ≡ some dc = rw (e, close_old) at f in (same, λ s. absurd (cc))
  | inr (dc0, e) ↦
      let put : find_dc g (put_dc g0 (closed_dc dc0) store) ≡ some dc = rw (e, close_old) at f in
      elim (ℕ_discrete g0 g) [
        | yes s ↦ absurd (ground (arith, lookup-insert ℕ_discrete g0 g (closed_dc dc0) store))
        | no n ↦ (ground (arith, lookup-insert ℕ_discrete g0 g (closed_dc dc0) store), n)
      ]
]

close_old_known :
    (g0 g : ℕ) (store : List (ℕ × DaemonConn)) (dc : DaemonConn)
    → find_dc g (close_old (some g0) store) ≡ some dc
    → (before : DaemonConn) × (find_dc g store ≡ some before)
close_old_known g0 g store dc f = elim (Option-cases (find_dc g0 store)) [
  | inl e ↦ (dc, rw (e, close_old) at f)
  | inr (dc0, e) ↦
      let put : find_dc g (put_dc g0 (closed_dc dc0) store) ≡ some dc = rw (e, close_old) at f in
      elim (ℕ_discrete g0 g) [
        | yes s ↦ (dc0, ap (λ x. find_dc x store) (sym s) ∙ e)
        | no n ↦ (dc, ground (arith, lookup-insert ℕ_discrete g0 g (closed_dc dc0) store))
      ]
]

-- What Close leaves open was open, and is no entry of the map.
close_all-open :
    (live : List (Bytes × ℕ)) (store : List (ℕ × DaemonConn)) (g : ℕ) (dc : DaemonConn)
    → find_dc g (close_all live store) ≡ some dc
    → dc.closed ≡ false
    → (find_dc g store ≡ some dc) × ((device : Bytes) → find_live device live ≢ some g)
unfolding close_all lookup
close_all-open [] store g dc f alive = (f, λ device e. absurd (ground arith))
close_all-open ((device, g0) ∷ rest) store g dc f alive =
    let (before, gone) = close_all-open rest (close_old (some g0) store) g dc f alive in
    let (found, other) = close_old_open g0 g store dc before alive in
    (
      found,
      λ device' e. elim (bytes_discrete device device') [
        | yes s ↦ other (ground arith)
        | no n ↦ gone device' (ground arith)
      ],
    )

close_all-known :
    (live : List (Bytes × ℕ)) (store : List (ℕ × DaemonConn)) (g : ℕ) (dc : DaemonConn)
    → find_dc g (close_all live store) ≡ some dc
    → (before : DaemonConn) × (find_dc g store ≡ some before)
unfolding close_all
close_all-known [] store g dc f = (dc, f)
close_all-known ((device, g0) ∷ rest) store g dc f =
    let (dc', f') = close_all-known rest (close_old (some g0) store) g dc f in
    close_old_known g0 g store dc' f'

close_daemons-IsCoherent : (d : Daemons) → IsCoherent d → IsCoherent (close_daemons d)
unfolding close_daemons lookup
close_daemons-IsCoherent d w = record {
  points = λ device g e. absurd (ground arith);
  current = λ g dc f alive.
      let (found, gone) = close_all-open d.live d.store g dc f alive in
      absurd (gone dc.device_id (w.current g dc found alive));
  below = λ g dc f. let (dc', f') = close_all-known d.live d.store g dc f in w.below g dc' f';
}

-- RemoveDaemon does nothing, or it takes the live connection down.
pub remove_daemon-cases :
    (d : Daemons) (device : Bytes) (conn : ℕ)
    → (remove_daemon d device conn ≡ (d, []))
      ⊎ ((g : ℕ) × (dc : DaemonConn) × (find_live device d.live ≡ some g)
          × (find_dc g d.store ≡ some dc)
          × (dc.conn ≡ conn)
          × (remove_daemon d device conn ≡ (take_down d device g dc, device_down device ∷ [])))
unfolding remove_daemon
remove_daemon-cases d device conn = elim (Option-cases (find_live device d.live)) [
  | inl e ↦ inl (rw (e, remove_daemon) refl)
  | inr (g, e) ↦ elim (Option-cases (find_dc g d.store)) [
    | inl f ↦ inl (ground (arith, e, f))
    | inr (dc, f) ↦ elim (Bool-cases (dc.conn == conn)) [
      | inr n ↦ inl (ground (arith, e, f, n))
      | inl y ↦ elim (Bool-cases dc.closed) [
        | inl shut ↦ inl (ground (arith, e, f, y, shut))
        | inr alive ↦ inr (g, dc, e, f, ground (arith, y), ground (arith, e, f, y, alive))
      ]
    ]
  ]
]

remove_daemon-IsCoherent :
    (d : Daemons) (device : Bytes) (conn : ℕ)
    → IsCoherent d
    → IsCoherent (remove_daemon d device conn).0
remove_daemon-IsCoherent d device conn w = elim (remove_daemon-cases d device conn) [
  | inl e ↦ rw e w
  | inr (g, dc, e, f, same, r) ↦ rw r (take_down-IsCoherent d device g dc w e f)
]

try_add-IsCoherent :
    (d : Daemons) (device : Bytes) (conn : ℕ) (version : Bytes)
    → IsCoherent d
    → d.next_generation + 1 < 2 ^ 64
    → IsCoherent (try_add_daemon_versioned d device conn version).0
unfolding try_add_daemon_versioned
try_add-IsCoherent d device conn version w small =
    elim (Bool-cases (d.reject_new && is_open (deref (find_live device d.live) d.store))) [
      | inl y ↦ rw y w
      | inr n ↦ rw n (publish-IsCoherent d conn device version w small)
    ]

pub call-IsCoherent :
    (d : Daemons) (c : Call)
    → IsCoherent d
    → d.next_generation + 1 < 2 ^ 64
    → IsCoherent (call d c).0
unfolding call
call-IsCoherent d (adds device conn version) w small =
    try_add-IsCoherent d device conn version w small
call-IsCoherent d (removes device conn) w small = remove_daemon-IsCoherent d device conn w
call-IsCoherent d closes w small = close_daemons-IsCoherent d w

pub call_generation :
    (d : Daemons) (c : Call)
    → d.next_generation + 1 < 2 ^ 64
    → (call d c).0.next_generation ≤ d.next_generation + 1
unfolding call try_add_daemon_versioned close_daemons
call_generation d (adds device conn version) small = ground arith
call_generation d (removes device conn) small = elim (remove_daemon-cases d device conn) [
  | inl e ↦ rw e (omega arith)
  | inr (g, dc, e, f, same, r) ↦ rw r (omega arith)
]
call_generation d closes small = ground arith

-- After any calls that add and remove daemons or close the manager, fewer than 2 ^ 64 - 1 in all, the
-- map holds exactly the connections that are open: an entry leads to an open connection of its device,
-- and every open connection is its device's entry, so a device has at most one.
pub calls-IsCoherent :
    (d : Daemons) (cs : List Call)
    → IsCoherent d
    → d.next_generation + length cs < 2 ^ 64
    → IsCoherent (calls d cs).0
unfolding calls
calls-IsCoherent d [] w small = w
calls-IsCoherent d (c ∷ rest) w small =
    let g = call_generation d c (omega arith) in
    calls-IsCoherent (call d c).0 rest (call-IsCoherent d c w (omega arith)) (omega arith)
