-- ===== src/Relay/Superseded.antt =====
-- What is left to a connection whose device has connected again (relaycore/connections.go).
use mathlib.Core.Logic.{if_neg}
use nekonest.Prelude.{
  Bool, ℕ, ◌+◌, ◌%◌, ◌^◌, ◌<◌, ◌≡◌, ◌≢◌, refl, ◌∙◌, false, [], some, Bytes, bytes_discrete,
  ℕ_discrete, arith, lookup-insert, lookup-insert_self, insert, inl, inr, Bool-cases, ◌==◌, ok, err,
  List, Option, none,
}
use nekonest.Relay.Daemons.{
  DaemonConn, Daemons, device_offline, find_live, find_dc, put_dc, closed_dc, close_old, new_daemon,
  try_add_daemon_versioned, remove_daemon, is_live_daemon, write_daemon_generation, send_to_daemon,
  Session, Capability,
}
use nekonest.Relay.Generations.{IsCoherent}
use nekonest.Relay.Catalog.{update_session_list_from, update_sealed_catalog_from}

publish-replaces :
    (d : Daemons) (device : Bytes) (old conn : ℕ) (version : Bytes) (dc : DaemonConn)
    → d.reject_new ≡ false
    → find_live device d.live ≡ some old
    → find_dc old d.store ≡ some dc
    → let g = (d.next_generation + 1) % 2 ^ 64 in
      (try_add_daemon_versioned d device conn version).0 ≡ record d {
        live = insert bytes_discrete device g d.live;
        store = put_dc g (new_daemon conn device version) (put_dc old (closed_dc dc) d.store);
        next_generation = g;
      }
unfolding try_add_daemon_versioned
publish-replaces d device old conn version dc replaces e f =
    let shut : close_old (find_live device d.live) d.store ≡ put_dc old (closed_dc dc) d.store =
      rw e (rw (close_old, f) refl) in
    rw (replaces, shut) refl

dead_report :
    (d : Daemons) (g : ℕ) {dc : DaemonConn} (valid : Bytes → Bool)
    (sessions : List (Option Session)) (capabilities : Option (List Capability)) (version : Bytes)
    → find_dc g d.store ≡ some dc
    → is_live_daemon d g ≡ false
    → update_session_list_from valid d g sessions capabilities version ≡ (d, none)
unfolding update_session_list_from
dead_report d g valid sessions capabilities version f dead = ground (arith, f, dead)

dead_catalog :
    (d : Daemons) (g : ℕ) {dc : DaemonConn} (sealed : Bytes)
    → find_dc g d.store ≡ some dc
    → is_live_daemon d g ≡ false
    → update_sealed_catalog_from d g (some sealed) ≡ (d, none)
unfolding update_sealed_catalog_from
dead_catalog d g sealed f dead = ground (arith, f, dead)

-- After a second connection of an online device, where the manager replaces: the first is not live, and
-- a write to it fails as offline; a message for the device goes to the second; and a RemoveDaemon by
-- any socket but the second's changes nothing and announces nothing; and neither a session list nor a
-- sealed catalog of the first connection changes anything or reaches a phone.
pub try_add_daemon_versioned-supersedes :
    (d : Daemons) (device : Bytes) (old conn stale : ℕ) (version : Bytes) (valid : Bytes → Bool)
    (sessions : List (Option Session)) (capabilities : Option (List Capability)) (v sealed : Bytes)
    → IsCoherent d
    → d.next_generation + 1 < 2 ^ 64
    → d.reject_new ≡ false
    → find_live device d.live ≡ some old
    → stale ≢ conn
    → let after = (try_add_daemon_versioned d device conn version).0 in
      (is_live_daemon after old ≡ false)
      × (write_daemon_generation after old ≡ err device_offline)
      × (send_to_daemon after device ≡ ok conn)
      × (remove_daemon after device stale ≡ (after, []))
      × (update_session_list_from valid after old sessions capabilities v ≡ (after, none))
      × (update_sealed_catalog_from after old (some sealed) ≡ (after, none))
unfolding try_add_daemon_versioned update_session_list_from update_sealed_catalog_from
    is_live_daemon write_daemon_generation send_to_daemon remove_daemon insert
try_add_daemon_versioned-supersedes d device old conn stale version valid sessions capabilities v
      sealed w small replaces e other =
    let (dc, f, q, alive) = w.points device old e in
    let below = w.below old dc f in
    let g = (d.next_generation + 1) % 2 ^ 64 in
    let new = new_daemon conn device version in
    let next : g ≡ d.next_generation + 1 = omega (arith, small) in
    let shut = put_dc old (closed_dc dc) d.store in
    let there : find_dc old (put_dc g new shut) ≡ some (closed_dc dc) =
      lookup-insert ℕ_discrete g old new shut
      ∙ if_neg (ℕ_discrete g old) (λ s. omega arith) _ _
      ∙ lookup-insert_self ℕ_discrete old (closed_dc dc) d.store in
    let newest = lookup-insert_self ℕ_discrete g new shut in
    let live = lookup-insert_self bytes_discrete device g d.live in
    rw (publish-replaces d device old conn version dc replaces e f) (
      rw (is_live_daemon, there) refl,
      rw (write_daemon_generation, there) refl,
      rw (send_to_daemon, live, write_daemon_generation, newest) refl,
      rw (remove_daemon, live, newest)
          (elim (Bool-cases (conn == stale)) [
            | inl y ↦ absurd (other (ground (arith, y)))
            | inr n ↦ rw n refl
          ]),
      dead_report _ old valid sessions capabilities v there (rw (is_live_daemon, there) refl),
      dead_catalog _ old sealed there (rw (is_live_daemon, there) refl),
    )
