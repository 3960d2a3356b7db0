-- ===== src/Relay/Generations.antt =====
-- The map of the daemons against their connections (relaycore/connections.go).
use mathlib.Core.Logic.{if_neg}
use nekonest.Prelude.{
  ℕ, ◌+◌, ◌%◌, ◌^◌, ◌≤◌, ◌<◌, ◌≡◌, ◌≢◌, refl, sym, ap, ◌∙◌, false, List, some, Bytes,
  bytes_discrete, ℕ_discrete, arith, lookup-insert, inl, inr, Option-cases, lookup-delete,
}
use nekonest.Relay.Daemons.{
  DaemonConn, Daemons, find_live, find_dc, put_dc, new_daemon, closed_dc, close_old, publish,
  take_down,
}

pub record IsCoherent (d : Daemons) : Type 0 where
  pub points :
      (device : Bytes) (g : ℕ)
      → find_live device d.live ≡ some g
      → (dc : DaemonConn) × (find_dc g d.store ≡ some dc)
        × (dc.device_id ≡ device)
        × (dc.closed ≡ false)
  pub current :
      (g : ℕ) (dc : DaemonConn)
      → find_dc g d.store ≡ some dc
      → dc.closed ≡ false
      → find_live dc.device_id d.live ≡ some g
  pub below : (g : ℕ) (dc : DaemonConn) → find_dc g d.store ≡ some dc → g ≤ d.next_generation

-- The store after the old connection of a device was closed, and what it still has.
record OldClosed (d : Daemons) (device : Bytes) (store : List (ℕ × DaemonConn)) : Type 0 where
  others :
      (g : ℕ) (dc : DaemonConn)
      → find_dc g d.store ≡ some dc
      → dc.device_id ≢ device
      → find_dc g store ≡ some dc
  opened :
      (g : ℕ) (dc : DaemonConn)
      → find_dc g store ≡ some dc
      → dc.closed ≡ false
      → (find_dc g d.store ≡ some dc) × (dc.device_id ≢ device)
  known : (g : ℕ) (dc : DaemonConn) → find_dc g store ≡ some dc → g ≤ d.next_generation

close_found-OldClosed :
    (d : Daemons) (device : Bytes) (g0 : ℕ) (dc0 : DaemonConn)
    → IsCoherent d
    → find_live device d.live ≡ some g0
    → find_dc g0 d.store ≡ some dc0
    → dc0.device_id ≡ device
    → OldClosed d device (put_dc g0 (closed_dc dc0) d.store)
close_found-OldClosed d device g0 dc0 w e f q = record {
  others = λ g dc found other. elim (ℕ_discrete g0 g) [
    | yes s ↦ absurd (other (let same : dc0 ≡ dc = cc in sym (ap DaemonConn.device_id same) ∙ q))
    | no n ↦
        lookup-insert ℕ_discrete g0 g (closed_dc dc0) d.store
        ∙ if_neg (ℕ_discrete g0 g) n _ _
        ∙ found
  ];
  opened = λ g dc found alive. elim (ℕ_discrete g0 g) [
    | yes s ↦ absurd (ground (arith, lookup-insert ℕ_discrete g0 g (closed_dc dc0) d.store))
    | no n ↦
        let before : find_dc g d.store ≡ some dc =
          sym (if_neg (ℕ_discrete g0 g) n (some (closed_dc dc0)) (find_dc g d.store))
          ∙ sym (lookup-insert ℕ_discrete g0 g (closed_dc dc0) d.store)
          ∙ found in
        let now = w.current g dc before alive in (before, λ s. n (cc))
  ];
  known = λ g dc found. elim (ℕ_discrete g0 g) [
    | yes s ↦ let b = w.below g0 dc0 f in omega (arith, b, s)
    | no n ↦ w.below g dc (
        sym (if_neg (ℕ_discrete g0 g) n (some (closed_dc dc0)) (find_dc g d.store))
        ∙ sym (lookup-insert ℕ_discrete g0 g (closed_dc dc0) d.store)
        ∙ found)
  ];
}

close_old-OldClosed :
    (d : Daemons) (device : Bytes)
    → IsCoherent d
    → OldClosed d device (close_old (find_live device d.live) d.store)
close_old-OldClosed d device w = elim (Option-cases (find_live device d.live)) [
  | inl e ↦ rw e (record {
    others = λ g dc found other. found;
    opened = λ g dc found alive.
        let now = w.current g dc found alive in (found, λ s. absurd (ground (arith)));
    known = w.below;
  })
  | inr (g0, e) ↦
      let (dc0, f, q, alive) = w.points device g0 e in
      rw e (rw (f, close_old) (close_found-OldClosed d device g0 dc0 w e f q))
]

pub publish-IsCoherent :
    (d : Daemons) (conn : ℕ) (device version : Bytes)
    → IsCoherent d
    → d.next_generation + 1 < 2 ^ 64
    → IsCoherent (publish d conn device version (find_live device d.live))
publish-IsCoherent d conn device version w small =
    let store = close_old (find_live device d.live) d.store in
    let o = close_old-OldClosed d device w in
    let new = new_daemon conn device version in
    let g = (d.next_generation + 1) % 2 ^ 64 in
    let next : g ≡ d.next_generation + 1 = omega (arith, small) in
    record {
      points = λ device' g' e. elim (bytes_discrete device device') [
        | yes s ↦
            let same : g ≡ g' =
              ground (arith, lookup-insert bytes_discrete device device' g d.live) in
            (new, ground (arith, same, lookup-insert ℕ_discrete g g' new store), s, refl)
        | no n ↦
            let before : find_live device' d.live ≡ some g' =
              ground (arith, lookup-insert bytes_discrete device device' g d.live) in
            let (dc, f, q, alive) = w.points device' g' before in
            let there = o.others g' dc f (λ s. n (sym s ∙ q)) in
            let old = w.below g' dc f in
            (
              dc,
              ground (arith, lookup-insert ℕ_discrete g g' new store, there, next, old),
              q,
              alive,
            )
      ];
      current = λ g' dc f alive. elim (ℕ_discrete g g') [
        | yes s ↦
            let same : new ≡ dc = ground (arith, lookup-insert ℕ_discrete g g' new store) in
            ground (
              arith,
              ap DaemonConn.device_id same,
              s,
              lookup-insert bytes_discrete device dc.device_id g d.live,
            )
        | no n ↦
            let before : find_dc g' store ≡ some dc =
              ground (arith, lookup-insert ℕ_discrete g g' new store) in
            let (f', other) = o.opened g' dc before alive in
            let now = w.current g' dc f' alive in
            lookup-insert bytes_discrete device dc.device_id g d.live
            ∙ if_neg (bytes_discrete device dc.device_id) (λ s. other (sym s)) _ _
            ∙ now
      ];
      below = λ g' dc f. elim (ℕ_discrete g g') [
        | yes s ↦ omega (arith, s)
        | no n ↦
            let before : find_dc g' store ≡ some dc =
              ground (arith, lookup-insert ℕ_discrete g g' new store) in
            omega (arith, o.known g' dc before, next)
      ];
    }

-- The manager after the live connection of a device was taken down.
pub take_down-IsCoherent :
    (d : Daemons) (device : Bytes) (g : ℕ) (dc : DaemonConn)
    → IsCoherent d
    → find_live device d.live ≡ some g
    → find_dc g d.store ≡ some dc
    → IsCoherent (take_down d device g dc)
take_down-IsCoherent d device g dc w e f =
    let (dc0, f0, q0, alive0) = w.points device g e in
    let q : dc.device_id ≡ device = let same : dc0 ≡ dc = cc in cc in
    let o = close_found-OldClosed d device g dc w e f q in
    record {
      points = λ device' g' e'. elim (bytes_discrete device device') [
        | yes s ↦ absurd (ground (arith, lookup-delete bytes_discrete device device' d.live))
        | no n ↦
            let before : find_live device' d.live ≡ some g' =
              ground (arith, lookup-delete bytes_discrete device device' d.live) in
            let (dc', f', q', alive) = w.points device' g' before in
            (dc', o.others g' dc' f' (λ s. n (sym s ∙ q')), q', alive)
      ];
      current = λ g' dc' f' alive.
          let (before, other) = o.opened g' dc' f' alive in
          lookup-delete bytes_discrete device dc'.device_id d.live
          ∙ if_neg (bytes_discrete device dc'.device_id) (λ s. other (sym s)) _ _
          ∙ w.current g' dc' before alive;
      below = o.known;
    }
