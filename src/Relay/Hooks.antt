-- ===== src/Relay/Hooks.antt =====
-- The hooks of relaycore/connections.go in the order in which they are called. TryAddDaemonVersioned
-- calls them while it holds its connection; RemoveDaemon calls onDeviceDown after it has released its
-- locks, so other calls may come between the removal and the hook.
use Prim.Native.Nat.{zero, suc}
use nekonest.Prelude.{
  ℕ, ◌+◌, ◌^◌, ◌<◌, ◌≡◌, refl, Bool, true, false, List, [], ◌∷◌, ◌++◌, Option, none, some, Bytes,
  arith, length, count, inl, inr, Option-cases, if◌then◌else◌,
}
use nekonest.Relay.Daemons.{
  Daemons, Event, device_up, version_change, device_down, str_eq, is_daemon_online,
}
use nekonest.Relay.Generations.{IsCoherent}
use nekonest.Relay.Registry.{
  Call, adds, removes, closes, call, remove_daemon-cases, call-IsCoherent, call_generation,
}
use nekonest.Relay.Presence.{hears, call-heard}

-- The manager, and the devices whose removal has still to be told.
pub record Hooked : Type 0 where
  pub daemons : Daemons
  pub late : List Bytes

-- A call, or the late hook of a removal: that of the nth of those that are due.
pub data Section : Type 0 where
  performs : Call → Section
  tells : ℕ → Section

abbrev pub removed : List Event → List Bytes
removed [] = []
removed (device_up device version ∷ rest) = removed rest
removed (version_change device version ∷ rest) = removed rest
removed (device_down device ∷ rest) = device ∷ removed rest

unfoldable pub pick : ℕ → List Bytes → Option (Bytes × List Bytes)
pick n [] = none
pick zero (x ∷ rest) = some (x, rest)
pick (suc n) (x ∷ rest) = elim (pick n rest) [
  | none ↦ none
  | some (y, others) ↦ some (y, x ∷ others)
]

abbrev pub told : Hooked → Option (Bytes × List Bytes) → Hooked × List Event
told h none = (h, [])
told h (some (device, others)) = (record h { late = others }, device_down device ∷ [])

-- The state after a section, and the hooks that are called in it.
unfoldable pub perform : Hooked → Section → Hooked × List Event
perform h (performs (adds device conn version)) =
    let r = call h.daemons (adds device conn version) in (record h { daemons = r.0 }, r.1)
perform h (performs (removes device conn)) =
    let r = call h.daemons (removes device conn) in
    (record h { daemons = r.0; late = h.late ++ removed r.1 }, [])
perform h (performs closes) = (record h { daemons = (call h.daemons closes).0 }, [])
perform h (tells n) = told h (pick n h.late)

unfoldable pub perform_all : Hooked → List Section → Hooked × List Event
perform_all h [] = (h, [])
perform_all h (c ∷ rest) = let r = perform h c in let s = perform_all r.0 rest in (s.0, r.1 ++ s.1)

abbrev pub is_up : Bytes → Event → Bool
is_up device (device_up other version) = str_eq other device
is_up device (version_change other version) = false
is_up device (device_down other) = false

abbrev pub is_down : Bytes → Event → Bool
is_down device (device_up other version) = false
is_down device (version_change other version) = false
is_down device (device_down other) = str_eq other device

abbrev pub is_device : Bytes → Bytes → Bool
is_device device other = str_eq other device

abbrev pub bit : Bool → ℕ
bit b = if b then 1 else 0

-- No section is a call of Close.
abbrev pub without_close : List Section → Bool
without_close [] = true
without_close (performs (adds device conn version) ∷ rest) = without_close rest
without_close (performs (removes device conn) ∷ rest) = without_close rest
without_close (performs closes ∷ rest) = false
without_close (tells n ∷ rest) = without_close rest

count-append :
    {A : Type 0} (p : A → Bool) (xs ys : List A) → count p (xs ++ ys) ≡ count p xs + count p ys
count-append p [] ys = omega arith
count-append p (x ∷ xs) ys = omega (arith, count-append p xs ys)

-- Events that fit tell a change of the device by what they count.
hears-balance :
    (device : Bytes) (before after : Bool) (es : List Event)
    → hears device before es ≡ some after
    → bit before + count (is_up device) es ≡ bit after + count (is_down device) es
unfolding hears
hears-balance device before after [] h = ground arith
hears-balance device before after (device_up other version ∷ es) h =
    ground (arith, hears-balance device true after es, hears-balance device before after es)
hears-balance device before after (version_change other version ∷ es) h =
    ground (arith, hears-balance device true after es, hears-balance device before after es)
hears-balance device before after (device_down other ∷ es) h =
    ground (arith, hears-balance device false after es, hears-balance device before after es)

removed-count :
    (device : Bytes) (es : List Event)
    → count (is_device device) (removed es) ≡ count (is_down device) es
removed-count device [] = refl
removed-count device (device_up other version ∷ es) = omega (arith, removed-count device es)
removed-count device (version_change other version ∷ es) = omega (arith, removed-count device es)
removed-count device (device_down other ∷ es) = omega (arith, removed-count device es)

removes-no_up :
    (d : Daemons) (device other : Bytes) (conn : ℕ)
    → count (is_up device) (call d (removes other conn)).1 ≡ 0
unfolding call
removes-no_up d device other conn = elim (remove_daemon-cases d other conn) [
  | inl e ↦ rw e refl
  | inr (g, dc, e, f, same, r) ↦ rw r refl
]

pick-count :
    (p : Bytes → Bool) (n : ℕ) (xs : List Bytes) {x : Bytes} {others : List Bytes}
    → pick n xs ≡ some (x, others)
    → count p xs ≡ bit (p x) + count p others
unfolding pick
pick-count p n [] h = absurd (ground arith)
pick-count p zero (y ∷ rest) h = ground arith
pick-count p (suc n) (y ∷ rest) h = elim (Option-cases (pick n rest)) [
  | inl e ↦ absurd (ground arith)
  | inr ((z, zs), e) ↦ let below = pick-count p n rest e in ground (arith, below)
]

-- Whether the device is online, and the removals of it that are due or were told.
abbrev pub Balanced : Bytes → Hooked → List Event → Hooked → Type 0
Balanced device h es h' =
    bit (is_daemon_online h.daemons device)
      + count (is_device device) h.late
      + count (is_up device) es
    ≡ bit (is_daemon_online h'.daemons device)
      + count (is_device device) h'.late
      + count (is_down device) es

perform-Balanced :
    (h : Hooked) (device : Bytes) (c : Section)
    → IsCoherent h.daemons
    → without_close (c ∷ []) ≡ true
    → Balanced device h (perform h c).1 (perform h c).0
unfolding perform
perform-Balanced h device (performs (adds other conn version)) w n =
    let c = adds other conn version in
    omega (arith, hears-balance device _ _ _ (call-heard h.daemons device c w refl))
perform-Balanced h device (performs (removes other conn)) w n =
    let c = removes other conn in
    omega (
      arith,
      hears-balance device _ _ _ (call-heard h.daemons device c w refl),
      removes-no_up h.daemons device other conn,
      removed-count device (call h.daemons c).1,
      count-append (is_device device) h.late (removed (call h.daemons c).1),
    )
perform-Balanced h device (performs closes) w n = absurd (ground arith)
perform-Balanced h device (tells n) w m = elim (Option-cases (pick n h.late)) [
  | inl e ↦ rw e refl
  | inr ((x, others), e) ↦
      let due = pick-count (is_device device) n h.late e in rw e (omega (arith, due))
]

perform-IsCoherent :
    (h : Hooked) (c : Section)
    → IsCoherent h.daemons
    → h.daemons.next_generation + 1 < 2 ^ 64
    → IsCoherent (perform h c).0.daemons
      × ((perform h c).0.daemons.next_generation < h.daemons.next_generation + 2)
unfolding perform
perform-IsCoherent h (performs (adds device conn version)) w small = (
  call-IsCoherent h.daemons (adds device conn version) w small,
  omega (arith, call_generation h.daemons (adds device conn version) small),
)
perform-IsCoherent h (performs (removes device conn)) w small = (
  call-IsCoherent h.daemons (removes device conn) w small,
  omega (arith, call_generation h.daemons (removes device conn) small),
)
perform-IsCoherent h (performs closes) w small = (
  call-IsCoherent h.daemons closes w small,
  omega (arith, call_generation h.daemons closes small),
)
perform-IsCoherent h (tells n) w small = elim (Option-cases (pick n h.late)) [
  | inl e ↦ rw e (w, omega arith)
  | inr (x, e) ↦ rw e (w, omega arith)
]

without_close_split :
    (c : Section) (rest : List Section)
    → without_close (c ∷ rest) ≡ true
    → (without_close (c ∷ []) ≡ true) × (without_close rest ≡ true)
without_close_split (performs (adds device conn version)) rest h = (refl, h)
without_close_split (performs (removes device conn)) rest h = (refl, h)
without_close_split (performs closes) rest h = absurd (ground arith)
without_close_split (tells n) rest h = (refl, h)

-- Without a call of Close, and however late the hooks of the removals are called and in which order, the
-- hooks balance: for each device, whether it was online, the removals that were due and the device_up events
-- together are as many as whether it is online, the removals that are due and the device_down events. So
-- once every hook has been called, a device is online exactly by its ups less its downs.
pub perform_all-Balanced :
    (h : Hooked) (device : Bytes) (cs : List Section)
    → IsCoherent h.daemons
    → h.daemons.next_generation + length cs < 2 ^ 64
    → without_close cs ≡ true
    → Balanced device h (perform_all h cs).1 (perform_all h cs).0
unfolding perform_all
perform_all-Balanced h device [] w small n = omega arith
perform_all-Balanced h device (c ∷ rest) w small n =
    let (first, others) = without_close_split c rest n in
    let (w', g) = perform-IsCoherent h c w (omega arith) in
    let r = perform h c in
    omega (
      arith,
      perform-Balanced h device c w first,
      perform_all-Balanced r.0 device rest w' (omega (arith, g)) others,
      count-append (is_up device) r.1 (perform_all r.0 rest).1,
      count-append (is_down device) r.1 (perform_all r.0 rest).1,
    )
