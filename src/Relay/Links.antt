-- ===== src/Relay/Links.antt =====
-- The sockets of the devices against the queues of the sockets (relaycore/connections.go).
use mathlib.Core.Logic.{if_pos, if_neg}
use nekonest.Prelude.{
  ℕ, ◌≤◌, ◌≡◌, ◌≢◌, refl, sym, ap, ◌∙◌, true, List, [], ◌∷◌, ◌++◌, Bytes, bytes_discrete,
  ℕ_discrete, length, ltb, arith, lookup-delete, Unique, inl, inr, Bool-cases, is_some,
}
use nekonest.Relay.Phones.{
  conns_of, Phones, Dropped, max_phone_conns_per_device, set_conns, has_conn, still_subscribed,
  find_out, forget_unused, stopped_unused, evict_excess, undisturbed, evict_excess_phone_conns,
}
use nekonest.Relay.Subscriptions.{
  conns_of-set_conns, still_subscribed_split, still_subscribed-set_conns, set_conns-Unique,
}

-- A socket has a queue exactly when a device has it.
pub record IsLinked (p : Phones) : Type 0 where
  pub unique : Unique p.conns
  pub linked : (c : ℕ) → is_some (find_out c p.outbounds) ≡ still_subscribed c p.conns

abbrev pub IsSmall : Phones → Type 0
IsSmall p = (device : Bytes) → length (conns_of device p.conns) ≤ max_phone_conns_per_device

-- The queue of a socket is dropped when the last device has lost the socket.
forget_unused-IsLinked :
    (conn : ℕ) (p : Phones)
    → Unique p.conns
    → ((c : ℕ) → conn ≢ c → is_some (find_out c p.outbounds) ≡ still_subscribed c p.conns)
    → (still_subscribed conn p.conns ≡ true → is_some (find_out conn p.outbounds) ≡ true)
    → IsLinked (forget_unused conn p)
forget_unused-IsLinked conn p u others own = elim (Bool-cases (still_subscribed conn p.conns)) [
  | inl used ↦ rw used (record {
    unique = u;
    linked = λ c. elim (ℕ_discrete conn c) [
      | yes e ↦ rw (← e) (own used ∙ sym used)
      | no n ↦ others c n
    ];
  })
  | inr unused ↦ rw unused (record {
    unique = u;
    linked = λ c. elim (ℕ_discrete conn c) [
      | yes e ↦ ground (arith, lookup-delete ℕ_discrete conn c p.outbounds)
      | no n ↦ ground (arith, lookup-delete ℕ_discrete conn c p.outbounds, others c n)
    ];
  })
]

pub forget_unused-conns : (conn : ℕ) (p : Phones) → (forget_unused conn p).conns ≡ p.conns
forget_unused-conns conn p = ground arith

-- Taking a list of sockets from a device, and one socket's queue if that was its last.
pub shrink-IsLinked :
    (device : Bytes) (conn : ℕ) (list : List ℕ) (p : Phones)
    → IsLinked p
    → ((c : ℕ) → conn ≢ c → has_conn c list ≡ has_conn c (conns_of device p.conns))
    → (has_conn conn list ≡ true → has_conn conn (conns_of device p.conns) ≡ true)
    → IsLinked (forget_unused conn (record p { conns = set_conns device list p.conns }))
shrink-IsLinked device conn list p w same own =
    forget_unused-IsLinked conn (record p { conns = set_conns device list p.conns })
      (set_conns-Unique device list p.conns w.unique)
      (λ c n. ground (
        arith,
        w.linked c,
        same c n,
        still_subscribed-set_conns c device list p.conns w.unique,
        still_subscribed_split c device p.conns w.unique,
      ))
      (λ h. ground (
        arith,
        w.linked conn,
        still_subscribed-set_conns conn device list p.conns w.unique,
        still_subscribed_split conn device p.conns w.unique,
      ))

pub evict_excess-IsLinked :
    (device : Bytes) (list : List ℕ) (d : Dropped)
    → conns_of device d.phones.conns ≡ list
    → IsLinked d.phones
    → IsLinked (evict_excess device list d).phones
unfolding evict_excess has_conn
evict_excess-IsLinked device [] d e w = w
evict_excess-IsLinked device (oldest ∷ rest) d e w =
    let p = record (d.phones) { conns = set_conns device rest d.phones.conns } in
    elim (Bool-cases (ltb max_phone_conns_per_device (length (oldest ∷ rest)))) [
      | inr few ↦ rw few w
      | inl many ↦ rw many (
          evict_excess-IsLinked device rest _
            (ap (conns_of device) (forget_unused-conns oldest p)
              ∙ conns_of-set_conns device device rest d.phones.conns
              ∙ if_pos (bytes_discrete device device) refl _ _)
            (shrink-IsLinked device oldest rest d.phones w
              (λ c n. ground (arith, ap (has_conn c) e))
              (λ h. ground (arith, ap (has_conn oldest) e))))
    ]

evict_excess-conns_of :
    (device : Bytes) (list : List ℕ) (d : Dropped)
    → conns_of device d.phones.conns ≡ list
    → (length (conns_of device (evict_excess device list d).phones.conns)
        ≤ max_phone_conns_per_device)
      × ((other : Bytes)
          → device ≢ other
          → conns_of other (evict_excess device list d).phones.conns
            ≡ conns_of other d.phones.conns)
unfolding evict_excess
evict_excess-conns_of device [] d e = (omega (arith, ap length e), λ other n. refl)
evict_excess-conns_of device (oldest ∷ rest) d e =
    let p = record (d.phones) { conns = set_conns device rest d.phones.conns } in
    elim (Bool-cases (ltb max_phone_conns_per_device (length (oldest ∷ rest)))) [
      | inr few ↦ rw few (ground (arith, ap length e), λ other n. refl)
      | inl many ↦
          let (small, others) =
            evict_excess-conns_of device rest
              (record {
                phones = forget_unused oldest p;
                close_conns = d.close_conns ++ (oldest ∷ []);
                stopped = d.stopped ++ stopped_unused oldest p;
              })
              (ap (conns_of device) (forget_unused-conns oldest p)
                ∙ conns_of-set_conns device device rest d.phones.conns
                ∙ if_pos (bytes_discrete device device) refl _ _) in
          rw many (
            small,
            λ other n.
                others other n
                ∙ ap (conns_of other) (forget_unused-conns oldest p)
                ∙ conns_of-set_conns device other rest d.phones.conns
                ∙ if_neg (bytes_discrete device other) n _ _,
          )
    ]

-- An eviction after a socket was added to a device: all limits hold again.
pub evict-IsSmall :
    (device : Bytes) (p : Phones)
    → ((other : Bytes)
        → device ≢ other
        → length (conns_of other p.conns) ≤ max_phone_conns_per_device)
    → IsSmall (evict_excess_phone_conns device p).phones
unfolding evict_excess_phone_conns
evict-IsSmall device p h other =
    let (small, others) =
      evict_excess-conns_of device (conns_of device p.conns) (undisturbed p) refl in
    elim (bytes_discrete device other) [
      | yes e ↦ rw (← e) small
      | no n ↦ rw (others other n) (h other n)
    ]
