-- ===== src/Relay/Newest.antt =====
-- Which sockets an eviction leaves (relaycore/connections.go).
use mathlib.Core.Logic.{if_pos}
use nekonest.Prelude.{
  ℕ, suc, ◌-◌, ◌≤◌, ◌≡◌, refl, sym, ap, ◌∙◌, List, [], ◌∷◌, ◌++◌, Bytes, bytes_discrete, length,
  ltb, drop, arith, inl, inr, Bool-cases, Bool, insert,
}
use nekonest.Relay.Phones.{
  conns_of, Phones, Dropped, max_phone_conns_per_device, set_conns, evict_excess,
  evict_excess_phone_conns, add_phone_authenticated,
}
use nekonest.Relay.Subscriptions.{conns_of-set_conns, conns_of-insert}
use nekonest.Relay.Links.{forget_unused-conns}

-- The last `n` sockets of a list.
abbrev pub newest : ℕ → List ℕ → List ℕ
newest n l = drop (length l - n) l

newest_short : (n : ℕ) (l : List ℕ) → length l ≤ n → newest n l ≡ l
newest_short n l h = let e : length l - n ≡ 0 = omega (arith, h) in rw e refl

newest_long : (n x : ℕ) (l : List ℕ) → n ≤ length l → newest n (x ∷ l) ≡ newest n l
newest_long n x l h =
    let e : suc (length l) - n ≡ suc (length l - n) = omega (arith, h) in rw e refl

evict_excess-newest :
    (device : Bytes) (list : List ℕ) (d : Dropped)
    → conns_of device d.phones.conns ≡ list
    → conns_of device (evict_excess device list d).phones.conns
      ≡ newest max_phone_conns_per_device list
unfolding evict_excess
evict_excess-newest device [] d e = e
evict_excess-newest device (oldest ∷ rest) d e =
    let p = record (d.phones) { conns = set_conns device rest d.phones.conns } in
    elim (Bool-cases (ltb max_phone_conns_per_device (length (oldest ∷ rest)))) [
      | inr few ↦
          rw few (e ∙ sym (newest_short max_phone_conns_per_device (oldest ∷ rest) (ground arith)))
      | inl many ↦
          rw (many, newest_long max_phone_conns_per_device oldest rest (ground arith))
            (evict_excess-newest device rest _ (
              ap (conns_of device) (forget_unused-conns oldest p)
              ∙ conns_of-set_conns device device rest d.phones.conns
              ∙ if_pos (bytes_discrete device device) refl _ _))
    ]

-- A device to which a socket is added has the newest eight of its sockets and the new one, in the order
-- in which they came.
pub add_phone_authenticated-newest :
    (p : Phones) (device : Bytes) (conn : ℕ) (phone : Bytes) (bypass : Bool)
    → conns_of device (add_phone_authenticated p device conn phone bypass).phones.conns
      ≡ newest max_phone_conns_per_device (conns_of device p.conns ++ (conn ∷ []))
unfolding add_phone_authenticated evict_excess_phone_conns
add_phone_authenticated-newest p device conn phone bypass =
    let list = conns_of device p.conns ++ (conn ∷ []) in
    let there : conns_of device (insert bytes_discrete device list p.conns) ≡ list =
      conns_of-insert device device list p.conns ∙ if_pos (bytes_discrete device device) refl _ _ in
    rw there (evict_excess-newest device list _ there)
