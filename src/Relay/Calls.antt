-- ===== src/Relay/Calls.antt =====
-- The calls on the phones of ConnectionManager in relaycore/connections.go, in any order.
use mathlib.Core.Logic.{if_neg}
use nekonest.Prelude.{
  ℕ, ◌≤◌, ◌≡◌, ◌≢◌, refl, ap, Bool, ite, List, [], ◌∷◌, ◌++◌, Bytes, bytes_discrete, ℕ_discrete,
  length, arith, insert, lookup-insert, lookup-delete, Unique, insert-Unique, inl, inr, Bool-cases,
  Option-cases, is_some, is_empty,
}
use nekonest.Relay.Outbound.{new_phone_outbound, enqueue_phone}
use nekonest.Relay.Phones.{
  conns_of, Phones, max_phone_conns_per_device, without_phone_conn, set_conns, remove_everywhere,
  still_subscribed, find_out, undisturbed, evict_excess_phone_conns, subscribe,
  add_phone_authenticated, remove_phone, resubscribe_phone, drop_phone, drop_phones,
  close_phones_by_principal, conns_by_principal, write_found, safe_write_phone, write_all,
  broadcast_to_phones,
}
use nekonest.Relay.Subscriptions.{
  has_conn-without_phone_conn, length-without_phone_conn_le, has_conn-append,
  still_subscribed-remove_everywhere, conns_of-set_conns, conns_of-insert, still_subscribed_split,
  still_subscribed-insert, remove_everywhere-Unique, conns_of-remove_everywhere,
}
use nekonest.Relay.Links.{
  IsLinked, IsSmall, shrink-IsLinked, forget_unused-conns, evict_excess-IsLinked, evict-IsSmall,
}

pub data Call : Type 0 where
  adds : Bytes → ℕ → Bytes → Bool → Call
  removes resubscribes : Bytes → ℕ → Call
  drops : ℕ → Call
  closes : Bytes → Call
  writes : ℕ → Bytes → Call
  broadcasts : Bytes → Bytes → Call

unfoldable pub call : Phones → Call → Phones
call p (adds device conn phone bypass) = (add_phone_authenticated p device conn phone bypass).phones
call p (removes device conn) = (remove_phone p device conn).phones
call p (resubscribes device conn) = (resubscribe_phone p device conn).phones
call p (drops conn) = (drop_phone p conn).phones
call p (closes phone) = (close_phones_by_principal p phone).0
call p (writes conn frame) = safe_write_phone p conn frame
call p (broadcasts device frame) = broadcast_to_phones p device frame

unfoldable pub calls : Phones → List Call → Phones
calls p [] = p
calls p (c ∷ cs) = calls (call p c) cs

pub record IsConsistent (p : Phones) : Type 0 where
  pub links : IsLinked p
  pub small : IsSmall p

subscribe-IsLinked :
    (device : Bytes) (conn : ℕ) (p : Phones)
    → Unique p.conns
    → ((c : ℕ) → conn ≢ c → is_some (find_out c p.outbounds) ≡ still_subscribed c p.conns)
    → IsLinked (subscribe device conn p)
subscribe-IsLinked device conn p u others =
    let list = conns_of device p.conns in
    record {
      unique = insert-Unique bytes_discrete device (list ++ (conn ∷ [])) p.conns u;
      linked = λ c.
          let now = still_subscribed-insert c device (list ++ (conn ∷ [])) p.conns u in
          let before = still_subscribed_split c device p.conns u in
          let has = has_conn-append c conn list in
          elim (Option-cases (find_out conn p.outbounds)) [
            | inl absent ↦ elim (ℕ_discrete conn c) [
              | yes e ↦
                  ground (
                    arith,
                    now,
                    has,
                    lookup-insert ℕ_discrete conn c new_phone_outbound p.outbounds,
                  )
              | no n ↦ ground (
                arith,
                now,
                has,
                before,
                others c n,
                lookup-insert ℕ_discrete conn c new_phone_outbound p.outbounds,
              )
            ]
            | inr (out, e) ↦ elim (ℕ_discrete conn c) [
              | yes q ↦ ground (arith, now, has)
              | no n ↦ ground (arith, now, has, before, others c n)
            ]
          ];
    }

add-IsConsistent :
    (device : Bytes) (conn : ℕ) (p : Phones)
    → Unique p.conns
    → ((c : ℕ) → conn ≢ c → is_some (find_out c p.outbounds) ≡ still_subscribed c p.conns)
    → IsSmall p
    → IsConsistent (evict_excess_phone_conns device (subscribe device conn p)).phones
unfolding evict_excess_phone_conns
add-IsConsistent device conn p u others small =
    let q = subscribe device conn p in
    let list = conns_of device p.conns ++ (conn ∷ []) in
    record {
      links =
          evict_excess-IsLinked device (conns_of device q.conns) (undisturbed q) refl
            (subscribe-IsLinked device conn p u others);
      small = evict-IsSmall device q (λ other n.
          rw (conns_of-insert device other list p.conns, if_neg (bytes_discrete device other) n)
            (small other));
    }

remove-IsConsistent :
    (device : Bytes) (conn : ℕ) (p : Phones)
    → IsConsistent p
    → IsConsistent (remove_phone p device conn).phones
unfolding remove_phone
remove-IsConsistent device conn p w =
    let before = conns_of device p.conns in
    let list = without_phone_conn conn before in
    record {
      links =
          shrink-IsLinked device conn list p w.links
            (λ c n. ground (arith, has_conn-without_phone_conn c conn before))
            (λ h. ground (arith, has_conn-without_phone_conn conn conn before));
      small = λ other.
          rw
            (
              forget_unused-conns conn (record p { conns = set_conns device list p.conns }),
              conns_of-set_conns device other list p.conns,
            )
            (elim (bytes_discrete device other)
              as (λ x. length (ite x list (conns_of other p.conns)) ≤ max_phone_conns_per_device) [
                | yes e ↦ omega (arith, length-without_phone_conn_le conn before, w.small device)
                | no n ↦ w.small other
              ]);
    }

module _ (conn : ℕ) (p : Phones) (w : IsConsistent p) where
  without-IsSmall : IsSmall (record p { conns = remove_everywhere conn p.conns })
  without-IsSmall device = omega (
    arith,
    ap length (conns_of-remove_everywhere device conn p.conns w.links.unique),
    length-without_phone_conn_le conn (conns_of device p.conns),
    w.small device,
  )

  drop-IsConsistent : IsConsistent (drop_phone p conn).phones
  unfolding drop_phone
  drop-IsConsistent = record {
    links = record {
      unique = remove_everywhere-Unique conn p.conns w.links.unique;
      linked = λ c. ground (
        arith,
        still_subscribed-remove_everywhere c conn p.conns,
        lookup-delete ℕ_discrete conn c p.outbounds,
        w.links.linked c,
      );
    };
    small = without-IsSmall;
  }

  resubscribe-IsConsistent :
      (device : Bytes) → IsConsistent (resubscribe_phone p device conn).phones
  unfolding resubscribe_phone
  resubscribe-IsConsistent device =
      add-IsConsistent device conn (record p { conns = remove_everywhere conn p.conns })
        (remove_everywhere-Unique conn p.conns w.links.unique)
        (λ c n. ground (arith, still_subscribed-remove_everywhere c conn p.conns, w.links.linked c))
        without-IsSmall

drop_phones-IsConsistent :
    (conns : List ℕ) (p : Phones) → IsConsistent p → IsConsistent (drop_phones conns p)
unfolding drop_phones
drop_phones-IsConsistent [] p w = w
drop_phones-IsConsistent (conn ∷ rest) p w =
    drop_phones-IsConsistent rest (drop_phone p conn).phones (drop-IsConsistent conn p w)

write-IsConsistent :
    (p : Phones) (conn : ℕ) (frame : Bytes)
    → IsConsistent p
    → IsConsistent (safe_write_phone p conn frame)
unfolding safe_write_phone
write-IsConsistent p conn frame w = elim (Option-cases (find_out conn p.outbounds)) [
  | inl absent ↦ rw absent w
  | inr (out, e) ↦
      let r = enqueue_phone out frame in
      let q = record p { outbounds = insert ℕ_discrete conn r.0 p.outbounds } in
      let kept : IsConsistent q = record {
        links = record {
          unique = w.links.unique;
          linked = λ c.
              ground (arith, lookup-insert ℕ_discrete conn c r.0 p.outbounds, w.links.linked c);
        };
        small = w.small;
      } in
      elim (Bool-cases r.1) [
        | inl taken ↦ rw (e, write_found) (rw taken kept)
        | inr refused ↦ rw (e, write_found) (rw refused (drop-IsConsistent conn q kept))
      ]
]

write_all-IsConsistent :
    (conns : List ℕ) (frame : Bytes) (p : Phones)
    → IsConsistent p
    → IsConsistent (write_all conns frame p)
unfolding write_all
write_all-IsConsistent [] frame p w = w
write_all-IsConsistent (conn ∷ rest) frame p w =
    write_all-IsConsistent rest frame (safe_write_phone p conn frame)
      (write-IsConsistent p conn frame w)

close-IsConsistent :
    (p : Phones) (phone : Bytes)
    → IsConsistent p
    → IsConsistent (close_phones_by_principal p phone).0
unfolding close_phones_by_principal
close-IsConsistent p phone w = elim (Bool-cases (is_empty phone)) [
  | inl nobody ↦ rw nobody w
  | inr named ↦ rw named (drop_phones-IsConsistent (conns_by_principal phone p.principals) p w)
]

call-IsConsistent : (p : Phones) (c : Call) → IsConsistent p → IsConsistent (call p c)
unfolding call add_phone_authenticated broadcast_to_phones
call-IsConsistent p (adds device conn phone bypass) w =
    add-IsConsistent device conn _ w.links.unique (λ c n. w.links.linked c) w.small
call-IsConsistent p (removes device conn) w = remove-IsConsistent device conn p w
call-IsConsistent p (resubscribes device conn) w = resubscribe-IsConsistent conn p w device
call-IsConsistent p (drops conn) w = drop-IsConsistent conn p w
call-IsConsistent p (closes phone) w = close-IsConsistent p phone w
call-IsConsistent p (writes conn frame) w = write-IsConsistent p conn frame w
call-IsConsistent p (broadcasts device frame) w =
    write_all-IsConsistent (conns_of device p.conns) frame p w

-- Through any sequence of calls, a socket has a queue exactly when it is subscribed to some device, and
-- no device has more than eight sockets, if that holds at the start.
pub calls-IsConsistent : (p : Phones) (cs : List Call) → IsConsistent p → IsConsistent (calls p cs)
unfolding calls
calls-IsConsistent p [] w = w
calls-IsConsistent p (c ∷ cs) w = calls-IsConsistent (call p c) cs (call-IsConsistent p c w)
