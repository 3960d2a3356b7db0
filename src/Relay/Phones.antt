-- ===== src/Relay/Phones.antt =====
-- The phones of ConnectionManager in relaycore/connections.go: which sockets are subscribed to which
-- device, the queue of each socket and the phone that it belongs to. Each operation is one step under
-- the manager's mutex; a socket is a number.
use nekonest.Prelude.{
  ℕ, Bool, true, false, not, ◌&&◌, ◌||◌, ite, List, [], ◌∷◌, ◌++◌, Option, none, some, Bytes,
  bytes_discrete, ℕ_discrete, length, ltb, ◌==◌, is_empty, if◌then◌else◌, lookup, insert, delete,
}
use nekonest.Relay.Outbound.{Outbound, new_phone_outbound, enqueue_phone}

-- phonePrincipal.
pub record Principal : Type 0 where
  pub phone_id : Bytes
  pub admin_bypass : Bool

abbrev pub Conns : Type 0
Conns = List (Bytes × List ℕ)

pub record Phones : Type 0 where
  pub conns : Conns
  pub outbounds : List (ℕ × Outbound)
  pub principals : List (ℕ × Principal)

-- What an operation leaves for after the mutex: the sockets to close and the queues that stop.
pub record Dropped : Type 0 where
  pub phones : Phones
  pub close_conns : List ℕ
  pub stopped : List Outbound

abbrev pub max_phone_conns_per_device : ℕ
max_phone_conns_per_device = 8

abbrev pub no_phones : Phones
no_phones = record { conns = []; outbounds = []; principals = [] }

abbrev pub or_empty : Option (List ℕ) → List ℕ
or_empty none = []
or_empty (some l) = l

-- `cm.phoneConns[deviceID]`, empty where the key is missing.
abbrev pub conns_of : Bytes → Conns → List ℕ
conns_of device m = or_empty (lookup bytes_discrete device m)

-- withoutPhoneConn.
unfoldable pub without_phone_conn : ℕ → List ℕ → List ℕ
without_phone_conn target [] = []
without_phone_conn target (conn ∷ rest) =
    let others = without_phone_conn target rest in if conn == target then others else conn ∷ others

-- `if len(list) == 0 { delete } else { put }`.
abbrev pub set_conns : Bytes → List ℕ → Conns → Conns
set_conns device [] m = delete bytes_discrete device m
set_conns device (conn ∷ rest) m = insert bytes_discrete device (conn ∷ rest) m

abbrev pub keep_conns : Bytes → List ℕ → Conns → Conns
keep_conns device [] m = m
keep_conns device (conn ∷ rest) m = (device, conn ∷ rest) ∷ m

-- The loop of ResubscribePhone and dropPhone over the devices.
unfoldable pub remove_everywhere : ℕ → Conns → Conns
remove_everywhere conn [] = []
remove_everywhere conn ((device, list) ∷ m) =
    keep_conns device (without_phone_conn conn list) (remove_everywhere conn m)

unfoldable pub has_conn : ℕ → List ℕ → Bool
has_conn conn [] = false
has_conn conn (c ∷ rest) = c == conn || has_conn conn rest

-- phoneStillSubscribedLocked.
unfoldable pub still_subscribed : ℕ → Conns → Bool
still_subscribed conn [] = false
still_subscribed conn ((device, list) ∷ m) = has_conn conn list || still_subscribed conn m

abbrev pub find_out : ℕ → List (ℕ × Outbound) → Option Outbound
find_out = lookup ℕ_discrete

abbrev pub as_list : Option Outbound → List Outbound
as_list none = []
as_list (some out) = out ∷ []

abbrev pub forget : ℕ → Phones → Phones
forget conn p = record p {
  outbounds = delete ℕ_discrete conn p.outbounds;
  principals = delete ℕ_discrete conn p.principals;
}

-- The socket loses its queue and its principal if no device has it any more.
abbrev pub forget_unused : ℕ → Phones → Phones
forget_unused conn p = if still_subscribed conn p.conns then p else forget conn p

abbrev pub stopped_unused : ℕ → Phones → List Outbound
stopped_unused conn p =
    if still_subscribed conn p.conns then [] else as_list (find_out conn p.outbounds)

-- The loop of evictExcessPhoneConnsLocked; the list is the one that the device has.
unfoldable pub evict_excess : Bytes → List ℕ → Dropped → Dropped
evict_excess device [] d = d
evict_excess device (oldest ∷ rest) d =
    let p = record (d.phones) { conns = set_conns device rest d.phones.conns } in
    let more = evict_excess device rest (record {
      phones = forget_unused oldest p;
      close_conns = d.close_conns ++ (oldest ∷ []);
      stopped = d.stopped ++ stopped_unused oldest p;
    }) in
    if ltb max_phone_conns_per_device (length (oldest ∷ rest)) then more else d

abbrev pub undisturbed : Phones → Dropped
undisturbed p = record { phones = p; close_conns = []; stopped = [] }

unfoldable pub evict_excess_phone_conns : Bytes → Phones → Dropped
evict_excess_phone_conns device p = evict_excess device (conns_of device p.conns) (undisturbed p)

-- `if !exists { out = newPhoneOutbound() }`.
abbrev pub ensure_outbound : ℕ → Option Outbound → List (ℕ × Outbound) → List (ℕ × Outbound)
ensure_outbound conn (some _) m = m
ensure_outbound conn none m = insert ℕ_discrete conn new_phone_outbound m

abbrev pub subscribe : Bytes → ℕ → Phones → Phones
subscribe device conn p = record p {
  conns = insert bytes_discrete device (conns_of device p.conns ++ (conn ∷ [])) p.conns;
  outbounds = ensure_outbound conn (find_out conn p.outbounds) p.outbounds;
}

unfoldable pub add_phone_authenticated : Phones → Bytes → ℕ → Bytes → Bool → Dropped
add_phone_authenticated p device conn phone bypass = evict_excess_phone_conns device (
    subscribe device conn (record p {
      principals =
          insert ℕ_discrete conn (record { phone_id = phone; admin_bypass = bypass }) p.principals;
    }))

abbrev pub add_phone : Phones → Bytes → ℕ → Dropped
add_phone p device conn = add_phone_authenticated p device conn [] true

unfoldable pub remove_phone : Phones → Bytes → ℕ → Dropped
remove_phone p device conn =
    let less = record p {
      conns = set_conns device (without_phone_conn conn (conns_of device p.conns)) p.conns;
    } in
    record {
      phones = forget_unused conn less;
      close_conns = [];
      stopped = stopped_unused conn less;
    }

unfoldable pub resubscribe_phone : Phones → Bytes → ℕ → Dropped
resubscribe_phone p device conn =
    evict_excess_phone_conns device
      (subscribe device conn (record p { conns = remove_everywhere conn p.conns }))

unfoldable pub drop_phone : Phones → ℕ → Dropped
drop_phone p conn = record {
  phones = forget conn (record p { conns = remove_everywhere conn p.conns });
  close_conns = conn ∷ [];
  stopped = as_list (find_out conn p.outbounds);
}

abbrev str_eq : Bytes → Bytes → Bool
str_eq a b = ite (bytes_discrete a b) true false

-- The sockets of a phone, and the loop that drops them.
unfoldable pub conns_by_principal : Bytes → List (ℕ × Principal) → List ℕ
conns_by_principal phone [] = []
conns_by_principal phone ((conn, who) ∷ m) =
    let others = conns_by_principal phone m in
    if not who.admin_bypass && str_eq who.phone_id phone then conn ∷ others else others

unfoldable pub drop_phones : List ℕ → Phones → Phones
drop_phones [] p = p
drop_phones (conn ∷ rest) p = drop_phones rest (drop_phone p conn).phones

unfoldable pub close_phones_by_principal : Phones → Bytes → Phones × ℕ
close_phones_by_principal p phone =
    if is_empty phone
    then (p, 0)
    else let conns = conns_by_principal phone p.principals in (drop_phones conns p, length conns)

abbrev pub write_found : Phones → ℕ → Bytes → Option Outbound → Phones
write_found p conn frame none = p
write_found p conn frame (some out) =
    let r = enqueue_phone out frame in
    let q = record p { outbounds = insert ℕ_discrete conn r.0 p.outbounds } in
    if r.1 then q else (drop_phone q conn).phones

-- SafeWritePhone of an encoded message; a socket whose queue refuses the frame is dropped.
unfoldable pub safe_write_phone : Phones → ℕ → Bytes → Phones
safe_write_phone p conn frame = write_found p conn frame (find_out conn p.outbounds)

unfoldable pub write_all : List ℕ → Bytes → Phones → Phones
write_all [] frame p = p
write_all (conn ∷ rest) frame p = write_all rest frame (safe_write_phone p conn frame)

-- BroadcastToPhones of an encoded message, to the sockets that the device had at the start.
unfoldable pub broadcast_to_phones : Phones → Bytes → Bytes → Phones
broadcast_to_phones p device frame = write_all (conns_of device p.conns) frame p

unfoldable pub phone_subscription_counts : Phones → Bytes → ℕ × ℕ
phone_subscription_counts p device = (length (conns_of device p.conns), length p.outbounds)
