-- ===== src/Relay/Subscriptions.antt =====
-- The maps of phone sockets in relaycore/connections.go: what a write to them changes.
use mathlib.Core.Logic.{if_neg}
use nekonest.Prelude.{
  ℕ, ◌≤◌, ◌≡◌, ◌≢◌, refl, sym, ap, ◌∙◌, not, ◌&&◌, ◌||◌, ite, List, [], ◌∷◌, ◌++◌, some, Bytes,
  bytes_discrete, length, ◌==◌, arith, lookup, insert, delete, lookup-insert, lookup-delete, Unique,
  Absent, insert-Unique, delete-Unique, lookup-Absent,
}
use nekonest.Relay.Phones.{
  Conns, or_empty, conns_of, without_phone_conn, set_conns, keep_conns, remove_everywhere, has_conn,
  still_subscribed,
}

pub has_conn-without_phone_conn :
    (c target : ℕ) (l : List ℕ)
    → has_conn c (without_phone_conn target l) ≡ not (target == c) && has_conn c l
unfolding has_conn without_phone_conn
has_conn-without_phone_conn c target [] = ground arith
has_conn-without_phone_conn c target (x ∷ l) =
    ground (arith, has_conn-without_phone_conn c target l)

pub length-without_phone_conn_le :
    (target : ℕ) (l : List ℕ) → length (without_phone_conn target l) ≤ length l
unfolding without_phone_conn
length-without_phone_conn_le target [] = omega arith
length-without_phone_conn_le target (x ∷ l) = ground (arith, length-without_phone_conn_le target l)

pub has_conn-append : (c x : ℕ) (l : List ℕ) → has_conn c (l ++ (x ∷ [])) ≡ has_conn c l || x == c
unfolding has_conn
has_conn-append c x [] = ground arith
has_conn-append c x (y ∷ l) = ground (arith, has_conn-append c x l)

still_subscribed-keep_conns :
    (c : ℕ) (device : Bytes) (l : List ℕ) (m : Conns)
    → still_subscribed c (keep_conns device l m) ≡ has_conn c l || still_subscribed c m
unfolding still_subscribed has_conn
still_subscribed-keep_conns c device [] m = refl
still_subscribed-keep_conns c device (x ∷ l) m = refl

-- Dropping a socket everywhere leaves the subscriptions of the others.
pub still_subscribed-remove_everywhere :
    (c target : ℕ) (m : Conns)
    → still_subscribed c (remove_everywhere target m) ≡ not (target == c) && still_subscribed c m
unfolding still_subscribed remove_everywhere
still_subscribed-remove_everywhere c target [] = ground arith
still_subscribed-remove_everywhere c target ((d, l) ∷ m) = ground (
  arith,
  still_subscribed-keep_conns c d (without_phone_conn target l) (remove_everywhere target m),
  has_conn-without_phone_conn c target l,
  still_subscribed-remove_everywhere c target m,
)

pub conns_of-set_conns :
    (device d : Bytes) (l : List ℕ) (m : Conns)
    → conns_of d (set_conns device l m) ≡ ite (bytes_discrete device d) l (conns_of d m)
conns_of-set_conns device d [] m = ground (arith, lookup-delete bytes_discrete device d m)
conns_of-set_conns device d (x ∷ l) m =
    ground (arith, lookup-insert bytes_discrete device d (x ∷ l) m)

pub conns_of-insert :
    (device d : Bytes) (l : List ℕ) (m : Conns)
    → conns_of d (insert bytes_discrete device l m) ≡ ite (bytes_discrete device d) l (conns_of d m)
conns_of-insert device d l m = ground (arith, lookup-insert bytes_discrete device d l m)

delete-Absent : (d : Bytes) (m : Conns) → Absent d m → delete bytes_discrete d m ≡ m
unfolding delete
delete-Absent d [] a = refl
delete-Absent d ((j, w) ∷ m) a =
    if_neg (bytes_discrete j d) a.0 _ _ ∙ ap (λ x. (j, w) ∷ x) (delete-Absent d m a.1)

-- A socket is subscribed at a device or at another.
pub still_subscribed_split :
    (c : ℕ) (d : Bytes) (m : Conns)
    → Unique m
    → still_subscribed c m
      ≡ has_conn c (conns_of d m) || still_subscribed c (delete bytes_discrete d m)
unfolding still_subscribed delete lookup has_conn
still_subscribed_split c d [] u = refl
still_subscribed_split c d ((j, w) ∷ m) u =
    elim (bytes_discrete j d)
      as (λ x.
        has_conn c w || still_subscribed c m
        ≡ has_conn c (or_empty (ite x (some w) (lookup bytes_discrete d m)))
          || still_subscribed c
              (ite x (delete bytes_discrete d m) ((j, w) ∷ delete bytes_discrete d m))) [
                | yes e ↦
                    ap (λ x. has_conn c w || still_subscribed c x)
                      (sym (delete-Absent d m (rw (← e) u.0)))
                | no n ↦ ground (arith, still_subscribed_split c d m u.1)
              ]

pub still_subscribed-insert :
    (c : ℕ) (d : Bytes) (l : List ℕ) (m : Conns)
    → Unique m
    → still_subscribed c (insert bytes_discrete d l m)
      ≡ has_conn c l || still_subscribed c (delete bytes_discrete d m)
unfolding still_subscribed insert delete
still_subscribed-insert c d l [] u = refl
still_subscribed-insert c d l ((j, w) ∷ m) u =
    elim (bytes_discrete j d)
      as (λ x.
        still_subscribed c (ite x ((d, l) ∷ m) ((j, w) ∷ insert bytes_discrete d l m))
        ≡ has_conn c l
          || still_subscribed c
              (ite x (delete bytes_discrete d m) ((j, w) ∷ delete bytes_discrete d m))) [
                | yes e ↦
                    ap (λ x. has_conn c l || still_subscribed c x)
                      (sym (delete-Absent d m (rw (← e) u.0)))
                | no n ↦ ground (arith, still_subscribed-insert c d l m u.1)
              ]

pub still_subscribed-set_conns :
    (c : ℕ) (d : Bytes) (l : List ℕ) (m : Conns)
    → Unique m
    → still_subscribed c (set_conns d l m)
      ≡ has_conn c l || still_subscribed c (delete bytes_discrete d m)
unfolding has_conn
still_subscribed-set_conns c d [] m u = refl
still_subscribed-set_conns c d (x ∷ l) m u = still_subscribed-insert c d (x ∷ l) m u

pub set_conns-Unique : (d : Bytes) (l : List ℕ) (m : Conns) → Unique m → Unique (set_conns d l m)
set_conns-Unique d [] m u = delete-Unique bytes_discrete d m u
set_conns-Unique d (x ∷ l) m u = insert-Unique bytes_discrete d (x ∷ l) m u

keep_conns-Absent :
    (d j : Bytes) (l : List ℕ) (m : Conns) → j ≢ d → Absent d m → Absent d (keep_conns j l m)
keep_conns-Absent d j [] m n a = a
keep_conns-Absent d j (x ∷ l) m n a = (n, a)

remove_everywhere-Absent :
    (d : Bytes) (t : ℕ) (m : Conns) → Absent d m → Absent d (remove_everywhere t m)
unfolding remove_everywhere
remove_everywhere-Absent d t [] a = tt
remove_everywhere-Absent d t ((j, w) ∷ m) a =
    keep_conns-Absent d j (without_phone_conn t w) (remove_everywhere t m) a.0
      (remove_everywhere-Absent d t m a.1)

keep_conns-Unique :
    (d : Bytes) (l : List ℕ) (m : Conns) → Absent d m → Unique m → Unique (keep_conns d l m)
keep_conns-Unique d [] m a u = u
keep_conns-Unique d (x ∷ l) m a u = (a, u)

pub remove_everywhere-Unique : (t : ℕ) (m : Conns) → Unique m → Unique (remove_everywhere t m)
unfolding remove_everywhere
remove_everywhere-Unique t [] u = tt
remove_everywhere-Unique t ((j, w) ∷ m) u =
    keep_conns-Unique j (without_phone_conn t w) (remove_everywhere t m)
      (remove_everywhere-Absent j t m u.0) (remove_everywhere-Unique t m u.1)

conns_of-keep_conns :
    (d j : Bytes) (l : List ℕ) (m : Conns)
    → Absent j m
    → conns_of d (keep_conns j l m) ≡ ite (bytes_discrete j d) l (conns_of d m)
unfolding lookup
conns_of-keep_conns d j (x ∷ l) m a = ground arith
conns_of-keep_conns d j [] m a =
    elim (bytes_discrete j d) as (λ x. conns_of d m ≡ ite x [] (conns_of d m)) [
      | yes e ↦ ap or_empty (lookup-Absent bytes_discrete d m (rw (← e) a))
      | no n ↦ refl
    ]

pub conns_of-remove_everywhere :
    (d : Bytes) (t : ℕ) (m : Conns)
    → Unique m
    → conns_of d (remove_everywhere t m) ≡ without_phone_conn t (conns_of d m)
unfolding remove_everywhere lookup without_phone_conn
conns_of-remove_everywhere d t [] u = refl
conns_of-remove_everywhere d t ((j, w) ∷ m) u = ground (
  arith,
  conns_of-keep_conns d j (without_phone_conn t w) (remove_everywhere t m),
  remove_everywhere-Absent j t m u.0,
  conns_of-remove_everywhere d t m u.1,
)
