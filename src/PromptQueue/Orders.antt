-- ===== src/PromptQueue/Orders.antt =====
-- The orders that enqueue of daemon/cmd/daemon/prompt_queue.go gives out: they rise, and no two
-- items of the queue share one.
use mathlib.Core.Option.{some-injective}
use nekonest.Prelude.{
  sym, ap, ◌∙◌, subst, ℕ, ◌^◌, ◌≤◌, ◌<◌, ◌≡◌, ◌≢◌, List, [], ◌∷◌, none, some, Bytes, bytes_discrete,
  Every, Every-insert, Every-delete, Every-lookup, insert, delete, lookup, ite, ite-keeps,
}
use nekonest.PromptQueue.Item.{Item}
use nekonest.PromptQueue.Store.{Items, find, put, delete_items}
use nekonest.PromptQueue.Queries.{rewrite_items}
use nekonest.PromptQueue.Keyed.{key_of}

abbrev pub EveryOrder : (ℕ → Type 0) → Items → Type 0
EveryOrder Q = Every (λ _ it. Q it.order)

abbrev pub Unused : ℕ → Items → Type 0
Unused order = EveryOrder (λ o. o ≢ order)

-- No two entries have the same order.
abbrev pub Distinct : Items → Type 0
Distinct [] = Unit
Distinct ((k, it) ∷ m) = Unused it.order m × Distinct m

pub record Ordered (m : Items) (n : ℕ) : Type 0 where
  pub up_to : EveryOrder (λ o. o ≤ n) m
  pub distinct : Distinct m
  pub fits : n < 2 ^ 64

-- What the loops and the writes of the queue keep of every order.
module _ (Q : ℕ → Type 0) where
  pub EveryOrder-put :
      (key : Bytes) (it : Item) (m : Items)
      → Q it.order
      → EveryOrder Q m
      → EveryOrder Q (put key it m)
  EveryOrder-put key it m = Every-insert bytes_discrete (λ _ x. Q x.order) key it m

  pub EveryOrder-find :
      (key : Bytes) {old : Item} (m : Items) → find key m ≡ some old → EveryOrder Q m → Q old.order
  EveryOrder-find key m found e = Every-lookup bytes_discrete (λ _ x. Q x.order) key m e found

  pub EveryOrder-delete_items :
      (dead : List Item) (m : Items) → EveryOrder Q m → EveryOrder Q (delete_items dead m)
  unfolding delete_items
  EveryOrder-delete_items [] m u = u
  EveryOrder-delete_items (it ∷ rest) m u =
      EveryOrder-delete_items rest (delete bytes_discrete (key_of it) m)
        (Every-delete bytes_discrete (λ _ x. Q x.order) (key_of it) m u)

  pub EveryOrder-rewrite :
      (f : Item → Item)
      → ((it : Item) → (f it).order ≡ it.order)
      → (m : Items) → EveryOrder Q m
      → EveryOrder Q (rewrite_items f m)
  unfolding rewrite_items
  EveryOrder-rewrite f keeps [] e = tt
  EveryOrder-rewrite f keeps ((k, it) ∷ m) e = (rw (keeps it) e.0, EveryOrder-rewrite f keeps m e.1)

pub Distinct-overwrite :
    (key : Bytes) (old it : Item) (m : Items)
    → find key m ≡ some old
    → it.order ≡ old.order
    → Distinct m
    → Distinct (put key it m)
unfolding lookup insert
Distinct-overwrite key old it [] found eq d = (tt, tt)
Distinct-overwrite key old it ((j, w) ∷ m) found eq d =
    (elim (bytes_discrete j key)
        as (λ c.
          ite c (some w) (lookup bytes_discrete key m) ≡ some old
          → Distinct (ite c ((key, it) ∷ m) ((j, w) ∷ insert bytes_discrete key it m))) [
            | yes p ↦ λ e.
                let same_order : w.order ≡ it.order =
                  ap Item.order (some-injective w old e) ∙ sym eq in
                (subst (λ o. Unused o m) same_order d.0, d.1)
            | no p ↦ λ e. (
              EveryOrder-put (λ o. o ≢ w.order) key it m
                  (rw eq (EveryOrder-find (λ o. o ≢ w.order) key m e d.0)) d.0,
              Distinct-overwrite key old it m e eq d.1,
            )
          ])
      found

pub Distinct-add :
    (key : Bytes) (it : Item) (m : Items)
    → find key m ≡ none
    → Unused it.order m
    → Distinct m
    → Distinct (put key it m)
unfolding lookup insert
Distinct-add key it [] found u d = (tt, tt)
Distinct-add key it ((j, w) ∷ m) found u d =
    (elim (bytes_discrete j key)
        as (λ c.
          ite c (some w) (lookup bytes_discrete key m) ≡ none
          → Distinct (ite c ((key, it) ∷ m) ((j, w) ∷ insert bytes_discrete key it m))) [
            | yes p ↦ λ e. absurd (cc)
            | no p ↦ λ e. (
              EveryOrder-put (λ o. o ≢ w.order) key it m (λ x. u.0 (sym x)) d.0,
              Distinct-add key it m e u.1 d.1,
            )
          ])
      found

Distinct-delete : (key : Bytes) (m : Items) → Distinct m → Distinct (delete bytes_discrete key m)
unfolding delete
Distinct-delete key [] d = tt
Distinct-delete key ((j, w) ∷ m) d =
    ite-keeps (bytes_discrete j key) Distinct (λ _. Distinct-delete key m d.1)
      (λ _. (
        Every-delete bytes_discrete (λ _ x. x.order ≢ w.order) key m d.0,
        Distinct-delete key m d.1,
      ))

pub Distinct-delete_items :
    (dead : List Item) (m : Items) → Distinct m → Distinct (delete_items dead m)
unfolding delete_items
Distinct-delete_items [] m d = d
Distinct-delete_items (it ∷ rest) m d =
    Distinct-delete_items rest (delete bytes_discrete (key_of it) m)
      (Distinct-delete (key_of it) m d)

pub Distinct-rewrite :
    (f : Item → Item)
    → ((it : Item) → (f it).order ≡ it.order)
    → (m : Items) → Distinct m
    → Distinct (rewrite_items f m)
unfolding rewrite_items
Distinct-rewrite f keeps [] d = tt
Distinct-rewrite f keeps ((k, it) ∷ m) d = (
  rw (keeps it) (EveryOrder-rewrite (λ o. o ≢ it.order) f keeps m d.0),
  Distinct-rewrite f keeps m d.1,
)
