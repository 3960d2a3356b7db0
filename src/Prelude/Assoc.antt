-- ===== src/Prelude/Assoc.antt =====
-- A Go map as an association list. The order of the list is the order in which `range` visits the
-- entries, which Go leaves open.
use Prim.Native.Nat.{ℕ, suc, ◌+◌, ◌≤◌, ◌<◌}
use mathlib.Core.Path.{◌∙◌, ◌≡◌, refl, sym, subst}
use mathlib.Core.Logic.{if_pos, ite, ◌≢◌}
use mathlib.Core.Bool.{Bool}
use mathlib.Core.Option.{Option, none, some, some-injective}
use mathlib.Core.List.{List, [], ◌∷◌}
use native.Mathlib.Omega.{arith}
use nekonest.Prelude.Tests.{if◌then◌else◌}
use nekonest.Prelude.Lists.{length, count}

module _ {ℓ} {K V : Type ℓ} where
  abbrev pub values : List (K × V) → List V
  values [] = []
  values ((k, v) ∷ m) = v ∷ values m

  abbrev pub Absent : K → List (K × V) → Type ℓ
  Absent k [] = Unit
  Absent k ((j, v) ∷ m) = (j ≢ k) × Absent k m

  -- No key stands twice.
  abbrev pub Unique : List (K × V) → Type ℓ
  Unique [] = Unit
  Unique ((k, v) ∷ m) = Absent k m × Unique m

  -- Every entry of the map satisfies a predicate.
  abbrev pub Every {μ} : (K → V → Type μ) → List (K × V) → Type μ
  Every P [] = Unit
  Every P ((k, v) ∷ m) = P k v × Every P m

module _ {ℓ} {K V : Type ℓ} (same : Discrete K) where
  unfoldable pub lookup : K → List (K × V) → Option V
  lookup k [] = none
  lookup k ((j, v) ∷ m) = ite (same j k) (some v) (lookup k m)

  unfoldable pub insert : K → V → List (K × V) → List (K × V)
  insert k v [] = (k, v) ∷ []
  insert k v ((j, w) ∷ m) = ite (same j k) ((k, v) ∷ m) ((j, w) ∷ insert k v m)

  unfoldable pub delete : K → List (K × V) → List (K × V)
  delete k [] = []
  delete k ((j, w) ∷ m) = ite (same j k) (delete k m) ((j, w) ∷ delete k m)

  pub lookup-insert :
      (k j : K) (v : V) (m : List (K × V))
      → lookup j (insert k v m) ≡ ite (same k j) (some v) (lookup j m)
  unfolding lookup insert
  lookup-insert k j v [] = refl
  lookup-insert k j v ((i, w) ∷ m) = ground (arith, lookup-insert k j v m)

  pub lookup-delete :
      (k j : K) (m : List (K × V)) → lookup j (delete k m) ≡ ite (same k j) none (lookup j m)
  unfolding lookup delete
  lookup-delete k j [] = ground arith
  lookup-delete k j ((i, w) ∷ m) = ground (arith, lookup-delete k j m)

  pub lookup-insert_self : (k : K) (v : V) (m : List (K × V)) → lookup k (insert k v m) ≡ some v
  lookup-insert_self k v m = lookup-insert k k v m ∙ if_pos (same k k) refl _ _

  pub lookup-delete_self : (k : K) (m : List (K × V)) → lookup k (delete k m) ≡ none
  lookup-delete_self k m = lookup-delete k k m ∙ if_pos (same k k) refl _ _

  abbrev pub weight : (V → Bool) → Option V → ℕ
  weight p none = 0
  weight p (some v) = if p v then 1 else 0

  -- Writing at a key changes a count by what the old and the new value weigh.
  pub count-insert :
      (p : V → Bool) (k : K) (v : V) (m : List (K × V))
      → count p (values (insert k v m)) + weight p (lookup k m)
        ≡ count p (values m) + (if p v then 1 else 0)
  unfolding insert lookup
  count-insert p k v [] = omega arith
  count-insert p k v ((i, w) ∷ m) = ground (arith, count-insert p k v m)

  pub count-delete-le :
      (p : V → Bool) (k : K) (m : List (K × V)) → count p (values (delete k m)) ≤ count p (values m)
  unfolding delete
  count-delete-le p k [] = omega arith
  count-delete-le p k ((i, w) ∷ m) = ground (arith, count-delete-le p k m)

  pub Every-insert {μ} :
      (P : K → V → Type μ) (k : K) (v : V) (m : List (K × V))
      → P k v
      → Every P m
      → Every P (insert k v m)
  unfolding insert
  Every-insert P k v [] h e = (h, tt)
  Every-insert P k v ((i, w) ∷ m) h e =
      elim (same i k) as (λ d. Every P (ite d ((k, v) ∷ m) ((i, w) ∷ insert k v m))) [
        | yes q ↦ (h, e.1)
        | no q ↦ (e.0, Every-insert P k v m h e.1)
      ]

  pub Every-delete {μ} :
      (P : K → V → Type μ) (k : K) (m : List (K × V)) → Every P m → Every P (delete k m)
  unfolding delete
  Every-delete P k [] e = tt
  Every-delete P k ((i, w) ∷ m) e =
      elim (same i k) as (λ d. Every P (ite d (delete k m) ((i, w) ∷ delete k m))) [
        | yes q ↦ Every-delete P k m e.1
        | no q ↦ (e.0, Every-delete P k m e.1)
      ]

  -- What holds of every entry holds of the one that is found.
  pub Every-lookup {μ} :
      (P : K → V → Type μ) (k : K) {v : V} (m : List (K × V))
      → Every P m
      → lookup k m ≡ some v
      → P k v
  unfolding lookup
  Every-lookup P k [] e h = cc
  Every-lookup P k {v} ((i, w) ∷ m) e h =
      (elim (same i k) as (λ d. ite d (some w) (lookup k m) ≡ some v → P k v) [
        | yes q ↦ λ found. subst (λ x. P x v) q (subst (P i) (some-injective w v found) e.0)
        | no q ↦ λ found. Every-lookup P k m e.1 found
      ])
        h

  -- With every key at one place at most, an entry is what its key finds.
  pub lookup-Absent : (k : K) (m : List (K × V)) → Absent k m → lookup k m ≡ none
  unfolding lookup
  lookup-Absent k [] a = refl
  lookup-Absent k ((i, w) ∷ m) a = ground (arith, lookup-Absent k m)

  Absent-insert :
      (k j : K) (v : V) (m : List (K × V)) → k ≢ j → Absent j m → Absent j (insert k v m)
  unfolding insert
  Absent-insert k j v [] n a = (n, tt)
  Absent-insert k j v ((i, w) ∷ m) n a =
      elim (same i k) as (λ d. Absent j (ite d ((k, v) ∷ m) ((i, w) ∷ insert k v m))) [
        | yes q ↦ (n, a.1)
        | no q ↦ (a.0, Absent-insert k j v m n a.1)
      ]

  pub insert-Unique : (k : K) (v : V) (m : List (K × V)) → Unique m → Unique (insert k v m)
  unfolding insert
  insert-Unique k v [] u = (tt, tt)
  insert-Unique k v ((i, w) ∷ m) u =
      elim (same i k) as (λ d. Unique (ite d ((k, v) ∷ m) ((i, w) ∷ insert k v m))) [
        | yes q ↦ (subst (λ x. Absent x m) q u.0, u.1)
        | no q ↦ (Absent-insert k i v m (λ e. q (sym e)) u.0, insert-Unique k v m u.1)
      ]

  Absent-delete : (k j : K) (m : List (K × V)) → Absent j m → Absent j (delete k m)
  unfolding delete
  Absent-delete k j [] a = tt
  Absent-delete k j ((i, w) ∷ m) a =
      elim (same i k) as (λ d. Absent j (ite d (delete k m) ((i, w) ∷ delete k m))) [
        | yes q ↦ Absent-delete k j m a.1
        | no q ↦ (a.0, Absent-delete k j m a.1)
      ]

  pub delete-Unique : (k : K) (m : List (K × V)) → Unique m → Unique (delete k m)
  unfolding delete
  delete-Unique k [] u = tt
  delete-Unique k ((i, w) ∷ m) u =
      elim (same i k) as (λ d. Unique (ite d (delete k m) ((i, w) ∷ delete k m))) [
        | yes q ↦ delete-Unique k m u.1
        | no q ↦ (Absent-delete k i m u.0, delete-Unique k m u.1)
      ]

  pub length-insert_absent :
      (k : K) (v : V) (m : List (K × V))
      → lookup k m ≡ none
      → length (insert k v m) ≡ suc (length m)
  unfolding insert lookup
  length-insert_absent k v [] h = refl
  length-insert_absent k v ((i, w) ∷ m) h = ground (arith, length-insert_absent k v m)

  pub length-insert_present :
      (k : K) (v w : V) (m : List (K × V)) → lookup k m ≡ some w → length (insert k v m) ≡ length m
  unfolding insert lookup
  length-insert_present k v w [] h = cc
  length-insert_present k v w ((i, x) ∷ m) h = ground (arith, length-insert_present k v w m)

  pub length-delete_le : (k : K) (m : List (K × V)) → length (delete k m) ≤ length m
  unfolding delete
  length-delete_le k [] = omega arith
  length-delete_le k ((i, w) ∷ m) = ground (arith, length-delete_le k m)

  pub length-delete_present :
      (k : K) (w : V) (m : List (K × V)) → lookup k m ≡ some w → length (delete k m) < length m
  unfolding delete lookup
  length-delete_present k w [] h = cc
  length-delete_present k w ((i, x) ∷ m) h =
      ground (arith, length-delete_present k w m, length-delete_le k m)
