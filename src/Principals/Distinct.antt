-- ===== src/Principals/Distinct.antt =====
-- The digests of a registry's phones (relaycore/principals.go).
use mathlib.Core.Logic.{if_neg, if_pos}
use mathlib.Core.Option.{some-injective}
use nekonest.Prelude.{
  ◌≡◌, ◌≢◌, refl, sym, ap, ◌∙◌, true, false, List, [], ◌∷◌, Option, some, Bytes, bytes_discrete,
  arith, lookup, insert, delete, lookup-insert, lookup-delete, lookup-Absent, Unique, insert-Unique,
  delete-Unique,
}
use nekonest.Principals.Registry.{PhoneCredential, same_digest, phone_conflict, find_phone}

abbrev pub find : Bytes → List (Bytes × PhoneCredential) → Option PhoneCredential
find = lookup bytes_discrete

-- The phones of a registry: no id stands twice, and no digest has two ids.
pub record IsDistinct (phones : List (Bytes × PhoneCredential)) : Type 0 where
  pub unique : Unique phones
  pub distinct :
      (i j : Bytes) (a b : PhoneCredential)
      → find i phones ≡ some a
      → find j phones ≡ some b
      → a.digest ≡ b.digest
      → i ≡ j

phone_conflict-none :
    (id digest j : Bytes) (phones : List (Bytes × PhoneCredential)) (b : PhoneCredential)
    → phone_conflict id digest phones ≡ false
    → find j phones ≡ some b
    → b.digest ≡ digest
    → j ≡ id
unfolding phone_conflict lookup
phone_conflict-none id digest j [] b h f e = absurd (ground arith)
phone_conflict-none id digest j ((k, first) ∷ rest) b h f e = elim (bytes_discrete k j) [
  | no n ↦ phone_conflict-none id digest j rest b (ground arith) (ground (arith, f, n)) e
  | yes y ↦ elim (bytes_discrete k id) [
    | yes s ↦ sym y ∙ s
    | no n ↦
        let same : first ≡ b = ground (arith, f, y) in
        let equal : same_digest first.digest digest ≡ true =
          if_pos (bytes_discrete first.digest digest) (ap PhoneCredential.digest same ∙ e) _ _ in
        absurd (ground (arith, h, n, equal))
  ]
]

pub find_phone_sound :
    (digest : Bytes) (phones : List (Bytes × PhoneCredential)) (id : Bytes)
    (phone : PhoneCredential)
    → Unique phones
    → find_phone digest phones ≡ some (id, phone)
    → (find id phones ≡ some phone) × (phone.digest ≡ digest)
unfolding find_phone lookup
find_phone_sound digest [] id phone u f = absurd (ground arith)
find_phone_sound digest ((k, first) ∷ rest) id phone u f =
    elim (bytes_discrete first.digest digest) [
      | yes y ↦
          let q : ◌≡◌ {A = Option (Bytes × PhoneCredential)} (some (k, first)) (some (id, phone)) =
            ground (arith, f, y) in
          let pair = some-injective _ _ q in
          let same : k ≡ id = ap (λ x. x.0) pair in
          let equal : first ≡ phone = ap (λ x. x.1) pair in
          (
            if_pos (bytes_discrete k id) same _ _ ∙ ap some equal,
            ap PhoneCredential.digest (sym equal) ∙ y,
          )
      | no n ↦
          let (g, d) = find_phone_sound digest rest id phone u.1 (ground (arith, f, n)) in
          elim (bytes_discrete k id) [
            | no m ↦ (if_neg (bytes_discrete k id) m _ _ ∙ g, d)
            | yes s ↦ absurd (
                let missing = lookup-Absent bytes_discrete k rest u.0 in
                let there : find k rest ≡ some phone = ap (λ x. find x rest) s ∙ g in ground arith)
          ]
    ]

pub find_phone_complete :
    (digest : Bytes) (phones : List (Bytes × PhoneCredential)) (id : Bytes)
    (phone : PhoneCredential)
    → find id phones ≡ some phone
    → phone.digest ≡ digest
    → (r : Bytes × PhoneCredential) × (find_phone digest phones ≡ some r)
unfolding find_phone lookup
find_phone_complete digest [] id phone f d = absurd (ground arith)
find_phone_complete digest ((k, first) ∷ rest) id phone f d =
    elim (bytes_discrete first.digest digest) [
      | yes y ↦
          let equal : same_digest first.digest digest ≡ true =
            if_pos (bytes_discrete first.digest digest) y _ _ in
          rw equal ((k, first), refl)
      | no n ↦
          let differ : same_digest first.digest digest ≡ false =
            if_neg (bytes_discrete first.digest digest) n _ _ in
          rw differ (
            find_phone_complete digest rest id phone
              (elim (bytes_discrete k id) [
                | no m ↦ ground (arith, f, m)
                | yes s ↦
                    let same : first ≡ phone = ground (arith, f, s) in
                    absurd (n (ap PhoneCredential.digest same ∙ d))
              ])
              d)
    ]

find-insert_other :
    (id j : Bytes) (new b : PhoneCredential) (phones : List (Bytes × PhoneCredential))
    → id ≢ j
    → find j (insert bytes_discrete id new phones) ≡ some b
    → find j phones ≡ some b
find-insert_other id j new b phones n f =
    sym (lookup-insert bytes_discrete id j new phones ∙ if_neg (bytes_discrete id j) n _ _) ∙ f

-- A phone other than the one that is stored does not have its digest.
insert-differs :
    (id i j : Bytes) (new a b : PhoneCredential) (phones : List (Bytes × PhoneCredential))
    → phone_conflict id new.digest phones ≡ false
    → id ≡ i
    → id ≢ j
    → find i (insert bytes_discrete id new phones) ≡ some a
    → find j (insert bytes_discrete id new phones) ≡ some b
    → a.digest ≢ b.digest
insert-differs id i j new a b phones h s n f g e =
    let same : new ≡ a = some-injective _ _ (
      sym (lookup-insert bytes_discrete id i new phones ∙ if_pos (bytes_discrete id i) s _ _)
      ∙ f) in
    n (
      sym (
        phone_conflict-none id new.digest j phones b h (find-insert_other id j new b phones n g)
          (sym e ∙ ap PhoneCredential.digest (sym same))))

pub found_before :
    (id j : Bytes) (b : PhoneCredential) (phones : List (Bytes × PhoneCredential))
    → find j (delete bytes_discrete id phones) ≡ some b
    → find j phones ≡ some b
found_before id j b phones f = ground (arith, lookup-delete bytes_discrete id j phones)

pub insert-IsDistinct :
    (id : Bytes) (new : PhoneCredential) (phones : List (Bytes × PhoneCredential))
    → IsDistinct phones
    → phone_conflict id new.digest phones ≡ false
    → IsDistinct (insert bytes_discrete id new phones)
insert-IsDistinct id new phones w h = record {
  unique = insert-Unique bytes_discrete id new phones w.unique;
  distinct = λ i j a b f g e. elim (bytes_discrete id i) [
    | yes s ↦ elim (bytes_discrete id j) [
      | yes r ↦ sym s ∙ r
      | no r ↦ absurd (insert-differs id i j new a b phones h s r f g e)
    ]
    | no s ↦ elim (bytes_discrete id j) [
      | yes r ↦ absurd (insert-differs id j i new b a phones h r s g f (sym e))
      | no r ↦
          w.distinct i j a b (find-insert_other id i new a phones s f)
            (find-insert_other id j new b phones r g) e
    ]
  ];
}

pub delete-IsDistinct :
    (id : Bytes) (phones : List (Bytes × PhoneCredential))
    → IsDistinct phones
    → IsDistinct (delete bytes_discrete id phones)
delete-IsDistinct id phones w =
    let kept =
      λ (j : Bytes) (b : PhoneCredential) (f : find j (delete bytes_discrete id phones) ≡ some b).
        found_before id j b phones f in
    record {
      unique = delete-Unique bytes_discrete id phones w.unique;
      distinct = λ i j a b f g e. w.distinct i j a b (kept i a f) (kept j b g) e;
    }
