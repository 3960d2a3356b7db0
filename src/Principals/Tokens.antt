-- ===== src/Principals/Tokens.antt =====
-- Whom a token authenticates (relaycore/principals.go).
use mathlib.Core.Option.{some-injective}
use nekonest.Prelude.{
  ◌≡◌, refl, sym, ap, ◌∙◌, false, List, [], ◌∷◌, none, some, Bytes, bytes_discrete, arith, insert,
  delete, lookup-insert_self, lookup-delete_self, inl, inr, Bool-cases, Option-cases, Result-cases,
  is_empty, ok, err, Result,
}
use nekonest.Principals.Registry.{
  Error, phone_token_invalid, PhoneCredential, Registry, Credential, phone_conflict, find_phone,
  revoke_phone, sync_phone, credential_digest, validate_phone_token, revoke_device, sync_device,
  device_conflict,
}
use nekonest.Principals.Distinct.{
  find, IsDistinct, find_phone_sound, find_phone_complete, insert-IsDistinct, delete-IsDistinct,
  found_before,
}

module _ (digest : Bytes → Bytes) where
  -- A registry in which a phone is stored authenticates its token as that phone.
  validate-stored :
      (r : Registry) (token id : Bytes) (phone : PhoneCredential)
      → IsDistinct r.phones
      → find id r.phones ≡ some phone
      → phone.digest ≡ digest token
      → validate_phone_token digest r token ≡ ok (id, phone.name)
  unfolding validate_phone_token
  validate-stored r token id phone w f d =
      let ((id', phone'), g) = find_phone_complete (digest token) r.phones id phone f d in
      let (f', d') = find_phone_sound (digest token) r.phones id' phone' w.unique g in
      let same = w.distinct id' id phone' phone f' f (d' ∙ sym d) in
      let equal : phone' ≡ phone =
        some-injective _ _ (sym f' ∙ ap (λ x. find x r.phones) same ∙ f) in
      rw g (ap (λ x. ok (x, phone'.name)) same ∙ ap (λ x. ok (id, PhoneCredential.name x)) equal)

  validate-found :
      (r : Registry) (token id name : Bytes)
      → IsDistinct r.phones
      → validate_phone_token digest r token ≡ ok (id, name)
      → (phone : PhoneCredential) × (find id r.phones ≡ some phone) × (phone.digest ≡ digest token)
  unfolding validate_phone_token
  validate-found r token id name w h = elim (Option-cases (find_phone (digest token) r.phones)) [
    | inl e ↦ absurd (let q = rw e at h in ground arith)
    | inr ((id', phone), e) ↦
        let (f, d) = find_phone_sound (digest token) r.phones id' phone w.unique e in
        let q : ◌≡◌ {A = Result Error (Bytes × Bytes)} (ok (id', phone.name)) (ok (id, name)) =
          rw e at h in
        let same : id' ≡ id = ground arith in (phone, ap (λ x. find x r.phones) (sym same) ∙ f, d)
  ]

  sync_phone-cases :
      (r : Registry) (id name d : Bytes) (credential : Credential)
      → credential_digest digest credential ≡ ok d
      → (sync_phone digest r id name credential).1 ≡ ok tt
      → let new : PhoneCredential = record { digest = d; name = name } in
        (phone_conflict id d r.phones ≡ false)
        × ((sync_phone digest r id name credential).0
            ≡ record r { phones = insert bytes_discrete id new r.phones })
  unfolding sync_phone
  sync_phone-cases r id name d credential c h = elim (Bool-cases (is_empty id)) [
    | inl y ↦ absurd (let q = rw y at h in ground arith)
    | inr n ↦ elim (Bool-cases (phone_conflict id d r.phones)) [
      | inl y ↦ absurd (let q = rw (n, c, y) at h in ground arith)
      | inr m ↦ (m, rw (n, c, m) refl)
    ]
  ]

  -- Once a phone's credential is stored, by its token or by the digest of it, the token authenticates
  -- this phone and no other, in whatever order the map is searched.
  pub sync_phone-validate :
      (r : Registry) (id name token : Bytes) (credential : Credential)
      → IsDistinct r.phones
      → credential_digest digest credential ≡ ok (digest token)
      → (sync_phone digest r id name credential).1 ≡ ok tt
      → validate_phone_token digest (sync_phone digest r id name credential).0 token ≡ ok (id, name)
  sync_phone-validate r id name token credential w c h =
      let new : PhoneCredential = record { digest = digest token; name = name } in
      let (free, after) = sync_phone-cases r id name (digest token) credential c h in
      let stored : Registry = record r { phones = insert bytes_discrete id new r.phones } in
      rw after (
        validate-stored stored token id new (insert-IsDistinct id new r.phones w free)
          (lookup-insert_self bytes_discrete id new r.phones) refl)

  -- A token that authenticated a phone authenticates nobody once the phone is revoked.
  pub revoke_phone-validate :
      (r : Registry) (id name token : Bytes)
      → IsDistinct r.phones
      → validate_phone_token digest r token ≡ ok (id, name)
      → validate_phone_token digest (revoke_phone r id) token ≡ err phone_token_invalid
  unfolding validate_phone_token revoke_phone
  revoke_phone-validate r id name token w h =
      let less = delete bytes_discrete id r.phones in
      let (phone, f, d) = validate-found r token id name w h in
      elim (Option-cases (find_phone (digest token) less)) [
        | inl e ↦ rw e refl
        | inr ((id', phone'), e) ↦
            let v = delete-IsDistinct id r.phones w in
            let (f', d') = find_phone_sound (digest token) less id' phone' v.unique e in
            let before = found_before id id' phone' r.phones f' in
            let same = w.distinct id id' phone phone' f before (d ∙ sym d') in
            let gone : find id' less ≡ none =
              ap (λ x. find x less) (sym same) ∙ lookup-delete_self bytes_discrete id r.phones in
            absurd (ground arith)
      ]

  pub data Call : Type 0 where
    syncs_phone : Bytes → Bytes → Credential → Call
    syncs_device : Bytes → Credential → Call
    revokes_phone revokes_device : Bytes → Call

  unfoldable pub call : Registry → Call → Registry
  call r (syncs_phone id name credential) = (sync_phone digest r id name credential).0
  call r (syncs_device id credential) = (sync_device digest r id credential).0
  call r (revokes_phone id) = revoke_phone r id
  call r (revokes_device id) = revoke_device r id

  unfoldable pub calls : Registry → List Call → Registry
  calls r [] = r
  calls r (c ∷ rest) = calls (call r c) rest

  sync_phone-IsDistinct :
      (r : Registry) (id name : Bytes) (credential : Credential)
      → IsDistinct r.phones
      → IsDistinct (sync_phone digest r id name credential).0.phones
  unfolding sync_phone
  sync_phone-IsDistinct r id name credential w = elim (Bool-cases (is_empty id)) [
    | inl y ↦ rw y w
    | inr n ↦ elim (Result-cases (credential_digest digest credential)) [
      | inr (e, c) ↦ rw (n, c) w
      | inl (d, c) ↦ elim (Bool-cases (phone_conflict id d r.phones)) [
        | inl y ↦ rw (n, c, y) w
        | inr m ↦
            rw (n, c, m) (insert-IsDistinct id (record { digest = d; name = name }) r.phones w m)
      ]
    ]
  ]

  sync_device-phones :
      (r : Registry) (id : Bytes) (credential : Credential)
      → (sync_device digest r id credential).0.phones ≡ r.phones
  unfolding sync_device
  sync_device-phones r id credential = elim (Bool-cases (is_empty id)) [
    | inl y ↦ rw y refl
    | inr n ↦ elim (Result-cases (credential_digest digest credential)) [
      | inr (e, c) ↦ rw (n, c) refl
      | inl (d, c) ↦ elim (Bool-cases (device_conflict id d r.devices)) [
        | inl y ↦ rw (n, c, y) refl
        | inr m ↦ rw (n, c, m) refl
      ]
    ]
  ]

  call-IsDistinct : (r : Registry) (c : Call) → IsDistinct r.phones → IsDistinct (call r c).phones
  unfolding call revoke_phone revoke_device
  call-IsDistinct r (syncs_phone id name credential) w =
      sync_phone-IsDistinct r id name credential w
  call-IsDistinct r (syncs_device id credential) w = rw (sync_device-phones r id credential) w
  call-IsDistinct r (revokes_phone id) w = delete-IsDistinct id r.phones w
  call-IsDistinct r (revokes_device id) w = w

  -- After any calls no id of a phone stands twice and no two phones have one digest, if that holds before.
  pub calls-IsDistinct :
      (r : Registry) (cs : List Call) → IsDistinct r.phones → IsDistinct (calls r cs).phones
  unfolding calls
  calls-IsDistinct r [] w = w
  calls-IsDistinct r (c ∷ rest) w = calls-IsDistinct (call r c) rest (call-IsDistinct r c w)
