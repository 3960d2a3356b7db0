-- ===== src/Principals/Examples.antt =====
-- The registry of relaycore/principals.go at small inputs.
use nekonest.Prelude.{
  ◌≡◌, refl, [], ◌∷◌, Bytes, ascii, bytes_discrete, lookup, insert, arith, ok, err,
}
use nekonest.Principals.Registry.{
  Registry, Credential, raw, new_registry, phone_token_invalid, validate_credential,
  credential_digest, sync_phone, revoke_phone, validate_phone_token, phone_conflict, find_phone,
}
use nekonest.Principals.Distinct.{IsDistinct}
use nekonest.Principals.Tokens.{
  calls, syncs_phone, sync_phone-validate, revoke_phone-validate, calls-IsDistinct, call,
}

-- A digest for the examples.
abbrev digest : Bytes → Bytes
digest v = 48 ∷ v

abbrev token : Credential
token = record { kind = raw; value = ascii "t" }

new_registry-IsDistinct : IsDistinct new_registry.phones
unfolding lookup
new_registry-IsDistinct = record { unique = tt; distinct = λ i j a b f g e. absurd (ground arith) }

sync_phone-validate_example :
    validate_phone_token digest
      (sync_phone digest new_registry (ascii "p") (ascii "n") token).0
      (ascii "t")
    ≡ ok (ascii "p", ascii "n")
unfolding sync_phone credential_digest validate_credential phone_conflict
sync_phone-validate_example =
    sync_phone-validate digest new_registry (ascii "p") (ascii "n") (ascii "t") token
      new_registry-IsDistinct refl refl

abbrev one_phone : Registry
one_phone = calls digest new_registry (syncs_phone (ascii "p") (ascii "n") token ∷ [])

calls-IsDistinct_example : IsDistinct one_phone.phones
calls-IsDistinct_example =
    calls-IsDistinct digest new_registry (syncs_phone (ascii "p") (ascii "n") token ∷ [])
      new_registry-IsDistinct

one_phone-IsDistinct : IsDistinct one_phone.phones
one_phone-IsDistinct =
    calls-IsDistinct digest new_registry (syncs_phone (ascii "p") (ascii "n") token ∷ [])
      new_registry-IsDistinct

revoke_phone-validate_example :
    validate_phone_token digest (revoke_phone one_phone (ascii "p")) (ascii "t")
    ≡ err phone_token_invalid
unfolding calls call sync_phone credential_digest validate_credential phone_conflict insert
    validate_phone_token find_phone bytes_discrete
revoke_phone-validate_example =
    revoke_phone-validate digest one_phone (ascii "p") (ascii "n") (ascii "t") one_phone-IsDistinct
      refl
