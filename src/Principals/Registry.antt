-- ===== src/Principals/Registry.antt =====
-- DigestPrincipalRegistry of relaycore/principals.go, and validateCredential of relaycore/engine.go. The hex
-- digest of a credential is a parameter; each operation is one step under the registry's mutex.
use nekonest.Prelude.{
  ℕ, Bool, true, false, not, ◌&&◌, ◌||◌, List, [], ◌∷◌, Option, none, some, Bytes, bytes_discrete,
  ite, length, leb, ◌==◌, is_empty, if◌then◌else◌, lookup, insert, delete, Result, ok, err,
}

pub data Error : Type 0 where
  id_required credential_required invalid_credential credential_identity_conflict : Error
  phone_token_invalid : Error

-- CredentialKind; a kind that is neither is `other_kind`.
pub data CredentialKind : Type 0 where
  raw sha256 other_kind : CredentialKind

pub record Credential : Type 0 where
  pub kind : CredentialKind
  pub value : Bytes

-- phoneCredential.
pub record PhoneCredential : Type 0 where
  pub digest : Bytes
  pub name : Bytes

pub record Registry : Type 0 where
  pub devices : List (Bytes × Bytes)
  pub phones : List (Bytes × PhoneCredential)

abbrev pub new_registry : Registry
new_registry = record { devices = []; phones = [] }

-- constantDigestEqual.
abbrev pub same_digest : Bytes → Bytes → Bool
same_digest a b = ite (bytes_discrete a b) true false

abbrev pub is_hex : ℕ → Bool
is_hex c = leb 48 c && leb c 57 || leb 97 c && leb c 102

unfoldable pub all_hex : Bytes → Bool
all_hex [] = true
all_hex (c ∷ rest) = is_hex c && all_hex rest

abbrev pub valid_kind : CredentialKind → Bytes → Result Error (Unit {0})
valid_kind raw value = ok tt
valid_kind other_kind value = err invalid_credential
valid_kind sha256 value =
    if not (length value == 64)
    then err invalid_credential
    else if all_hex value
    then ok tt
    else err invalid_credential

unfoldable pub validate_credential : Credential → Result Error (Unit {0})
validate_credential credential =
    if is_empty credential.value
    then err credential_required
    else valid_kind credential.kind credential.value

-- The loop of SyncDevice over the map: another identity has the digest.
unfoldable pub device_conflict : Bytes → Bytes → List (Bytes × Bytes) → Bool
device_conflict id digest [] = false
device_conflict id digest ((existing, other) ∷ rest) =
    not (same_digest existing id) && same_digest other digest || device_conflict id digest rest

-- The loop of SyncPhone.
unfoldable pub phone_conflict : Bytes → Bytes → List (Bytes × PhoneCredential) → Bool
phone_conflict id digest [] = false
phone_conflict id digest ((existing, other) ∷ rest) =
    not (same_digest existing id) && same_digest other.digest digest
    || phone_conflict id digest rest

-- The loop of ValidatePhoneToken.
unfoldable pub find_phone :
    Bytes → List (Bytes × PhoneCredential) → Option (Bytes × PhoneCredential)
find_phone digest [] = none
find_phone digest ((id, phone) ∷ rest) =
    let more = find_phone digest rest in
    if same_digest phone.digest digest then some (id, phone) else more

abbrev pub store_device : Registry → Bytes → Result Error Bytes → Registry × Result Error (Unit {0})
store_device r id (err e) = (r, err e)
store_device r id (ok digest) =
    if device_conflict id digest r.devices
    then (r, err credential_identity_conflict)
    else (record r { devices = insert bytes_discrete id digest r.devices }, ok tt)

abbrev pub store_phone :
    Registry → Bytes → Bytes → Result Error Bytes → Registry × Result Error (Unit {0})
store_phone r id name (err e) = (r, err e)
store_phone r id name (ok digest) =
    if phone_conflict id digest r.phones then (r, err credential_identity_conflict) else (
      record r {
        phones = insert bytes_discrete id (record { digest = digest; name = name }) r.phones;
      },
      ok tt,
    )

unfoldable pub revoke_device : Registry → Bytes → Registry
revoke_device r id = record r { devices = delete bytes_discrete id r.devices }

unfoldable pub revoke_phone : Registry → Bytes → Registry
revoke_phone r id = record r { phones = delete bytes_discrete id r.phones }

abbrev pub authenticated : Option (Bytes × PhoneCredential) → Result Error (Bytes × Bytes)
authenticated none = err phone_token_invalid
authenticated (some (id, phone)) = ok (id, phone.name)

module _ (raw_credential_digest : Bytes → Bytes) where
  abbrev pub kind_digest : CredentialKind → Bytes → Bytes
  kind_digest raw value = raw_credential_digest value
  kind_digest sha256 value = value
  kind_digest other_kind value = value

  abbrev pub checked_digest : Credential → Result Error (Unit {0}) → Result Error Bytes
  checked_digest credential (err e) = err e
  checked_digest credential (ok _) = ok (kind_digest credential.kind credential.value)

  unfoldable pub credential_digest : Credential → Result Error Bytes
  credential_digest credential = checked_digest credential (validate_credential credential)

  unfoldable pub sync_device : Registry → Bytes → Credential → Registry × Result Error (Unit {0})
  sync_device r id credential =
      if is_empty id then (r, err id_required) else store_device r id (credential_digest credential)

  unfoldable pub sync_phone :
      Registry → Bytes → Bytes → Credential → Registry × Result Error (Unit {0})
  sync_phone r id name credential =
      if is_empty id
      then (r, err id_required)
      else store_phone r id name (credential_digest credential)

  unfoldable pub validate_device_token : Registry → Bytes → Bytes → Bool
  validate_device_token r id token = elim (lookup bytes_discrete id r.devices) [
    | none ↦ false
    | some digest ↦ same_digest digest (raw_credential_digest token)
  ]

  unfoldable pub validate_phone_token : Registry → Bytes → Result Error (Bytes × Bytes)
  validate_phone_token r token = authenticated (find_phone (raw_credential_digest token) r.phones)
