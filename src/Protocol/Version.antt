-- ===== src/Protocol/Version.antt =====
-- Protocol versions: ParseProtocolVersion, FormatProtocolVersion, NegotiateProtocolVersion and
-- NegotiateHandshake of relaycore/protocol/types.go, and ValidateNegotiatedVersion of
-- daemon/internal/wire/version.go.
use nekonest.Prelude.{
  ℕ, Bool, true, false, not, ◌&&◌, ◌||◌, List, [], ◌∷◌, ◌++◌, Option, none, some, Bytes, ascii,
  bytes_discrete, ite, ℤ, pos, ltb_ℤ, ◌==◌, is_empty, if◌then◌else◌, Result, ok, err,
}
use nekonest.Text.{trim_space}
use nekonest.Protocol.Digits.{atoi, itoa}

pub data Error : Type 0 where
  version_required not_major_minor invalid_major invalid_minor invalid_format version_mismatch :
      Error
  transport_mode_required invalid_transport_mode transport_mode_mismatch invalid_envelope : Error
  unsupported_version : Error

-- VersionParts.
pub record VersionParts : Type 0 where
  pub major : ℤ
  pub minor : ℤ

abbrev pub current_protocol_major : ℕ
current_protocol_major = 1

abbrev pub current_protocol_minor : ℕ
current_protocol_minor = 3

abbrev pub str_eq : Bytes → Bytes → Bool
str_eq a b = ite (bytes_discrete a b) true false

abbrev pub add_to_first : ℕ → List Bytes → List Bytes
add_to_first c [] = (c ∷ []) ∷ []
add_to_first c (part ∷ parts) = (c ∷ part) ∷ parts

-- `strings.Split(v, ".")`.
unfoldable pub split_dots : Bytes → List Bytes
split_dots [] = [] ∷ []
split_dots (c ∷ rest) =
    let parts = split_dots rest in if c == 46 then [] ∷ parts else add_to_first c parts

abbrev pub canonical : Bytes → Bytes → ℤ → ℤ → Result Error VersionParts
canonical a b major minor =
    if not (str_eq a (itoa major)) || not (str_eq b (itoa minor))
    then err invalid_format
    else ok (record { major = major; minor = minor })

abbrev pub with_minor : Bytes → Bytes → ℤ → Option ℤ → Result Error VersionParts
with_minor a b major none = err invalid_minor
with_minor a b major (some minor) =
    if ltb_ℤ minor (pos 0) then err invalid_minor else canonical a b major minor

abbrev pub with_major : Bytes → Bytes → Option ℤ → Result Error VersionParts
with_major a b none = err invalid_major
with_major a b (some major) =
    if ltb_ℤ major (pos 0) then err invalid_major else with_minor a b major (atoi b)

abbrev pub parse_parts : List Bytes → Result Error VersionParts
parse_parts [] = err not_major_minor
parse_parts (a ∷ []) = err not_major_minor
parse_parts (a ∷ b ∷ []) = with_major a b (atoi a)
parse_parts (a ∷ b ∷ c ∷ rest) = err not_major_minor

unfoldable pub parse_protocol_version : Bytes → Result Error VersionParts
parse_protocol_version v =
    if is_empty (trim_space v)
    then err version_required
    else parse_parts (split_dots (trim_space v))

-- FormatProtocolVersion.
unfoldable pub format_protocol_version : ℤ → ℤ → Bytes
format_protocol_version major minor = itoa major ++ (46 ∷ itoa minor)

abbrev pub is_int : ℤ → ℤ → Bool
is_int a b = not (ltb_ℤ a b) && not (ltb_ℤ b a)

abbrev pub agree : ℤ → ℤ → Result Error VersionParts → Result Error Bytes
agree server_major server_minor (err e) = err e
agree server_major server_minor (ok client) =
    if not (is_int client.major server_major)
    then err version_mismatch
    else ok (
        format_protocol_version server_major
          (if ltb_ℤ server_minor client.minor then server_minor else client.minor))

-- NegotiateProtocolVersion.
unfoldable pub negotiate_protocol_version : Bytes → ℤ → ℤ → Result Error Bytes
negotiate_protocol_version client_version server_major server_minor =
    agree server_major server_minor (parse_protocol_version client_version)

abbrev pub transport_sealed : Bytes
transport_sealed = ascii "sealed"

abbrev pub transport_open : Bytes
transport_open = ascii "open"

-- ParseTransportMode.
unfoldable pub parse_transport_mode : Bytes → Result Error Bytes
parse_transport_mode raw =
    let mode = trim_space raw in
    if str_eq mode transport_sealed
    then ok transport_sealed
    else if str_eq mode transport_open
    then ok transport_open
    else if is_empty mode
    then err transport_mode_required
    else err invalid_transport_mode

-- HandshakeResult, less its messages: the error's code, or the version and the mode.
abbrev pub versioned : Bytes → Result Error Bytes → Result Error (Bytes × Bytes)
versioned mode (err e) = err version_mismatch
versioned mode (ok version) = ok (version, mode)

abbrev pub matched : Bytes → Bytes → ℤ → Result Error Bytes → Result Error (Bytes × Bytes)
matched client_version nest_mode server_minor (err e) = err transport_mode_mismatch
matched client_version nest_mode server_minor (ok mode) =
    if not (str_eq mode nest_mode)
    then err transport_mode_mismatch
    else versioned mode
        (negotiate_protocol_version client_version (pos current_protocol_major) server_minor)

-- NegotiateHandshake.
unfoldable pub negotiate_handshake : Bytes → Bytes → Bytes → ℤ → Result Error (Bytes × Bytes)
negotiate_handshake client_version client_mode nest_mode server_minor =
    matched client_version (if is_empty nest_mode then transport_sealed else nest_mode) server_minor
      (parse_transport_mode client_mode)

abbrev pub supported : ℤ → Option ℤ → Result Error (Unit {0})
supported major none = err invalid_minor
supported major (some minor) =
    if ltb_ℤ minor (pos 0)
    then err invalid_minor
    else if not (is_int major (pos current_protocol_major))
        || ltb_ℤ (pos current_protocol_minor) minor
    then err unsupported_version
    else ok tt

abbrev pub supported_major : Option ℤ → Bytes → Result Error (Unit {0})
supported_major none b = err invalid_major
supported_major (some major) b = supported major (atoi b)

abbrev pub supported_parts : List Bytes → Result Error (Unit {0})
supported_parts [] = err not_major_minor
supported_parts (a ∷ []) = err not_major_minor
supported_parts (a ∷ b ∷ []) = supported_major (atoi a) b
supported_parts (a ∷ b ∷ c ∷ rest) = err not_major_minor

-- ValidateNegotiatedVersion of the daemon.
unfoldable pub validate_negotiated_version : Bytes → Result Error (Unit {0})
validate_negotiated_version value = supported_parts (split_dots value)
