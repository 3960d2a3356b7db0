-- ===== src/Protocol/Handshake.antt =====
-- What a successful handshake agrees on (relaycore/protocol/types.go, daemon/internal/wire/version.go).
use mathlib.Core.Logic.{if_pos, if_neg}
use nekonest.Prelude.{
  ℕ, zero, suc, ◌^◌, ◌≤◌, ◌<◌, ◌≡◌, refl, sym, ap, ◌∙◌, true, not, ◌||◌, List, [], ◌∷◌, Bytes,
  bytes_discrete, ℤ, pos, negsuc, arith, ok, is_empty, Option, none, some, inl, inr, Bool-cases,
  Result-cases, ltb, ltb_ℤ, if◌then◌else◌, ◌==◌,
}
use nekonest.Text.{trim_space}
use nekonest.Protocol.Digits.{atoi, itoa, non_negative, negated, unsigned, atoi-itoa}
use nekonest.Protocol.Version.{
  VersionParts, current_protocol_minor, split_dots, parse_protocol_version, format_protocol_version,
  parse_parts, with_major, with_minor, str_eq, agree, negotiate_protocol_version, transport_sealed,
  parse_transport_mode, matched, negotiate_handshake, validate_negotiated_version, is_int,
  canonical,
}
use nekonest.Protocol.RoundTrip.{parse_protocol_version-format, split_dots-format, not_negative}

non_negative_small : (o : Option ℕ) (n : ℕ) → non_negative o ≡ some (pos n) → n < 2 ^ 63
non_negative_small none n h = absurd (ground arith)
non_negative_small (some k) n h = ground arith

negated_small : (o : Option ℕ) (n : ℕ) → negated o ≡ some (pos n) → n < 2 ^ 63
negated_small none n h = absurd (ground arith)
negated_small (some zero) n h = ground arith
negated_small (some (suc k)) n h = absurd (ground arith)

atoi_small : (v : Bytes) (n : ℕ) → atoi v ≡ some (pos n) → n < 2 ^ 63
unfolding atoi
atoi_small [] n h = absurd (ground arith)
atoi_small (c ∷ rest) n h = elim (Bool-cases (c == 45)) [
  | inl y ↦ negated_small (unsigned rest) n (rw y at h)
  | inr m ↦ elim (Bool-cases (c == 43)) [
    | inl y ↦ non_negative_small (unsigned rest) n (rw (m, y) at h)
    | inr k ↦ non_negative_small (unsigned (c ∷ rest)) n (rw (m, k) at h)
  ]
]

-- A version that was read is two numbers that fit into an int.
abbrev IsVersion : VersionParts → Type 0
IsVersion p =
    (a : ℕ) × (b : ℕ) × (p ≡ record { major = pos a; minor = pos b }) × (a < 2 ^ 63) × (b < 2 ^ 63)

canonical-ok :
    (a b : Bytes) (major minor : ℤ) {p : VersionParts}
    → canonical a b major minor ≡ ok p
    → p ≡ record { major = major; minor = minor }
canonical-ok a b major minor h =
    elim (Bool-cases (not (str_eq a (itoa major)) || not (str_eq b (itoa minor)))) [
      | inl y ↦ absurd (let q = rw y at h in ground arith)
      | inr n ↦ let q = rw n at h in ground arith
    ]

with_minor-ok :
    (a b : Bytes) (major : ℕ) (o : Option ℤ) {p : VersionParts}
    → major < 2 ^ 63
    → ((n : ℕ) → o ≡ some (pos n) → n < 2 ^ 63)
    → with_minor a b (pos major) o ≡ ok p
    → IsVersion p
with_minor-ok a b major none small fits h = absurd (ground arith)
with_minor-ok a b major (some (negsuc n)) small fits h = absurd (ground arith)
with_minor-ok a b major (some (pos n)) small fits h =
    (major, n, canonical-ok a b (pos major) (pos n) (rw (not_negative n) at h), small, fits n refl)

with_major-ok :
    (a b : Bytes) (o : Option ℤ) {p : VersionParts}
    → ((n : ℕ) → o ≡ some (pos n) → n < 2 ^ 63)
    → with_major a b o ≡ ok p
    → IsVersion p
with_major-ok a b none fits h = absurd (ground arith)
with_major-ok a b (some (negsuc n)) fits h = absurd (ground arith)
with_major-ok a b (some (pos n)) fits h =
    with_minor-ok a b n (atoi b) (fits n refl) (atoi_small b) (rw (not_negative n) at h)

parse_parts-ok : (l : List Bytes) {p : VersionParts} → parse_parts l ≡ ok p → IsVersion p
parse_parts-ok [] h = absurd (ground arith)
parse_parts-ok (a ∷ []) h = absurd (ground arith)
parse_parts-ok (a ∷ b ∷ []) h = with_major-ok a b (atoi a) (atoi_small a) h
parse_parts-ok (a ∷ b ∷ c ∷ rest) h = absurd (ground arith)

parse_protocol_version-ok :
    (v : Bytes) {p : VersionParts} → parse_protocol_version v ≡ ok p → IsVersion p
unfolding parse_protocol_version
parse_protocol_version-ok v h = elim (Bool-cases (is_empty (trim_space v))) [
  | inl y ↦ absurd (let q = rw y at h in ground arith)
  | inr n ↦ parse_parts-ok (split_dots (trim_space v)) (rw n at h)
]

abbrev pub min : ℕ → ℕ → ℕ
min a b = if ltb a b then a else b

is_int-pos : (a b : ℕ) → is_int (pos a) (pos b) ≡ true → a ≡ b
is_int-pos a b h = ground arith

lower-pos : (a b : ℕ) → (if ltb_ℤ (pos a) (pos b) then pos a else pos b) ≡ pos (min a b)
lower-pos a b = ground arith

agree-ok :
    (a b server : ℕ) {version : Bytes}
    → agree (pos 1) (pos server) (ok (record { major = pos a; minor = pos b })) ≡ ok version
    → (a ≡ 1) × (version ≡ format_protocol_version (pos 1) (pos (min server b)))
agree-ok a b server {version} h = elim (Bool-cases (is_int (pos a) (pos 1))) [
  | inr n ↦ absurd (let q = rw n at h in ground arith)
  | inl y ↦
      let q : format_protocol_version (pos 1)
            (if ltb_ℤ (pos server) (pos b) then pos server else pos b)
          ≡ version =
        let r = rw y at h in ground arith in
      (is_int-pos a 1 y, sym q ∙ ap (format_protocol_version (pos 1)) (lower-pos server b))
]

negotiate_protocol_version-ok :
    (client : Bytes) (server : ℕ) {version : Bytes}
    → negotiate_protocol_version client (pos 1) (pos server) ≡ ok version
    → (minor : ℕ) × (minor < 2 ^ 63)
      × (parse_protocol_version client ≡ ok (record { major = pos 1; minor = pos minor }))
      × (version ≡ format_protocol_version (pos 1) (pos (min server minor)))
unfolding negotiate_protocol_version
negotiate_protocol_version-ok client server h =
    elim (Result-cases (parse_protocol_version client)) [
      | inr (e, f) ↦ absurd (let q = rw f at h in ground arith)
      | inl (p, f) ↦
          let (a, b, same, small, small') = parse_protocol_version-ok client f in
          let (one, v) = agree-ok a b server (rw (f, same) at h) in
          (b, small', rw f (ap ok (same ∙ rw one refl)), v)
    ]

-- Whoever speaks a version that the server's version is no older than speaks the negotiated one.
validate_negotiated_version-format :
    (minor : ℕ)
    → minor ≤ current_protocol_minor
    → validate_negotiated_version (format_protocol_version (pos 1) (pos minor)) ≡ ok tt
unfolding validate_negotiated_version
validate_negotiated_version-format minor h =
    rw (split_dots-format 1 minor, atoi-itoa 1 (omega arith), atoi-itoa minor (omega arith))
      (ground arith)

matched-ok :
    (client mode nest : Bytes) (server : ℕ) {version agreed : Bytes}
    → matched client nest (pos server) (ok mode) ≡ ok (version, agreed)
    → (agreed ≡ mode)
      × (agreed ≡ nest)
      × (negotiate_protocol_version client (pos 1) (pos server) ≡ ok version)
matched-ok client mode nest server {version} {agreed} h = elim (bytes_discrete mode nest) [
  | no n ↦ absurd (let q = rw (if_neg (bytes_discrete mode nest) n) at h in ground arith)
  | yes y ↦ elim (Result-cases (negotiate_protocol_version client (pos 1) (pos server))) [
    | inr (e, f) ↦ absurd (let q = rw (if_pos (bytes_discrete mode nest) y, f) at h in ground arith)
    | inl (v, f) ↦
        let q : ok (v, mode) ≡ ok (version, agreed) =
          rw (if_pos (bytes_discrete mode nest) y, f) at h in
        let same : agreed ≡ mode = ground arith in
        let version_same : v ≡ version = ground arith in (same, same ∙ y, f ∙ ap ok version_same)
  ]
]

-- A handshake that succeeds, for a server whose minor version is at most the daemon's, 3: both sides have the
-- nest's transport mode; the client's major version is 1; the negotiated version is read as 1 and the lower of
-- the two minor versions; and the daemon accepts it.
pub negotiate_handshake-agrees :
    (client mode nest : Bytes) (server : ℕ) {version agreed : Bytes}
    → server ≤ current_protocol_minor
    → negotiate_handshake client mode nest (pos server) ≡ ok (version, agreed)
    → (parse_transport_mode mode ≡ ok agreed)
      × (agreed ≡ (if is_empty nest then transport_sealed else nest))
      × (validate_negotiated_version version ≡ ok tt)
      × ((minor : ℕ) × (parse_protocol_version client
            ≡ ok (record { major = pos 1; minor = pos minor }))
          × (parse_protocol_version version
              ≡ ok (record { major = pos 1; minor = pos (min server minor) })))
unfolding negotiate_handshake
negotiate_handshake-agrees client mode nest server {version} {agreed} small h =
    elim (Result-cases (parse_transport_mode mode)) [
      | inr (e, f) ↦ absurd (let q = rw f at h in ground arith)
      | inl (m, f) ↦
          let (same, nested, n) =
            matched-ok client m (if is_empty nest then transport_sealed else nest) server
              (rw f at h) in
          let (minor, fits, p, v) = negotiate_protocol_version-ok client server n in
          let low : min server minor ≤ current_protocol_minor = ground arith in
          (
            f ∙ ap ok (sym same),
            nested,
            ap validate_negotiated_version v
                ∙ validate_negotiated_version-format (min server minor) low,
            (
              minor,
              p,
              ap parse_protocol_version v
                  ∙ parse_protocol_version-format 1 (min server minor) (omega arith)
                      (omega (arith, low)),
            ),
          )
    ]
