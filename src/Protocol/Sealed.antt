-- ===== src/Protocol/Sealed.antt =====
-- What a frame that passes the relay's check carries (relaycore/protocol/types.go).
use mathlib.Core.Logic.{if_pos}
use nekonest.Prelude.{
  ◌≡◌, true, false, ◌&&◌, Bytes, is_some, ok, inl, inr, arith, Bool-cases, Option, none, some,
  bytes_discrete, is_empty, refl, ◌⊎◌, ◌||◌,
}
use nekonest.Protocol.Version.{str_eq, parse_protocol_version, transport_sealed}
use nekonest.Protocol.Frame.{
  NekoMessage, body_policy, validate_envelope_form, is_current, check_policy,
  validate_frame_for_transport, MessageBodyPolicy, unknown, routing, application, fail_closed_types,
  is_one_of, is_application, check_sealed, is_sealed_fail_closed_routing,
}
use nekonest.Text.{trim_space}

-- What passes all tests but those on the payloads.
record Passed (msg : NekoMessage) (mode : Bytes) : Type 0 where
  one_form : (is_some msg.payload && is_some msg.sealed_payload) ≡ false
  same_mode : str_eq msg.transport_mode mode ≡ true
  current : is_current (parse_protocol_version msg.protocol_version) ≡ true
  checked : check_policy msg mode (body_policy msg.msg_type) ≡ ok tt

passed :
    (msg : NekoMessage) (mode : Bytes)
    → validate_frame_for_transport msg mode ≡ ok tt
    → Passed msg mode
unfolding validate_frame_for_transport validate_envelope_form
passed msg mode h = elim (Bool-cases (is_some msg.payload && is_some msg.sealed_payload)) [
  | inl y ↦ absurd (let q = rw y at h in ground arith)
  | inr n ↦ elim (Bool-cases (str_eq msg.transport_mode mode)) [
    | inr m ↦ absurd (let q = rw (n, m) at h in ground arith)
    | inl y ↦ elim (Bool-cases (is_current (parse_protocol_version msg.protocol_version))) [
      | inr m ↦ absurd (let q = rw (n, y, m) at h in ground arith)
      | inl c ↦ record { one_form = n; same_mode = y; current = c; checked = rw (n, y, c) at h }
    ]
  ]
]

-- What lets an application frame pass in sealed mode without a plain payload.
abbrev pub IsOpaque : NekoMessage → Type 0
IsOpaque msg =
    (msg.payload ≡ none)
    × ((is_some msg.sealed_payload ≡ true)
        ⊎ ((msg.sealed_payload ≡ none)
            × (is_one_of msg.msg_type fail_closed_types ≡ true)
            × (is_empty (trim_space msg.client_msg_id) ≡ false)))

is_some-none : (o : Option Bytes) → is_some o ≡ false → o ≡ none
is_some-none none h = refl
is_some-none (some v) h = absurd (ground arith)

fail_closed : (msg : NekoMessage) → is_sealed_fail_closed_routing msg ≡ true → IsOpaque msg
unfolding is_sealed_fail_closed_routing
fail_closed msg h =
    elim (Bool-cases (
      is_empty (trim_space msg.client_msg_id)
      || is_some msg.payload
      || is_some msg.sealed_payload)) [
        | inl y ↦ absurd (let q = rw y at h in ground arith)
        | inr n ↦
            let named : is_empty (trim_space msg.client_msg_id) ≡ false = ground arith in
            let plain : is_some msg.payload ≡ false = ground arith in
            let sealed : is_some msg.sealed_payload ≡ false = ground arith in
            (
              is_some-none msg.payload plain,
              inr (is_some-none msg.sealed_payload sealed, rw n at h, named),
            )
      ]

application-checked :
    (msg : NekoMessage) (policy : MessageBodyPolicy)
    → check_policy msg transport_sealed policy ≡ ok tt
    → is_application policy ≡ true
    → check_sealed msg policy ≡ ok tt
application-checked msg unknown h a = absurd (ground arith)
application-checked msg routing h a = absurd (ground arith)
application-checked msg application h a =
    rw (if_pos (bytes_discrete transport_sealed transport_sealed) refl) at h

-- A frame of a type that carries application data, and that passes the check of a sealed nest, is marked as sealed
-- and has no plain payload: it has a sealed one, or it has no payload at all and is one of the three reports of
-- failure, with the id of its message.
pub validate_frame_for_transport-sealed :
    (msg : NekoMessage)
    → validate_frame_for_transport msg transport_sealed ≡ ok tt
    → is_application (body_policy msg.msg_type) ≡ true
    → (str_eq msg.transport_mode transport_sealed ≡ true) × IsOpaque msg
validate_frame_for_transport-sealed msg h a =
    let p = passed msg transport_sealed h in
    let c = application-checked msg (body_policy msg.msg_type) p.checked a in
    (
      p.same_mode,
      elim (Bool-cases (is_sealed_fail_closed_routing msg)) [
        | inl y ↦ fail_closed msg y
        | inr n ↦ elim (Bool-cases (is_some msg.sealed_payload)) [
          | inl s ↦
              let plain : is_some msg.payload ≡ false = let o = p.one_form in ground arith in
              (is_some-none msg.payload plain, inl s)
          | inr s ↦ absurd (let q = rw (n, a, s) at c in ground arith)
        ]
      ],
    )
