-- ===== src/Protocol/Examples.antt =====
-- The protocol's checks at small inputs (relaycore/protocol/types.go).
use nekonest.Prelude.{
  ℕ, ◌≡◌, refl, true, [], ◌∷◌, none, some, ascii, bytes_discrete, pos, arith, ok,
}
use nekonest.Text.{trim_space}
use nekonest.Protocol.Digits.{atoi, itoa, digits, digits_value}
use nekonest.Protocol.Version.{
  parse_protocol_version, format_protocol_version, negotiate_protocol_version, parse_transport_mode,
  negotiate_handshake, validate_negotiated_version, split_dots, transport_sealed, str_eq,
}
use nekonest.Protocol.RoundTrip.{parse_protocol_version-format}
use nekonest.Protocol.Handshake.{negotiate_handshake-agrees, min}
use nekonest.Protocol.Frame.{
  NekoMessage, validate_envelope_form, validate_frame_for_transport, is_one_of, body_policy,
  is_sealed_fail_closed_routing,
}
use nekonest.Protocol.Sealed.{IsOpaque, validate_frame_for_transport-sealed}

parse_protocol_version-format_example :
    parse_protocol_version (ascii "1.30") ≡ ok (record { major = pos 1; minor = pos 30 })
unfolding format_protocol_version itoa digits
parse_protocol_version-format_example =
    parse_protocol_version-format 1 30 (omega arith) (omega arith)

negotiate_handshake-agrees_example :
    (parse_transport_mode (ascii "sealed") ≡ ok transport_sealed)
    × (transport_sealed ≡ transport_sealed)
    × (validate_negotiated_version (ascii "1.3") ≡ ok tt)
    × ((minor : ℕ) × (parse_protocol_version (ascii "1.4")
          ≡ ok (record { major = pos 1; minor = pos minor }))
        × (parse_protocol_version (ascii "1.3")
            ≡ ok (record { major = pos 1; minor = pos (min 3 minor) })))
unfolding negotiate_handshake negotiate_protocol_version parse_protocol_version parse_transport_mode
    trim_space split_dots atoi itoa digits digits_value format_protocol_version bytes_discrete
negotiate_handshake-agrees_example =
    negotiate_handshake-agrees (ascii "1.4") (ascii "sealed") [] 3 (omega arith) refl

abbrev prompt_frame : NekoMessage
prompt_frame = record {
  protocol_version = ascii "1.3";
  transport_mode = transport_sealed;
  msg_type = ascii "send_prompt";
  device_id = ascii "d";
  session_id = ascii "s";
  client_msg_id = ascii "m";
  outcome = [];
  retry_allowed = none;
  timestamp = pos 1;
  payload = none;
  sealed_payload = some (1 ∷ []);
}

validate_frame_for_transport-sealed_example :
    (str_eq transport_sealed transport_sealed ≡ true) × IsOpaque prompt_frame
unfolding validate_frame_for_transport validate_envelope_form is_one_of body_policy
    is_sealed_fail_closed_routing parse_protocol_version trim_space split_dots atoi itoa digits
    digits_value bytes_discrete
validate_frame_for_transport-sealed_example =
    validate_frame_for_transport-sealed prompt_frame refl refl
