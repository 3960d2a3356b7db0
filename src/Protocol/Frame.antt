-- ===== src/Protocol/Frame.antt =====
-- The envelope of all messages and its checks: relaycore/protocol/types.go.
use nekonest.Prelude.{
  Bool, true, false, not, ◌&&◌, ◌||◌, List, [], ◌∷◌, Option, Bytes, ascii, ℤ, pos, is_some,
  if◌then◌else◌, Result, ok, err, is_empty,
}
use nekonest.Text.{trim_space}
use nekonest.Protocol.Version.{
  Error, version_mismatch, transport_mode_mismatch, invalid_envelope, VersionParts,
  parse_protocol_version, str_eq, is_int, transport_sealed, transport_open, current_protocol_major,
}

-- NekoMessage; a payload and a sealed payload are what the relay does not look into, or nil.
pub record NekoMessage : Type 0 where
  pub protocol_version : Bytes
  pub transport_mode : Bytes
  pub msg_type : Bytes
  pub device_id : Bytes
  pub session_id : Bytes
  pub client_msg_id : Bytes
  pub outcome : Bytes
  pub retry_allowed : Option Bool
  pub timestamp : ℤ
  pub payload : Option Bytes
  pub sealed_payload : Option Bytes

-- MessageBodyPolicy.
pub data MessageBodyPolicy : Type 0 where
  unknown routing application : MessageBodyPolicy

abbrev pub routing_types : List Bytes
routing_types =
    ascii "device_online"
    ∷ ascii "device_offline"
    ∷ ascii "device_list"
    ∷ ascii "refresh_sessions"
    ∷ ascii "prompt_status_query"
    ∷ ascii "prompt_not_seen"
    ∷ ascii "prompt_committed"
    ∷ ascii "heartbeat"
    ∷ ascii "error"
    ∷ ascii "register_device"
    ∷ ascii "auth_response"
    ∷ ascii "pair_request"
    ∷ ascii "pair_confirm"
    ∷ ascii "pair_ready"
    ∷ ascii "pair_failed"
    ∷ ascii "key_package"
    ∷ ascii "phone_revoked"
    ∷ ascii "attention_event"
    ∷ ascii "subscribe"
    ∷ ascii "subscribe_ack"
    ∷ []

abbrev pub application_types : List Bytes
application_types =
    ascii "session_list"
    ∷ ascii "session_update"
    ∷ ascii "session_message"
    ∷ ascii "send_prompt"
    ∷ ascii "prompt_queued"
    ∷ ascii "prompt_accepted"
    ∷ ascii "prompt_failed"
    ∷ ascii "prompt_sent"
    ∷ ascii "approve"
    ∷ ascii "deny"
    ∷ ascii "interrupt"
    ∷ ascii "steer"
    ∷ ascii "respond_user_input"
    ∷ ascii "user_input_result"
    ∷ ascii "queue_update"
    ∷ ascii "cancel_prompt"
    ∷ ascii "prompt_cancelled"
    ∷ ascii "resume_prompt_queue"
    ∷ ascii "skip_prompt_queue_item"
    ∷ ascii "start_thread"
    ∷ ascii "thread_starting"
    ∷ ascii "thread_owned"
    ∷ ascii "thread_failed"
    ∷ ascii "thread_indeterminate"
    ∷ ascii "fetch_history"
    ∷ ascii "session_history"
    ∷ []

-- The types of isSealedFailClosedRouting.
abbrev pub fail_closed_types : List Bytes
fail_closed_types =
    ascii "prompt_failed" ∷ ascii "thread_failed" ∷ ascii "thread_indeterminate" ∷ []

unfoldable pub is_one_of : Bytes → List Bytes → Bool
is_one_of t [] = false
is_one_of t (other ∷ rest) = str_eq t other || is_one_of t rest

unfoldable pub body_policy : Bytes → MessageBodyPolicy
body_policy t =
    if is_one_of t routing_types
    then routing
    else if is_one_of t application_types
    then application
    else unknown

-- ValidateEnvelopeForm of a message that is there.
unfoldable pub validate_envelope_form : NekoMessage → Result Error (Unit {0})
validate_envelope_form msg =
    if is_some msg.payload && is_some msg.sealed_payload then err invalid_envelope else ok tt

unfoldable pub is_sealed_fail_closed_routing : NekoMessage → Bool
is_sealed_fail_closed_routing msg =
    if is_empty (trim_space msg.client_msg_id) || is_some msg.payload || is_some msg.sealed_payload
    then false
    else is_one_of msg.msg_type fail_closed_types

abbrev pub is_application : MessageBodyPolicy → Bool
is_application unknown = false
is_application routing = false
is_application application = true

abbrev pub is_current : Result Error VersionParts → Bool
is_current (err e) = false
is_current (ok version) = is_int version.major (pos current_protocol_major)

abbrev pub check_sealed : NekoMessage → MessageBodyPolicy → Result Error (Unit {0})
check_sealed msg policy =
    if is_sealed_fail_closed_routing msg
    then ok tt
    else if is_application policy && not (is_some msg.sealed_payload)
    then err invalid_envelope
    else ok tt

-- The `switch` on the mode.
abbrev pub check_mode : NekoMessage → Bytes → MessageBodyPolicy → Result Error (Unit {0})
check_mode msg mode policy =
    if str_eq mode transport_sealed
    then check_sealed msg policy
    else if str_eq mode transport_open
    then if is_some msg.sealed_payload then err invalid_envelope else ok tt
    else err transport_mode_mismatch

abbrev pub check_policy : NekoMessage → Bytes → MessageBodyPolicy → Result Error (Unit {0})
check_policy msg mode unknown = err invalid_envelope
check_policy msg mode routing = check_mode msg mode routing
check_policy msg mode application = check_mode msg mode application

abbrev pub check_frame : NekoMessage → Bytes → Result Error (Unit {0}) → Result Error (Unit {0})
check_frame msg mode (err e) = err e
check_frame msg mode (ok _) =
    if not (str_eq msg.transport_mode mode)
    then err transport_mode_mismatch
    else if not (is_current (parse_protocol_version msg.protocol_version))
    then err version_mismatch
    else check_policy msg mode (body_policy msg.msg_type)

-- ValidateFrameForTransport of a message that is there.
unfoldable pub validate_frame_for_transport : NekoMessage → Bytes → Result Error (Unit {0})
validate_frame_for_transport msg mode = check_frame msg mode (validate_envelope_form msg)
