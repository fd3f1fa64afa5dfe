-- ===== src/Errors.antt =====
-- The exceptions of common/errors.py that the modelled code raises, with the built-in ones, and the
-- tables of common/mqtt_transport.py from the client library's return codes to them. A message text
-- is not modelled. `error_from_status_code` has a type of its own, since nothing calls it.
use azure_iot_sdk_python_pre.Prelude.{ℕ, nat_eq, [], ◌∷◌, Option, none, some}
use azure_iot_sdk_python_pre.Prelude.Dict.{Dict, lookup}

pub data Error : Type 0 where
  connection_failed connection_dropped argument unauthorized protocol_client pipeline : Error
  not_implemented attribute_error key_error type_error value_error index_error : Error
  other : Error

-- The client library's return codes, by their names; `success` is the one that is false in a test.
pub data Rc : Type 0 where
  success nomem protocol inval no_conn conn_refused not_found conn_lost tls : Rc
  payload_size not_supported auth acl_denied unknown errno queue_size unlisted : Rc

-- `rc` in a test, and `_create_error_from_rc_code(rc)`
unfoldable pub rc_error : Rc → Option Error
rc_error success = none
rc_error nomem = some protocol_client
rc_error protocol = some protocol_client
rc_error inval = some argument
rc_error no_conn = some connection_dropped
rc_error conn_refused = some connection_failed
rc_error not_found = some connection_failed
rc_error conn_lost = some connection_dropped
rc_error tls = some unauthorized
rc_error payload_size = some protocol_client
rc_error not_supported = some protocol_client
rc_error auth = some unauthorized
rc_error acl_denied = some unauthorized
rc_error unknown = some protocol_client
rc_error errno = some protocol_client
rc_error queue_size = some protocol_client
rc_error unlisted = some protocol_client

-- The CONNACK codes.
pub data Conack : Type 0 where
  accepted refused_protocol_version refused_identifier_rejected refused_server_unavailable : Conack
  refused_bad_username_password refused_not_authorized unlisted : Conack

-- `rc` in a test, and `_create_error_from_conack_rc_code(rc)`
unfoldable pub conack_error : Conack → Option Error
conack_error accepted = none
conack_error refused_protocol_version = some protocol_client
conack_error refused_identifier_rejected = some protocol_client
conack_error refused_server_unavailable = some connection_failed
conack_error refused_bad_username_password = some unauthorized
conack_error refused_not_authorized = some unauthorized
conack_error unlisted = some protocol_client

-- The exceptions for the status of a failed operation of the service.
pub data StatusError : Type 0 where
  argument_error unauthorized_error quota_exceeded not_found_error device_timeout : StatusError
  device_already_exists invalid_etag message_too_large throttling : StatusError
  internal_service_error bad_device_response service_unavailable timeout : StatusError
  failed_status_code : StatusError

unfoldable pub status_code_to_error : Dict ℕ StatusError
status_code_to_error =
    (400, argument_error)
    ∷ (401, unauthorized_error)
    ∷ (403, quota_exceeded)
    ∷ (404, not_found_error)
    ∷ (408, device_timeout)
    ∷ (409, device_already_exists)
    ∷ (412, invalid_etag)
    ∷ (413, message_too_large)
    ∷ (429, throttling)
    ∷ (500, internal_service_error)
    ∷ (502, bad_device_response)
    ∷ (503, service_unavailable)
    ∷ (504, timeout)
    ∷ []

unfoldable pub error_from_status_code : ℕ → StatusError
unfolding status_code_to_error
error_from_status_code status_code = elim (lookup status_code status_code_to_error) [
  | some e ↦ e
  | none ↦ failed_status_code
]
