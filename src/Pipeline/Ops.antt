-- ===== src/Pipeline/Ops.antt =====
-- The operations that travel down the pipeline (common/pipeline/pipeline_ops_base.py,
-- pipeline_ops_mqtt.py, iothub/pipeline/pipeline_ops_iothub.py), and the completion callbacks that
-- the stages put on them, one constructor for each closure, with the variables it captures.
use azure_iot_sdk_python_pre.Prelude.{ℕ, String, Bool, true, false, Option, none, some}
use azure_iot_sdk_python_pre.Errors.{Error}
use azure_iot_sdk_python_pre.Hub.Message.{Json, Message, MethodResponse}

-- The stages of `IoTHubPipeline`, from the top.
pub data Stage : Type 0 where
  root use_auth twin coordinate converter ensure serialize mqtt : Stage

-- `stage.next`
unfoldable pub next : Stage → Option Stage
next root = some use_auth
next use_auth = some twin
next twin = some coordinate
next coordinate = some converter
next converter = some ensure
next ensure = some serialize
next serialize = some mqtt
next mqtt = none

pub record X509 : Type 0 where
  pub certificate_file : String
  pub key_file : String
  pub pass_phrase : Option String

-- What the stages read of an authentication provider.
pub record AuthProvider (Credential : Type 0) : Type 0 where
  pub device_id : String
  pub module_id : Option String
  pub hostname : String
  pub gateway_hostname : Option String
  pub ca_cert : Option String
  pub credential : Credential

pub record ConnectionArgs : Type 0 where
  pub device_id : String
  pub module_id : Option String
  pub hostname : String
  pub gateway_hostname : Option String
  pub ca_cert : Option String
  pub client_cert : Option X509
  pub sas_token : Option String

pub record MqttArgs : Type 0 where
  pub client_id : String
  pub hostname : String
  pub username : String
  pub ca_cert : Option String
  pub client_cert : Option X509
  pub sas_token : Option String

-- `status_code` and `response_body`, which are set together.
pub record Response : Type 0 where
  pub status_code : ℕ
  pub response_body : String

-- The classes of operations, with their attributes.
pub data Kind : Type 0 where
  connect reconnect disconnect : Kind
  enable_feature disable_feature : String → Kind
  request_and_wait : String → String → String → String → Option Response → Kind
  send_request : String → String → String → String → String → Kind
  set_auth_provider : AuthProvider String → Kind
  set_x509_auth_provider : AuthProvider X509 → Kind
  set_connection_args : ConnectionArgs → Kind
  send_d2c_message send_output_event : Message → Kind
  send_method_response : MethodResponse → Kind
  get_twin : Option Json → Kind
  patch_twin : Json → Kind
  set_mqtt_args : MqttArgs → Kind
  publish : String → String → Kind
  subscribe unsubscribe : String → Kind

-- `user` is the callback of the client, by a number for it. `delegated` and the two twin callbacks
-- capture the operation that they complete, `connected` the one that waits for a connection,
-- `unblocking` the callback that the stage replaced, `sent` the id of a request: its operation
-- stands in `pending_responses`, the same object there and in the closure.
mutual
  pub data Op : Type 0 where
    op : Kind → Option Error → Callback → Op

  pub data Callback : Type 0 where
    user : ℕ → Callback
    delegated : Op → Callback
    got_twin patched_twin : Op → Callback
    sent : String → Callback
    connected : Op → Callback
    unblocking : Callback → Callback

abbrev pub kind_of : Op → Kind
kind_of (op k e c) = k

abbrev pub error_of : Op → Option Error
error_of (op k e c) = e

abbrev pub callback_of : Op → Callback
callback_of (op k e c) = c

abbrev pub set_error : Error → Op → Op
set_error e (op k _ c) = op k (some e) c

-- `original_op.error = new_op.error`
abbrev pub copy_error : Option Error → Op → Op
copy_error e (op k _ c) = op k e c

abbrev pub set_kind : Kind → Op → Op
set_kind k (op _ e c) = op k e c

abbrev pub set_callback : Callback → Op → Op
set_callback c (op k e _) = op k e c

-- `op.needs_connection`
unfoldable pub needs_connection : Kind → Bool
needs_connection (publish _ _) = true
needs_connection (subscribe _) = true
needs_connection (unsubscribe _) = true
needs_connection connect = false
needs_connection _ = false
