-- ===== src/Pipeline/Convert.antt =====
-- What the converting stages turn an operation into: `UseAuthProviderStage` and
-- `HandleTwinOperationsStage` of iothub/pipeline/pipeline_stages_iothub.py,
-- `IoTHubMQTTConverterStage` of iothub/pipeline/pipeline_stages_iothub_mqtt.py, and the request of
-- `CoordinateRequestAndResponseStage` of common/pipeline/pipeline_stages_base.py.
use Prim.Native.String.{◌++◌}
use azure_iot_sdk_python_pre.Prelude.{
  ℕ, String, Bool, true, false, Option, none, some, List, [], ◌∷◌, leb, str_eq, string_eq,
  if◌then◌else◌,
}
use azure_iot_sdk_python_pre.Prelude.Dict.{Dict, lookup}
use azure_iot_sdk_python_pre.Errors.{Error, Rc, attribute_error, key_error, not_implemented, other}
use azure_iot_sdk_python_pre.Hub.Message.{Json, Message}
use azure_iot_sdk_python_pre.Hub.Topic
use azure_iot_sdk_python_pre.Hub.Topic.{given}
use azure_iot_sdk_python_pre.Pipeline.Ops.{
  ConnectionArgs, Kind, connect, enable_feature, disable_feature, request_and_wait, send_request,
  set_auth_provider, set_x509_auth_provider, set_connection_args, send_d2c_message,
  send_output_event, send_method_response, get_twin, patch_twin, set_mqtt_args, publish, subscribe,
  unsubscribe, Response,
}

-- An answer of the MQTT client library: a return code with a message id, or an exception.
pub data Answer : Type 0 where
  returned : Rc → ℕ → Answer
  raised : Error → Answer

-- Code outside the repository: urllib, json, uuid, and the MQTT client's n-th answer. `json_loads`
-- is `json.loads(body.decode("utf-8"))`, `none` where it raises.
pub record Env : Type 0 where
  pub urlencode : List (String × String) → String
  pub quote_plus : String → String
  pub json_loads : String → Option Json
  pub uuid4 : ℕ → String
  pub paho : ℕ → Answer

-- `UseAuthProviderStage`: the operation to delegate to.
unfoldable pub use_auth_provider : Kind → Option Kind
use_auth_provider (set_auth_provider a) = some (
    set_connection_args (record {
      device_id = a.device_id;
      module_id = a.module_id;
      hostname = a.hostname;
      gateway_hostname = a.gateway_hostname;
      ca_cert = a.ca_cert;
      client_cert = none;
      sas_token = some a.credential;
    }))
use_auth_provider (set_x509_auth_provider a) = some (
    set_connection_args (record {
      device_id = a.device_id;
      module_id = a.module_id;
      hostname = a.hostname;
      gateway_hostname = a.gateway_hostname;
      ca_cert = a.ca_cert;
      client_cert = some a.credential;
      sas_token = none;
    }))
use_auth_provider connect = none
use_auth_provider _ = none

-- `HandleTwinOperationsStage`: the request to make, and whether it is for a whole twin.
unfoldable pub twin_request : Kind → Option (Kind × Bool)
twin_request (get_twin _) = some (request_and_wait "twin" "GET" "/" " " none, true)
twin_request (patch_twin patch) =
    some (request_and_wait "twin" "PATCH" "/properties/reported/" patch.dumps none, false)
twin_request connect = none
twin_request _ = none

-- The error of the operation after `map_twin_error`, and what then raises, for a request without
-- an error: a missing status cannot be compared.
unfoldable pub twin_status : Kind → Option Response
twin_status (request_and_wait _ _ _ _ response) = response
twin_status connect = none
twin_status _ = none

unfoldable pub status_error : ℕ → Option Error
status_error status = if leb 300 status then some other else none

-- `CoordinateRequestAndResponseStage`: the request with its id.
unfoldable pub with_request_id : String → Kind → Option Kind
with_request_id request_id (request_and_wait type method location body _) =
    some (send_request type method location body request_id)
with_request_id request_id connect = none
with_request_id request_id _ = none

unfoldable pub set_response : Response → Kind → Kind
set_response r (request_and_wait type method location body _) =
    request_and_wait type method location body (some r)
set_response r connect = connect
set_response r k = k

-- The attributes of `IoTHubMQTTConverterStage`; the topics are unset before the first arguments.
pub record ConverterState : Type 0 where
  pub device_id : Option String
  pub module_id : Option String
  pub telemetry_topic : Option String
  pub feature_to_topic : Dict String String

-- `_set_topic_names`
unfoldable pub set_topic_names : String → Option String → ConverterState
set_topic_names device_id module_id = record {
  device_id = some device_id;
  module_id = module_id;
  telemetry_topic = some (Topic.get_telemetry_topic_for_publish device_id module_id);
  feature_to_topic =
      ("c2d", Topic.get_c2d_topic_for_subscribe device_id module_id)
      ∷ ("input", Topic.get_input_topic_for_subscribe device_id module_id)
      ∷ ("methods", Topic.get_method_topic_for_subscribe)
      ∷ ("twin", Topic.get_twin_response_topic_for_subscribe)
      ∷ ("twin_patches", Topic.get_twin_patch_topic_for_subscribe)
      ∷ [];
}

unfoldable client_id_of : ConnectionArgs → String
client_id_of a = elim (given a.module_id) [ some m ↦ a.device_id ++ "/" ++ m | none ↦ a.device_id ]

unfoldable pub user_agent : String
user_agent = "py-azure-iot-device/2.0.0-preview.9"

unfoldable pub mqtt_args : Env → ConnectionArgs → Kind
unfolding client_id_of user_agent
mqtt_args env a = set_mqtt_args (record {
  client_id = client_id_of a;
  hostname = elim (given a.gateway_hostname) [ some g ↦ g | none ↦ a.hostname ];
  username =
      a.hostname
      ++ "/"
      ++ client_id_of a
      ++ "/?"
      ++ env.urlencode (("api-version", "2018-06-30") ∷ ("DeviceClientType", user_agent) ∷ []);
  ca_cert = a.ca_cert;
  client_cert = a.client_cert;
  sas_token = a.sas_token;
})

-- What `IoTHubMQTTConverterStage` does with an operation.
pub data Conversion : Type 0 where
  delegate : Kind → Conversion
  fail : Error → Conversion
  pass_on : Conversion

unfoldable pub send_message : Env → Message → Option String → Conversion
send_message env m none = fail attribute_error
send_message env m (some topic) =
    delegate (publish (Topic.encode_properties env.urlencode m topic) m.payload)

unfoldable pub with_topic : (String → Kind) → Option String → Conversion
with_topic k none = fail key_error
with_topic k (some topic) = delegate (k topic)

unfoldable send_twin_request : String → String → String → String → String → Conversion
send_twin_request type method location body request_id =
    if str_eq type "twin"
    then delegate (publish (Topic.get_twin_topic_for_publish method location request_id) body)
    else fail not_implemented

unfoldable pub convert : Env → ConverterState → Kind → ConverterState × Conversion
unfolding send_message with_topic send_twin_request
convert env s (set_connection_args a) =
    (set_topic_names a.device_id a.module_id, delegate (mqtt_args env a))
convert env s (send_d2c_message m) = (s, send_message env m s.telemetry_topic)
convert env s (send_output_event m) = (s, send_message env m s.telemetry_topic)
convert env s (send_method_response r) = (
  s,
  delegate (
      publish (Topic.get_method_topic_for_publish env.quote_plus r.request_id r.status)
        r.payload.dumps),
)
convert env s (enable_feature name) = (s, with_topic subscribe (lookup name s.feature_to_topic))
convert env s (disable_feature name) = (s, with_topic unsubscribe (lookup name s.feature_to_topic))
convert env s (send_request type method location body request_id) =
    (s, send_twin_request type method location body request_id)
convert env s connect = (s, pass_on)
convert env s _ = (s, pass_on)
