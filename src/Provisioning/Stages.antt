-- ===== src/Provisioning/Stages.antt =====
-- The pipeline of the provisioning client: provisioning/pipeline/pipeline_stages_provisioning.py,
-- pipeline_stages_provisioning_mqtt.py and provisioning_pipeline.py. The stages below them are those
-- of the IoT Hub pipeline.
use Prim.Native.String.{◌++◌}
use azure_iot_sdk_python_pre.Prelude.{String, Option, none, some, List, [], ◌∷◌}
use azure_iot_sdk_python_pre.Pipeline.Ops.{X509, MqttArgs}
use azure_iot_sdk_python_pre.Pipeline.Convert.{user_agent}
pub mod Requests
pub mod Responses

-- What the stage reads of a security client, with the SAS token or the certificate.
pub record SecurityClient (Credential : Type 0) : Type 0 where
  pub provisioning_host : String
  pub registration_id : String
  pub id_scope : String
  pub credential : Credential

-- `SetProvisioningClientConnectionArgsOperation`
pub record ProvisioningArgs : Type 0 where
  pub provisioning_host : String
  pub registration_id : String
  pub id_scope : String
  pub client_cert : Option X509
  pub sas_token : Option String

-- The operations, with their attributes.
pub data Kind : Type 0 where
  connect disconnect enable_feature disable_feature : Kind
  set_symmetric_key_security_client : SecurityClient String → Kind
  set_x509_security_client : SecurityClient X509 → Kind
  set_connection_args : ProvisioningArgs → Kind
  send_registration_request : String → String → Kind
  send_query_request : String → String → String → Kind
  set_mqtt_args : MqttArgs → Kind
  publish : String → String → Kind
  subscribe unsubscribe : String → Kind

-- `_execute_op` of `UseSecurityClientStage`: the operation to delegate to; `none` passes it on.
unfoldable pub use_security_client : Kind → Option Kind
use_security_client (set_symmetric_key_security_client c) = some (
    set_connection_args (record {
      provisioning_host = c.provisioning_host;
      registration_id = c.registration_id;
      id_scope = c.id_scope;
      client_cert = none;
      sas_token = some c.credential;
    }))
use_security_client (set_x509_security_client c) = some (
    set_connection_args (record {
      provisioning_host = c.provisioning_host;
      registration_id = c.registration_id;
      id_scope = c.id_scope;
      client_cert = some c.credential;
      sas_token = none;
    }))
use_security_client _ = none

abbrev pub topic_base : String
topic_base = "$dps/registrations/"

unfoldable pub get_topic_for_subscribe : String
get_topic_for_subscribe = topic_base ++ "res/#"

unfoldable pub get_topic_for_register : String → String
get_topic_for_register request_id = (topic_base ++ "PUT/iotdps-register/?$rid=") ++ request_id

unfoldable pub get_topic_for_query : String → String → String
get_topic_for_query request_id operation_id =
    (topic_base ++ "GET/iotdps-get-operationstatus/?$rid=")
    ++ request_id
    ++ "&operationId="
    ++ operation_id

module _ (urlencode : List (String × String) → String) where
  unfoldable pub mqtt_args : ProvisioningArgs → MqttArgs
  unfolding user_agent
  mqtt_args a = record {
    client_id = a.registration_id;
    hostname = a.provisioning_host;
    username =
        a.id_scope
        ++ "/registrations/"
        ++ a.registration_id
        ++ "/"
        ++ urlencode (("api-version", "2019-03-31") ∷ ("ClientVersion", user_agent) ∷ []);
    ca_cert = none;
    client_cert = a.client_cert;
    sas_token = a.sas_token;
  }

  -- `_execute_op` of `ProvisioningMQTTConverterStage`
  unfoldable pub convert : Kind → Option Kind
  unfolding mqtt_args get_topic_for_subscribe get_topic_for_register get_topic_for_query
  convert (set_connection_args a) = some (set_mqtt_args (mqtt_args a))
  convert (send_registration_request request_id payload) =
      some (publish (get_topic_for_register request_id) payload)
  convert (send_query_request request_id operation_id payload) =
      some (publish (get_topic_for_query request_id operation_id) payload)
  convert enable_feature = some (subscribe get_topic_for_subscribe)
  convert disable_feature = some (unsubscribe get_topic_for_subscribe)
  convert _ = none

-- The operations that the methods of `ProvisioningPipeline` submit.
unfoldable pub send_request : String → String → Option String → Kind
send_request request_id payload none = send_registration_request request_id payload
send_request request_id payload (some operation_id) =
    send_query_request request_id operation_id payload

abbrev pub enable_responses : Kind
enable_responses = enable_feature

abbrev pub disable_responses : Kind
disable_responses = disable_feature
