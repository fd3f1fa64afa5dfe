-- ===== src/Mqtt/Transport.antt =====
-- The settings of `MQTTTransport` (common/mqtt_transport.py): its constructor with the TLS context, what
-- a connection logs in with, and the handler of a message. `ssl` is an argument, by what it refuses.
use azure_iot_sdk_python_pre.Prelude.{
  ℕ, String, Bool, true, false, Option, none, some, if◌then◌else◌,
}
use azure_iot_sdk_python_pre.Hub.Topic.{given}
use azure_iot_sdk_python_pre.Pipeline.Ops.{X509, MqttArgs}

-- Whether a text is read as certificates, and whether a chain can be loaded from its files.
pub record Ssl : Type 0 where
  pub loads_cadata : String → Bool
  pub loads_cert_chain : X509 → Bool

-- What the server's certificate is verified by
pub data Trust : Type 0 where
  default_certs : Trust
  cadata : String → Trust

-- An `SSLContext` of the protocol TLS 1.2
pub record SslContext : Type 0 where
  pub trust : Trust
  pub verify_required : Bool
  pub check_hostname : Bool
  pub cert_chain : Option X509

-- `paho.mqtt.client.Client`, for MQTT 3.1.1, with the context that was set.
pub record MqttClient : Type 0 where
  pub client_id : String
  pub clean_session : Bool
  pub context : SslContext

pub record MqttTransport : Type 0 where
  pub hostname : String
  pub username : String
  pub mqtt_client : MqttClient
  -- whether each of the four event handlers is set
  pub on_mqtt_connected_handler : Bool
  pub on_mqtt_disconnected_handler : Bool
  pub on_mqtt_message_received_handler : Bool
  pub on_mqtt_connection_failure_handler : Bool

module _ (ssl : Ssl) where
  -- The two steps of `_create_ssl_context` that may raise; an empty text is no certificate.
  unfoldable pub trust_of : Option String → Option Trust
  trust_of ca_cert = elim (given ca_cert) [
    | none ↦ some default_certs
    | some text ↦ if ssl.loads_cadata text then some (cadata text) else none
  ]

  unfoldable pub chain_of : Option X509 → Option (Option X509)
  chain_of none = some none
  chain_of (some x) = if ssl.loads_cert_chain x then some (some x) else none

  -- `_create_ssl_context`
  unfoldable pub create_ssl_context : Option String → Option X509 → Option SslContext
  unfolding trust_of chain_of
  create_ssl_context ca_cert x509_cert = elim (trust_of ca_cert) [
    | none ↦ none
    | some trust ↦ elim (chain_of x509_cert) [
      | none ↦ none
      | some chain ↦ some (record {
        trust = trust;
        verify_required = true;
        check_hostname = true;
        cert_chain = chain;
      })
    ]
  ]

  -- `_create_mqtt_client`
  unfoldable pub create_mqtt_client : String → Option String → Option X509 → Option MqttClient
  unfolding create_ssl_context
  create_mqtt_client client_id ca_cert x509_cert = elim (create_ssl_context ca_cert x509_cert) [
    | none ↦ none
    | some context ↦
        some (record { client_id = client_id; clean_session = false; context = context })
  ]

  -- `MQTTTransport.__init__`, `none` if it raises.
  unfoldable pub new_transport : MqttArgs → Option MqttTransport
  unfolding create_mqtt_client
  new_transport a = elim (create_mqtt_client a.client_id a.ca_cert a.client_cert) [
    | none ↦ none
    | some client ↦ some (record {
      hostname = a.hostname;
      username = a.username;
      mqtt_client = client;
      on_mqtt_connected_handler = false;
      on_mqtt_disconnected_handler = false;
      on_mqtt_message_received_handler = false;
      on_mqtt_connection_failure_handler = false;
    })
  ]

  -- What the stage does with `SetMQTTConnectionArgsOperation`.
  unfoldable pub stage_transport : MqttArgs → Option MqttTransport
  unfolding new_transport
  stage_transport a = elim (new_transport a) [
    | none ↦ none
    | some t ↦ some (record t {
      on_mqtt_connected_handler = true;
      on_mqtt_disconnected_handler = true;
      on_mqtt_message_received_handler = true;
      on_mqtt_connection_failure_handler = true;
    })
  ]

-- What `connect` hands to the client library.
pub record Login : Type 0 where
  pub host : String
  pub port : ℕ
  pub client : MqttClient
  pub username : String
  pub password : Option String

unfoldable pub login : Option String → MqttTransport → Login
login password t = record {
  host = t.hostname;
  port = 8883;
  client = t.mqtt_client;
  username = t.username;
  password = password;
}

-- `on_message`: whether the handler gets the message; what it raises is only logged.
pub data Received : Type 0 where
  passed : String → String → Received
  dropped : Received

unfoldable pub on_message : MqttTransport → String → String → Received
on_message t topic payload =
    if t.on_mqtt_message_received_handler then passed topic payload else dropped
