-- ===== src/Provisioning/Client/Creation.antt =====
-- How a provisioning client is made: `create_from_symmetric_key` and `create_from_x509_certificate` of
-- provisioning/abstract_provisioning_device_client.py, with the constructors of the clients and of
-- `ProvisioningPipeline` (provisioning/pipeline/provisioning_pipeline.py). `lower` is `str.lower`.
use azure_iot_sdk_python_pre.Prelude.{
  String, ◌≡◌, ◌≢◌, ◌⊎◌, inl, inr, Bool-cases, Bool, true, false, Option, none, some, List, [], ◌∷◌,
  arith, str_eq, eq_iff, if◌then◌else◌,
}
use azure_iot_sdk_python_pre.Errors.{Error, not_implemented}
use azure_iot_sdk_python_pre.Pipeline.Ops.{X509, MqttArgs}
use azure_iot_sdk_python_pre.Provisioning.Stages.{
  Kind, set_x509_security_client, set_mqtt_args, use_security_client, convert, mqtt_args,
}
use azure_iot_sdk_python_pre.Provisioning.Polling.Defs.{Machine, new_machine}

-- `SymmetricKeySecurityClient` and `X509SecurityClient`, with what their constructors keep, and an
-- object of another class.
pub record Credentials (K : Type 0) : Type 0 where
  pub provisioning_host : String
  pub registration_id : String
  pub id_scope : String
  pub secret : K

pub data Security : Type 0 where
  symmetric_key : Credentials String → Security
  x509 : Credentials X509 → Security
  another : Security

pub data StageName : Type 0 where
  use_security_client_stage mqtt_converter ensure_connection serialize_connect_ops : StageName
  mqtt_transport : StageName

-- The operations of the constructor, `remove_this_code` their callback.
pub data SetOperation : Type 0 where
  set_symmetric_key : Credentials String → SetOperation
  set_x509 : Credentials X509 → SetOperation

pub record ProvisioningPipeline : Type 0 where
  -- the stages below the root
  pub stages : List StageName
  -- which event handlers are set
  pub on_connected : Bool
  pub on_disconnected : Bool
  pub on_message_received : Bool
  pub submitted : SetOperation

abbrev with_operation : SetOperation → ProvisioningPipeline
with_operation op = record {
  stages =
      use_security_client_stage ∷ mqtt_converter ∷ ensure_connection ∷ serialize_connect_ops
      ∷ mqtt_transport ∷ [];
  on_connected = false;
  on_disconnected = false;
  on_message_received = false;
  submitted = op;
}

-- `ProvisioningPipeline.__init__`; for another client the name `op` is not bound, which raises.
unfoldable pub new_pipeline : Security → Option ProvisioningPipeline
new_pipeline (symmetric_key c) = some (with_operation (set_symmetric_key c))
new_pipeline (x509 c) = some (with_operation (set_x509 c))
new_pipeline another = none

-- The client: its polling machine has made the provider, which sets one handler of the pipeline.
pub record ProvisioningDeviceClient : Type 0 where
  pub pipeline : ProvisioningPipeline
  pub polling_machine : Machine

unfoldable pub new_client : ProvisioningPipeline → ProvisioningDeviceClient
new_client p = record {
  pipeline = record p { on_message_received = true };
  polling_machine = new_machine;
}

pub data Created : Type 0 where
  client : ProvisioningDeviceClient → Created
  raises : Error → Created

abbrev create : Security → Created
create s = elim (new_pipeline s) [ none ↦ raises Error.other | some p ↦ client (new_client p) ]

module _ (lower : String → String) where
  abbrev pub protocol_name : Option String → String
  protocol_name none = "mqtt"
  protocol_name (some p) = lower p

  unfoldable pub create_from_symmetric_key :
      String → String → String → String → Option String → Created
  unfolding new_pipeline new_client
  create_from_symmetric_key provisioning_host registration_id id_scope key protocol_choice =
      if str_eq (protocol_name protocol_choice) "mqtt"
      then (create (
          symmetric_key (record {
            provisioning_host = provisioning_host;
            registration_id = registration_id;
            id_scope = id_scope;
            secret = key;
          })))
      else raises not_implemented

  unfoldable pub create_from_x509_certificate :
      String → String → String → X509 → Option String → Created
  unfolding new_pipeline new_client
  create_from_x509_certificate provisioning_host registration_id id_scope cert protocol_choice =
      if str_eq (protocol_name protocol_choice) "mqtt"
      then (create (
          x509 (record {
            provisioning_host = provisioning_host;
            registration_id = registration_id;
            id_scope = id_scope;
            secret = cert;
          })))
      else raises not_implemented

-- What the stage reads of a client, by `read` the credential that its own method gives.
unfoldable pub operation : (Credentials String → Option String) → SetOperation → Option Kind
operation read (set_x509 c) = some (
    set_x509_security_client (record {
      provisioning_host = c.provisioning_host;
      registration_id = c.registration_id;
      id_scope = c.id_scope;
      credential = c.secret;
    }))
operation read (set_symmetric_key c) = elim (read c) [
  | none ↦ none
  | some token ↦ some (
      Kind.set_symmetric_key_security_client (record {
        provisioning_host = c.provisioning_host;
        registration_id = c.registration_id;
        id_scope = c.id_scope;
        credential = token;
      }))
]

-- `run_op` of the operation, through the two stages below the root.
abbrev pub to_transport :
    (List (String × String) → String)
    → (Credentials String → Option String)
    → SetOperation
    → Option Kind
to_transport urlencode read op = elim (operation read op) [
  | none ↦ none
  | some k ↦ elim (use_security_client k) [ none ↦ none | some k ↦ convert urlencode k ]
]

abbrev pub transport_of :
    (List (String × String) → String) → (Credentials String → Option String) → Created → Option Kind
transport_of urlencode read (raises e) = none
transport_of urlencode read (client c) = to_transport urlencode read c.pipeline.submitted

abbrev pub args :
    (List (String × String) → String)
    → String
    → String
    → String
    → Option X509
    → Option String
    → MqttArgs
args urlencode provisioning_host registration_id id_scope cert token = mqtt_args urlencode (record {
  provisioning_host = provisioning_host;
  registration_id = registration_id;
  id_scope = id_scope;
  client_cert = cert;
  sas_token = token;
})

-- A client is made when no protocol is chosen, or one whose name is "mqtt" in lower case, and the
-- transport of its pipeline gets the host and the registration id as host name and client id, with
-- the certificate, or with the token that the key gives and no certificate; for any other name
-- `NotImplementedError` is raised.
pub create-transport :
    (lower : String → String) (urlencode : List (String × String) → String)
    (read : Credentials String → Option String) (host id scope key : String) (cert : X509)
    (token : String) (choice : Option String)
    → read
        (record { provisioning_host = host; registration_id = id; id_scope = scope; secret = key })
      ≡ some token
    → let by_key = create_from_symmetric_key lower host id scope key choice in
      let by_cert = create_from_x509_certificate lower host id scope cert choice in
      ((protocol_name lower choice ≡ "mqtt")
        × (transport_of urlencode read by_key
            ≡ some (set_mqtt_args (args urlencode host id scope none (some token))))
        × (transport_of urlencode read by_cert
            ≡ some (set_mqtt_args (args urlencode host id scope (some cert) none))))
      ⊎ ((protocol_name lower choice ≢ "mqtt")
          × (by_key ≡ raises not_implemented)
          × (by_cert ≡ raises not_implemented))
unfolding create_from_symmetric_key create_from_x509_certificate operation use_security_client
    convert
create-transport lower urlencode read host id scope key cert token choice e =
    let test = eq_iff (protocol_name lower choice) "mqtt" in
    elim (Bool-cases (str_eq (protocol_name lower choice) "mqtt")) [
      | inl mqtt ↦ inl (ground (arith, mqtt, test), ground (arith, e, mqtt), ground (arith, mqtt))
      | inr other ↦ inr (ground (arith, other, test), ground (arith, other), ground (arith, other))
    ]
