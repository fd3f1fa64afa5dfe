-- ===== src/Auth/Creation.antt =====
-- How the clients of the hub are made (the class methods and constructors of iothub/abstract_clients.py,
-- iothub/auth/x509_authentication_provider.py and authentication_provider.py), and what the pipeline
-- reads of the provider (`IoTHubPipeline.__init__`, `UseAuthProviderStage`), on code points. A text
-- that is refused is `none`; `unquote_plus` is urllib's.
use azure_iot_sdk_python_pre.Prelude.{
  ◌≡◌, Bool, true, false, Option, none, some, List, ◌∷◌, arith, if◌then◌else◌,
}
use azure_iot_sdk_python_pre.Prelude.Dict.{lookup}
use azure_iot_sdk_python_pre.Text.{Text, text_eq}
use azure_iot_sdk_python_pre.Pipeline.Ops.{X509}
use azure_iot_sdk_python_pre.ConnectionString.{host_name, device_id, validate_keys}
use azure_iot_sdk_python_pre.ConnectionString.Filling.{well_formed}
use azure_iot_sdk_python_pre.ConnectionString.Parsing.{print}
use azure_iot_sdk_python_pre.Auth.SharedKey.{
  SharedKeyProvider, parse_shared_key, shared_key_provider, module_id, gateway_host_name,
  parse_shared_key-print,
}
use azure_iot_sdk_python_pre.Auth.Signature.{SasProvider, parse_signature}
use azure_iot_sdk_python_pre.Auth.Environment.{
  EdgeProvider, Created, edge, shared_key, iot_edge_error, value_error,
}

pub record X509Provider : Type 0 where
  pub hostname : Text
  pub device_id : Text
  pub module_id : Option Text
  pub x509 : X509

-- The providers; `ca_cert` of a shared key is set after its parsing.
pub data Provider : Type 0 where
  by_shared_key : SharedKeyProvider → Option Text → Provider
  by_signature : SasProvider → Provider
  by_x509 : X509Provider → Provider
  by_edge : EdgeProvider → Provider

-- A client: the provider of its pipeline, and that of the pipeline to the edge, if it has one.
pub record Client : Type 0 where
  pub iothub_pipeline : Provider
  pub edge_pipeline : Option Provider

abbrev pub with_pipeline : Provider → Client
with_pipeline p = record { iothub_pipeline = p; edge_pipeline = none }

unfoldable pub create_from_connection_string : Text → Option Text → Option Client
unfolding parse_shared_key
create_from_connection_string connection_string ca_cert =
    elim (parse_shared_key connection_string) [
      | none ↦ none
      | some p ↦ some (with_pipeline (by_shared_key p ca_cert))
    ]

unfoldable pub create_from_shared_access_signature : (Text → Text) → Text → Option Client
unfolding parse_signature
create_from_shared_access_signature unquote_plus sas_token =
    elim (parse_signature unquote_plus sas_token) [
      | none ↦ none
      | some p ↦ some (with_pipeline (by_signature p))
    ]

-- `X509AuthenticationProvider.__init__`
unfoldable pub x509_provider : X509 → Text → Text → Option Text → X509Provider
x509_provider x hostname device_id module_id = record {
  hostname = hostname;
  device_id = device_id;
  module_id = module_id;
  x509 = x;
}

-- `create_from_x509_certificate` of a device and of a module
unfoldable pub create_device_from_x509_certificate : X509 → Text → Text → Client
unfolding x509_provider
create_device_from_x509_certificate x hostname device_id =
    with_pipeline (by_x509 (x509_provider x hostname device_id none))

unfoldable pub create_module_from_x509_certificate : X509 → Text → Text → Text → Client
unfolding x509_provider
create_module_from_x509_certificate x hostname device_id module_id =
    with_pipeline (by_x509 (x509_provider x hostname device_id (some module_id)))

-- The end of `create_from_edge_environment`, for what it found.
abbrev with_edge : Provider → Client
with_edge p = record { iothub_pipeline = p; edge_pipeline = some p }

unfoldable pub module_client : Created → Option Client
module_client (edge p) = some (with_edge (by_edge p))
module_client (shared_key p ca_cert) = some (with_edge (by_shared_key p (some ca_cert)))
module_client iot_edge_error = none
module_client value_error = none

-- The operation that the constructor of the pipeline submits, with what the first stage reads of the
-- provider; `takes_token` tells whether it asks for a token.
pub record ProviderArgs : Type 0 where
  pub device_id : Option Text
  pub module_id : Option Text
  pub hostname : Option Text
  pub gateway_hostname : Option Text
  pub ca_cert : Option Text
  pub client_cert : Option X509
  pub takes_token : Bool

unfoldable pub provider_args : Provider → ProviderArgs
provider_args (by_shared_key p ca_cert) = record {
  device_id = p.device_id;
  module_id = p.module_id;
  hostname = p.hostname;
  gateway_hostname = p.gateway_hostname;
  ca_cert = ca_cert;
  client_cert = none;
  takes_token = true;
}
provider_args (by_signature p) = record {
  device_id = some p.device_id;
  module_id = p.module_id;
  hostname = some p.hostname;
  gateway_hostname = none;
  ca_cert = none;
  client_cert = none;
  takes_token = true;
}
provider_args (by_x509 p) = record {
  device_id = some p.device_id;
  module_id = p.module_id;
  hostname = some p.hostname;
  gateway_hostname = none;
  ca_cert = none;
  client_cert = some p.x509;
  takes_token = false;
}
provider_args (by_edge p) = record {
  device_id = some p.device_id;
  module_id = some p.module_id;
  hostname = some p.hostname;
  gateway_hostname = some p.gateway_hostname;
  ca_cert = some p.ca_cert;
  client_cert = none;
  takes_token = true;
}

-- What the pipeline of a client gets.
abbrev pub args_of : Option Client → Option ProviderArgs
args_of none = none
args_of (some c) = some (provider_args c.iothub_pipeline)

-- A connection string of entries with valid and distinct keys and no delimiter in a value makes a
-- client if they are complete, and only then: its pipeline gets the values of the host name, the
-- device, the module and the gateway, the certificate that was passed, and asks the provider for a
-- token.
pub create_from_connection_string-args :
    (x : Text × Text) (es : List (Text × Text)) (ca_cert : Option Text)
    → well_formed (x ∷ es) ≡ true
    → args_of (create_from_connection_string (print x es) ca_cert) ≡ (
        if validate_keys (x ∷ es)
        then (some (record {
          device_id = lookup device_id (x ∷ es);
          module_id = lookup module_id (x ∷ es);
          hostname = lookup host_name (x ∷ es);
          gateway_hostname = lookup gateway_host_name (x ∷ es);
          ca_cert = ca_cert;
          client_cert = none;
          takes_token = true;
        }))
        else none)
unfolding create_from_connection_string provider_args shared_key_provider
create_from_connection_string-args x es ca_cert h = ground (arith, parse_shared_key-print x es h)
