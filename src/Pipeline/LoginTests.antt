-- ===== src/Pipeline/LoginTests.antt =====
-- A login with a token and one with a certificate.
use azure_iot_sdk_python_pre.Prelude.{String, none, some, [], true, str_eq, not}
use azure_iot_sdk_python_pre.Errors.{success}
use azure_iot_sdk_python_pre.Mqtt.Transport.{Ssl}
use azure_iot_sdk_python_pre.Pipeline.Ops.{
  AuthProvider, X509, set_auth_provider, set_x509_auth_provider,
}
use azure_iot_sdk_python_pre.Pipeline.Convert.{Env, ConverterState, returned}
use azure_iot_sdk_python_pre.Pipeline.Login.{Tries, login_of, host_of, logs_in}

abbrev env : Env
env = record {
  urlencode = λ pairs. "";
  quote_plus = λ text. text;
  json_loads = λ text. none;
  uuid4 = λ n. "id";
  paho = λ n. returned success n;
}

-- A library that reads any text but this one, and any file.
abbrev ssl : Ssl
ssl = record { loads_cadata = λ text. not (str_eq text "broken"); loads_cert_chain = λ x. true }

abbrev unconfigured : ConverterState
unconfigured = record {
  device_id = none;
  module_id = none;
  telemetry_topic = none;
  feature_to_topic = [];
}

abbrev cert : X509
cert = record { certificate_file = "c.pem"; key_file = "k.pem"; pass_phrase = none }

-- A module behind a gateway, and a device.
abbrev by_token : AuthProvider String
by_token = record {
  device_id = "d";
  module_id = some "m";
  hostname = "hub";
  gateway_hostname = some "edge";
  ca_cert = some "pem";
  credential = "token";
}

abbrev by_cert : AuthProvider X509
by_cert = record {
  device_id = "d";
  module_id = none;
  hostname = "hub";
  gateway_hostname = none;
  ca_cert = none;
  credential = cert;
}

logs_in_example :
    Tries ssl
      (some "pem")
      none
      (login_of ssl env unconfigured (set_auth_provider by_token))
      (host_of "hub" (some "edge"))
      (some "token")
    × Tries ssl none
        (some cert)
        (login_of ssl env unconfigured (set_x509_auth_provider by_cert))
        (host_of "hub" none)
        none
logs_in_example = logs_in ssl env unconfigured by_token by_cert
