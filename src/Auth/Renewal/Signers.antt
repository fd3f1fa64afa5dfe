-- ===== src/Auth/Renewal/Signers.antt =====
-- The two derived classes that sign: iothub/auth/sk_authentication_provider.py and
-- iotedge_authentication_provider.py. `hmac` is the quoted signature of a key and a message, `none`
-- where it raises; `hsm` answers the request to sign a text; `quote` and `quote_plus` are urllib's.
use azure_iot_sdk_python_pre.Prelude.{Option}
use azure_iot_sdk_python_pre.Text.{Text}
use azure_iot_sdk_python_pre.Auth.Token.{string_to_sign}
use azure_iot_sdk_python_pre.Auth.Edge.{HttpResponse, sign}
use azure_iot_sdk_python_pre.Auth.Renewal.{Signing}

abbrev pub shared_key_signing : (Text → Text → Option Text) → Text → (Text → Text) → Signing
shared_key_signing hmac shared_access_key quote_plus = record {
  sign = λ uri expiry. hmac shared_access_key (string_to_sign uri expiry);
  quote_plus = quote_plus;
}

abbrev pub edge_signing : (Text → HttpResponse) → (Text → Text) → (Text → Text) → Signing
edge_signing hsm quote quote_plus = record {
  sign = λ uri expiry. sign quote (hsm (string_to_sign uri expiry));
  quote_plus = quote_plus;
}
