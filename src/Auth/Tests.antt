-- ===== src/Auth/Tests.antt =====
-- The theorems of the authentication providers on concrete values.
use azure_iot_sdk_python_pre.Text.Shift.{shift, unshift, unshift-shift, free-shift}
use azure_iot_sdk_python_pre.Prelude.{
  ltb, ℕ, ◌+◌, ◌*◌, ◌<◌, ◌≤◌, ◌≡◌, refl, true, none, some, [], ◌∷◌, ◌++◌, arith, if◌then◌else◌,
}
use azure_iot_sdk_python_pre.Prelude.Dict.{lookup}
use azure_iot_sdk_python_pre.Text.{Text, codes, equal, text_eq, free}
use azure_iot_sdk_python_pre.ConnectionString.{is_given, host_name}
use azure_iot_sdk_python_pre.Auth.Token.{given, resource_uri, token_text, string_to_sign}
use azure_iot_sdk_python_pre.Auth.Renewal.{
  Alarm, Provider, Signing, token_at, expiry_at, generate_new_sas_token, is_due, time_up, handle,
  handle_all, gets, disconnects, rings,
}
use azure_iot_sdk_python_pre.Auth.Renewal.Signers.{shared_key_signing, edge_signing}
use azure_iot_sdk_python_pre.Auth.Edge.{sign, field_of}
use azure_iot_sdk_python_pre.Text.Decimal.{decimal}
use azure_iot_sdk_python_pre.Auth.Renewal.Schedule.{
  IsScheduled, idle, renewing, handle_all-IsScheduled, generate-due, failed_renewal-last,
}
use azure_iot_sdk_python_pre.Auth.Signature.{parse_signature, parts_separator, delimiter}
use azure_iot_sdk_python_pre.Auth.Signature.Entries.{IsUriQuoting, is_value}
use azure_iot_sdk_python_pre.Auth.Signature.Reading.{parse_signature-token_text}

given-shift : (c : ℕ) (s : Text) → is_given (some (shift (c ∷ s))) ≡ true
unfolding is_given shift
given-shift c s = refl

shift-IsUriQuoting : IsUriQuoting shift unshift
shift-IsUriQuoting = record {
  inverse = unshift-shift;
  no_space = free-shift parts_separator (omega arith);
  no_ampersand = free-shift delimiter (omega arith);
  not_empty = given-shift;
}

parse_signature-token_text_example :
    parse_signature unshift (
      token_text
        (shift (resource_uri (codes "hub") (codes "d") (some (codes "m"))))
        (codes "abc")
        1600
        (some (codes "owner")))
    ≡ some (record {
      hostname = codes "hub";
      device_id = codes "d";
      module_id = given (some (codes "m"));
      sas_token_str =
          token_text
            (shift (resource_uri (codes "hub") (codes "d") (some (codes "m"))))
            (codes "abc")
            1600
            (some (codes "owner"));
    })
unfolding codes free is_value is_given given
parse_signature-token_text_example =
    parse_signature-token_text shift unshift shift-IsUriQuoting (codes "hub") (codes "d")
      (some (codes "m")) (codes "abc") 1600 (some (codes "owner")) refl refl refl refl refl

abbrev hub : Text × Text
hub = (host_name, codes "hub")

-- A symmetric key that signs every text alike, and a signer that is out of order from an expiry on.
abbrev signing : Signing
signing = shared_key_signing (λ key message. some (codes "abc")) (codes "key") shift

abbrev refusing : Signing
refusing = record {
  sign = λ uri expiry. if ltb expiry 5000 then some (codes "abc") else none;
  quote_plus = shift;
}

abbrev provider : Provider
provider = record {
  hostname = codes "hub";
  device_id = codes "d";
  module_id = none;
  shared_access_key_name = none;
  token_validity_period = 3600;
  token_renewal_margin = 120;
  token_update_timer = none;
  sas_token_str = none;
  token_update_callback = true;
  notified = 0;
  alarms = [];
  next_timer = 0;
}

-- Asked twice, renewed once, and disconnected.
renewed_twice :
    (handle_all signing (gets 500 20 ∷ gets 900 20 ∷ rings 0 3480520 30 ∷ []) provider).notified ≡ 2
unfolding handle_all handle generate_new_sas_token given equal is_due shift
renewed_twice = refl

handle_all-IsScheduled_example :
    IsScheduled signing
      (handle_all signing (gets 500 20 ∷ rings 0 3480520 30 ∷ disconnects ∷ []) provider)
handle_all-IsScheduled_example =
    handle_all-IsScheduled signing (gets 500 20 ∷ rings 0 3480520 30 ∷ disconnects ∷ []) provider
      (idle refl)

abbrev token : Text
token = token_text (shift (resource_uri (codes "hub") (codes "d") none)) (codes "abc") 3600 none

generate-due_example :
    (a : Alarm) × ((generate_new_sas_token signing 500 20 provider).alarms ≡ a ∷ [])
    × ((generate_new_sas_token signing 500 20 provider).sas_token_str ≡ some token)
    × (expiry_at 500 provider * 1000 + 20 ≤ a.due + 120 * 1000)
    × (a.due + 120 * 1000 < expiry_at 500 provider * 1000 + 20 + 1000)
unfolding token_at expiry_at shift resource_uri given codes equal
generate-due_example = generate-due signing 500 20 provider token (idle refl) refl (omega arith)

-- The only timer rings, and the signature fails.
abbrev renewing_provider : Provider
renewing_provider = record provider {
  token_update_timer = some 0;
  sas_token_str = some token;
  alarms = record { timer = 0; due = 3480520 } ∷ [];
}

failed_renewal-last_example :
    handle_all refusing
      (rings 0 3600000 0 ∷ gets 4000000 0 ∷ rings 0 7200000 0 ∷ [])
      (time_up refusing 0 3480520 30 renewing_provider)
    ≡ record renewing_provider { alarms = [] }
unfolding token_at expiry_at is_due given codes token_text shift resource_uri
failed_renewal-last_example =
    failed_renewal-last refusing 0 3480520 30 renewing_provider token
      (rings 0 3600000 0 ∷ gets 4000000 0 ∷ rings 0 7200000 0 ∷ [])
      (renewing 500 20 0 refl refl refl) refl refl refl refl

-- IoT Edge answers with a digest, which is quoted; without one there is no token.
abbrev answering : Signing
answering =
    edge_signing (λ text. record { ok = true; json = some ((codes "digest", text) ∷ []) }) shift
      shift

edge_signs : answering.sign (codes "u") 7 ≡ some (shift (codes "u" ++ (10 ∷ decimal 7)))
unfolding sign field_of string_to_sign codes lookup equal
edge_signs = refl
