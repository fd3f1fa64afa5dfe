-- ===== src/Auth/SharedKey.antt =====
-- iothub/auth/sk_authentication_provider.py: the parser of `SymmetricKeyAuthenticationProvider`, on
-- code points. Every `ValueError` is `none`.
use azure_iot_sdk_python_pre.Prelude.{
  ◌≡◌, refl, Bool, true, ◌&&◌, Option, none, some, List, [], ◌∷◌, length, ◌==◌, if◌then◌else◌,
  arith, Option-cases, inl, inr,
}
use mathlib.Core.Option
use azure_iot_sdk_python_pre.Prelude.Dict.{Dict, lookup}
use azure_iot_sdk_python_pre.Text.{Text, codes, text_eq, split}
use azure_iot_sdk_python_pre.ConnectionString.{
  host_name, shared_access_key_name, shared_access_key, device_id, is_given, cut_all, fill,
  all_valid, valid_keys, validate_keys, accepted, parse_connection_string, cs_delimiter,
}
use azure_iot_sdk_python_pre.ConnectionString.Filling.{well_formed}
use azure_iot_sdk_python_pre.ConnectionString.Parsing.{print, parse_connection_string-print}
use azure_iot_sdk_python_pre.Auth.Signature.{keys_in}

-- The attributes that the parser sets.
pub record SharedKeyProvider : Type 0 where
  pub hostname : Option Text
  pub device_id : Option Text
  pub module_id : Option Text
  pub shared_access_key : Option Text
  pub shared_access_key_name : Option Text
  pub gateway_hostname : Option Text

unfoldable pub module_id : Text
unfolding codes
module_id = codes "ModuleId"

unfoldable pub gateway_host_name : Text
unfolding codes
gateway_host_name = codes "GatewayHostName"

unfoldable pub shared_key_provider : Dict Text Text → SharedKeyProvider
unfolding module_id gateway_host_name
shared_key_provider d = record {
  hostname = lookup host_name d;
  device_id = lookup device_id d;
  module_id = lookup module_id d;
  shared_access_key = lookup shared_access_key d;
  shared_access_key_name = lookup shared_access_key_name d;
  gateway_hostname = lookup gateway_host_name d;
}

unfoldable pub shared_key_keys : List Text
unfolding codes host_name shared_access_key_name shared_access_key device_id module_id
    gateway_host_name
shared_key_keys =
    host_name
    ∷ shared_access_key_name
    ∷ shared_access_key
    ∷ codes "SharedAccessSignature"
    ∷ device_id
    ∷ module_id
    ∷ gateway_host_name
    ∷ []

-- `_validate_keys` of the same file
unfoldable pub validate_shared_key : Dict Text Text → Bool
unfolding is_given
validate_shared_key d =
    let host = is_given (lookup host_name d) in
    let key = is_given (lookup shared_access_key d) in
    if host && is_given (lookup device_id d) && key
    then true
    else host && key && is_given (lookup shared_access_key_name d)

unfoldable pub parse_shared_key : Text → Option SharedKeyProvider
unfolding split cut_all fill keys_in shared_key_keys validate_shared_key shared_key_provider
parse_shared_key s =
    let arguments = split cs_delimiter s in
    elim (cut_all arguments) [
      | none ↦ none
      | some es ↦
          let d = fill es [] in
          if length arguments == length d
          then (if keys_in shared_key_keys d
              then (if validate_shared_key d then some (shared_key_provider d) else none)
              else none)
          else none
    ]

keys_in-eq-all_valid : (d : Dict Text Text) → keys_in shared_key_keys d ≡ all_valid d
unfolding keys_in all_valid shared_key_keys valid_keys
keys_in-eq-all_valid [] = refl
keys_in-eq-all_valid ((k, v) ∷ d) = ground (arith, keys_in-eq-all_valid d)

validate-eq-validate : (d : Dict Text Text) → validate_shared_key d ≡ validate_keys d
unfolding validate_shared_key validate_keys
validate-eq-validate d = ground arith

-- On every text the parser of the provider and that of `ConnectionString` agree: they refuse the
-- same texts, and the provider has the entries of the dictionary.
pub parse_shared_key-eq-parse_connection_string :
    (s : Text) → parse_shared_key s ≡ Option.map shared_key_provider (parse_connection_string s)
unfolding parse_shared_key parse_connection_string accepted
parse_shared_key-eq-parse_connection_string s =
    elim (Option-cases (cut_all (split cs_delimiter s))) [
      | inl e ↦ rw (e, parse_shared_key, parse_connection_string) refl
      | inr (es, e) ↦
          ground (arith, e, keys_in-eq-all_valid (fill es []), validate-eq-validate (fill es []))
    ]

provider_cong :
    (d es : Dict Text Text)
    → ((k : Text) → lookup k d ≡ lookup k es)
    → shared_key_provider d ≡ shared_key_provider es
unfolding shared_key_provider
provider_cong d es h = ground (
  arith,
  h host_name,
  h device_id,
  h module_id,
  h shared_access_key,
  h shared_access_key_name,
  h gateway_host_name,
)

-- Entries with valid and distinct keys and no delimiter in a value, printed one after the other,
-- give the provider with their values, if they are complete; else the parser refuses.
pub parse_shared_key-print :
    (x : Text × Text) (es : List (Text × Text))
    → well_formed (x ∷ es) ≡ true
    → parse_shared_key (print x es)
      ≡ (if validate_keys (x ∷ es) then some (shared_key_provider (x ∷ es)) else none)
parse_shared_key-print x es h =
    let (d, parsed, same) = parse_connection_string-print x es h in
    ground (
      arith,
      parse_shared_key-eq-parse_connection_string (print x es),
      parsed,
      provider_cong d (x ∷ es) same,
    )
