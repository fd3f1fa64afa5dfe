-- ===== src/ConnectionString/Tests.antt =====
-- The theorem of the parser on a concrete text.
use azure_iot_sdk_python_pre.Prelude.{none, some, List, [], ◌∷◌, ◌≡◌, refl, if◌then◌else◌}
use azure_iot_sdk_python_pre.Prelude.Dict.{Dict, lookup, insert}
use azure_iot_sdk_python_pre.Text.{Text, codes, text_eq, cut, free}
use azure_iot_sdk_python_pre.ConnectionString.{
  host_name, device_id, shared_access_key, validate_keys, parse_connection_string, valid_keys,
  is_in,
}
use azure_iot_sdk_python_pre.ConnectionString.Filling.{well_formed}
use azure_iot_sdk_python_pre.ConnectionString.Parsing.{print, parse_connection_string-print}

abbrev hub : Text × Text
hub = (host_name, codes "hub")

-- The key ends in a separator, as base64 does.
abbrev device : List (Text × Text)
device = (device_id, codes "d") ∷ (shared_access_key, codes "a2V5=") ∷ []

device-IsText : print hub device ≡ codes "HostName=hub;DeviceId=d;SharedAccessKey=a2V5="
unfolding print codes host_name device_id shared_access_key
device-IsText = refl

no_separator : parse_connection_string (codes "HostName=hub;DeviceId") ≡ none
unfolding parse_connection_string codes cut
no_separator = refl

repeated : parse_connection_string (codes "DeviceId=a;DeviceId=b") ≡ none
unfolding parse_connection_string codes insert cut
repeated = refl

parse_connection_string-print_example :
    (d : Dict Text Text) × (parse_connection_string (print hub device)
      ≡ (if validate_keys (hub ∷ device) then some d else none))
    × ((k : Text) → lookup k d ≡ lookup k (hub ∷ device))
unfolding well_formed valid_keys is_in codes free
parse_connection_string-print_example = parse_connection_string-print hub device refl
