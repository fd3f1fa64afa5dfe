-- ===== src/Hub/Topic.antt =====
-- The topics of iothub/pipeline/mqtt_topic_iothub.py that the device publishes on or subscribes to.
-- `quote_plus` and `urlencode` of urllib are arguments.
use Prim.Native.String.{◌++◌}
use azure_iot_sdk_python_pre.Prelude.{
  String, List, [], ◌∷◌, Option, none, some, Bool, true, false, str_eq, if◌then◌else◌,
}
use azure_iot_sdk_python_pre.Hub.Message.{Message, Expiry, date, text}

-- An optional text in a test: `None` and the empty text are false.
abbrev pub given : Option String → Option String
given none = none
given (some s) = if str_eq s "" then none else some s

unfoldable pub get_topic_base : String → Option String → String
get_topic_base device_id module_id = elim (given module_id) [
  | some m ↦ "devices/" ++ device_id ++ "/modules/" ++ m
  | none ↦ "devices/" ++ device_id
]

unfoldable pub get_telemetry_topic_for_publish : String → Option String → String
unfolding get_topic_base
get_telemetry_topic_for_publish device_id module_id =
    get_topic_base device_id module_id ++ "/messages/events/"

unfoldable pub get_c2d_topic_for_subscribe : String → Option String → String
unfolding get_topic_base
get_c2d_topic_for_subscribe device_id module_id =
    get_topic_base device_id module_id ++ "/messages/devicebound/#"

unfoldable pub get_input_topic_for_subscribe : String → Option String → String
unfolding get_topic_base
get_input_topic_for_subscribe device_id module_id =
    get_topic_base device_id module_id ++ "/inputs/#"

unfoldable pub get_method_topic_for_publish : (String → String) → String → String → String
get_method_topic_for_publish quote_plus request_id status =
    "$iothub/methods/res/" ++ quote_plus status ++ "/?$rid=" ++ quote_plus request_id

unfoldable pub get_method_topic_for_subscribe : String
get_method_topic_for_subscribe = "$iothub/methods/POST/#"

unfoldable pub get_twin_response_topic_for_subscribe : String
get_twin_response_topic_for_subscribe = "$iothub/twin/res/#"

unfoldable pub get_twin_patch_topic_for_subscribe : String
get_twin_patch_topic_for_subscribe = "$iothub/twin/PATCH/properties/desired/#"

unfoldable pub get_twin_topic_for_publish : String → String → String → String
get_twin_topic_for_publish method resource_location request_id =
    "$iothub/twin/" ++ method ++ resource_location ++ "?$rid=" ++ request_id

-- One system property, if the message has it.
unfoldable property : String → Option String → List (String × String) → List (String × String)
property key value rest = elim (given value) [ some v ↦ (key, v) ∷ rest | none ↦ rest ]

unfoldable expiry : Option Expiry → Option String
expiry none = none
expiry (some (date s)) = some s
expiry (some (text s)) = some s

unfoldable pub system_properties : Message → List (String × String)
unfolding property expiry
system_properties m = property "$.on" m.output_name (
    property "$.mid" m.message_id (
      property "$.cid" m.correlation_id (
        property "$.uid" m.user_id (
          property "$.to" m.to (
            property "$.ct" m.content_type (
              property "$.ce" m.content_encoding
                (property "$.exp" (expiry m.expiry_time_utc) [])))))))

abbrev is_empty {ℓ} : {A : Type ℓ} → List A → Bool
is_empty [] = true
is_empty (_ ∷ _) = false

unfoldable pub encode_properties : (List (String × String) → String) → Message → String → String
unfolding system_properties
encode_properties urlencode m topic =
    let system = system_properties m in
    let encoded = topic ++ urlencode system in
    if is_empty m.custom_properties
    then encoded
    else (if is_empty system then encoded else encoded ++ "&") ++ urlencode m.custom_properties
