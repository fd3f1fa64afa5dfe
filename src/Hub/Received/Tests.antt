-- ===== src/Hub/Received/Tests.antt =====
-- The theorems of the received topics on concrete topics, with an `unquote_plus` that reads "+".
use azure_iot_sdk_python_pre.Prelude.{List, [], ◌∷◌, ◌≡◌, refl, ◌==◌, some, none, if◌then◌else◌}
use azure_iot_sdk_python_pre.Prelude.Dict.{lookup, insert, erase}
use azure_iot_sdk_python_pre.Text.{get_elem?, Text, codes, equal, text_eq}
use azure_iot_sdk_python_pre.Hub.Received.Properties.{Properties, set_property, set_all}
use azure_iot_sdk_python_pre.Hub.Received.{
  get_twin_request_id_from_topic, get_input_name_from_topic, extract_properties,
}
use azure_iot_sdk_python_pre.Hub.Received.Formats.{plus}

unquote : Text → Text
unquote [] = []
unquote (c ∷ s) = (if c == plus then 32 else c) ∷ unquote s

-- The topic of the documentation, with a second property.
twin_version :
    get_twin_request_id_from_topic unquote (codes "$iothub/twin/res/200/?$rid=ab&$version=6")
    ≡ some (codes "ab")
unfolding get_twin_request_id_from_topic unquote lookup insert erase equal
twin_version = refl

-- A property without a value raises.
no_value : extract_properties unquote (codes "$rid") ≡ none
unfolding extract_properties codes get_elem?
no_value = refl

input_name : get_input_name_from_topic (codes "devices/d/modules/m/inputs/i/a=b") ≡ some (codes "i")
unfolding get_input_name_from_topic
input_name = refl

abbrev no_properties : Properties
no_properties = record {
  message_id = none;
  correlation_id = none;
  user_id = none;
  to = none;
  content_type = none;
  content_encoding = none;
  custom_properties = [];
}

abbrev properties : List (Text × Text)
properties = (codes "colour", codes "a=b&c") ∷ (codes "$.to", codes "/devices/d") ∷ []

-- The two attributes and the custom property are set.
set_message_id :
    (set_all ((codes "$.mid", codes "7") ∷ properties) no_properties).message_id ≡ some (codes "7")
unfolding set_all set_property codes equal
set_message_id = refl
