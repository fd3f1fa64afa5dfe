-- ===== src/Hub/Incoming.antt =====
-- `_handle_pipeline_event` of `IoTHubMQTTConverterStage`
-- (iothub/pipeline/pipeline_stages_iothub_mqtt.py), on code points: what becomes of an incoming MQTT
-- message. A handler that raises is `none`.
use azure_iot_sdk_python_pre.Prelude.{
  ℕ, ◌++◌, Bool, true, false, Option, none, some, [], if◌then◌else◌,
}
use azure_iot_sdk_python_pre.Text.{Text, codes}
use azure_iot_sdk_python_pre.Hub.Message.{Json}
use azure_iot_sdk_python_pre.Hub.Received.{
  starts_with, is_c2d_topic, is_input_topic, is_method_topic, is_twin_response_topic,
  get_input_name_from_topic, get_method_name_from_topic, get_method_request_id_from_topic,
  get_twin_request_id_from_topic, get_twin_status_code_from_topic,
}
use azure_iot_sdk_python_pre.Hub.Received.Properties.{Properties, extract_properties_from_topic}
pub mod Patterns
pub mod Routing
mod Tests

-- The events that the stage passes up: the properties of a message stand before its payload.
pub data Incoming : Type 0 where
  c2d_message : Properties → Text → Incoming
  input_message : Text → Properties → Text → Incoming
  method_request : Text → Text → Json → Incoming
  iot_response : Text → ℕ → Text → Incoming
  twin_patch : Json → Incoming
  incoming_message : Text → Text → Incoming

-- The properties of a `Message` that has just its payload.
unfoldable pub no_properties : Properties
no_properties = record {
  message_id = none;
  correlation_id = none;
  user_id = none;
  to = none;
  content_type = none;
  content_encoding = none;
  custom_properties = [];
}

-- An attribute in `format`, which prints `None` as a word.
unfoldable pub formatted : Option Text → Text
unfolding codes
formatted none = codes "None"
formatted (some s) = s

unfoldable pub is_twin_desired_property_patch_topic : Text → Bool
unfolding starts_with codes
is_twin_desired_property_patch_topic topic =
    starts_with (codes "$iothub/twin/PATCH/properties/desired") topic

-- urllib's `unquote_plus`, `json.loads` of the decoded payload, and `int`
pub record Decoders : Type 0 where
  pub unquote_plus : Text → Text
  pub loads : Text → Option Json
  pub int : Text → Option ℕ

module _ (env : Decoders) where
  unfoldable pub on_c2d : Text → Text → Option Incoming
  unfolding extract_properties_from_topic no_properties
  on_c2d topic payload = elim (extract_properties_from_topic env.unquote_plus topic no_properties) [
    | none ↦ none
    | some p ↦ some (c2d_message p payload)
  ]

  unfoldable pub on_input : Text → Text → Option Incoming
  unfolding extract_properties_from_topic no_properties get_input_name_from_topic
  on_input topic payload =
      elim (extract_properties_from_topic env.unquote_plus topic no_properties) [
        | none ↦ none
        | some p ↦ elim (get_input_name_from_topic topic) [
          | none ↦ none
          | some name ↦ some (input_message name p payload)
        ]
      ]

  unfoldable pub on_method : Text → Text → Option Incoming
  unfolding get_method_request_id_from_topic get_method_name_from_topic
  on_method topic payload = elim (get_method_request_id_from_topic env.unquote_plus topic) [
    | none ↦ none
    | some request_id ↦ elim (get_method_name_from_topic topic) [
      | none ↦ none
      | some name ↦ elim (env.loads payload) [
        | none ↦ none
        | some j ↦ some (method_request request_id name j)
      ]
    ]
  ]

  unfoldable pub on_twin_response : Text → Text → Option Incoming
  unfolding get_twin_request_id_from_topic get_twin_status_code_from_topic
  on_twin_response topic payload = elim (get_twin_request_id_from_topic env.unquote_plus topic) [
    | none ↦ none
    | some request_id ↦ elim (get_twin_status_code_from_topic topic) [
      | none ↦ none
      | some status ↦ elim (env.int status) [
        | none ↦ none
        | some n ↦ some (iot_response request_id n payload)
      ]
    ]
  ]

  unfoldable pub handle_pipeline_event : Option Text → Option Text → Text → Text → Option Incoming
  unfolding on_c2d on_input on_method on_twin_response is_c2d_topic is_input_topic is_method_topic
      is_twin_response_topic is_twin_desired_property_patch_topic formatted
  handle_pipeline_event device_id module_id topic payload =
      if is_c2d_topic topic (formatted device_id)
      then on_c2d topic payload
      else (if is_input_topic topic (formatted device_id) (formatted module_id)
          then on_input topic payload
          else (if is_method_topic topic
              then on_method topic payload
              else (if is_twin_response_topic topic
                  then on_twin_response topic payload
                  else (if is_twin_desired_property_patch_topic topic
                      then (elim (env.loads payload) [ none ↦ none | some j ↦ some (twin_patch j) ])
                      else some (incoming_message topic payload)))))
