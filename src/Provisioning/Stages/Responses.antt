-- ===== src/Provisioning/Stages/Responses.antt =====
-- `_handle_pipeline_event` of `ProvisioningMQTTConverterStage`
-- (provisioning/pipeline/pipeline_stages_provisioning_mqtt.py), with the functions of
-- provisioning/pipeline/mqtt_topic.py that read a topic, on code points. A handler that raises is
-- `none`; `parse_qs` is urllib's, and `decode` that of bytes.
use azure_iot_sdk_python_pre.Prelude.{
  ◌≡◌, ◌∙◌, refl, ap, Bool, true, Option, none, some, List, [], ◌∷◌, ◌++◌, arith, if◌then◌else◌,
}
use azure_iot_sdk_python_pre.Prelude.Dict.{Dict, lookup}
use azure_iot_sdk_python_pre.Text.{
  Text, codes, text_eq, split, get_elem?, free, split-free, split-append, free-append,
}
use azure_iot_sdk_python_pre.Hub.Received.{slash, dollar, starts_with, contains}

unfoldable pub get_topic_for_response : Text
unfolding codes
get_topic_for_response = codes "$dps/registrations/res/"

unfoldable pub is_dps_response_topic : Text → Bool
unfolding contains get_topic_for_response
is_dps_response_topic topic = contains get_topic_for_response topic

unfoldable pub extract_status_code_from_topic : Text → Option Text
unfolding split get_elem?
extract_status_code_from_topic topic = elim (get_elem? (split dollar topic) 1) [
  | none ↦ none
  | some url ↦ get_elem? (split slash url) 3
]

-- The events that are passed up.
pub data Incoming : Type 0 where
  registration_response : Text → Text → Dict Text (List Text) → Text → Incoming
  incoming_message : Text → Option Text → Incoming

pub record Decoders : Type 0 where
  pub parse_qs : Text → Dict Text (List Text)
  pub decode : Text → Option Text

-- `key_values["rid"][0]`
unfoldable pub request_id_of : Dict Text (List Text) → Option Text
unfolding lookup codes
request_id_of key_values = elim (lookup (codes "rid") key_values) [
  | none ↦ none
  | some [] ↦ none
  | some (id ∷ _) ↦ some id
]

module _ (env : Decoders) where
  unfoldable pub extract_properties_from_topic : Text → Option (Dict Text (List Text))
  unfolding split get_elem?
  extract_properties_from_topic topic = elim (get_elem? (split dollar topic) 2) [
    | none ↦ none
    | some query ↦ some (env.parse_qs query)
  ]

  -- Without a payload the name `response` is not bound, which raises.
  unfoldable pub on_response : Text → Option Text → Option Incoming
  unfolding extract_properties_from_topic extract_status_code_from_topic request_id_of
  on_response topic payload = elim (extract_properties_from_topic topic) [
    | none ↦ none
    | some key_values ↦ elim (extract_status_code_from_topic topic) [
      | none ↦ none
      | some status_code ↦ elim (request_id_of key_values) [
        | none ↦ none
        | some request_id ↦ elim payload [
          | none ↦ none
          | some bytes ↦ elim (env.decode bytes) [
            | none ↦ none
            | some response ↦
                some (registration_response request_id status_code key_values response)
          ]
        ]
      ]
    ]
  ]

  unfoldable pub handle_pipeline_event : Text → Option Text → Option Incoming
  unfolding is_dps_response_topic on_response
  handle_pipeline_event topic payload =
      if is_dps_response_topic topic
      then on_response topic payload
      else some (incoming_message topic payload)

-- "$dps/registrations/res/{status}/?${query}"
unfoldable pub response_topic : Text → Text → Text
unfolding codes
response_topic status query =
    codes "$dps/registrations/res/" ++ ((status ++ codes "/?") ++ (dollar ∷ query))

-- What two results give, if both are there.
abbrev pub both : Option Text → Option Text → (Text → Text → Incoming) → Option Incoming
both none o f = none
both (some a) none f = none
both (some a) (some b) f = some (f a b)

abbrev pub decoded : (Text → Option Text) → Option Text → Option Text
decoded decode none = none
decoded decode (some bytes) = decode bytes

response_topic-parts :
    (status query : Text)
    → free dollar status ≡ true
    → free dollar query ≡ true
    → split dollar (response_topic status query)
      ≡ [] ∷ (codes "dps/registrations/res/" ++ (status ++ codes "/?")) ∷ query ∷ []
unfolding response_topic codes free
response_topic-parts s q f g =
    let url = codes "dps/registrations/res/" ++ (s ++ codes "/?") in
    split-append dollar [] (url ++ (dollar ∷ q)) refl
    ∙ ap (λ parts. [] ∷ parts)
        (split-append dollar url q (free-append dollar s (codes "/?") f refl)
          ∙ ap (λ parts. url ∷ parts) (split-free dollar q g))

url-parts :
    (status : Text)
    → free slash status ≡ true
    → get_elem? (split slash (codes "dps/registrations/res/" ++ (status ++ codes "/?"))) 3
      ≡ some status
unfolding codes split get_elem?
url-parts s f = ap (λ parts. get_elem? parts 0) (split-append slash s (63 ∷ []) f)

response_topic-is_dps_response :
    (status query : Text) → is_dps_response_topic (response_topic status query) ≡ true
unfolding is_dps_response_topic contains starts_with get_topic_for_response response_topic codes
response_topic-is_dps_response s q = refl

-- A message on a documented topic, with a status without "$" and "/" and a query without "$", becomes
-- the response with this status, what `parse_qs` reads of the query, the first of its request ids
-- and the decoded payload; if there is no id, no payload or no text, the handler raises.
pub handle_pipeline_event-response :
    (env : Decoders) (status query : Text) (payload : Option Text)
    → free dollar status ≡ true
    → free slash status ≡ true
    → free dollar query ≡ true
    → handle_pipeline_event env (response_topic status query) payload
      ≡ both
          (request_id_of (env.parse_qs query))
          (decoded env.decode payload)
          (λ id response. registration_response id status (env.parse_qs query) response)
unfolding handle_pipeline_event on_response extract_properties_from_topic
    extract_status_code_from_topic
handle_pipeline_event-response env s q payload f g h =
    ground (arith, response_topic-is_dps_response s q, response_topic-parts s q f h, url-parts s g)
