-- ===== src/Provisioning/Client/Incoming.antt =====
-- The way of a response to the registration process: `_on_pipeline_event` of `ProvisioningPipeline`
-- (provisioning/pipeline/provisioning_pipeline.py), its other two handlers, and what the response
-- callbacks of provisioning/internal/polling_machine.py read of the topic, on code points.
use azure_iot_sdk_python_pre.Prelude.{
  ◌≡◌, ◌∙◌, refl, ap, Bool, true, false, Option, none, some, List, [], ◌∷◌, arith, if◌then◌else◌,
}
use azure_iot_sdk_python_pre.Prelude.Dict.{Dict, lookup}
use azure_iot_sdk_python_pre.Text.{Text, codes, text_eq, free}
use azure_iot_sdk_python_pre.Hub.Received.{slash, dollar}
use azure_iot_sdk_python_pre.Provisioning.Stages.Responses.{
  Incoming, registration_response, incoming_message, Decoders, is_dps_response_topic,
  handle_pipeline_event, response_topic, request_id_of, both, decoded,
  handle_pipeline_event-response,
}

-- What becomes of an event: the call of `_receive_response`, nothing, or an exception.
pub data Delivery : Type 0 where
  receives : Text → Text → Dict Text (List Text) → Text → Delivery
  dropped : Delivery
  raised : Delivery

unfoldable pub on_pipeline_event : Bool → Incoming → Delivery
on_pipeline_event on_message_received (registration_response id status key_values response) =
    if on_message_received then receives id status key_values response else dropped
on_pipeline_event on_message_received (incoming_message topic payload) = dropped

-- `_on_connected` and `_on_disconnected`: the texts that a handler gets.
unfoldable pub on_connected_call : Bool → Bool → Option Text
unfolding codes
on_connected_call has_handler connected =
    if has_handler
    then some (if connected then codes "connected" else codes "disconnected")
    else none

-- `None if "retry-after" not in key_values_dict else str(key_values_dict["retry-after"][0])`, `none`
-- if it raises.
unfoldable pub retry_after_of : Dict Text (List Text) → Option (Option Text)
unfolding lookup codes
retry_after_of key_values = elim (lookup (codes "retry-after") key_values) [
  | none ↦ some none
  | some [] ↦ none
  | some (seconds ∷ _) ↦ some (some seconds)
]

-- What the handler of the stages passes up, if it did not raise.
unfoldable pub deliver : Option Incoming → Delivery
unfolding on_pipeline_event
deliver none = raised
deliver (some e) = on_pipeline_event true e

-- A message from the transport, up to the process.
unfoldable pub arrive : Decoders → Text → Option Text → Delivery
unfolding deliver
arrive env topic payload = deliver (handle_pipeline_event env topic payload)

-- Whom a response reaches, with the id, the text and the interval to wait for that were read.
abbrev pub delivered : Text → Dict Text (List Text) → Option Text → Option Text → Delivery
delivered status key_values none response = raised
delivered status key_values (some id) none = raised
delivered status key_values (some id) (some response) = receives id status key_values response

delivered-both :
    (status : Text) (key_values : Dict Text (List Text)) (id response : Option Text)
    → deliver
        (both id response (λ id response. registration_response id status key_values response))
      ≡ delivered status key_values id response
unfolding deliver on_pipeline_event
delivered-both status key_values none response = refl
delivered-both status key_values (some id) none = refl
delivered-both status key_values (some id) (some response) = refl

passed_on :
    (env : Decoders) (topic : Text) (payload : Option Text)
    → is_dps_response_topic topic ≡ false
    → handle_pipeline_event env topic payload ≡ some (incoming_message topic payload)
unfolding handle_pipeline_event
passed_on env topic payload other = ground (arith, other)

-- A message on a documented topic of a response, with a status without "$" and "/" and a query without
-- "$", reaches `_receive_response` with the first request id of the query, the status, what
-- `parse_qs` reads of the query and the decoded payload; if there is no id, no payload or no text,
-- it is an exception. A message on any topic that is none of a response is dropped.
pub arrive-receives :
    (env : Decoders) (status query topic : Text) (payload : Option Text)
    → free dollar status ≡ true
    → free slash status ≡ true
    → free dollar query ≡ true
    → is_dps_response_topic topic ≡ false
    → (arrive env (response_topic status query) payload
        ≡ delivered status
            (env.parse_qs query)
            (request_id_of (env.parse_qs query))
            (decoded env.decode payload))
      × (arrive env topic payload ≡ dropped)
unfolding arrive deliver on_pipeline_event
arrive-receives env status query topic payload f g h other = (
  ap deliver (handle_pipeline_event-response env status query payload f g h)
      ∙ delivered-both status (env.parse_qs query) (request_id_of (env.parse_qs query))
          (decoded env.decode payload),
  ap deliver (passed_on env topic payload other),
)
