-- ===== src/Provisioning/Client/CreationTests.antt =====
-- A response on its way to the registration process, on concrete values.
use azure_iot_sdk_python_pre.Prelude.{◌≡◌, refl, some, [], ◌∷◌}
use azure_iot_sdk_python_pre.Text.{codes, free}
use azure_iot_sdk_python_pre.Hub.Received.{contains, starts_with}
use azure_iot_sdk_python_pre.Provisioning.Stages.Responses.{
  Decoders, request_id_of, response_topic, decoded, is_dps_response_topic, get_topic_for_response,
}
use azure_iot_sdk_python_pre.Provisioning.Client.Incoming.{
  arrive, delivered, dropped, arrive-receives,
}

-- The query has just the request id.
abbrev decoders : Decoders
decoders = record {
  parse_qs = λ query. (codes "rid", codes "ab" ∷ []) ∷ [];
  decode = λ bytes. some bytes;
}

arrive-receives_example :
    (arrive decoders (response_topic (codes "200") (codes "rid=ab")) (some (codes "{}"))
      ≡ delivered
          (codes "200")
          ((codes "rid", codes "ab" ∷ []) ∷ [])
          (request_id_of ((codes "rid", codes "ab" ∷ []) ∷ []))
          (decoded decoders.decode (some (codes "{}"))))
    × (arrive decoders (codes "devices/d") (some (codes "{}")) ≡ dropped)
unfolding codes free is_dps_response_topic contains starts_with get_topic_for_response
arrive-receives_example =
    arrive-receives decoders (codes "200") (codes "rid=ab") (codes "devices/d") (some (codes "{}"))
      refl refl refl refl
