-- ===== src/Provisioning/Stages/Requests.antt =====
-- The requests of the polling machine as the stages of the provisioning pipeline publish them.
use mathlib.Core.Option
use azure_iot_sdk_python_pre.Prelude.{
  String, ◌≡◌, refl, ap, sym, Option, none, some, List, [], ◌∷◌, string_eq, eq_refl, arith,
}
use azure_iot_sdk_python_pre.Prelude.Dict.{Dict, lookup, insert, lookup-insert}
use azure_iot_sdk_python_pre.Provisioning.Polling.Defs.{
  Machine, QueryResult, Service, send_register_request, query_operation_status,
  send_request as sends_request,
}
use azure_iot_sdk_python_pre.Provisioning.Polling.Handlers.{
  act, send, registration_topic, querying_topic,
}
use azure_iot_sdk_python_pre.Provisioning.Stages.{
  Kind, publish, convert, send_request, get_topic_for_register, get_topic_for_query,
}

-- What the converter stage makes of the latest request of the machine, whose payload is " ".
unfoldable pub published : (List (String × String) → String) → Machine → Option Kind
unfolding convert send_request
published urlencode m = elim m.effects [
  | [] ↦ none
  | e ∷ _ ↦ elim e as (λ _. Option Kind) [
    | sends_request request_id operation_id ↦
        convert urlencode (send_request request_id " " operation_id)
    | _ ↦ none
  ]
]

-- The publish of the topic that the machine has recorded for a request.
abbrev pub recorded : String → Machine → Option Kind
recorded request_id m = Option.map (λ topic. publish topic " ") (lookup request_id m.operations)

lookup-inserted : (k v : String) (d : Dict String String) → lookup k (insert k v d) ≡ some v
lookup-inserted k v d = ground (arith, lookup-insert k k v d, eq_refl k)

-- The machine records, for a registration, and for a query with an operation id, the topic that the
-- stage then publishes on. A query without an operation id is published as a registration.
pub request-published :
    (env : Service) (urlencode : List (String × String) → String) (result : QueryResult)
    (m : Machine) (operation_id : String)
    → let request_id = env.uuid4 m.drawn in
      (published urlencode (act env result send_register_request m).0
        ≡ recorded request_id (act env result send_register_request m).0)
      × (result.operation_id ≡ some operation_id
          → published urlencode (act env result query_operation_status m).0
            ≡ recorded request_id (act env result query_operation_status m).0)
      × (result.operation_id ≡ none
          → published urlencode (act env result query_operation_status m).0
            ≡ published urlencode (act env result send_register_request m).0)
unfolding published act send convert send_request registration_topic querying_topic
    get_topic_for_register get_topic_for_query
request-published env urlencode result m operation_id =
    let request_id = env.uuid4 m.drawn in
    (
      ap (Option.map (λ topic. publish topic " "))
          (sym (lookup-inserted request_id (registration_topic request_id) m.operations)),
      λ e. rw e (
          ap (Option.map (λ topic. publish topic " ")) (
            sym (
              lookup-inserted request_id (querying_topic request_id (some operation_id))
                m.operations))),
      λ e. rw e refl,
    )
