-- ===== src/Provisioning/Polling/Events.antt =====
-- What reaches the registration process: the client's calls, the callbacks of the provisioning
-- pipeline, the responses of the service and the timers. `fire` is the `transitions` library: it
-- runs a trigger on the machine, with the result that the event carries.
use azure_iot_sdk_python_pre.Prelude.{
  ℕ, String, Option, none, some, ◌∷◌, ◌||◌, leb, str_eq, string_eq, if◌then◌else◌,
}
use azure_iot_sdk_python_pre.Prelude.Dict.{lookup, erase}
use azure_iot_sdk_python_pre.Provisioning.Polling.Defs.{
  Trigger, trig_register, trig_send_register_request, trig_wait, trig_poll, trig_complete,
  trig_error, trig_cancel, QueryResult, Body, message_failure, never_sent, other_failure,
  query_timeout, key_error, value_error, Purpose, registration, query, Ending, on_error, on_cancel,
  on_register, registered, cancelled, Machine, Service,
}
use azure_iot_sdk_python_pre.Provisioning.Polling.Handlers.{
  Outcome, returns, ◌>>=◌, cancel_query_timer, cancel_polling_timer,
}

-- A trigger with no argument of interest.
abbrev pub no_result : QueryResult
no_result = record { request_id = ""; retry_after = none; operation_id = none; status = none }

pub data Event : Type 0 where
  registers cancels : Option ℕ → Event
  subscribed query_time_up : Event
  responds : String → String → Option String → String → Event
  polling_time_up : QueryResult → Event
  disconnected : Ending → Event

module _ (env : Service) (fire : Trigger → QueryResult → Machine → Outcome) where
  -- `register` and `cancel`
  unfoldable pub register : Option ℕ → Machine → Outcome
  register callback m = fire trig_register no_result (record m { register_callback = callback })

  unfoldable pub cancel : Option ℕ → Machine → Outcome
  cancel callback m = fire trig_cancel no_result (record m { cancel_callback = callback })

  -- `_on_subscribe_completed`
  unfoldable pub subscribe_completed : Machine → Outcome
  subscribe_completed m = fire trig_send_register_request no_result m

  -- `_process_successful_response`, with the two decoders
  unfoldable pub decoded : String → Option String → Body → Machine → Outcome
  decoded request_id retry_after body m =
      let result : QueryResult = record {
        request_id = request_id;
        retry_after = retry_after;
        operation_id = body.operation_id;
        status = body.status;
      } in
      let failed =
        fire trig_error no_result (record m { registration_error = some other_failure }) in
      elim body.status [
        | none ↦ failed
        | some status ↦
            if str_eq status "assigning"
            then fire trig_wait result m
            else if str_eq status "assigned" || str_eq status "failed"
            then (fire trig_complete no_result (record m {
              registration_result = some (record {
                request_id = request_id;
                operation_id = body.operation_id;
                status = some status;
                registration_state = body.registration_state;
              });
            }))
            else failed
      ]

  unfoldable pub process_successful_response : String → Option String → String → Machine → Outcome
  unfolding decoded
  process_successful_response request_id retry_after response m =
      elim (lookup request_id m.operations) [
        | none ↦ (m, some key_error)
        | some _ ↦
            let m' = record m { operations = erase request_id m.operations } in
            elim (env.loads response) [
              | none ↦ (m', some value_error)
              | some body ↦ decoded request_id retry_after body m'
            ]
      ]

  abbrev result_of : String → Option String → Option String → QueryResult
  result_of request_id retry_after operation_id = record {
    request_id = request_id;
    retry_after = retry_after;
    operation_id = operation_id;
    status = none;
  }

  -- A status of 429 or more, for a registration and for a query
  unfoldable pub retry_registration : String → Option String → Machine → Outcome
  retry_registration request_id retry_after m = elim (lookup request_id m.operations) [
    | none ↦ (m, some key_error)
    | some _ ↦
        fire trig_wait (result_of request_id retry_after none)
          (record m { operations = erase request_id m.operations })
  ]

  unfoldable pub retry_query : String → Option String → Machine → Outcome
  retry_query request_id retry_after m = elim (lookup request_id m.operations) [
    | none ↦ fire trig_error no_result (record m { registration_error = some never_sent })
    | some topic ↦
        let m' = record m { operations = erase request_id m.operations } in
        elim (env.query_operation_id topic) [
          | none ↦ (m', some key_error)
          | some operation_id ↦
              fire trig_wait (result_of request_id retry_after (some operation_id)) m'
        ]
  ]

  unfoldable pub retry : Purpose → String → Option String → Machine → Outcome
  unfolding retry_registration retry_query
  retry registration = retry_registration
  retry query = retry_query

  -- What both response callbacks do by the status code
  unfoldable pub by_status : Purpose → String → ℕ → Option String → String → Machine → Outcome
  unfolding retry process_successful_response
  by_status purpose request_id code retry_after response m =
      if leb 429 code
      then retry purpose request_id retry_after m
      else if leb 300 code
      then fire trig_error no_result (record m { registration_error = some message_failure })
      else process_successful_response request_id retry_after response m

  -- `_on_register_response_received` and `_on_query_response_received`
  unfoldable pub on_response :
      Purpose → String → String → Option String → String → Machine → Outcome
  unfolding by_status cancel_query_timer cancel_polling_timer
  on_response purpose request_id status_code retry_after response m = cancel_query_timer m >>= λ m.
      elim purpose [ registration ↦ returns m | query ↦ cancel_polling_timer m ] >>= λ m.
      elim (env.int10 status_code) [
        | none ↦ (m, some value_error)
        | some code ↦ by_status purpose request_id code retry_after response m
      ]

  -- `RequestResponseProvider._receive_response`
  unfoldable pub receive_response : String → String → Option String → String → Machine → Outcome
  unfolding on_response
  receive_response request_id status_code retry_after response m =
      elim (lookup request_id m.pending_requests) [
        | none ↦ returns m
        | some purpose ↦ on_response purpose request_id status_code retry_after response m >>= λ m.
            returns (record m { pending_requests = erase request_id m.pending_requests })
      ]

  -- `time_up_query` and `time_up_polling`
  unfoldable pub time_up_query : Machine → Outcome
  unfolding cancel_query_timer
  time_up_query m = cancel_query_timer m >>= λ m.
      fire trig_error no_result (record m { registration_error = some query_timeout })

  unfoldable pub time_up_polling : QueryResult → Machine → Outcome
  unfolding cancel_polling_timer
  time_up_polling result m = cancel_polling_timer m >>= λ m. elim result.operation_id [
    | none ↦ fire trig_send_register_request result m
    | some _ ↦ fire trig_poll result m
  ]

  -- `_on_disconnect_completed_error`, `_on_disconnect_completed_cancel` and
  -- `_on_disconnect_completed_register`
  unfoldable pub disconnect_completed : Ending → Machine → Outcome
  disconnect_completed on_error m = elim m.register_callback [
    | none ↦ returns m
    | some c ↦ returns (record m {
      register_callback = none;
      effects = registered c none m.registration_error ∷ m.effects;
    })
  ]
  disconnect_completed on_cancel m = elim m.cancel_callback [
    | none ↦ returns m
    | some c ↦ returns (record m { cancel_callback = none; effects = cancelled c ∷ m.effects })
  ]
  disconnect_completed on_register m = elim m.register_callback [
    | none ↦ returns m
    | some c ↦ returns (record m {
      register_callback = none;
      effects = registered c m.registration_result none ∷ m.effects;
    })
  ]

  unfoldable pub handle : Event → Machine → Outcome
  unfolding register cancel subscribe_completed receive_response time_up_query time_up_polling
      disconnect_completed
  handle (registers callback) m = register callback m
  handle (cancels callback) m = cancel callback m
  handle subscribed m = subscribe_completed m
  handle (responds request_id status_code retry_after body) m =
      receive_response request_id status_code retry_after body m
  handle query_time_up m = time_up_query m
  handle (polling_time_up result) m = time_up_polling result m
  handle (disconnected e) m = disconnect_completed e m
