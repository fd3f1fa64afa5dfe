-- ===== src/Provisioning/Polling/Observed.antt =====
-- What the responses, the timers and the end of the subscription do to the process, by what each
-- trigger does to it.
use azure_iot_sdk_python_pre.Prelude.{ℕ, String, Option, List, arith, string_eq}
use azure_iot_sdk_python_pre.Provisioning.Polling.Defs.{
  State, Trigger, QueryResult, Purpose, registration, query, Body, Effect, Machine, Service,
}
use azure_iot_sdk_python_pre.Provisioning.Polling.Handlers.{
  Outcome, cancel_query_timer, cancel_polling_timer,
}
use azure_iot_sdk_python_pre.Provisioning.Polling.Events.{
  decoded, process_successful_response, retry_registration, retry_query, retry, by_status,
  on_response, receive_response, time_up_query, time_up_polling,
}

-- A relation of what a client can observe that `fire` keeps holds over what the service, the
-- timers and the pipeline do before the process disconnects.
module _ {V : Type 0} (view : State → Option ℕ → List Effect → V) (F : V → V → Type 0)
    (same : (v : V) → F v v) (env : Service) (fire : Trigger → QueryResult → Machine → Outcome)
    (leads : (t : Trigger) (r : QueryResult) (m : Machine)
      → F
          (view m.state m.register_callback m.effects)
          (view (fire t r m).0.state (fire t r m).0.register_callback (fire t r m).0.effects)) where
  abbrev Leads : Machine → Outcome → Type 0
  Leads m o =
      F (view m.state m.register_callback m.effects)
        (view o.0.state o.0.register_callback o.0.effects)

  decoded-Leads :
      (request_id : String) (retry_after : Option String) (body : Body) (m : Machine)
      → Leads m (decoded env fire request_id retry_after body m)
  unfolding decoded
  decoded-Leads request_id retry_after body m = grind (arith, leads)

  successful-Leads :
      (request_id : String) (retry_after : Option String) (response : String) (m : Machine)
      → Leads m (process_successful_response env fire request_id retry_after response m)
  unfolding process_successful_response
  successful-Leads request_id retry_after response m = grind (arith, leads, decoded-Leads)

  retry-Leads :
      (purpose : Purpose) (request_id : String) (retry_after : Option String) (m : Machine)
      → Leads m (retry env fire purpose request_id retry_after m)
  unfolding retry retry_registration retry_query
  retry-Leads registration request_id retry_after m = grind (arith, leads)
  retry-Leads query request_id retry_after m = grind (arith, leads)

  by_status-Leads :
      (purpose : Purpose) (request_id : String) (code : ℕ) (retry_after : Option String)
      (response : String) (m : Machine)
      → Leads m (by_status env fire purpose request_id code retry_after response m)
  unfolding by_status
  by_status-Leads purpose request_id code retry_after response m =
      grind (arith, leads, successful-Leads, retry-Leads)

  on_response-Leads :
      (purpose : Purpose) (request_id status_code : String) (retry_after : Option String)
      (response : String) (m : Machine)
      → Leads m (on_response env fire purpose request_id status_code retry_after response m)
  unfolding on_response cancel_query_timer cancel_polling_timer
  on_response-Leads registration request_id status_code retry_after response m =
      grind (arith, by_status-Leads)
  on_response-Leads query request_id status_code retry_after response m =
      grind (arith, by_status-Leads)

  pub receive_response-Leads :
      (request_id status_code : String) (retry_after : Option String) (response : String)
      (m : Machine)
      → Leads m (receive_response env fire request_id status_code retry_after response m)
  unfolding receive_response
  receive_response-Leads request_id status_code retry_after response m =
      grind (arith, on_response-Leads)

  pub timer-Leads :
      (result : QueryResult) (m : Machine)
      → Leads m (time_up_query env fire m) × Leads m (time_up_polling env fire result m)
  unfolding time_up_query time_up_polling cancel_query_timer cancel_polling_timer
  timer-Leads result m = (grind (arith, leads, same), grind (arith, leads, same))
