-- ===== src/Provisioning/Polling/Retry.antt =====
-- A registration that the service answers with a status of 429 or more.
use azure_iot_sdk_python_pre.Prelude.{
  ℕ, ◌≡◌, ◌∙◌, refl, String, true, Option, none, some, ◌∷◌, leb, string_eq, arith,
}
use azure_iot_sdk_python_pre.Prelude.Dict.{lookup}
use azure_iot_sdk_python_pre.Provisioning.Polling.Defs.{
  State, Timer, QueryResult, Machine, Service, registration, start_polling_timer, send_request,
  transition,
}
use azure_iot_sdk_python_pre.Provisioning.Polling.Handlers.{
  act, wait, send, follow, documented, cancel_query_timer, cancel_polling_timer,
}
use azure_iot_sdk_python_pre.Provisioning.Polling.Events.{
  on_response, by_status, retry, retry_registration, receive_response, time_up_polling, handle,
  responds, polling_time_up,
}

-- The interval that the service asks for, or that of the client.
abbrev pub interval : Service → Option String → Option ℕ
interval env none = some 2
interval env (some text) = env.int10 text

abbrev pub later : String → Option String → QueryResult
later request_id retry_after = record {
  request_id = request_id;
  retry_after = retry_after;
  operation_id = none;
  status = none;
}

throttled-waits :
    (env : Service) (request_id status_code body topic : String) (retry_after : Option String)
    (code seconds : ℕ) (t : Timer) (m : Machine)
    → m.state ≡ State.registering
    → lookup request_id m.pending_requests ≡ some registration
    → lookup request_id m.operations ≡ some topic
    → m.query_timer ≡ some t
    → env.int10 status_code ≡ some code
    → leb 429 code ≡ true
    → interval env retry_after ≡ some seconds
    → let waiting =
        handle env (documented env) (responds request_id status_code retry_after body) m in
      (waiting.1 ≡ none)
      × (waiting.0.state ≡ State.waiting_to_poll)
      × (waiting.0.effects ≡ start_polling_timer seconds (later request_id retry_after) ∷ m.effects)
      × (waiting.0.drawn ≡ m.drawn)
      × (waiting.0.polling_timer ≡ some Timer.running)
unfolding handle receive_response on_response by_status retry retry_registration cancel_query_timer
    documented transition follow act wait
throttled-waits env id status body topic none code seconds t m s p o q i c r =
    ground (arith, s, p, o, q, i, c, r)
throttled-waits env id status body topic (some text) code seconds t m s p o q i c r =
    ground (arith, s, p, o, q, i, c, r)

time_up-sends :
    (env : Service) (request_id : String) (retry_after : Option String) (t : Timer) (m : Machine)
    → m.state ≡ State.waiting_to_poll
    → m.polling_timer ≡ some t
    → let again = handle env (documented env) (polling_time_up (later request_id retry_after)) m in
      (again.1 ≡ none)
      × (again.0.state ≡ State.registering)
      × (again.0.effects ≡ send_request (env.uuid4 m.drawn) none ∷ m.effects)
unfolding handle time_up_polling cancel_polling_timer documented transition follow act send
time_up-sends env id retry_after t m s p = ground (arith, s, p)

-- A registration that waits for its response is answered with a status of 429 or more, and the
-- interval that the answer asks for, if it does, is a number: no exception is raised, a timer for
-- this interval starts, or for 2 seconds, and when its time is up the machine is registering again
-- and has sent a registration under a new request id.
pub throttled-registered_again :
    (env : Service) (request_id status_code body topic : String) (retry_after : Option String)
    (code seconds : ℕ) (t : Timer) (m : Machine)
    → m.state ≡ State.registering
    → lookup request_id m.pending_requests ≡ some registration
    → lookup request_id m.operations ≡ some topic
    → m.query_timer ≡ some t
    → env.int10 status_code ≡ some code
    → leb 429 code ≡ true
    → interval env retry_after ≡ some seconds
    → let waiting =
        handle env (documented env) (responds request_id status_code retry_after body) m in
      let result = later request_id retry_after in
      let again = handle env (documented env) (polling_time_up result) waiting.0 in
      (waiting.1 ≡ none)
      × (again.1 ≡ none)
      × (again.0.state ≡ State.registering)
      × (again.0.effects
          ≡ send_request (env.uuid4 m.drawn) none ∷ start_polling_timer seconds result ∷ m.effects)
throttled-registered_again env id status body topic retry_after code seconds t m s p o q i c r =
    let (fine, state, effects, drawn, timer) =
      throttled-waits env id status body topic retry_after code seconds t m s p o q i c r in
    let (sent, registering, more) =
      time_up-sends env id retry_after Timer.running
        (handle env (documented env) (responds id status retry_after body) m).0 state timer in
    (fine, sent, registering, more ∙ rw (drawn, effects) refl)
