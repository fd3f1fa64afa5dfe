-- ===== src/Provisioning/Polling/Tests.antt =====
-- The theorems of the registration process on a concrete run.
use azure_iot_sdk_python_pre.Prelude.{
  ◌≡◌, refl, inr, ◌∷◌, [], some, none, str_eq, nat_eq, ◌==◌, if◌then◌else◌,
}
use azure_iot_sdk_python_pre.Provisioning.Polling.Defs.{
  State, running, start_polling_timer, send_request, machine_error, on_cancel, Machine, Service,
  transition,
}
use azure_iot_sdk_python_pre.Provisioning.Polling.Handlers.{
  documented, follow, act, send, registration_topic, clear_timers,
}
use azure_iot_sdk_python_pre.Provisioning.Polling.Events.{
  registers, cancels, responds, polling_time_up, subscribed, disconnected, register, handle,
}
use azure_iot_sdk_python_pre.Provisioning.Polling.Lifecycle.{Follows}
use azure_iot_sdk_python_pre.Provisioning.Polling.Forward.{
  handle_all, handle-Follows, over-register,
}
use azure_iot_sdk_python_pre.Provisioning.Polling.Retry.{later, throttled-registered_again}
use azure_iot_sdk_python_pre.Prelude.Dict.{lookup, insert}
use azure_iot_sdk_python_pre.Prelude.{string_eq}

abbrev service : Service
service = record {
  int10 = λ text. some 200;
  loads = λ text. none;
  query_operation_id = λ topic. none;
  uuid4 = λ n. "id";
}

abbrev fresh : Machine
fresh = record {
  state = State.disconnected;
  polling_timer = none;
  query_timer = none;
  register_callback = none;
  cancel_callback = none;
  registration_error = none;
  registration_result = none;
  operations = [];
  pending_requests = [];
  drawn = 0;
  effects = [];
}

-- A registration whose first request is on its way is cancelled.
abbrev cancelled_run : Machine
cancelled_run =
    handle_all service (documented service)
      (registers (some 1) ∷ subscribed ∷ cancels (some 2) ∷ []) fresh

handle-Follows_example :
    Follows State.disconnected
      (handle service (documented service) (registers (some 1)) fresh).0.state
handle-Follows_example =
    handle-Follows service (documented service) (λ t r m. refl) (registers (some 1)) fresh

cancelled_run-state : cancelled_run.state ≡ State.cancelling
unfolding handle_all handle documented transition follow act clear_timers
cancelled_run-state = refl

over-register_example :
    register service
      (documented service)
      (some 3)
      (handle_all service (documented service) (disconnected on_cancel ∷ []) cancelled_run)
    ≡ (
      record (handle_all service (documented service) (disconnected on_cancel ∷ []) cancelled_run) {
        register_callback = some 3;
      },
      some machine_error,
    )
over-register_example =
    over-register service (documented service) (λ t r m. refl) (disconnected on_cancel ∷ [])
      cancelled_run (some 3) (inr cancelled_run-state)

-- The service asks the first request to come back later.
abbrev throttling : Service
throttling = record {
  int10 = λ text. if str_eq text "429" then some 429 else some 7;
  loads = λ text. none;
  query_operation_id = λ topic. none;
  uuid4 = λ n. if n == 0 then "a" else "b";
}

abbrev registering_run : Machine
registering_run =
    handle_all throttling (documented throttling) (registers (some 1) ∷ subscribed ∷ []) fresh

throttled-registered_again_example :
    let waiting =
      handle throttling
        (documented throttling)
        (responds "a" "429" (some "7") "")
        registering_run in
    let again =
      handle throttling
        (documented throttling)
        (polling_time_up (later "a" (some "7")))
        waiting.0 in
    (waiting.1 ≡ none)
    × (again.1 ≡ none)
    × (again.0.state ≡ State.registering)
    × (again.0.effects
        ≡ send_request "b" none
          ∷ start_polling_timer 7 (later "a" (some "7"))
          ∷ registering_run.effects)
unfolding handle_all handle documented transition follow act send lookup insert registration_topic
throttled-registered_again_example =
    throttled-registered_again throttling "a" "429" ""
      "$dps/registrations/PUT/iotdps-register/?$rid=a" (some "7") 429 7 running registering_run refl
      refl refl refl refl refl refl
