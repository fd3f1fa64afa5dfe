-- ===== src/Provisioning/Client/Tests.antt =====
-- The theorems of the provisioning client on concrete runs.
use azure_iot_sdk_python_pre.Prelude.{
  ◌≡◌, ◌≤◌, ◌+◌, ◌-◌, List, length, refl, inl, inr, ◌∷◌, [], some, none, Option, nat_eq, arith,
  string_eq,
}
use azure_iot_sdk_python_pre.Prelude.Dict.{lookup, insert}
use azure_iot_sdk_python_pre.Errors.{Error, connection_failed}
use azure_iot_sdk_python_pre.Provisioning.Polling.Defs.{
  State, Effect, Ending, on_cancel, on_register, Machine, Service, Body, Timer, registered,
  registration, transition, new_machine,
}
use azure_iot_sdk_python_pre.Provisioning.Polling.Handlers.{
  documented, follow, act, send, registration_topic, clear_timers,
}
use azure_iot_sdk_python_pre.Provisioning.Polling.Events.{
  registers, cancels, responds, subscribed, disconnected, handle,
}
use azure_iot_sdk_python_pre.Provisioning.Polling.Forward.{handle_all}
use azure_iot_sdk_python_pre.Provisioning.Pipeline.{completion}
use azure_iot_sdk_python_pre.Provisioning.Client.{
  client_register, client_cancel, registrations, cancellations, status, waiting, returned,
  waits_registered,
}
use azure_iot_sdk_python_pre.Provisioning.Client.Once.{
  registering, holds, answers, registers_with, answers-handle_all, overtaken-waits,
}
use azure_iot_sdk_python_pre.Provisioning.Client.Steps.{Steps, Moves, alone, react, ends}
use azure_iot_sdk_python_pre.Provisioning.Client.Stuck.{failed_subscription-waits}
use azure_iot_sdk_python_pre.Provisioning.Client.Cancelled.{cancelled-waits}
use azure_iot_sdk_python_pre.Threads.Awaitable.{
  Loop, count, run_loop, wrapping_callback, new_loop, History, starts, calls, runs,
}
use azure_iot_sdk_python_pre.Provisioning.Client.Asyncio.{
  Callback, sync_on_register_complete, sync_on_cancel_complete, callback_eq, called,
  completion as completed_in, async_register, async_cancel, run_in_executor,
  run_in_executor-client_register,
}
use azure_iot_sdk_python_pre.Provisioning.Client.Answered.{
  answered-returns, verdict, by_body, asking,
}
use mathlib.Core.List.{Memᴰ}
use mathlib.Core.List.Memᴰ.{cases_cons, not-nil}

abbrev service : Service
service = record {
  int10 = λ text. some 200;
  loads = λ text.
      some
        (record { operation_id = some "4"; status = some "assigned"; registration_state = none });
  query_operation_id = λ topic. none;
  uuid4 = λ n. "id";
}

-- A registration that is assigned, from the call to the end of the disconnection.
answers-handle_all_example :
    let es =
      registers (some 1)
      ∷ subscribed
      ∷ responds "id" "200" none "{}"
      ∷ disconnected on_register
      ∷ [] in
    answers 1 (handle_all service (documented service) es new_machine)
    ≤ answers 1 new_machine + registering 1 es
answers-handle_all_example =
    answers-handle_all 1 service (documented service) (λ t r m. refl)
      (registers (some 1)
        ∷ subscribed
        ∷ responds "id" "200" none "{}"
        ∷ disconnected on_register
        ∷ [])
      new_machine

abbrev registering_run : Machine
registering_run =
    handle_all service (documented service) (registers (some 1) ∷ subscribed ∷ []) new_machine

overtaken-waits_example :
    status
      (handle_all service
        (documented service)
        (registers (some 2) ∷ responds "id" "200" none "{}" ∷ disconnected on_register ∷ [])
        registering_run).effects
      (waits_registered 1)
    ≡ waiting
unfolding handle_all handle documented transition follow act send registrations registers_with holds
overtaken-waits_example =
    overtaken-waits 1 service (documented service) (λ t r m. refl) 2
      (responds "id" "200" none "{}" ∷ disconnected on_register ∷ []) registering_run (omega arith)
      refl refl

abbrev refusing : Effect → Option Error
refusing o = some connection_failed

failed_subscription-waits_example :
    ((client_register service (documented service) 1 new_machine).0.state ≡ State.initializing)
    × (status
          (client_register service (documented service) 1 new_machine).0.effects
          (client_register service (documented service) 1 new_machine).1
        ≡ waiting)
failed_subscription-waits_example =
    failed_subscription-waits service (documented service) (λ t r m. refl) refusing 1
      connection_failed refl Steps.stop

-- The first request is on its way when the registration is cancelled, and then the disconnection
-- ends.
abbrev cancelled_run : Machine
cancelled_run = handle_all service (documented service) (cancels (some 2) ∷ []) registering_run

cancelled_run-quiet :
    (e : Ending) → Memᴰ (Effect.disconnect e) cancelled_run.effects → e ≡ on_cancel
unfolding handle_all handle documented transition follow act send clear_timers
cancelled_run-quiet e h = elim (cases_cons h) [
  | inl same ↦ cc
  | inr older ↦ elim (cases_cons older) [
    | inl same ↦ cc
    | inr oldest ↦ elim (cases_cons oldest) [
      | inl same ↦ cc
      | inr nowhere ↦ elim (not-nil nowhere) [ ]
    ]
  ]
]

cancelled_run-waits : status cancelled_run.effects (waits_registered 1) ≡ waiting
unfolding handle_all handle documented transition follow act send clear_timers status registrations
cancelled_run-waits = refl

cancelled_run-state : cancelled_run.state ≡ State.cancelling
unfolding handle_all handle documented transition follow act send clear_timers
cancelled_run-state = refl

abbrev accepting : Effect → Option Error
accepting o = none

cancelled-waits_example :
    status
      (react service
        (documented service)
        accepting
        (completion (Effect.disconnect on_cancel) none)
        cancelled_run).effects
      (waits_registered 1)
    ≡ waiting
unfolding handle_all handle documented transition follow act send clear_timers
cancelled-waits_example =
    cancelled-waits service (documented service) (λ t r m. refl) accepting 1 cancelled_run
      cancelled_run-state cancelled_run-quiet cancelled_run-waits
      (Moves.more Moves.stop (alone (ends (Effect.disconnect on_cancel) (Memᴰ.head refl))))

abbrev assigned : Body
assigned = record { operation_id = some "4"; status = some "assigned"; registration_state = none }

answered-returns_example :
    let o = handle service (documented service) (responds "id" "200" none "{}") registering_run in
    let done =
      react service
        (documented service)
        (λ o. none)
        (completion (Effect.disconnect on_register) none)
        o.0 in
    (o.1 ≡ none)
    × (done.effects
        ≡ registered 1
            (some (record {
              request_id = "id";
              operation_id = some "4";
              status = some "assigned";
              registration_state = none;
            }))
            none
          ∷ Effect.disconnect on_register
          ∷ registering_run.effects)
    × (status done.effects (waits_registered 1) ≡ returned)
unfolding handle_all handle documented transition follow act send lookup insert registration_topic
    verdict by_body asking
answered-returns_example =
    answered-returns service "id" "200" "{}" "$dps/registrations/PUT/iotdps-register/?$rid=id" none
      200 assigned refl refl on_register _ none refl registration Timer.running Timer.running 1
      registering_run refl refl refl refl refl

-- The callback of a registration is called twice, while the event loop runs.
abbrev loop : Loop Callback
loop =
    wrapping_callback (sync_on_register_complete 1)
      (run_loop 1 (wrapping_callback (sync_on_register_complete 1) new_loop))

loop-settled : length loop.scheduled ≤ 1
unfolding wrapping_callback run_loop
loop-settled = omega arith

abbrev twice : List Effect
twice = registered 1 none none ∷ registered 1 none none ∷ []

loop-History : History (called twice) loop
unfolding called
loop-History =
    calls (sync_on_register_complete 1) (runs 1 (calls (sync_on_register_complete 1) starts))

run_in_executor-client_register_example :
    let (registered_machine, first) =
      run_in_executor service (documented service) (async_register 1) new_machine in
    let (cancelled_machine, second) =
      run_in_executor service (documented service) (async_cancel 1) new_machine in
    let after = run_loop 1 loop in
    (registered_machine ≡ (client_register service (documented service) 1 new_machine).0)
    × (completed_in after first
        ≡ status twice (client_register service (documented service) 1 new_machine).1)
    × (cancelled_machine ≡ (client_cancel service (documented service) 1 new_machine).0)
    × (completed_in after second
        ≡ status twice (client_cancel service (documented service) 1 new_machine).1)
    × (count (sync_on_register_complete 1) after.errors ≡ registrations 1 twice - 1)
    × (count (sync_on_cancel_complete 1) after.errors ≡ cancellations 1 twice - 1)
run_in_executor-client_register_example =
    run_in_executor-client_register service (documented service) twice loop-History 1 loop-settled 1
      new_machine
