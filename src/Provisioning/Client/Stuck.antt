-- ===== src/Provisioning/Client/Stuck.antt =====
-- A `register` whose subscription fails.
use azure_iot_sdk_python_pre.Prelude.{
  ℕ, ◌≡◌, refl, inl, inr, subst, Option, some, [], ◌∷◌, string_eq,
}
use azure_iot_sdk_python_pre.Prelude.Dict.{lookup}
use azure_iot_sdk_python_pre.Errors.{Error}
use azure_iot_sdk_python_pre.Provisioning.Polling.Defs.{
  State, Trigger, QueryResult, Effect, Machine, Service, new_machine, transition,
}
use azure_iot_sdk_python_pre.Provisioning.Polling.Handlers.{Outcome, documented, follow, act}
use azure_iot_sdk_python_pre.Provisioning.Polling.Events.{
  handle, register, receive_response, no_result,
}
use azure_iot_sdk_python_pre.Provisioning.Pipeline.{
  pipeline_enable_responses, completion, submission, pipeline_callback, provider_enable_responses,
}
use azure_iot_sdk_python_pre.Provisioning.Client.{
  client_register, registrations, status, waiting, waits_registered, Call,
}
use azure_iot_sdk_python_pre.Provisioning.Client.Steps.{
  Step, Steps, react, ends, answers, query_timer_ends, polling_timer_ends,
}
use mathlib.Core.List.Memᴰ.{cases_cons, not-nil}

-- The machine that waits for the end of its subscription.
abbrev subscribing : ℕ → Machine
subscribing c = record new_machine {
  state = State.initializing;
  register_callback = some c;
  effects = Effect.enable_responses ∷ [];
}

module _ (env : Service) (fire : Trigger → QueryResult → Machine → Outcome)
    (law : (t : Trigger) (r : QueryResult) (m : Machine) → fire t r m ≡ documented env t r m)
    (answer : Effect → Option Error) where
  client_register-new_machine :
      (c : ℕ) → client_register env fire c new_machine ≡ (subscribing c, waits_registered c)
  unfolding client_register register documented transition follow act
  client_register-new_machine c =
      rw (law Trigger.trig_register no_result (record new_machine { register_callback = some c }))
        refl

  stays_subscribing :
      (c : ℕ) (e : Error)
      → answer Effect.enable_responses ≡ some e
      → {n : Machine} → Step env fire answer (subscribing c) n
      → n ≡ subscribing c
  unfolding react handle receive_response lookup completion submission pipeline_callback
      provider_enable_responses pipeline_enable_responses
  stays_subscribing c e fails (ends o m) = elim (cases_cons m) [
    | inl same ↦ rw (same, fails) refl
    | inr none_else ↦ elim (not-nil none_else) [ ]
  ]
  stays_subscribing c e fails (answers i s r b) = refl
  stays_subscribing c e fails (query_timer_ends runs) = cc
  stays_subscribing c e fails (polling_timer_ends n r m runs) = cc

  remains_subscribing :
      (c : ℕ) (e : Error)
      → answer Effect.enable_responses ≡ some e
      → {n : Machine} → Steps env fire answer (subscribing c) n
      → n ≡ subscribing c
  remains_subscribing c e fails Steps.stop = refl
  remains_subscribing c e fails (Steps.more {n} {k} past step) =
      let still = remains_subscribing c e fails past in
      stays_subscribing c e fails (subst (λ (m : Machine). Step env fire answer m k) still step)

  -- The first `register` of a client returns from the machine, and waits; where the subscription
  -- then ends with an error, the machine is initializing and the call waits, whatever happens that
  -- is no call of the client. For a `fire` that does what the `transitions` library documents.
  pub failed_subscription-waits :
      (c : ℕ) (e : Error)
      → answer Effect.enable_responses ≡ some e
      → {n : Machine} → Steps env fire answer (client_register env fire c new_machine).0 n
      → (n.state ≡ State.initializing)
        × (status n.effects (client_register env fire c new_machine).1 ≡ waiting)
  unfolding status registrations
  failed_subscription-waits c e fails {n} past =
      let begun = client_register-new_machine c in
      let same =
        remains_subscribing c e fails
          (subst (λ (o : Machine × Call). Steps env fire answer o.0 n) begun past) in
      rw (begun, same) (refl, refl)
