-- ===== src/Provisioning/Client/Cancelled.antt =====
-- A `register` that is cancelled.
use azure_iot_sdk_python_pre.Prelude.{
  ℕ, ◌≡◌, ◌∙◌, refl, Option-cases, inl, inr, sym, subst, ap, Option, none, some, List, ◌∷◌, arith,
  string_eq,
}
use azure_iot_sdk_python_pre.Errors.{Error}
use azure_iot_sdk_python_pre.Provisioning.Polling.Defs.{
  State, Trigger, QueryResult, Effect, Ending, on_cancel, Machine, Service, transition, registered,
  cancelled,
}
use azure_iot_sdk_python_pre.Provisioning.Polling.Handlers.{Outcome, documented, follow}
use azure_iot_sdk_python_pre.Provisioning.Polling.Events.{
  handle, register, cancel, subscribe_completed, disconnect_completed, no_result,
}
use azure_iot_sdk_python_pre.Provisioning.Polling.Observed.{receive_response-Leads, timer-Leads}
use azure_iot_sdk_python_pre.Provisioning.Pipeline.{
  pipeline_enable_responses, pipeline_disconnect, pipeline_send_request, completion, submission,
  pipeline_callback, call, provider_enable_responses, provider_disconnect, provider_send_request,
}
use azure_iot_sdk_python_pre.Provisioning.Client.{
  client_register, client_cancel, registrations, status, waiting, waits_registered, waits_cancelled,
  Call, unless_raised,
}
use azure_iot_sdk_python_pre.Provisioning.Client.Steps.{
  Step, Move, Moves, react, ends, answers, query_timer_ends, polling_timer_ends, alone,
  registers_again, cancels_again,
}
use mathlib.Core.List.{Memᴰ}
use mathlib.Core.List.Memᴰ.{cases_cons}

module _ (env : Service) (fire : Trigger → QueryResult → Machine → Outcome)
    (law : (t : Trigger) (r : QueryResult) (m : Machine) → fire t r m ≡ documented env t r m)
    (answer : Effect → Option Error) where
  documented-cancelling :
      (t : Trigger) (r : QueryResult) (m : Machine)
      → m.state ≡ State.cancelling
      → (documented env t r m).0 ≡ m
  unfolding documented transition follow
  documented-cancelling t r m e = ground (arith, e)

  -- What a client can observe of a process that is cancelled does not change.
  abbrev View : Type 0
  View = State × List Effect

  abbrev Halts : View → View → Type 0
  Halts v w = v.0 ≡ State.cancelling → w ≡ v

  abbrev view : State → Option ℕ → List Effect → View
  view s c es = (s, es)

  fire-Halts :
      (t : Trigger) (r : QueryResult) (m : Machine)
      → Halts (m.state, m.effects) ((fire t r m).0.state, (fire t r m).0.effects)
  fire-Halts t r m e = rw (law t r m, documented-cancelling t r m e) refl

  -- A cancelled process whose earlier disconnections have all ended.
  record IsCancelled (c : ℕ) (k : ℕ) (m : Machine) : Type 0 where
    halted : m.state ≡ State.cancelling
    quiet : (e : Ending) → Memᴰ (Effect.disconnect e) m.effects → e ≡ on_cancel
    unchanged : registrations c m.effects ≡ k

  module _ (c k : ℕ) where
    same-IsCancelled :
        (m n : Machine)
        → IsCancelled c k m
        → ◌≡◌ {A = View} (n.state, n.effects) (m.state, m.effects)
        → IsCancelled c k n
    same-IsCancelled m n inv e = record {
      halted = ap (λ (v : View). v.0) e ∙ inv.halted;
      quiet = λ x h. inv.quiet x (
          subst (λ (es : List Effect). Memᴰ (Effect.disconnect x) es) (ap (λ (v : View). v.1) e) h);
      unchanged = ap (λ (v : View). registrations c v.1) e ∙ inv.unchanged;
    }

    fire-IsCancelled :
        (t : Trigger) (r : QueryResult) (m : Machine)
        → IsCancelled c k m
        → IsCancelled c k (fire t r m).0
    fire-IsCancelled t r m inv = same-IsCancelled m _ inv (fire-Halts t r m inv.halted)

    -- The end of a disconnection after a cancellation.
    disconnect_completed-IsCancelled :
        (m : Machine)
        → IsCancelled c k m
        → IsCancelled c k (disconnect_completed env fire on_cancel m).0
    unfolding disconnect_completed registrations
    disconnect_completed-IsCancelled m inv = elim (Option-cases m.cancel_callback) [
      | inl e ↦ subst (IsCancelled c k) (sym (not_awaited m e)) inv
      | inr (d, e) ↦ subst (IsCancelled c k) (sym (awaited m d e)) (record {
        halted = inv.halted;
        quiet = λ x h. elim (cases_cons h) [ inl same ↦ cc | inr old ↦ inv.quiet x old ];
        unchanged = inv.unchanged;
      })
    ]
      where
        not_awaited :
            (m : Machine)
            → m.cancel_callback ≡ none
            → (disconnect_completed env fire on_cancel m).0 ≡ m
        not_awaited m e = ground (arith, e)

        awaited :
            (m : Machine) (d : ℕ)
            → m.cancel_callback ≡ some d
            → (disconnect_completed env fire on_cancel m).0
              ≡ record m { cancel_callback = none; effects = cancelled d ∷ m.effects }
        awaited m d e = ground (arith, e)

    ends-IsCancelled :
        (o : Effect) (error : Option Error) (m : Machine)
        → Memᴰ o m.effects
        → IsCancelled c k m
        → IsCancelled c k (react env fire answer (completion o error) m)
    unfolding react handle completion submission pipeline_callback call provider_enable_responses
        provider_disconnect provider_send_request subscribe_completed pipeline_enable_responses
        pipeline_disconnect pipeline_send_request
    ends-IsCancelled Effect.enable_responses none m h inv =
        fire-IsCancelled Trigger.trig_send_register_request no_result m inv
    ends-IsCancelled Effect.enable_responses (some e) m h inv = inv
    ends-IsCancelled (Effect.send_request i o) none m h inv = inv
    ends-IsCancelled (Effect.send_request i o) (some e) m h inv = inv
    ends-IsCancelled (Effect.start_polling_timer n r) error m h inv = inv
    ends-IsCancelled (registered d r f) error m h inv = inv
    ends-IsCancelled (cancelled d) error m h inv = inv
    ends-IsCancelled (Effect.disconnect e) (some x) m h inv = inv
    ends-IsCancelled (Effect.disconnect e) none m h inv =
        rw (inv.quiet e h) (disconnect_completed-IsCancelled m inv)

    Step-IsCancelled :
        {m n : Machine} → IsCancelled c k m → Step env fire answer m n → IsCancelled c k n
    unfolding handle
    Step-IsCancelled inv (ends o h) = ends-IsCancelled o (answer o) _ h inv
    Step-IsCancelled {m} inv (answers i s r b) =
        same-IsCancelled m _ inv
          (receive_response-Leads view Halts (λ v e. refl) env fire fire-Halts i s r b m inv.halted)
    Step-IsCancelled {m} inv (query_timer_ends runs) =
        same-IsCancelled m _ inv
          ((timer-Leads view Halts (λ v e. refl) env fire fire-Halts no_result m).0 inv.halted)
    Step-IsCancelled {m} inv (polling_timer_ends n r h runs) =
        same-IsCancelled m _ inv
          ((timer-Leads view Halts (λ v e. refl) env fire fire-Halts r m).1 inv.halted)

    raised-or-not : (o : Outcome) (w : Call) → (unless_raised o w).0 ≡ o.0
    raised-or-not (m, none) w = refl
    raised-or-not (m, some e) w = refl

    Move-IsCancelled :
        {m n : Machine} → IsCancelled c k m → Move env fire answer m n → IsCancelled c k n
    unfolding client_register client_cancel register cancel
    Move-IsCancelled inv (alone step) = Step-IsCancelled inv step
    Move-IsCancelled {m} inv (registers_again d) =
        let again = record m { register_callback = some d } in
        rw (raised-or-not (fire Trigger.trig_register no_result again) (waits_registered d)) (
          fire-IsCancelled Trigger.trig_register no_result again
            (record { halted = inv.halted; quiet = inv.quiet; unchanged = inv.unchanged }))
    Move-IsCancelled {m} inv (cancels_again d) =
        let again = record m { cancel_callback = some d } in
        rw (raised-or-not (fire Trigger.trig_cancel no_result again) (waits_cancelled d)) (
          fire-IsCancelled Trigger.trig_cancel no_result again
            (record { halted = inv.halted; quiet = inv.quiet; unchanged = inv.unchanged }))

    Moves-IsCancelled :
        {m n : Machine} → IsCancelled c k m → Moves env fire answer m n → IsCancelled c k n
    Moves-IsCancelled inv Moves.stop = inv
    Moves-IsCancelled inv (Moves.more past move) =
        Move-IsCancelled (Moves-IsCancelled inv past) move

  -- A registration is cancelled, and of the operations submitted before, no disconnection was for
  -- another reason. Then a `register` that waits still waits whatever follows, further calls of the
  -- client included. For a `fire` that does what the `transitions` library documents.
  pub cancelled-waits :
      (c : ℕ) (m : Machine)
      → m.state ≡ State.cancelling
      → ((e : Ending) → Memᴰ (Effect.disconnect e) m.effects → e ≡ on_cancel)
      → status m.effects (waits_registered c) ≡ waiting
      → {n : Machine} → Moves env fire answer m n
      → status n.effects (waits_registered c) ≡ waiting
  unfolding status
  cancelled-waits c m s q w past =
      let inv =
        Moves-IsCancelled c (registrations c m.effects)
          (record { halted = s; quiet = q; unchanged = refl }) past in
      rw inv.unchanged w
