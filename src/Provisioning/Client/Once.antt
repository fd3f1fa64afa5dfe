-- ===== src/Provisioning/Client/Once.antt =====
-- How often the callback of a `register` is called.
use azure_iot_sdk_python_pre.Prelude.{
  ℕ, total, ◌+◌, ◌≤◌, ◌≡◌, ◌≢◌, ◌∙◌, refl, ◌==◌, nat_eq, Option, none, some, List, [], ◌∷◌,
  Option-cases, inl, inr, arith, if◌then◌else◌,
}
use azure_iot_sdk_python_pre.Provisioning.Polling.Defs.{
  State, Trigger, transition, QueryResult, Machine, Service, on_error, on_cancel, on_register,
  registered,
}
use azure_iot_sdk_python_pre.Provisioning.Polling.Defs
use azure_iot_sdk_python_pre.Provisioning.Polling.Handlers.{
  Outcome, ◌>>=◌, act, act_if, move, follow, documented, wait, send, clear_timers,
}
use azure_iot_sdk_python_pre.Provisioning.Polling.Events.{
  Event, registers, cancels, subscribed, query_time_up, responds, polling_time_up, disconnected,
  no_result, register, cancel, subscribe_completed, disconnect_completed, handle,
}
use azure_iot_sdk_python_pre.Provisioning.Polling.Observed.{receive_response-Leads, timer-Leads}
use azure_iot_sdk_python_pre.Provisioning.Polling.Forward.{handle_all}
use azure_iot_sdk_python_pre.Provisioning.Client.{registrations, status, waiting, waits_registered}

module _ (c : ℕ) where
  -- Whether the machine still holds the callback.
  unfoldable pub holds : Option ℕ → ℕ
  holds none = 0
  holds (some d) = if c == d then 1 else 0

  -- How often a history registers with this callback.
  unfoldable pub registers_with : Event → ℕ
  unfolding holds
  registers_with (registers callback) = holds callback
  registers_with (cancels callback) = 0
  registers_with subscribed = 0
  registers_with query_time_up = 0
  registers_with (responds i s r b) = 0
  registers_with (polling_time_up r) = 0
  registers_with (disconnected e) = 0

  abbrev pub registering : List Event → ℕ
  registering es = total registers_with es

  abbrev pub answers : Machine → ℕ
  answers m = holds m.register_callback + registrations c m.effects

  module _ (env : Service) where
    answers-act :
        (r : QueryResult) (a : Defs.Action) (m : Machine) → answers (act env r a m).0 ≡ answers m
    unfolding act registrations wait send clear_timers
    answers-act r Defs.Action.wait_for_interval m = ground arith
    answers-act r a m = ground arith

    answers-act_if :
        (r : QueryResult) (a : Option Defs.Action) (m : Machine)
        → answers (act_if env r a m).0 ≡ answers m
    answers-act_if r none m = refl
    answers-act_if r (some a) m = answers-act r a m

    answers-move : (s : Option State) (m : Machine) → answers (move env s m) ≡ answers m
    answers-move none m = refl
    answers-move (some s) m = refl

    answers-bound :
        (r : QueryResult) (dest : Option State) (after : Option Defs.Action) (m : Machine)
        (o : Outcome)
        → answers o.0 ≡ answers m
        → answers (o >>= λ n. act_if env r after (move env dest n)).0 ≡ answers m
    answers-bound r dest after m (n, none) e =
        answers-act_if r after (move env dest n) ∙ answers-move dest n ∙ e
    answers-bound r dest after m (n, some x) e = e

    answers-documented :
        (t : Trigger) (r : QueryResult) (m : Machine) → answers (documented env t r m).0 ≡ answers m
    unfolding documented follow
    answers-documented t r m = elim (Option-cases (transition t m.state)) [
      | inl nothing ↦ rw (nothing, documented) refl
      | inr (x, e) ↦
          rw (e, documented)
            (answers-bound r x.dest x.after m (act_if env r x.before m)
              (answers-act_if r x.before m))
    ]

  module _ (env : Service) (fire : Trigger → QueryResult → Machine → Outcome)
      (law : (t : Trigger) (r : QueryResult) (m : Machine)
        → fire t r m ≡ documented env t r m) where
    answers-fire :
        (t : Trigger) (r : QueryResult) (m : Machine) → answers (fire t r m).0 ≡ answers m
    answers-fire t r m = rw (law t r m) (answers-documented env t r m)

    answers-handle :
        (e : Event) (m : Machine) → answers (handle env fire e m).0 ≤ answers m + registers_with e
    unfolding handle register cancel subscribe_completed disconnect_completed registrations holds
        registers_with
    answers-handle (registers callback) m = omega (
      arith,
      answers-fire Trigger.trig_register no_result (record m { register_callback = callback }),
    )
    answers-handle (cancels callback) m = omega (
      arith,
      answers-fire Trigger.trig_cancel no_result (record m { cancel_callback = callback }),
    )
    answers-handle subscribed m =
        omega (arith, answers-fire Trigger.trig_send_register_request no_result m)
    answers-handle (responds i s r b) m = omega (
      arith,
      receive_response-Leads (λ s d es. holds d + registrations c es) (λ v w. w ≡ v) (λ v. refl) env
          fire (λ t r m. answers-fire t r m) i s r b m,
    )
    answers-handle query_time_up m = omega (
      arith,
      (timer-Leads (λ s d es. holds d + registrations c es) (λ v w. w ≡ v) (λ v. refl) env fire
          (λ t r m. answers-fire t r m) no_result m).0,
    )
    answers-handle (polling_time_up r) m = omega (
      arith,
      (timer-Leads (λ s d es. holds d + registrations c es) (λ v w. w ≡ v) (λ v. refl) env fire
          (λ t r m. answers-fire t r m) r m).1,
    )
    answers-handle (disconnected on_error) m = ground arith
    answers-handle (disconnected on_cancel) m = ground arith
    answers-handle (disconnected on_register) m = ground arith

    -- Over any history that reaches the process, the callback of a number is called, or still held,
    -- at most as often as it was before and as `register` got it in the history: for a `fire` that
    -- does what the `transitions` library documents.
    pub answers-handle_all :
        (es : List Event) (m : Machine)
        → answers (handle_all env fire es m) ≤ answers m + registering es
    unfolding handle_all
    answers-handle_all [] m = omega arith
    answers-handle_all (e ∷ es) m =
        omega (arith, answers-handle_all es (handle env fire e m).0, answers-handle e m)

    -- A `register` whose callback is still to be called is overtaken by a second one, whether that
    -- raises or not, and no later `register` has the number of the first: then the first waits after
    -- whatever follows. For a `fire` that does what the `transitions` library documents.
    pub overtaken-waits :
        (d : ℕ) (es : List Event) (m : Machine)
        → d ≢ c
        → registrations c m.effects ≡ 0
        → registering es ≡ 0
        → status (handle_all env fire (registers (some d) ∷ es) m).effects (waits_registered c)
          ≡ waiting
    unfolding handle_all handle register status holds
    overtaken-waits d es m other unset once =
        let again = record m { register_callback = some d } in
        ground (
          arith,
          other,
          unset,
          once,
          answers-handle_all es (fire Trigger.trig_register no_result again).0,
          answers-fire Trigger.trig_register no_result again,
          nat_eq.beq_iff c d,
        )
