-- ===== src/Provisioning/Polling/Forward.antt =====
-- The life of a registration: which states follow which, whatever reaches the machine.
use azure_iot_sdk_python_pre.Prelude.{
  ◌≡◌, ◌∙◌, ◌⊎◌, inl, inr, sym, subst, ℕ, Option, some, List, [], ◌∷◌, arith,
}
use azure_iot_sdk_python_pre.Provisioning.Polling.Defs.{
  State, Trigger, trig_register, transition, machine_error, QueryResult, on_error, on_cancel,
  on_register, Machine, Service,
}
use azure_iot_sdk_python_pre.Provisioning.Polling.Handlers.{Outcome, documented}
use azure_iot_sdk_python_pre.Provisioning.Polling.Events.{
  Event, registers, cancels, subscribed, query_time_up, responds, polling_time_up, disconnected,
  no_result, register, cancel, subscribe_completed, disconnect_completed, handle,
}
use azure_iot_sdk_python_pre.Provisioning.Polling.Observed.{receive_response-Leads, timer-Leads}
use azure_iot_sdk_python_pre.Provisioning.Polling.Lifecycle.{
  Follows, Follows-refl, documented-Follows,
}

handle-Leads :
    (env : Service) (fire : Trigger → QueryResult → Machine → Outcome)
    → ((t : Trigger) (r : QueryResult) (m : Machine) → Follows m.state (fire t r m).0.state)
    → (e : Event) (m : Machine) → Follows m.state (handle env fire e m).0.state
unfolding handle register cancel subscribe_completed disconnect_completed
handle-Leads env fire leads (registers callback) m =
    leads _ _ (record m { register_callback = callback })
handle-Leads env fire leads (cancels callback) m =
    leads _ _ (record m { cancel_callback = callback })
handle-Leads env fire leads subscribed m = leads _ _ m
handle-Leads env fire leads (responds request_id status_code retry_after body) m =
    receive_response-Leads (λ s c es. s) Follows Follows-refl env fire leads request_id status_code
      retry_after body m
handle-Leads env fire leads query_time_up m =
    (timer-Leads (λ s c es. s) Follows Follows-refl env fire leads no_result m).0
handle-Leads env fire leads (polling_time_up result) m =
    (timer-Leads (λ s c es. s) Follows Follows-refl env fire leads result m).1
handle-Leads env fire leads (disconnected on_error) m = grind (arith, Follows-refl)
handle-Leads env fire leads (disconnected on_cancel) m = grind (arith, Follows-refl)
handle-Leads env fire leads (disconnected on_register) m = grind (arith, Follows-refl)

-- Whatever reaches the process in a state, the next state is this one or one of its `Follows`:
-- for a `fire` that does what the `transitions` library documents, an event that raises included.
pub handle-Follows :
    (env : Service) (fire : Trigger → QueryResult → Machine → Outcome)
    → ((t : Trigger) (r : QueryResult) (m : Machine) → fire t r m ≡ documented env t r m)
    → (e : Event) (m : Machine) → Follows m.state (handle env fire e m).0.state
handle-Follows env fire law e m =
    handle-Leads env fire
      (λ t r m.
        subst (λ (o : Outcome). Follows m.state o.0.state) (sym (law t r m))
          (documented-Follows env r t m))
      e m

module _ (env : Service) (fire : Trigger → QueryResult → Machine → Outcome) where
  -- The machine after a history; what a call raises reaches its caller.
  unfoldable pub handle_all : List Event → Machine → Machine
  handle_all [] m = m
  handle_all (e ∷ es) m = handle_all es (handle env fire e m).0

  stays :
      ((t : Trigger) (r : QueryResult) (m : Machine) → fire t r m ≡ documented env t r m)
      → (s : State) → ((t : State) → Follows s t → t ≡ s)
      → (es : List Event) (m : Machine) → m.state ≡ s
      → (handle_all es m).state ≡ s
  unfolding handle_all
  stays law s last [] m e = e
  stays law s last (x ∷ es) m e = stays law s last es (handle env fire x m).0 (
      last _
        (subst (λ s. Follows s (handle env fire x m).0.state) e (handle-Follows env fire law x m)))

-- Once a registration was completed or cancelled, and whatever happens then, `register` raises and
-- changes nothing but the callback: for a `fire` that does what the `transitions` library documents.
pub over-register :
    (env : Service) (fire : Trigger → QueryResult → Machine → Outcome)
    → ((t : Trigger) (r : QueryResult) (m : Machine) → fire t r m ≡ documented env t r m)
    → (es : List Event) (m : Machine) (callback : Option ℕ)
    → (m.state ≡ State.completed) ⊎ (m.state ≡ State.cancelling)
    → register env fire callback (handle_all env fire es m)
      ≡ (record (handle_all env fire es m) { register_callback = callback }, some machine_error)
unfolding register documented transition
over-register env fire law es m callback (inl e) =
    law trig_register _ (record (handle_all env fire es m) { register_callback = callback })
    ∙ ground (arith, stays env fire law State.completed (λ s e. e) es m e)
over-register env fire law es m callback (inr e) =
    law trig_register _ (record (handle_all env fire es m) { register_callback = callback })
    ∙ ground (arith, stays env fire law State.cancelling (λ s e. e) es m e)
