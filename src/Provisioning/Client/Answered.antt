-- ===== src/Provisioning/Client/Answered.antt =====
-- A `register` that the service answers.
use azure_iot_sdk_python_pre.Prelude.{
  ℕ, ◌≡◌, ◌∙◌, refl, String, ◌||◌, Option, none, some, ◌∷◌, arith, leb, str_eq, string_eq, nat_eq,
  if◌then◌else◌,
}
use azure_iot_sdk_python_pre.Prelude.Dict.{lookup}
use azure_iot_sdk_python_pre.Provisioning.Polling.Defs.{
  State, Effect, Ending, on_error, on_register, Machine, Service, Body, Purpose, registration,
  query, Timer, RegistrationResult, Failure, message_failure, other_failure, transition, registered,
}
use azure_iot_sdk_python_pre.Provisioning.Polling.Handlers.{
  Outcome, documented, follow, act, cancel_query_timer, cancel_polling_timer, clear_timers,
}
use azure_iot_sdk_python_pre.Provisioning.Polling.Events.{
  handle, responds, receive_response, on_response, by_status, process_successful_response, decoded,
  disconnect_completed,
}
use azure_iot_sdk_python_pre.Provisioning.Pipeline.{
  pipeline_disconnect, completion, submission, pipeline_callback, call, provider_disconnect,
}
use azure_iot_sdk_python_pre.Provisioning.Client.{registrations, status, returned, waits_registered}
use azure_iot_sdk_python_pre.Provisioning.Client.Steps.{react}

-- What a response means for a registration: to come back later, or an end of it with a result or an
-- error.
pub data Verdict : Type 0 where
  come_back : Verdict
  final : Ending → Option RegistrationResult → Option Failure → Verdict

unfoldable pub by_body : String → Body → Verdict
by_body request_id body = elim body.status [
  | none ↦ final on_error none (some other_failure)
  | some text ↦
      if str_eq text "assigning"
      then come_back
      else if str_eq text "assigned" || str_eq text "failed"
      then (final on_register
          (some (record {
            request_id = request_id;
            operation_id = body.operation_id;
            status = some text;
            registration_state = body.registration_state;
          }))
          none)
      else final on_error none (some other_failure)
]

unfoldable pub verdict : String → ℕ → Body → Verdict
unfolding by_body
verdict request_id code body =
    if leb 429 code
    then come_back
    else if leb 300 code
    then final on_error none (some message_failure)
    else by_body request_id body

-- The state in which a request of this kind waits for its response.
unfoldable pub asking : Purpose → State
asking registration = State.registering
asking query = State.polling

-- What an ended registration leaves in the machine.
abbrev Reports : Machine → Ending → Option RegistrationResult → Option Failure → Type 0
Reports m on_register r f = (m.registration_result ≡ r) × (f ≡ none)
Reports m Ending.on_cancel r f = (r ≡ none) × (f ≡ none)
Reports m on_error r f = (m.registration_error ≡ f) × (r ≡ none)

-- The timers that the response to a request cancels are there.
abbrev pub TimersSet : Purpose → Timer → Timer → Machine → Type 0
TimersSet registration t u m = m.query_timer ≡ some t
TimersSet query t u m = (m.query_timer ≡ some t) × (m.polling_timer ≡ some u)

module _ (env : Service) (request_id status_code response topic : String)
    (retry_after : Option String) (code : ℕ) (body : Body)
    (numeral : env.int10 status_code ≡ some code) (decodes : env.loads response ≡ some body) where
  module _ (e : Ending) (r : Option RegistrationResult) (f : Option Failure)
      (ends : verdict request_id code body ≡ final e r f) where
    Ended : Machine → Outcome → Type 0
    Ended m o =
        (o.1 ≡ none)
        × (o.0.effects ≡ Effect.disconnect e ∷ m.effects)
        × (o.0.register_callback ≡ m.register_callback)
        × Reports o.0 e r f

    by_status-Ended :
        (purpose : Purpose) (m : Machine)
        → m.state ≡ asking purpose
        → lookup request_id m.operations ≡ some topic
        → Ended m (by_status env (documented env) purpose request_id code retry_after response m)
    unfolding Ended verdict by_body by_status process_successful_response decoded documented
        transition follow act clear_timers asking
    by_status-Ended registration m s o = ground (arith, numeral, decodes, ends, s, o)
    by_status-Ended query m s o = ground (arith, numeral, decodes, ends, s, o)

    on_response-Ended :
        (purpose : Purpose) (t u : Timer) (m : Machine)
        → m.state ≡ asking purpose
        → lookup request_id m.operations ≡ some topic
        → TimersSet purpose t u m
        → Ended m
            (on_response env (documented env) purpose request_id status_code retry_after response m)
    unfolding on_response cancel_query_timer cancel_polling_timer Ended
    on_response-Ended registration t u m s o q =
        let n = record m { query_timer = some Timer.stopped } in
        ground (arith, q, numeral, by_status-Ended registration n s o)
    on_response-Ended query t u m s o (q, p) =
        let n = record m { query_timer = some Timer.stopped; polling_timer = some Timer.stopped } in
        ground (arith, q, p, numeral, by_status-Ended query n s o)

    responds-Ended :
        (purpose : Purpose) (t u : Timer) (m : Machine)
        → m.state ≡ asking purpose
        → lookup request_id m.pending_requests ≡ some purpose
        → lookup request_id m.operations ≡ some topic
        → TimersSet purpose t u m
        → Ended m
            (handle env (documented env) (responds request_id status_code retry_after response) m)
    unfolding handle receive_response Ended
    responds-Ended purpose t u m s w o q = ground (arith, w, on_response-Ended purpose t u m s o q)

    reported :
        (c : ℕ) (m : Machine)
        → m.register_callback ≡ some c
        → Reports m e r f
        → (disconnect_completed env (documented env) e m).0.effects ≡ registered c r f ∷ m.effects
    unfolding disconnect_completed verdict by_body
    reported c m h g =
        elim e
            as (λ (e : Ending).
              verdict request_id code body ≡ final e r f
              → Reports m e r f
              → (disconnect_completed env (documented env) e m).0.effects
                ≡ registered c r f ∷ m.effects) [
                  | on_register ↦ λ v g. ground (arith, h, g)
                  | Ending.on_cancel ↦ λ v g. ground (arith, v)
                  | on_error ↦ λ v g. ground (arith, h, g)
                ]
          ends g

  -- A request of a registration that is waited for is answered, and the answer ends the registration:
  -- a status of 300 to 428, a body with the status assigned or failed, or one that has another
  -- status than assigning or has none. Nothing is raised, and once the disconnection that follows
  -- ends without an error, the callback of `register` was called with the result of the body or
  -- with the error, as the answer is, and the call returns.
  pub answered-returns :
      (e : Ending) (r : Option RegistrationResult) (f : Option Failure)
      → verdict request_id code body ≡ final e r f
      → (purpose : Purpose) (t u : Timer) (c : ℕ) (m : Machine) → m.state ≡ asking purpose
      → lookup request_id m.pending_requests ≡ some purpose
      → lookup request_id m.operations ≡ some topic
      → TimersSet purpose t u m
      → m.register_callback ≡ some c
      → let o =
          handle env (documented env) (responds request_id status_code retry_after response) m in
        let done =
          react env (documented env) (λ o. none) (completion (Effect.disconnect e) none) o.0 in
        (o.1 ≡ none)
        × (done.effects ≡ registered c r f ∷ Effect.disconnect e ∷ m.effects)
        × (status done.effects (waits_registered c) ≡ returned)
  unfolding react completion submission pipeline_callback call provider_disconnect Ended status
      registrations handle pipeline_disconnect
  answered-returns e r f v purpose t u c m s w o q h =
      let (fine, effects, callback, reports) = responds-Ended e r f v purpose t u m s w o q in
      let told =
        reported e r f v c
          (handle env (documented env) (responds request_id status_code retry_after response) m).0
          (callback ∙ h) reports in
      (fine, told ∙ rw effects refl, rw told (ground (arith, nat_eq.beq_iff c c)))
