-- ===== src/Provisioning/Polling/Handlers.antt =====
-- The methods of `PollingMachine` and `RequestResponseProvider`. Each returns the machine and what
-- it raised; what was changed before an exception stays changed.
use Prim.Native.String.{◌++◌}
use azure_iot_sdk_python_pre.Prelude.{ℕ, suc, String, Option, none, some, ◌∷◌, string_eq}
use azure_iot_sdk_python_pre.Prelude.Dict.{insert}
use azure_iot_sdk_python_pre.Provisioning.Polling.Defs.{
  State, Trigger, Action, initialize_register, send_register_request, wait_for_interval,
  query_operation_status, call_complete, call_error, inform_no_process, call_cancel, transition,
  QueryResult, Exception, machine_error, runtime_error, value_error, attribute_error, Purpose,
  registration, query, Timer, running, stopped, Ending, on_error, on_cancel, on_register,
  enable_responses, send_request, start_polling_timer, disconnect, Machine, Service,
}

abbrev pub Outcome : Type 0
Outcome = Machine × Option Exception

abbrev pub returns : Machine → Outcome
returns m = (m, none)

-- The rest of a method, unless it has raised.
infixl 5 ◌>>=◌
abbrev pub ◌>>=◌ : Outcome → (Machine → Outcome) → Outcome
(m, none) >>= f = f m
(m, some e) >>= f = (m, some e)

unfoldable pub stop : Option Timer → Option Timer
stop none = none
stop (some _) = some stopped

-- `_clear_timers`
unfoldable pub clear_timers : Machine → Machine
unfolding stop
clear_timers m = record m { polling_timer = stop m.polling_timer; query_timer = stop m.query_timer }

-- `self._query_timer.cancel()`, which raises before the first timer is set; so the polling timer.
unfoldable pub cancel_query_timer : Machine → Outcome
cancel_query_timer m = elim m.query_timer [
  | none ↦ (m, some attribute_error)
  | some _ ↦ returns (record m { query_timer = some stopped })
]

unfoldable pub cancel_polling_timer : Machine → Outcome
cancel_polling_timer m = elim m.polling_timer [
  | none ↦ (m, some attribute_error)
  | some _ ↦ returns (record m { polling_timer = some stopped })
]

unfoldable pub registration_topic : String → String
registration_topic request_id = "$dps/registrations/PUT/iotdps-register/?$rid=" ++ request_id

abbrev none_text : Option String → String
none_text none = "None"
none_text (some s) = s

unfoldable pub querying_topic : String → Option String → String
querying_topic request_id operation_id =
    "$dps/registrations/GET/iotdps-get-operationstatus/?$rid="
    ++ request_id
    ++ "&operationId="
    ++ none_text operation_id

module _ (env : Service) where
  -- `_send_register_request` and `_query_operation_status`, with `_set_query_timer` and
  -- `RequestResponseProvider.send_request`
  unfoldable pub send : Purpose → String → Option String → Machine → Machine
  send purpose topic operation_id m =
      let request_id = env.uuid4 m.drawn in
      record m {
        query_timer = some running;
        drawn = suc m.drawn;
        operations = insert request_id topic m.operations;
        pending_requests = insert request_id purpose m.pending_requests;
        effects = send_request request_id operation_id ∷ m.effects;
      }

  -- `_wait_for_interval`
  unfoldable pub wait : QueryResult → Machine → Outcome
  wait result m =
      let start = λ (seconds : ℕ). returns (record m {
        polling_timer = some running;
        effects = start_polling_timer seconds result ∷ m.effects;
      }) in
      elim result.retry_after [
        | none ↦ start 2
        | some text ↦ elim (env.int10 text) [ none ↦ (m, some value_error) | some n ↦ start n ]
      ]

  abbrev ending : Ending → Machine → Outcome
  ending e m = let c = clear_timers m in returns (record c { effects = disconnect e ∷ c.effects })

  -- The callbacks of transitions; the result is the argument that their event carries.
  unfoldable pub act : QueryResult → Action → Machine → Outcome
  unfolding send wait clear_timers registration_topic querying_topic
  act result initialize_register m = returns (record m { effects = enable_responses ∷ m.effects })
  act result send_register_request m =
      returns (send registration (registration_topic (env.uuid4 m.drawn)) none m)
  act result wait_for_interval m = wait result m
  act result query_operation_status m =
      returns
        (send query (querying_topic (env.uuid4 m.drawn) result.operation_id) result.operation_id m)
  act result call_complete m = ending on_register m
  act result call_error m = ending on_error m
  act result inform_no_process m = (m, some runtime_error)
  act result call_cancel m = ending on_cancel m

  abbrev pub act_if : QueryResult → Option Action → Machine → Outcome
  act_if result none m = returns m
  act_if result (some a) m = act result a m

  abbrev pub move : Option State → Machine → Machine
  move none m = m
  move (some s) m = record m { state = s }

  -- What the `transitions` library documents for a trigger: without a transition for the state it
  -- raises and changes nothing; with one it runs `before`, moves to the state `dest`, if any, and
  -- runs `after`.
  unfoldable pub follow :
      QueryResult → Option Action → Option State → Option Action → Machine → Outcome
  follow result before dest after m =
      act_if result before m >>= λ m. act_if result after (move dest m)

  unfoldable pub documented : Trigger → QueryResult → Machine → Outcome
  documented t result m = elim (transition t m.state) [
    | none ↦ (m, some machine_error)
    | some r ↦ follow result r.before r.dest r.after m
  ]
