-- ===== src/Pipeline/Load.antt =====
-- The load over the system's steps: an input adds the weight of the callbacks that it submits, and
-- nothing else adds to it.
use azure_iot_sdk_python_pre.Prelude.{
  ℕ, ◌+◌, ◌≤◌, ◌≡◌, inl, inr, Option, List, [], ◌∷◌, ◌++◌, arith, total, total-append, string_eq,
  Option-cases,
}
use azure_iot_sdk_python_pre.Prelude.Dict.{lookup, total-erase-lookup}
use azure_iot_sdk_python_pre.Errors.{Error, conack_error, rc_error}
use azure_iot_sdk_python_pre.Mqtt.Manager.{complete_operation}
use azure_iot_sdk_python_pre.Mqtt.Manager.Totals.{total-complete_operation}
use azure_iot_sdk_python_pre.Pipeline.Ops.{op}
use azure_iot_sdk_python_pre.Pipeline.Convert.{Env}
use azure_iot_sdk_python_pre.Pipeline.World.{World, Event, iot_response, Act}
use azure_iot_sdk_python_pre.Pipeline.Exec.{exec}
use azure_iot_sdk_python_pre.Pipeline.Weight.{weigh, weigh_op, weigh_act, load, load-exec}
use azure_iot_sdk_python_pre.Pipeline.Run.{
  on_mqtt_connected, on_mqtt_connection_failure, on_mqtt_disconnected, handle_event, on_ack,
  run_task, Input, submit, on_connect, on_disconnect, on_event, due, input, Config, Step, call, ack,
  take, submits, submitted_by, Reach, here, then_step,
}

module _ (u : ℕ → ℕ) (b : ℕ) where
  load-on_mqtt_connected : (w : World) → load u b (on_mqtt_connected w) ≤ load u b (w, [])
  unfolding on_mqtt_connected load
  load-on_mqtt_connected w = ground arith

  load-on_mqtt_connection_failure :
      (e : Error) (w : World) → load u b (on_mqtt_connection_failure e w) ≤ load u b (w, [])
  unfolding on_mqtt_connection_failure load weigh
  load-on_mqtt_connection_failure e w = ground arith

  load-on_mqtt_disconnected :
      (e : Option Error) (w : World) → load u b (on_mqtt_disconnected e w) ≤ load u b (w, [])
  unfolding on_mqtt_disconnected load weigh
  load-on_mqtt_disconnected e w = ground arith

  load-handle_event : (e : Event) (w : World) → load u b (handle_event e w) ≤ load u b (w, [])
  unfolding handle_event load weigh
  load-handle_event (iot_response request_id r) w =
      elim (Option-cases (lookup request_id w.pending_responses)) [
        | inl missing ↦ rw (missing, handle_event) (ground arith)
        | inr (op k e c, found) ↦
            rw (found, handle_event)
              (ground (
                arith,
                total-erase-lookup (weigh_op u b) request_id w.pending_responses {v = op k e c}
                    found,
              ))
      ]
  load-handle_event _ w = ground arith

  load-run_task : (w : World) → load u b (run_task w) ≤ load u b (w, [])
  unfolding run_task load
  load-run_task w = ground arith

  load-input :
      (i : Input) (w : World) → load u b (input i w) ≤ load u b (w, []) + total u (submits i)
  unfolding input
  load-input (submit id k) w = unfold load weigh in ground arith
  load-input (on_connect rc) w = elim (Option-cases (conack_error rc)) [
    | inl e ↦ rw (e, input) (omega (arith, load-on_mqtt_connected w))
    | inr (cause, e) ↦ rw (e, input) (omega (arith, load-on_mqtt_connection_failure cause w))
  ]
  load-input (on_disconnect rc) w = ground (arith, load-on_mqtt_disconnected (rc_error rc) w)
  load-input (on_event e) w = ground (arith, load-handle_event e w)
  load-input due w = ground (arith, load-run_task w)

  load-on_ack :
      (mid : ℕ) (w : World) (acts : List Act) → load u b (on_ack mid w, acts) ≤ load u b (w, acts)
  unfolding on_ack load
  load-on_ack mid w acts = ground (
    arith,
    total-append (weigh_op u b) w.scheduled (complete_operation mid w.manager).1,
    total-complete_operation (weigh_op u b) mid w.manager,
  )

  load-append :
      (w : World) (acts rest : List Act)
      → load u b (w, acts ++ rest) ≡ load u b (w, acts) + total (weigh_act u b) rest
  unfolding load
  load-append w acts rest = omega (arith, total-append (weigh_act u b) acts rest)

  abbrev pub load_of : Config → ℕ
  load_of c = load u b (c.world, c.agenda)

  load-Step :
      {env : Env} {c d : Config} (s : Step env c d)
      → load_of d ≤ load_of c + total u (submitted_by s)
  load-Step {env} {c} (call a rest e f) =
      rw (f, e)
        (omega (
          arith,
          load-append (exec env a c.world).0 (exec env a c.world).1 rest,
          load-append c.world (a ∷ []) rest,
          load-append c.world [] (a ∷ []),
          load-exec u b env a c.world,
        ))
  load-Step {env} {c} (ack mid f) = rw f (omega (arith, load-on_ack mid c.world c.agenda))
  load-Step {env} {c} (take i e f) = rw (f, e) (load-input i c.world)

  -- Over a history the load grows at most by what the history submitted.
  pub load-Reach :
      {env : Env} {c : Config} {ids : List ℕ} {d : Config}
      → Reach env c ids d
      → load_of d ≤ load_of c + total u ids
  load-Reach here = omega arith
  load-Reach (then_step {ids = ids} r s) =
      omega (arith, load-Reach r, load-Step s, total-append u (submitted_by s) ids)
