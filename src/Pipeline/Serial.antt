-- ===== src/Pipeline/Serial.antt =====
-- What `SerializeConnectOpsStage` gives `MQTTTransportStage`: a connection operation that reaches it
-- never finds another one pending.
use azure_iot_sdk_python_pre.Prelude.{
  ℕ, ◌≤◌, ◌≡◌, inl, inr, none, some, List, ◌∷◌, arith, if◌then◌else◌, Option-cases, string_eq,
  subst,
}
use azure_iot_sdk_python_pre.Prelude.Dict.{lookup}
use azure_iot_sdk_python_pre.Pipeline.Ops.{
  mqtt, Op, op, Callback, user, delegated, got_twin, patched_twin, sent, connected, unblocking,
  kind_of, callback_of,
}
use azure_iot_sdk_python_pre.Pipeline.Convert.{Env}
use azure_iot_sdk_python_pre.Pipeline.World.{World, Event, iot_response, Act, run}
use azure_iot_sdk_python_pre.Pipeline.Exec.{connection, task, exec}
use azure_iot_sdk_python_pre.Pipeline.Weight.{weigh, weigh_op, weigh_world}
use azure_iot_sdk_python_pre.Pipeline.Marks.{
  Unblocks, IsMarked, PendingMarked, AllMarked, Marked, AllMarked-append, exec-Marked,
}
use azure_iot_sdk_python_pre.Pipeline.Run.{
  on_mqtt_connected, on_mqtt_connection_failure, on_mqtt_disconnected, handle_event, on_ack,
  run_task, Input, submit, on_connect, on_disconnect, on_event, due, input, Config, Step, call, ack,
  take, Reach, here, then_step,
}
use azure_iot_sdk_python_pre.Pipeline.Once.{start, in_flight, in_flight-le-one}

handle_event-Marked :
    (e : Event) (w : World) → PendingMarked w.pending_connection → Marked (handle_event e w)
unfolding handle_event
handle_event-Marked (iot_response request_id r) w h =
    elim (Option-cases (lookup request_id w.pending_responses)) [
      | inl missing ↦ rw (missing, handle_event) (h, tt)
      | inr (o, found) ↦ rw (found, handle_event) (h, (tt, tt))
    ]
handle_event-Marked _ w h = (h, tt)

input-Marked : (i : Input) (w : World) → PendingMarked w.pending_connection → Marked (input i w)
unfolding input on_mqtt_connected on_mqtt_connection_failure on_mqtt_disconnected run_task
input-Marked (submit id k) w h = (h, (tt, tt))
input-Marked (on_connect rc) w h = ground arith
input-Marked (on_disconnect rc) w h = ground arith
input-Marked (on_event e) w h = handle_event-Marked e w h
input-Marked due w h = ground arith

abbrev MarkedConfig : Config → Type 0
MarkedConfig c = Marked (c.world, c.agenda)

Step-Marked : {env : Env} {c d : Config} → Step env c d → MarkedConfig c → MarkedConfig d
Step-Marked {env} {c} (call a rest e f) m =
    let marked = subst AllMarked e m.1 in
    let next = exec-Marked env a c.world m.0 marked.0 in
    rw f (next.0, AllMarked-append (exec env a c.world).1 rest next.1 marked.1)
Step-Marked {env} {c} (ack mid f) m = rw f (unfold on_ack in m)
Step-Marked {env} {c} (take i e f) m = rw f (input-Marked i c.world m.0)

Reach-Marked : {env : Env} {ids : List ℕ} {c : Config} → Reach env start ids c → MarkedConfig c
Reach-Marked here = (tt, tt)
Reach-Marked (then_step r s) = Step-Marked s (Reach-Marked r)

weigh_marked : (c : Callback) → Unblocks c → 1 ≤ weigh (λ _. 0) 1 c
unfolding weigh
weigh_marked (unblocking c) m = omega arith
weigh_marked (user id) m = absurd m
weigh_marked (delegated o) m = absurd m
weigh_marked (got_twin o) m = absurd m
weigh_marked (patched_twin o) m = absurd m
weigh_marked (sent request_id) m = absurd m
weigh_marked (connected o) m = absurd m

weigh_marked_op : (o : Op) → Unblocks (callback_of o) → 1 ≤ weigh_op (λ _. 0) 1 o
unfolding weigh
weigh_marked_op (op k e c) m = weigh_marked c m

task-Unblocks :
    (o : Op) → task (kind_of o) ≡ connection → IsMarked (run mqtt o) → Unblocks (callback_of o)
task-Unblocks o k (inl other) = absurd (other k)
task-Unblocks o k (inr m) = m

two_in_flight :
    (c : Config) (p o : Op) (rest : List Act)
    → c.world.pending_connection ≡ some p
    → c.agenda ≡ run mqtt o ∷ rest
    → Unblocks (callback_of p)
    → Unblocks (callback_of o)
    → in_flight c ≤ (if c.world.blocked then 1 else 0)
    → ⊥
unfolding in_flight weigh_world
two_in_flight c p o rest held e mp mo h = ground (arith, weigh_marked_op p mp, weigh_marked_op o mo)

-- In every history of the pipeline from its construction: when a connect, reconnect or disconnect
-- operation is about to run in `MQTTTransportStage`, no other one is pending there, so that the
-- stage never cancels one.
pub nothing_to_cancel :
    (env : Env) {ids : List ℕ} {c : Config}
    → Reach env start ids c
    → (o : Op) (rest : List Act) → c.agenda ≡ run mqtt o ∷ rest
    → task (kind_of o) ≡ connection
    → c.world.pending_connection ≡ none
nothing_to_cancel env {c = c} r o rest e k =
    let marked = Reach-Marked r in
    let own = subst AllMarked e marked.1 in
    elim (Option-cases c.world.pending_connection) [
      | inl nothing ↦ nothing
      | inr (p, held) ↦ absurd (
          two_in_flight c p o rest held e (subst PendingMarked held marked.0)
            (task-Unblocks o k own.0) (in_flight-le-one env r))
    ]
