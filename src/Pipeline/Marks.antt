-- ===== src/Pipeline/Marks.antt =====
-- Where the callback of `SerializeConnectOpsStage` stands: on every connection operation past it.
use azure_iot_sdk_python_pre.Prelude.{
  ◌≢◌, ◌≡◌, ◌⊎◌, inl, inr, Bool, true, false, Option, none, some, List, [], ◌∷◌, ◌++◌, map, arith,
  Option-cases, string_eq,
}
use azure_iot_sdk_python_pre.Prelude.Dict.{lookup}
use azure_iot_sdk_python_pre.Errors.{Error}
use azure_iot_sdk_python_pre.Pipeline.Ops.{
  Stage, root, use_auth, twin, coordinate, converter, ensure, serialize, mqtt, Kind, connect, Op,
  op, Callback, user, delegated, got_twin, patched_twin, sent, connected, unblocking, kind_of,
  callback_of,
}
use azure_iot_sdk_python_pre.Mqtt.Manager.{establish_operation}
use azure_iot_sdk_python_pre.Pipeline.Convert.{Env}
use azure_iot_sdk_python_pre.Pipeline.World.{
  World, Event, iot_response, Act, run, complete, establish, raise,
}
use azure_iot_sdk_python_pre.Pipeline.World
use azure_iot_sdk_python_pre.Pipeline.Exec.{
  connection, passage, passing, task, release, answer_twin, execute_twin, execute_coordinate,
  execute_converter, execute_ensure, execute_serialize, execute_mqtt, execute_start, execute_op,
  call_back, exec,
}

-- The stage's callback stands on an operation.
abbrev pub Unblocks : Callback → Type 0
Unblocks (unblocking c) = Unit
Unblocks (user id) = ⊥
Unblocks (delegated o) = ⊥
Unblocks (got_twin o) = ⊥
Unblocks (patched_twin o) = ⊥
Unblocks (sent request_id) = ⊥
Unblocks (connected o) = ⊥

-- It stands on every connection operation that is past the stage.
abbrev pub IsMarked : Act → Type 0
IsMarked (run mqtt o) = (task (kind_of o) ≢ connection) ⊎ Unblocks (callback_of o)
IsMarked (run _ o) = Unit
IsMarked (World.start o) = Unblocks (callback_of o)
IsMarked (complete o) = Unit
IsMarked (establish mid o) = Unit
IsMarked (raise e) = Unit

abbrev pub AllMarked : List Act → Type 0
AllMarked [] = Unit
AllMarked (a ∷ acts) = IsMarked a × AllMarked acts

abbrev pub PendingMarked : Option Op → Type 0
PendingMarked none = Unit
PendingMarked (some o) = Unblocks (callback_of o)

abbrev pub Marked : World × List Act → Type 0
Marked (w, acts) = PendingMarked w.pending_connection × AllMarked acts

pub AllMarked-append : (xs ys : List Act) → AllMarked xs → AllMarked ys → AllMarked (xs ++ ys)
AllMarked-append [] ys hx hy = hy
AllMarked-append (a ∷ xs) ys hx hy = (hx.0, AllMarked-append xs ys hx.1 hy)

-- What passes without blocking is no connection operation.
passing_kinds : (k : Kind) (c : Bool) → passage k c ≡ passing → task k ≢ connection
unfolding passage task
passing_kinds connect c h = ground arith
passing_kinds _ c h = ground arith

execute_serialize-Marked :
    (o : Op) (w : World) → PendingMarked w.pending_connection → Marked (execute_serialize o w)
unfolding execute_serialize
execute_serialize-Marked (op k e c) w h = ground (arith, passing_kinds k w.connected)

execute_mqtt-Marked :
    (env : Env) (o : Op) (w : World)
    → PendingMarked w.pending_connection
    → IsMarked (run mqtt o)
    → Marked (execute_mqtt env o w)
unfolding execute_mqtt
execute_mqtt-Marked env (op k e c) w h m = ground arith

execute_start-Marked :
    (env : Env) (o : Op) (w : World) → Unblocks (callback_of o) → Marked (execute_start env o w)
unfolding execute_start
execute_start-Marked env (op k e c) w m = ground arith

execute_coordinate-Marked :
    (env : Env) (o : Op) (w : World)
    → PendingMarked w.pending_connection
    → Marked (execute_coordinate env o w)
unfolding execute_coordinate
execute_coordinate-Marked env (op k e c) w h = ground arith

execute_converter-Marked :
    (env : Env) (o : Op) (w : World)
    → PendingMarked w.pending_connection
    → Marked (execute_converter env o w)
unfolding execute_converter
execute_converter-Marked env (op k e c) w h = ground arith

execute_op-Marked :
    (env : Env) (s : Stage) (o : Op) (w : World)
    → PendingMarked w.pending_connection
    → IsMarked (run s o)
    → Marked (execute_op env s o w)
unfolding execute_op execute_twin execute_ensure
execute_op-Marked env root (op k e c) w h m = ground arith
execute_op-Marked env use_auth (op k e c) w h m = ground arith
execute_op-Marked env twin (op k e c) w h m = ground arith
execute_op-Marked env coordinate o w h m = execute_coordinate-Marked env o w h
execute_op-Marked env converter o w h m = execute_converter-Marked env o w h
execute_op-Marked env ensure (op k e c) w h m = ground arith
execute_op-Marked env serialize o w h m = execute_serialize-Marked o w h
execute_op-Marked env mqtt o w h m = execute_mqtt-Marked env o w h m

release-Marked : (e : Option Error) (q : List Op) → AllMarked (map (release e) q)
unfolding release
release-Marked e [] = tt
release-Marked none (o ∷ q) = (tt, release-Marked none q)
release-Marked (some e) (o ∷ q) = (tt, release-Marked (some e) q)

answer_twin-Marked :
    (env : Env) (whole : Bool) (o : Op) (k : Kind) (e : Option Error)
    → IsMarked (answer_twin env whole o k e)
unfolding answer_twin
answer_twin-Marked env whole (op k' e' c) k (some e) = tt
answer_twin-Marked env whole (op k' e' c) k none = ground arith

call_back-Marked :
    (env : Env) (c : Callback) (k : Kind) (e : Option Error) (w : World)
    → PendingMarked w.pending_connection
    → Marked (call_back env c k e w)
unfolding call_back
call_back-Marked env (user id) k e w h = ground arith
call_back-Marked env (delegated o) k e w h = ground arith
call_back-Marked env (got_twin o) k e w h = (h, (answer_twin-Marked env true o k e, tt))
call_back-Marked env (patched_twin o) k e w h = (h, (answer_twin-Marked env false o k e, tt))
call_back-Marked env (sent request_id) k none w h = (h, tt)
call_back-Marked env (sent request_id) k (some e) w h =
    elim (Option-cases (lookup request_id w.pending_responses)) [
      | inl missing ↦ rw (missing, call_back) (h, (tt, tt))
      | inr (o, found) ↦ rw (found, call_back) (h, (tt, tt))
    ]
call_back-Marked env (connected (op k' e' c)) k e w h = ground arith
call_back-Marked env (unblocking c) k e w h = (
  h,
  AllMarked-append (map (release e) w.queue) (complete (op k e c) ∷ []) (release-Marked e w.queue)
      (tt, tt),
)

completed-Marked : (ops : List Op) → AllMarked (map complete ops)
completed-Marked [] = tt
completed-Marked (o ∷ ops) = (tt, completed-Marked ops)

-- No call lets a connection operation past the stage without it.
pub exec-Marked :
    (env : Env) (a : Act) (w : World)
    → PendingMarked w.pending_connection
    → IsMarked a
    → Marked (exec env a w)
unfolding exec
exec-Marked env (run s o) w h m = execute_op-Marked env s o w h m
exec-Marked env (complete (op k e c)) w h m = call_back-Marked env c k e w h
exec-Marked env (World.start o) w h m = execute_start-Marked env o w m
exec-Marked env (establish mid o) w h m =
    (h, completed-Marked (establish_operation mid (some o) w.manager).1)
exec-Marked env (raise e) w h m = (h, tt)
