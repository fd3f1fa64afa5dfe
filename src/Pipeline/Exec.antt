-- ===== src/Pipeline/Exec.antt =====
-- One call on the pipeline's thread: `run_op` and `_execute_op` of each stage, and the functions of
-- common/pipeline/operation_flow.py. What a call does itself is done at once; the calls that it
-- makes are returned, in order, so that the rest of the run stands behind them.
use azure_iot_sdk_python_pre.Prelude.{
  ℕ, suc, Bool, true, false, not, ◌&&◌, Option, none, some, List, [], ◌∷◌, ◌++◌, map, string_eq,
  if◌then◌else◌,
}
use azure_iot_sdk_python_pre.Prelude.Dict.{lookup, insert, erase}
use azure_iot_sdk_python_pre.Errors.{
  Error, rc_error, attribute_error, key_error, not_implemented, pipeline, type_error, value_error,
}
use azure_iot_sdk_python_pre.Mqtt.Manager
use azure_iot_sdk_python_pre.Pipeline.Ops.{
  Stage, root, use_auth, twin, coordinate, converter, ensure, serialize, mqtt, next, MqttArgs, Kind,
  connect, reconnect, disconnect, set_mqtt_args, publish, subscribe, unsubscribe, get_twin, Op, op,
  Callback, user, delegated, got_twin, patched_twin, sent, connected, unblocking, kind_of, error_of,
  callback_of, set_error, copy_error, set_kind, set_callback, needs_connection,
}
use azure_iot_sdk_python_pre.Pipeline.Convert.{
  Env, Answer, returned, raised, use_auth_provider, twin_request, twin_status, status_error,
  with_request_id, delegate, fail, pass_on, convert,
}
use azure_iot_sdk_python_pre.Pipeline.World.{
  World, Act, run, complete, start, establish, raise, completed,
}

-- `pass_op_to_next_stage`
unfoldable pub pass_op : Stage → Op → Act
unfolding next
pass_op stage o = elim (error_of o) [
  | some _ ↦ complete o
  | none ↦ elim (next stage) [
    | some below ↦ run below o
    | none ↦ complete (set_error not_implemented o)
  ]
]

-- `delegate_to_different_op`
unfoldable pub delegate_op : Stage → Op → Kind → Act
unfolding pass_op
delegate_op stage original k = pass_op stage (op k none (delegated original))

-- `HandleTwinOperationsStage`
unfoldable pub execute_twin : Op → Act
unfolding pass_op
execute_twin o = elim (twin_request (kind_of o)) [
  | some (k, whole) ↦ pass_op twin (op k none (if whole then got_twin o else patched_twin o))
  | none ↦ pass_op twin o
]

-- `CoordinateRequestAndResponseStage`
unfoldable pub execute_coordinate : Env → Op → World → World × List Act
unfolding pass_op
execute_coordinate env o w =
    let request_id = env.uuid4 w.drawn in
    elim (with_request_id request_id (kind_of o)) [
      | some k ↦ (
        record w {
          pending_responses = insert request_id o w.pending_responses;
          drawn = suc w.drawn;
        },
        pass_op coordinate (op k none (sent request_id)) ∷ [],
      )
      | none ↦ (w, pass_op coordinate o ∷ [])
    ]

-- `IoTHubMQTTConverterStage`; an exception is caught by `run_op`
unfoldable pub execute_converter : Env → Op → World → World × List Act
unfolding pass_op delegate_op
execute_converter env o w =
    let (state, conversion) = convert env w.converter (kind_of o) in
    (
      record w { converter = state },
      elim conversion [
        | delegate k ↦ delegate_op converter o k ∷ []
        | fail e ↦ complete (set_error e o) ∷ []
        | pass_on ↦ pass_op converter o ∷ []
      ],
    )

-- `EnsureConnectionStage`
unfoldable pub execute_ensure : Op → World → Act
unfolding pass_op
execute_ensure o w =
    if needs_connection (kind_of o) && not w.connected
    then pass_op ensure (op connect none (connected o))
    else pass_op ensure o

-- What `SerializeConnectOpsStage` lets past, when it is not blocked.
pub data Passage : Type 0 where
  early_completion blocking passing : Passage

unfoldable pub passage : Kind → Bool → Passage
passage connect c = if c then early_completion else blocking
passage disconnect c = if c then blocking else early_completion
passage reconnect c = blocking
passage _ c = passing

unfoldable pub execute_serialize : Op → World → World × List Act
unfolding pass_op
execute_serialize o w =
    if w.blocked
    then (record w { queue = w.queue ++ o ∷ [] }, [])
    else elim (passage (kind_of o) w.connected) [
      | early_completion ↦ (w, complete o ∷ [])
      | blocking ↦ (
        record w { blocked = true },
        pass_op serialize (set_callback (unblocking (callback_of o)) o) ∷ [],
      )
      | passing ↦ (w, pass_op serialize o ∷ [])
    ]

-- `_unblock`: every queued operation fails with the error, or runs through the stage again.
unfoldable pub release : Option Error → Op → Act
release (some e) o = complete (set_error e o)
release none o = run serialize o

-- What `MQTTTransportStage` does with an operation.
pub data Task : Type 0 where
  set_args : MqttArgs → Task
  connection request pass_down : Task

unfoldable pub task : Kind → Task
task (set_mqtt_args args) = set_args args
task connect = connection
task reconnect = connection
task disconnect = connection
task (publish _ _) = request
task (subscribe _) = request
task (unsubscribe _) = request
task _ = pass_down

-- `_cancel_pending_connection_op`, completing the operation that is pending. The code clears the
-- attribute after this completion, the model before it: a completion with an error runs no stage,
-- so nothing reads the attribute in between.
unfoldable pub cancel : Option Op → List Act
cancel none = []
cancel (some o) = complete (set_error pipeline o) ∷ []

-- The answer of a call on the client library, as the transport's methods raise it.
unfoldable pub call_error : Answer → Option Error
unfolding rc_error
call_error (returned rc mid) = rc_error rc
call_error (raised e) = some e

unfoldable pub mid_of : Answer → ℕ
mid_of (returned rc mid) = mid
mid_of (raised e) = 0

-- `MQTTTransportStage`. The construction of the transport calls the client library too. Before the
-- arguments are set the stage has no transport, and `run_op` catches the exception. `start` goes on
-- when the cancelled operation has completed.
unfoldable pub execute_mqtt : Env → Op → World → World × List Act
unfolding pass_op cancel call_error mid_of
execute_mqtt env o w = elim (task (kind_of o)) [
  | set_args args ↦ elim (call_error (env.paho w.calls)) [
    | some e ↦ (record w { args = some args; calls = suc w.calls }, complete (set_error e o) ∷ [])
    | none ↦ (
      record w {
        args = some args;
        transport = true;
        pending_connection = none;
        manager = Manager.init;
        calls = suc w.calls;
      },
      complete o ∷ [],
    )
  ]
  | connection ↦
      if w.transport
      then (record w { pending_connection = none }, cancel w.pending_connection ++ start o ∷ [])
      else (w, complete (set_error attribute_error o) ∷ [])
  | request ↦
      if w.transport
      then (
        record w { calls = suc w.calls },
        elim (call_error (env.paho w.calls)) [
          | some e ↦ complete (set_error e o) ∷ []
          | none ↦ establish (mid_of (env.paho w.calls)) o ∷ []
        ],
      )
      else (w, complete (set_error attribute_error o) ∷ [])
  | pass_down ↦ (w, pass_op mqtt o ∷ [])
]

-- The connection operation becomes the pending one, and the transport is told to connect,
-- reconnect or disconnect.
unfoldable pub execute_start : Env → Op → World → World × List Act
unfolding call_error
execute_start env o w = elim (call_error (env.paho w.calls)) [
  | some e ↦
      (record w { pending_connection = none; calls = suc w.calls }, complete (set_error e o) ∷ [])
  | none ↦ (record w { pending_connection = some o; calls = suc w.calls }, [])
]

unfoldable pub execute_op : Env → Stage → Op → World → World × List Act
unfolding pass_op delegate_op
execute_op env root o w = (w, pass_op root o ∷ [])
execute_op env use_auth o w = elim (use_auth_provider (kind_of o)) [
  | some k ↦ (w, delegate_op use_auth o k ∷ [])
  | none ↦ (w, pass_op use_auth o ∷ [])
]
execute_op env twin o w = (w, execute_twin o ∷ [])
execute_op env coordinate o w = execute_coordinate env o w
execute_op env converter o w = execute_converter env o w
execute_op env ensure o w = (w, execute_ensure o w ∷ [])
execute_op env serialize o w = execute_serialize o w
execute_op env mqtt o w = execute_mqtt env o w

unfoldable map_error : Option Error → Op → Op
map_error none o = o
map_error (some e) o = set_error e o

-- `on_twin_response` with `map_twin_error`: an exception in it is caught by `complete_op`, and the
-- twin operation is not completed.
unfoldable pub answer_twin : Env → Bool → Op → Kind → Option Error → Act
unfolding twin_status status_error map_error
answer_twin env whole o k (some e) = complete (set_error e o)
answer_twin env whole o k none = elim (twin_status k) [
  | none ↦ raise type_error
  | some r ↦
      if whole
      then (elim (env.json_loads r.response_body) [
        | none ↦ raise value_error
        | some value ↦
            complete (map_error (status_error r.status_code) (set_kind (get_twin (some value)) o))
      ])
      else complete (map_error (status_error r.status_code) o)
]

-- `op.callback(op)` of `complete_op`, for an operation of this kind and error.
unfoldable pub call_back : Env → Callback → Kind → Option Error → World → World × List Act
unfolding pass_op release answer_twin
call_back env (user id) k e w = (record w { outputs = completed id k e ∷ w.outputs }, [])
call_back env (delegated o) k e w = (w, complete (copy_error e o) ∷ [])
call_back env (got_twin o) k e w = (w, answer_twin env true o k e ∷ [])
call_back env (patched_twin o) k e w = (w, answer_twin env false o k e ∷ [])
call_back env (sent request_id) k none w = (w, [])
call_back env (sent request_id) k (some e) w = elim (lookup request_id w.pending_responses) [
  | none ↦ (w, raise key_error ∷ [])
  | some o ↦ (
    record w { pending_responses = erase request_id w.pending_responses },
    complete (set_error e o) ∷ [],
  )
]
call_back env (connected o) k none w = (w, pass_op ensure o ∷ [])
call_back env (connected o) k (some e) w = (w, complete (set_error e o) ∷ [])
call_back env (unblocking c) k e w =
    (record w { blocked = false; queue = [] }, map (release e) w.queue ++ complete (op k e c) ∷ [])

unfoldable pub exec : Env → Act → World → World × List Act
unfolding execute_op execute_twin execute_coordinate execute_converter execute_ensure
    execute_serialize execute_mqtt execute_start call_back
exec env (run stage o) w = execute_op env stage o w
exec env (complete o) w = call_back env (callback_of o) (kind_of o) (error_of o) w
exec env (start o) w = execute_start env o w
-- An acknowledgement that came before completes the operation at once, on the pipeline's thread.
exec env (establish mid o) w =
    let (m, triggered) = Manager.establish_operation mid (some o) w.manager in
    (record w { manager = m }, map complete triggered)
exec env (raise e) w = (record w { background = e ∷ w.background }, [])
