-- ===== src/Pipeline/Run.antt =====
-- The pipeline's thread and what reaches it: a call of the client, the handlers that the transport
-- invokes (`on_connect`, `on_disconnect`, `on_message` of common/mqtt_transport.py and the handlers
-- of `MQTTTransportStage`), an acknowledgement on the network's thread, and a task that is due.
use azure_iot_sdk_python_pre.Prelude.{
  ℕ, zero, suc, Bool, true, false, Option, none, some, List, [], ◌∷◌, ◌++◌, ◌≡◌, string_eq,
  if◌then◌else◌,
}
use azure_iot_sdk_python_pre.Prelude.Dict.{lookup, erase}
use azure_iot_sdk_python_pre.Errors.{Error, Rc, Conack, rc_error, conack_error, connection_dropped}
use azure_iot_sdk_python_pre.Mqtt.Manager
use azure_iot_sdk_python_pre.Pipeline.Ops.{
  root, Kind, connect, reconnect, disconnect, Op, op, user, kind_of, set_error, set_kind,
}
use azure_iot_sdk_python_pre.Pipeline.Convert.{Env, set_response}
use azure_iot_sdk_python_pre.Pipeline.World.{
  World, Event, iot_response, is_connected, is_disconnected, event, Act, run, complete,
}
use azure_iot_sdk_python_pre.Pipeline.Exec.{exec}

unfoldable pub is_connect : Kind → Bool
is_connect connect = true
is_connect reconnect = true
is_connect _ = false

unfoldable pub is_disconnect : Kind → Bool
is_disconnect disconnect = true
is_disconnect connect = false
is_disconnect _ = false

-- The pending connection operation, if it is of the class that a handler looks for.
unfoldable pub pending_if : (Kind → Bool) → World → Option Op
pending_if test w = elim w.pending_connection [
  | none ↦ none
  | some o ↦ if test (kind_of o) then some o else none
]

-- `_on_mqtt_connected`
unfoldable pub on_mqtt_connected : World → World × List Act
unfolding pending_if is_connect
on_mqtt_connected w =
    let up = record w { connected = true; outputs = is_connected ∷ w.outputs } in
    elim (pending_if is_connect w) [
      | some o ↦ (record up { pending_connection = none }, complete o ∷ [])
      | none ↦ (up, [])
    ]

-- `_on_mqtt_connection_failure`
unfoldable pub on_mqtt_connection_failure : Error → World → World × List Act
unfolding pending_if is_connect
on_mqtt_connection_failure cause w = elim (pending_if is_connect w) [
  | some o ↦ (record w { pending_connection = none }, complete (set_error cause o) ∷ [])
  | none ↦ (record w { background = cause ∷ w.background }, [])
]

abbrev dropped : Option Error → Op → Op
dropped none o = o
dropped (some _) o = set_error connection_dropped o

-- `_on_mqtt_disconnected`
unfoldable pub on_mqtt_disconnected : Option Error → World → World × List Act
unfolding pending_if is_disconnect
on_mqtt_disconnected cause w =
    let down = record w { connected = false; outputs = is_disconnected ∷ w.outputs } in
    elim (pending_if is_disconnect w) [
      | some o ↦ (record down { pending_connection = none }, complete (dropped cause o) ∷ [])
      | none ↦ (record down { background = connection_dropped ∷ w.background }, [])
    ]

-- `_handle_pipeline_event` of `CoordinateRequestAndResponseStage`; any other event travels up to
-- the handler of the root.
unfoldable pub handle_event : Event → World → World × List Act
handle_event (iot_response request_id r) w = elim (lookup request_id w.pending_responses) [
  | none ↦ (w, [])
  | some o ↦ (
    record w { pending_responses = erase request_id w.pending_responses },
    complete (set_kind (set_response r (kind_of o)) o) ∷ [],
  )
]
handle_event e w = (record w { outputs = event e ∷ w.outputs }, [])

-- `on_publish`, `on_subscribe` and `on_unsubscribe` of the transport: the callback that the manager
-- triggers puts a task on the pipeline's thread.
unfoldable pub on_ack : ℕ → World → World
on_ack mid w =
    let (m, triggered) = Manager.complete_operation mid w.manager in
    record w { manager = m; scheduled = w.scheduled ++ triggered }

unfoldable pub run_task : World → World × List Act
run_task w = elim w.scheduled [
  | [] ↦ (w, [])
  | o ∷ rest ↦ (record w { scheduled = rest }, complete o ∷ [])
]

-- What the pipeline's thread takes up when it is idle.
pub data Input : Type 0 where
  submit : ℕ → Kind → Input
  on_connect : Conack → Input
  on_disconnect : Rc → Input
  on_event : Event → Input
  due : Input

unfoldable pub input : Input → World → World × List Act
unfolding conack_error rc_error
input (submit id k) w = (w, run root (op k none (user id)) ∷ [])
input (on_connect rc) w = elim (conack_error rc) [
  | none ↦ on_mqtt_connected w
  | some e ↦ on_mqtt_connection_failure e w
]
input (on_disconnect rc) w = on_mqtt_disconnected (rc_error rc) w
input (on_event e) w = handle_event e w
input due w = run_task w

-- A run: the calls one after the other, those that a call makes first. `none` is a run that does
-- not end within the fuel.
unfoldable pub run_all : Env → ℕ → World → List Act → Option World
run_all env fuel w [] = some w
run_all env zero w (a ∷ rest) = none
run_all env (suc fuel) w (a ∷ rest) = run_all env fuel (exec env a w).0 ((exec env a w).1 ++ rest)

pub record Config : Type 0 where
  pub world : World
  pub agenda : List Act

-- The system's steps: the next call of the run, an acknowledgement at any moment, and a new input
-- when the run has ended.
pub data Step (env : Env) (c : Config) (d : Config) : Type 0 where
  call :
      (a : Act) (rest : List Act)
      → c.agenda ≡ a ∷ rest
      → d ≡ record { world = (exec env a c.world).0; agenda = (exec env a c.world).1 ++ rest }
      → Step env c d
  ack : (mid : ℕ) → d ≡ record c { world = on_ack mid c.world } → Step env c d
  take :
      (i : Input)
      → c.agenda ≡ []
      → d ≡ record { world = (input i c.world).0; agenda = (input i c.world).1 }
      → Step env c d

abbrev pub submits : Input → List ℕ
submits (submit id k) = id ∷ []
submits (on_connect rc) = []
submits (on_disconnect rc) = []
submits (on_event e) = []
submits due = []

abbrev pub submitted_by : {env : Env} {c d : Config} → Step env c d → List ℕ
submitted_by (call a rest e f) = []
submitted_by (ack mid e) = []
submitted_by (take i e f) = submits i

-- A history, with the numbers of the callbacks that it submitted.
pub data Reach (env : Env) (c : Config) : List ℕ → Config → Type 0 where
  here : Reach env c [] c
  then_step :
      {ids : List ℕ} {d e : Config}
      → Reach env c ids d
      → (s : Step env d e) → Reach env c (submitted_by s ++ ids) e
