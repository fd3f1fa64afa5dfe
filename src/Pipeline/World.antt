-- ===== src/Pipeline/World.antt =====
-- The state of the pipeline's stages and of the transport, and what they owe the pipeline's thread.
use azure_iot_sdk_python_pre.Prelude.{ℕ, String, Bool, Option, List}
use azure_iot_sdk_python_pre.Prelude.Dict.{Dict}
use azure_iot_sdk_python_pre.Errors.{Error}
use azure_iot_sdk_python_pre.Hub.Message.{Json, Message, MethodRequest}
use azure_iot_sdk_python_pre.Mqtt.Manager.{Manager}
use azure_iot_sdk_python_pre.Pipeline.Ops.{Kind, MqttArgs, Op, Stage, Response}
use azure_iot_sdk_python_pre.Pipeline.Convert.{ConverterState}

-- The events that travel up.
pub data Event : Type 0 where
  iot_response : String → Response → Event
  incoming_message : String → String → Event
  c2d_message : Message → Event
  input_message : String → Message → Event
  method_request : MethodRequest → Event
  twin_patch : Json → Event

-- What reaches the client's callback thread: a completed operation, or a handler's call.
pub data Output : Type 0 where
  completed : ℕ → Kind → Option Error → Output
  is_connected is_disconnected : Output
  event : Event → Output

pub record World : Type 0 where
  -- `PipelineRootStage`
  pub connected : Bool
  -- `CoordinateRequestAndResponseStage`, and the number of request ids drawn
  pub pending_responses : Dict String Op
  pub drawn : ℕ
  -- `IoTHubMQTTConverterStage`
  pub converter : ConverterState
  -- `SerializeConnectOpsStage`
  pub blocked : Bool
  pub queue : List Op
  -- `MQTTTransportStage`: the arguments it last got, whether it has a transport, whose manager holds, for
  -- each message id, the operation that `on_published`, `on_subscribed` or `on_unsubscribed` completes
  pub args : Option MqttArgs
  pub transport : Bool
  pub pending_connection : Option Op
  pub manager : Manager Op
  pub calls : ℕ
  -- operations that a task on the pipeline's thread will complete
  pub scheduled : List Op
  -- the callback thread, latest first, and the exceptions caught in the background
  pub outputs : List Output
  pub background : List Error

-- The calls that a run on the pipeline's thread still has to make, the innermost first.
pub data Act : Type 0 where
  run : Stage → Op → Act
  complete : Op → Act
  start : Op → Act
  establish : ℕ → Op → Act
  raise : Error → Act
