-- ===== src/Hub/Client/Asyncio.antt =====
-- The asynchronous clients (iothub/aio/async_clients.py, common/async_adapter.py). A coroutine that
-- awaits `emulate_async` of a method of the pipeline waits for a thread of the default executor; then
-- that thread is where the thread of a synchronous call would be. What the coroutine awaits after that
-- is not here. An inbox's `get` always blocks.
use azure_iot_sdk_python_pre.Prelude.{String, Option, none, some, string_eq, nat_eq, if◌then◌else◌}
use azure_iot_sdk_python_pre.Prelude.Dict.{lookup}
use azure_iot_sdk_python_pre.Hub.Message.{Json, Sendable, as_message, MethodResponse}
use azure_iot_sdk_python_pre.Pipeline.Ops.{
  Kind, connect, disconnect, send_d2c_message, send_output_event, send_method_response, get_twin,
  patch_twin,
}
use azure_iot_sdk_python_pre.Hub.Client.{
  Client, Source, c2d_messages, method_requests, desired_patches, input_messages, block, Goal,
  return_none, return_twin, then_run, then_receive, Phase, enabling, entering, returned,
  invalid_feature, go_on, c2d_msg, input_msg, methods, twin, twin_patches,
}

-- What a thread of the executor is to run.
pub data Job : Type 0 where
  runs_operation : Kind → Job
  enables : String → Job

-- Where a coroutine is.
pub data AsyncPhase : Type 0 where
  emulating : Job → Goal → AsyncPhase
  like : Phase → AsyncPhase

pub data AsyncCall : Type 0 where
  async_connects async_disconnects async_gets_twin : AsyncCall
  async_sends_d2c_message : Sendable → AsyncCall
  async_sends_method_response : MethodResponse → AsyncCall
  async_patches_twin : Json → AsyncCall
  async_sends_to_output : Sendable → String → AsyncCall
  async_receives : Source → AsyncCall

-- The rest of a coroutine after it awaited a completion.
unfoldable pub async_go_on : Option Json → Goal → Client → Client × AsyncPhase
unfolding go_on
async_go_on t (then_run k g) c = (c, emulating (runs_operation k) g)
async_go_on t g c = let (d, p) = go_on t g c in (d, like p)

-- The test of `feature_enabled`, with `_enable_feature`.
unfoldable pub async_with_feature : String → Goal → Client → Client × AsyncPhase
unfolding async_go_on
async_with_feature name goal c = elim (lookup name c.feature_enabled) [
  | none ↦ (c, like (returned invalid_feature))
  | some enabled ↦ if enabled then async_go_on none goal c else (c, emulating (enables name) goal)
]

abbrev pub async_connect : Client → Client × AsyncPhase
async_connect c = (c, emulating (runs_operation connect) return_none)

abbrev pub async_disconnect : Client → Client × AsyncPhase
async_disconnect c = (c, emulating (runs_operation disconnect) return_none)

abbrev pub async_send_d2c_message : Sendable → Client → Client × AsyncPhase
async_send_d2c_message m c =
    (c, emulating (runs_operation (send_d2c_message (as_message m))) return_none)

abbrev pub async_send_method_response : MethodResponse → Client → Client × AsyncPhase
async_send_method_response r c =
    (c, emulating (runs_operation (send_method_response r)) return_none)

abbrev pub async_get_twin : Client → Client × AsyncPhase
async_get_twin c = async_with_feature twin (then_run (get_twin none) return_twin) c

abbrev pub async_patch_twin_reported_properties : Json → Client → Client × AsyncPhase
async_patch_twin_reported_properties p c =
    async_with_feature twin (then_run (patch_twin p) return_none) c

abbrev pub async_send_to_output : Sendable → String → Client → Client × AsyncPhase
async_send_to_output m output_name c = (
  c,
  emulating
      (runs_operation
        (send_output_event (record (as_message m) { output_name = some output_name })))
      return_none,
)

abbrev pub async_receive_method_request : Option String → Client → Client × AsyncPhase
async_receive_method_request name c =
    async_with_feature methods (then_receive (method_requests name) block) c

abbrev pub async_receive_twin_desired_properties_patch : Client → Client × AsyncPhase
async_receive_twin_desired_properties_patch c =
    async_with_feature twin_patches (then_receive desired_patches block) c

abbrev pub async_receive_c2d_message : Client → Client × AsyncPhase
async_receive_c2d_message c = async_with_feature c2d_msg (then_receive c2d_messages block) c

abbrev pub async_receive_input_message : String → Client → Client × AsyncPhase
async_receive_input_message name c =
    async_with_feature input_msg (then_receive (input_messages name) block) c

unfoldable pub async_begin : AsyncCall → Client → Client × AsyncPhase
unfolding async_with_feature
async_begin async_connects c = async_connect c
async_begin async_disconnects c = async_disconnect c
async_begin async_gets_twin c = async_get_twin c
async_begin (async_sends_d2c_message m) c = async_send_d2c_message m c
async_begin (async_sends_method_response r) c = async_send_method_response r c
async_begin (async_patches_twin p) c = async_patch_twin_reported_properties p c
async_begin (async_sends_to_output m output_name) c = async_send_to_output m output_name c
async_begin (async_receives (method_requests name)) c = async_receive_method_request name c
async_begin (async_receives desired_patches) c = async_receive_twin_desired_properties_patch c
async_begin (async_receives c2d_messages) c = async_receive_c2d_message c
async_begin (async_receives (input_messages name)) c = async_receive_input_message name c

-- A thread of the executor takes up the job: it is where the thread of a synchronous call would be.
unfoldable pub emulate_async : Client × AsyncPhase → Client × Phase
emulate_async (c, emulating (runs_operation k) g) = (c, entering k g)
emulate_async (c, emulating (enables name) g) = (c, enabling name g)
emulate_async (c, like p) = (c, p)
