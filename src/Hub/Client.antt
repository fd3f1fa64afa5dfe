-- ===== src/Hub/Client.antt =====
-- The synchronous clients (iothub/sync_clients.py) on `IoTHubPipeline`
-- (iothub/pipeline/iothub_pipeline.py). A call of a client is a phase of the thread that makes it;
-- `threading.Event` objects are numbered by the callback of the operation that sets them.
use azure_iot_sdk_python_pre.Prelude.{
  ℕ, suc, ◌+◌, String, Bool, true, false, Option, none, some, List, [], ◌∷◌, string_eq, nat_eq,
  ◌==◌, if◌then◌else◌,
}
use azure_iot_sdk_python_pre.Prelude.Dict.{Dict, lookup, insert}
use azure_iot_sdk_python_pre.Errors.{Error}
use azure_iot_sdk_python_pre.Hub.Message.{Json, Sendable, as_message, MethodResponse}
use azure_iot_sdk_python_pre.Hub.Inbox.{
  Item, InboxManager, Handle, c2d_message, twin_patch, empty_manager, get_input_message_inbox,
  get_method_request_inbox, clear_all_method_requests, route_input_message, route_c2d_message,
  route_method_request, route_twin_patch, get_from,
}
use azure_iot_sdk_python_pre.Pipeline.Ops.{
  Kind, connect, disconnect, enable_feature, disable_feature, send_d2c_message, send_output_event,
  send_method_response, get_twin, patch_twin,
}
use azure_iot_sdk_python_pre.Pipeline.World.{
  Event, Output, completed, is_connected, is_disconnected, event, c2d_message as c2d_event,
  input_message as input_event, method_request as method_event, twin_patch as patch_event,
}
pub mod Callbacks
pub mod System
pub mod Events
pub mod Waiting
pub mod Asking
pub mod Asyncio
pub mod Features
mod Tests

-- iothub/pipeline/constant.py
abbrev pub c2d_msg : String
c2d_msg = "c2d"

abbrev pub input_msg : String
input_msg = "input"

abbrev pub methods : String
methods = "methods"

abbrev pub twin : String
twin = "twin"

abbrev pub twin_patches : String
twin_patches = "twin_patches"

abbrev pub FeatureTable : Type 0
FeatureTable = Dict String Bool

-- `feature_enabled` as `IoTHubPipeline` builds it
unfoldable pub no_features : FeatureTable
no_features =
    (c2d_msg, false)
    ∷ (input_msg, false)
    ∷ (methods, false)
    ∷ (twin, false)
    ∷ (twin_patches, false)
    ∷ []

-- The table of `enable_feature` and `disable_feature`; `none` is a `ValueError`.
unfoldable pub set_feature : Bool → String → FeatureTable → Option FeatureTable
set_feature b feature_name table = elim (lookup feature_name table) [
  | none ↦ none
  | some _ ↦ some (insert feature_name b table)
]

-- `enable_feature` and `disable_feature`: the table, and the operation that they submit.
unfoldable pub pipeline_enable_feature : String → FeatureTable → Option (FeatureTable × Kind)
unfolding set_feature
pipeline_enable_feature feature_name table = elim (set_feature true feature_name table) [
  | none ↦ none
  | some next ↦ some (next, enable_feature feature_name)
]

unfoldable pub pipeline_disable_feature : String → FeatureTable → Option (FeatureTable × Kind)
unfolding set_feature
pipeline_disable_feature feature_name table = elim (set_feature false feature_name table) [
  | none ↦ none
  | some next ↦ some (next, disable_feature feature_name)
]

pub record Client : Type 0 where
  -- whether it is an `IoTHubModuleClient`
  pub is_module : Bool
  pub feature_enabled : FeatureTable
  pub inboxes : InboxManager
  -- the events that are set, with the twin that the callback got
  pub events : Dict ℕ (Option Json)
  -- how often `sys.exit` was called on the callback thread
  pub exits : ℕ

-- What a `receive_` method waits for, with the name that it is given.
pub data Source : Type 0 where
  c2d_messages : Source
  method_requests : Option String → Source
  desired_patches : Source
  input_messages : String → Source

-- `block=False`, `block=True`, and `block=True` with a timeout
pub data Wait : Type 0 where
  no_block block block_until : Wait

pub data Call : Type 0 where
  connects disconnects : Call
  sends_d2c_message : Sendable → Call
  sends_method_response : MethodResponse → Call
  gets_twin : Call
  patches_twin : Json → Call
  sends_to_output : Sendable → String → Call
  receives : Source → Wait → Call

-- What a call does once the event it waits for is set.
pub data Goal : Type 0 where
  return_none return_twin : Goal
  then_run : Kind → Goal → Goal
  then_receive : Source → Wait → Goal

pub data Result : Type 0 where
  nothing : Result
  the_twin : Option Json → Result
  item : Item → Result
  inbox_empty invalid_feature : Result

-- Where a thread is: in no call, before `_enable_feature`, whose test of the table it has made, at
-- `run_op`, which waits for the pipeline's thread, at `wait` of an event, at `get` of an inbox, or at
-- the end of a call.
pub data Phase : Type 0 where
  idle : Phase
  enabling : String → Goal → Phase
  entering : Kind → Goal → Phase
  waiting : ℕ → Goal → Phase
  getting : Handle → Wait → Phase
  returned : Result → Phase

unfoldable pub open_inbox : Source → InboxManager → InboxManager × Handle
unfolding get_method_request_inbox get_input_message_inbox
open_inbox c2d_messages m = (m, c2d_message)
open_inbox (method_requests name) m = get_method_request_inbox name m
open_inbox desired_patches m = (m, twin_patch)
open_inbox (input_messages name) m = get_input_message_inbox name m

-- The rest of a call after a wait.
unfoldable pub go_on : Option Json → Goal → Client → Client × Phase
unfolding open_inbox
go_on t return_none c = (c, returned nothing)
go_on t return_twin c = (c, returned (the_twin t))
go_on t (then_run k g) c = (c, entering k g)
go_on t (then_receive s w) c =
    let (m, h) = open_inbox s c.inboxes in (record c { inboxes = m }, getting h w)

-- `_enable_feature`
unfoldable pub enable : String → Goal → Client → Client × Phase
unfolding pipeline_enable_feature
enable name goal c = elim (pipeline_enable_feature name c.feature_enabled) [
  | none ↦ (c, returned invalid_feature)
  | some (table, k) ↦ (record c { feature_enabled = table }, entering k goal)
]

-- The test of `feature_enabled` that a method starts with. Another thread may run before
-- `_enable_feature` does.
unfoldable pub with_feature : String → Goal → Client → Client × Phase
unfolding go_on
with_feature name goal c = elim (lookup name c.feature_enabled) [
  | none ↦ (c, returned invalid_feature)
  | some enabled ↦ if enabled then go_on none goal c else (c, enabling name goal)
]

-- The methods of the clients, up to where they first wait.
abbrev pub client_connect : Client → Client × Phase
client_connect c = (c, entering connect return_none)

abbrev pub client_disconnect : Client → Client × Phase
client_disconnect c = (c, entering disconnect return_none)

abbrev pub client_send_d2c_message : Sendable → Client → Client × Phase
client_send_d2c_message m c = (c, entering (send_d2c_message (as_message m)) return_none)

abbrev pub client_send_method_response : MethodResponse → Client → Client × Phase
client_send_method_response r c = (c, entering (send_method_response r) return_none)

abbrev pub client_get_twin : Client → Client × Phase
client_get_twin c = with_feature twin (then_run (get_twin none) return_twin) c

abbrev pub client_patch_twin_reported_properties : Json → Client → Client × Phase
client_patch_twin_reported_properties p c =
    with_feature twin (then_run (patch_twin p) return_none) c

abbrev pub client_send_to_output : Sendable → String → Client → Client × Phase
client_send_to_output m output_name c = (
  c,
  entering (send_output_event (record (as_message m) { output_name = some output_name }))
      return_none,
)

abbrev pub client_receive_method_request : Option String → Wait → Client → Client × Phase
client_receive_method_request name w c =
    with_feature methods (then_receive (method_requests name) w) c

abbrev pub client_receive_twin_desired_properties_patch : Wait → Client → Client × Phase
client_receive_twin_desired_properties_patch w c =
    with_feature twin_patches (then_receive desired_patches w) c

abbrev pub client_receive_c2d_message : Wait → Client → Client × Phase
client_receive_c2d_message w c = with_feature c2d_msg (then_receive c2d_messages w) c

abbrev pub client_receive_input_message : String → Wait → Client → Client × Phase
client_receive_input_message name w c =
    with_feature input_msg (then_receive (input_messages name) w) c

unfoldable pub begin : Call → Client → Client × Phase
unfolding with_feature
begin connects c = client_connect c
begin disconnects c = client_disconnect c
begin (sends_d2c_message m) c = client_send_d2c_message m c
begin (sends_method_response r) c = client_send_method_response r c
begin gets_twin c = client_get_twin c
begin (patches_twin p) c = client_patch_twin_reported_properties p c
begin (sends_to_output m output_name) c = client_send_to_output m output_name c
begin (receives (method_requests name) w) c = client_receive_method_request name w c
begin (receives desired_patches w) c = client_receive_twin_desired_properties_patch w c
begin (receives c2d_messages w) c = client_receive_c2d_message w c
begin (receives (input_messages name) w) c = client_receive_input_message name w c

-- Whether `get` raises `InboxEmpty` of an inbox that is empty.
unfoldable pub gives_up : Wait → Bool
gives_up no_block = true
gives_up _ = false

-- A thread that looks whether it can go on.
unfoldable pub resume : Phase → Client → Client × Phase
unfolding go_on enable gives_up get_from
resume (enabling name g) c = enable name g c
resume (waiting id g) c = elim (lookup id c.events) [
  | none ↦ (c, waiting id g)
  | some t ↦ go_on t g c
]
resume (getting h w) c =
    let (m, i) = get_from h c.inboxes in
    elim i [
      | some x ↦ (record c { inboxes = m }, returned (item x))
      | none ↦ (c, if gives_up w then returned inbox_empty else getting h w)
    ]
resume p c = (c, p)

-- The time of a `get` is up.
unfoldable pub time_out : Phase → Phase
time_out (getting h block_until) = returned inbox_empty
time_out p = p

-- A client as it is constructed.
unfoldable pub new_client : Bool → Client
unfolding no_features empty_manager
new_client is_module = record {
  is_module = is_module;
  feature_enabled = no_features;
  inboxes = empty_manager;
  events = [];
  exits = 0;
}
