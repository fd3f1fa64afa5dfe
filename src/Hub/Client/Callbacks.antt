-- ===== src/Hub/Client/Callbacks.antt =====
-- What the callback thread does: `on_complete` and the handlers of `IoTHubPipeline`
-- (iothub/pipeline/iothub_pipeline.py), with the callbacks of the clients (iothub/sync_clients.py).
use azure_iot_sdk_python_pre.Prelude.{
  ℕ, suc, Option, none, some, string_eq, nat_eq, ◌==◌, if◌then◌else◌,
}
use azure_iot_sdk_python_pre.Prelude.Dict.{insert}
use azure_iot_sdk_python_pre.Errors.{Error}
use azure_iot_sdk_python_pre.Hub.Message.{Json}
use azure_iot_sdk_python_pre.Hub.Inbox.{
  clear_all_method_requests, route_input_message, route_c2d_message, route_method_request,
  route_twin_patch,
}
use azure_iot_sdk_python_pre.Pipeline.Ops.{Kind, get_twin}
use azure_iot_sdk_python_pre.Pipeline.World.{
  Event, Output, completed, is_connected, is_disconnected, event, c2d_message as c2d_event,
  input_message as input_event, method_request as method_event, twin_patch as patch_event,
}
use azure_iot_sdk_python_pre.Hub.Client.{Client}

-- The argument of the callback that sets an event.
abbrev pub twin_of : Kind → Option Json
twin_of (get_twin t) = t
twin_of _ = none

-- `on_complete` of the methods of `IoTHubPipeline`, with the callbacks of the clients. Number 0 is
-- the callback of the constructor, `remove_this_code`.
unfoldable pub on_complete : ℕ → Kind → Option Error → Client → Client
on_complete id k (some e) c = if id == 0 then c else record c { exits = suc c.exits }
on_complete id k none c =
    if id == 0 then c else record c { events = insert id (twin_of k) c.events }

-- `_on_pipeline_event`, with the handlers that the clients set.
unfoldable pub on_pipeline_event : Event → Client → Client
unfolding route_c2d_message route_input_message route_method_request route_twin_patch
on_pipeline_event (c2d_event m) c =
    if c.is_module then c else record c { inboxes = (route_c2d_message m c.inboxes).0 }
on_pipeline_event (input_event name m) c =
    if c.is_module then record c { inboxes = (route_input_message name m c.inboxes).0 } else c
on_pipeline_event (method_event r) c = record c { inboxes = (route_method_request r c.inboxes).0 }
on_pipeline_event (patch_event p) c = record c { inboxes = (route_twin_patch p c.inboxes).0 }
on_pipeline_event _ c = c

-- `_on_disconnected`
unfoldable pub on_disconnected : Client → Client
unfolding clear_all_method_requests
on_disconnected c = record c { inboxes = clear_all_method_requests c.inboxes }

-- What the callback thread does with a call.
unfoldable pub deliver : Output → Client → Client
unfolding on_complete on_pipeline_event on_disconnected
deliver (completed id k e) c = on_complete id k e c
deliver is_connected c = c
deliver is_disconnected c = on_disconnected c
deliver (event e) c = on_pipeline_event e c
