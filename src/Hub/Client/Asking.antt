-- ===== src/Hub/Client/Asking.antt =====
-- What a thread of a client does about the operation that enables a feature.
use azure_iot_sdk_python_pre.Prelude.{
  ◌≡◌, refl, sym, ap, String, Bool, true, false, ◌||◌, Option, none, some, arith, str_eq, eq_iff,
  string_eq, nat_eq,
}
use azure_iot_sdk_python_pre.Prelude.Dict.{lookup, lookup-insert}
use azure_iot_sdk_python_pre.Hub.Message.{Json}
use azure_iot_sdk_python_pre.Pipeline.Ops.{Kind, enable_feature, get_twin, patch_twin}
use azure_iot_sdk_python_pre.Pipeline.World.{
  Event, Output, completed, is_connected, is_disconnected, event, c2d_message as c2d_event,
  input_message as input_event, method_request as method_event, twin_patch as patch_event,
  iot_response, incoming_message,
}
use azure_iot_sdk_python_pre.Hub.Client.{
  Client, FeatureTable, Call, Goal, Phase, idle, enabling, entering, waiting, getting, returned,
  begin, resume, time_out, connects, disconnects, sends_d2c_message, sends_method_response,
  gets_twin, patches_twin, sends_to_output, receives, with_feature, go_on, enable, set_feature,
  return_none, return_twin, then_run, then_receive, twin, methods, twin_patches, c2d_msg, input_msg,
  method_requests, desired_patches, c2d_messages, input_messages, pipeline_enable_feature,
}
use azure_iot_sdk_python_pre.Hub.Client.Callbacks.{
  deliver, on_complete, on_pipeline_event, on_disconnected,
}

-- Whether a thread is on its way to submit the operation that enables a feature, or will be after
-- its wait.
unfoldable pub asks_kind : String → Kind → Bool
asks_kind f (enable_feature name) = str_eq name f
asks_kind f _ = false

unfoldable pub asks_goal : String → Goal → Bool
unfolding asks_kind
asks_goal f (then_run k g) = asks_kind f k || asks_goal f g
asks_goal f _ = false

unfoldable pub asks : String → Phase → Bool
unfolding asks_kind asks_goal
asks f (enabling name g) = str_eq name f || asks_goal f g
asks f (entering k g) = asks_kind f k || asks_goal f g
asks f (waiting id g) = asks_goal f g
asks f _ = false

-- What keeps a feature that is enabled: it stays so, and is not asked for.
abbrev pub Keeps : String → Client → Client × Phase → Type 0
Keeps f c r =
    lookup f c.feature_enabled ≡ some true
    → (asks f r.1 ≡ false) × (lookup f r.0.feature_enabled ≡ some true)

go_on-asks :
    (f : String) (t : Option Json) (g : Goal) (c : Client)
    → (asks f (go_on t g c).1 ≡ true → asks_goal f g ≡ true)
      × ((go_on t g c).0.feature_enabled ≡ c.feature_enabled)
unfolding go_on asks asks_goal
go_on-asks f t return_none c = ground arith
go_on-asks f t return_twin c = ground arith
go_on-asks f t (then_run k g) c = ground arith
go_on-asks f t (then_receive s w) c = ground arith

same_feature :
    (f name : String) (table : FeatureTable)
    → str_eq name f ≡ true
    → lookup f table ≡ lookup name table
same_feature f name table e = ap (λ k. lookup k table) (sym ((eq_iff name f).0 e))

enable-Keeps :
    (f name : String) (g : Goal) (c : Client)
    → str_eq name f ≡ false
    → asks_goal f g ≡ false
    → Keeps f c (enable name g c)
unfolding enable pipeline_enable_feature set_feature asks asks_kind
enable-Keeps f name g c other plain =
    ground (arith, other, plain, lookup-insert name f true c.feature_enabled)

with_feature-Keeps :
    (f name : String) (g : Goal) (c : Client)
    → asks_goal f g ≡ false
    → Keeps f c (with_feature name g c)
unfolding with_feature asks
with_feature-Keeps f name g c plain =
    ground (arith, plain, go_on-asks f none g c, same_feature f name c.feature_enabled)

pub begin-Keeps : (f : String) (a : Call) (c : Client) → Keeps f c (begin a c)
unfolding begin asks asks_kind asks_goal
begin-Keeps f connects c = ground arith
begin-Keeps f disconnects c = ground arith
begin-Keeps f (sends_d2c_message m) c = ground arith
begin-Keeps f (sends_method_response r) c = ground arith
begin-Keeps f gets_twin c = with_feature-Keeps f twin (then_run (get_twin none) return_twin) c refl
begin-Keeps f (patches_twin p) c =
    with_feature-Keeps f twin (then_run (patch_twin p) return_none) c refl
begin-Keeps f (sends_to_output m o) c = ground arith
begin-Keeps f (receives (method_requests n) w) c =
    with_feature-Keeps f methods (then_receive (method_requests n) w) c refl
begin-Keeps f (receives desired_patches w) c =
    with_feature-Keeps f twin_patches (then_receive desired_patches w) c refl
begin-Keeps f (receives c2d_messages w) c =
    with_feature-Keeps f c2d_msg (then_receive c2d_messages w) c refl
begin-Keeps f (receives (input_messages n) w) c =
    with_feature-Keeps f input_msg (then_receive (input_messages n) w) c refl

pub resume-Keeps : (f : String) (p : Phase) (c : Client) → asks f p ≡ false → Keeps f c (resume p c)
unfolding resume asks
resume-Keeps f idle c quiet = ground arith
resume-Keeps f (enabling name g) c quiet = ground (arith, quiet, enable-Keeps f name g c)
resume-Keeps f (entering k g) c quiet = ground (arith, quiet)
resume-Keeps f (waiting id g) c quiet =
    ground (arith, quiet, λ (t : Option Json). go_on-asks f t g c)
resume-Keeps f (getting h w) c quiet = ground arith
resume-Keeps f (returned r) c quiet = ground arith

pub time_out-asks : (f : String) (p : Phase) → asks f (time_out p) ≡ true → asks f p ≡ true
unfolding time_out asks
time_out-asks f p = ground arith

on_pipeline_event-features :
    (e : Event) (c : Client) → (on_pipeline_event e c).feature_enabled ≡ c.feature_enabled
unfolding on_pipeline_event
on_pipeline_event-features (iot_response id r) c = refl
on_pipeline_event-features (incoming_message topic payload) c = refl
on_pipeline_event-features (c2d_event m) c = ground arith
on_pipeline_event-features (input_event name m) c = ground arith
on_pipeline_event-features (method_event r) c = refl
on_pipeline_event-features (patch_event p) c = refl

pub deliver-features : (o : Output) (c : Client) → (deliver o c).feature_enabled ≡ c.feature_enabled
unfolding deliver on_complete on_disconnected
deliver-features (completed id k none) c = ground arith
deliver-features (completed id k (some e)) c = ground arith
deliver-features is_connected c = refl
deliver-features is_disconnected c = refl
deliver-features (event e) c = on_pipeline_event-features e c
