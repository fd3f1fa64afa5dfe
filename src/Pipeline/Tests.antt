-- ===== src/Pipeline/Tests.antt =====
-- The theorems of the pipeline on concrete histories: the transport is set up, a client connects,
-- the connection fails, and a twin is requested and answered.
use azure_iot_sdk_python_pre.Prelude.{
  String, string_eq, nat_eq, inl, ℕ, zero, suc, ◌≤◌, ◌≡◌, refl, subst, true, none, some, List, [],
  ◌∷◌, ◌++◌, str_eq, if◌then◌else◌,
}
use azure_iot_sdk_python_pre.Prelude.Dict.{lookup, erase}
use azure_iot_sdk_python_pre.Errors.{
  no_conn, connection_dropped, accepted, success, unauthorized, rc_error, key_error,
}
use azure_iot_sdk_python_pre.Pipeline.Ops.{
  root, mqtt, MqttArgs, set_mqtt_args, connect, get_twin, Op, op, user, unblocking, disconnect,
  Response, next, needs_connection, Kind, send_method_response, publish, enable_feature,
}
use azure_iot_sdk_python_pre.Pipeline.Convert.{
  Env, returned, use_auth_provider, twin_request, with_request_id, convert, with_topic,
}
use azure_iot_sdk_python_pre.Pipeline.World.{World, Act, run, iot_response, completed}
use azure_iot_sdk_python_pre.Pipeline.Exec.{exec, passage, task, call_error}
use azure_iot_sdk_python_pre.Pipeline.Run.{
  submit, on_connect, input, due, on_mqtt_connection_failure, is_connect, handle_event, run_all,
  Config, Reach, here, then_step, call, take,
}
use azure_iot_sdk_python_pre.Pipeline.Once.{
  initial, start, occurrences, completions, in_flight, completions-le-submitted, in_flight-le-one,
}
use azure_iot_sdk_python_pre.Hub.Message.{MethodResponse}
use azure_iot_sdk_python_pre.Hub.Topic.{get_method_topic_for_publish}
use azure_iot_sdk_python_pre.Pipeline.Delivery.{posted, submitted-delivered}
use azure_iot_sdk_python_pre.Pipeline.Delivery.Refusal.{refused, submitted-refused}
use azure_iot_sdk_python_pre.Pipeline.Delivery.{request_op}
use azure_iot_sdk_python_pre.Pipeline.Delivery.Connecting.{
  offline, connecting, connected_posted, submitted-connects,
}
use azure_iot_sdk_python_pre.Pipeline.Halts.{run_all-ends}
use azure_iot_sdk_python_pre.Pipeline.Serial.{nothing_to_cancel}
use azure_iot_sdk_python_pre.Pipeline.Failures.{Ends, owner, failed, connection_failure-reported}
use azure_iot_sdk_python_pre.Pipeline.Twin.{ready, requested, waiting_op, get_twin-requested}
use azure_iot_sdk_python_pre.Hub.Message.{Json}
use azure_iot_sdk_python_pre.Pipeline.Ops.{patch_twin}
use azure_iot_sdk_python_pre.Pipeline.Patch.{patching, patch_requested, patched, patch_twin-settled}
use azure_iot_sdk_python_pre.Pipeline.Unsent.{unsent, twin-unsent}
use azure_iot_sdk_python_pre.Pipeline.Answer.{twin_answer, answered, get_twin-answered}

abbrev env : Env
env = record {
  urlencode = λ pairs. "";
  quote_plus = λ text. text;
  json_loads = λ text. if str_eq text "?" then none else some (record { dumps = text });
  uuid4 = λ n. "request";
  paho = λ n. returned success n;
}

-- So many calls of a run.
calls : ℕ → World → List Act → Config
calls zero w acts = record { world = w; agenda = acts }
calls (suc n) w [] = record { world = w; agenda = [] }
calls (suc n) w (a ∷ acts) = calls n (exec env a w).0 ((exec env a w).1 ++ acts)

Reach-calls :
    (n : ℕ) {c : Config} {ids : List ℕ} (w : World) (acts : List Act)
    → Reach env c ids (record { world = w; agenda = acts })
    → Reach env c ids (calls n w acts)
unfolding calls
Reach-calls zero w acts r = r
Reach-calls (suc n) w [] r = r
Reach-calls (suc n) w (a ∷ acts) r =
    Reach-calls n (exec env a w).0 ((exec env a w).1 ++ acts) (then_step r (call a acts refl refl))

abbrev arguments : MqttArgs
arguments = record {
  client_id = "device";
  hostname = "hub";
  username = "hub/device";
  ca_cert = none;
  client_cert = none;
  sas_token = none;
}

-- Operation 1 sets the transport up.
abbrev set_up : World
set_up = record initial {
  args = some arguments;
  transport = true;
  calls = 1;
  outputs = completed 1 (set_mqtt_args arguments) none ∷ [];
}

abbrev at_transport : Op
at_transport = op connect none (unblocking (user 2))

-- Operation 2 then connects, and has come to the transport's stage.
abbrev under_way : Config
under_way = record { world = record set_up { blocked = true }; agenda = run mqtt at_transport ∷ [] }

calls_set_up :
    calls 9 initial (run root (op (set_mqtt_args arguments) none (user 1)) ∷ [])
    ≡ record { world = set_up; agenda = [] }
unfolding calls exec use_auth_provider twin_request with_request_id convert needs_connection passage
    task call_error rc_error next
calls_set_up = refl

calls_under_way : calls 7 set_up (run root (op connect none (user 2)) ∷ []) ≡ under_way
unfolding calls exec use_auth_provider twin_request with_request_id convert needs_connection passage
    next
calls_under_way = refl

Reach-under_way : Reach env start (2 ∷ 1 ∷ []) under_way
unfolding input
Reach-under_way = subst (Reach env start (2 ∷ 1 ∷ [])) calls_under_way (
    Reach-calls 7 set_up (run root (op connect none (user 2)) ∷ []) (
      then_step
        (subst (Reach env start (1 ∷ [])) calls_set_up (
          Reach-calls 9 initial (run root (op (set_mqtt_args arguments) none (user 1)) ∷ [])
            (then_step here (take (submit 1 (set_mqtt_args arguments)) refl refl))))
        (take (submit 2 connect) refl refl)))

-- The callback of operation 1 was called, that of operation 2 was not.
completions_1 : completions 1 under_way.world ≡ 1
completions_1 = refl

completions_2 : completions 2 under_way.world ≡ 0
completions_2 = refl

completions-le-submitted_example : completions 1 under_way.world ≤ occurrences 1 (2 ∷ 1 ∷ [])
completions-le-submitted_example = completions-le-submitted env Reach-under_way 1

in_flight-le-one_example : in_flight under_way ≤ (if under_way.world.blocked then 1 else 0)
in_flight-le-one_example = in_flight-le-one env Reach-under_way

run_all-ends_example :
    (fuel : ℕ) × (end : World) × (run_all env fuel set_up (run root (op connect none (user 2)) ∷ [])
      ≡ some end)
run_all-ends_example = run_all-ends env set_up (run root (op connect none (user 2)) ∷ [])

nothing_to_cancel_example : under_way.world.pending_connection ≡ none
unfolding task
nothing_to_cancel_example = nothing_to_cancel env Reach-under_way at_transport [] refl refl

-- The connection fails: both callbacks that wait for it get the cause.
abbrev waiting : World
waiting = record set_up {
  blocked = true;
  pending_connection = some at_transport;
  queue = op disconnect none (user 3) ∷ [];
}

connection_failure-reported_example :
    Ends env
      (on_mqtt_connection_failure unauthorized waiting).0
      (on_mqtt_connection_failure unauthorized waiting).1
      (failed unauthorized
        (2, connect)
        ((3, disconnect) ∷ [])
        (record waiting { pending_connection = none }))
unfolding owner is_connect
connection_failure-reported_example =
    connection_failure-reported env unauthorized connect none (user 2) waiting (2, connect)
      ((3, disconnect) ∷ []) refl refl refl (refl, tt)

get_twin-requested_example :
    Ends env
      (input (submit 4 (get_twin none)) (ready set_up)).0
      (input (submit 4 (get_twin none)) (ready set_up)).1
      (requested env 4 1 set_up)
get_twin-requested_example = get_twin-requested env 4 1 set_up refl

-- Request "request" of operation 4 waits for its answer.
abbrev asked : World
asked = record set_up { pending_responses = ("request", waiting_op 4) ∷ [] }

abbrev reply : String → Response
reply body = record { status_code = 200; response_body = body }

get_twin-answered_example :
    Ends env
      (handle_event (iot_response "request" (reply "{}")) asked).0
      (handle_event (iot_response "request" (reply "{}")) asked).1
      (twin_answer env 4 (reply "{}") (answered "request" asked))
unfolding lookup
get_twin-answered_example = get_twin-answered env 4 "request" (reply "{}") asked refl

-- A method's response, whose acknowledgement comes before the request is recorded.
abbrev response : MethodResponse
response = record { request_id = "1"; status = "200"; payload = record { dumps = "{}" } }

abbrev early : World
early = record set_up { manager = record { pending = []; unknown = (1, 1) ∷ [] } }

abbrev response_request : Kind
response_request = publish "$iothub/methods/res/200/?$rid=1" "{}"

submitted-delivered_example :
    let after = posted 5 1 (send_method_response response) response_request early in
    let end = record after {
      scheduled = [];
      outputs = completed 5 (send_method_response response) none ∷ early.outputs;
    } in
    Ends env
      (input (submit 5 (send_method_response response)) (ready early)).0
      (input (submit 5 (send_method_response response)) (ready early)).1
      after
    × Ends env (input due after).0 (input due after).1 end
    × (lookup 1 end.manager.pending ≡ none)
    × (lookup 1 end.manager.unknown ≡ none)
unfolding convert lookup get_method_topic_for_publish
submitted-delivered_example =
    submitted-delivered env 5 1 (send_method_response response) response_request early refl refl
      refl refl refl

-- A feature is enabled before the converter has topics.
submitted-refused_example :
    Ends env
      (input (submit 5 (enable_feature "c2d")) (ready set_up)).0
      (input (submit 5 (enable_feature "c2d")) (ready set_up)).1
      (refused 5 (enable_feature "c2d") key_error (record (ready set_up) { calls = 1 }))
unfolding convert with_topic lookup
submitted-refused_example =
    submitted-refused env 5 1 (enable_feature "c2d") key_error set_up refl (inl (refl, refl))

submitted-connects_example :
    let o = request_op 5 (send_method_response response) response_request in
    Ends env
      (input (submit 5 (send_method_response response)) (offline set_up)).0
      (input (submit 5 (send_method_response response)) (offline set_up)).1
      (connecting o set_up)
    × Ends env
        (input (on_connect accepted) (connecting o set_up)).0
        (input (on_connect accepted) (connecting o set_up)).1
        (connected_posted 5 2 (send_method_response response) response_request set_up)
unfolding convert get_method_topic_for_publish
submitted-connects_example =
    submitted-connects env 5 2 1 (send_method_response response) response_request set_up refl refl
      refl refl

abbrev patch : Json
patch = record { dumps = "{}" }

-- Request "request" of the patch with operation 4 waits for its answer.
abbrev patch_asked : World
patch_asked = record set_up { pending_responses = ("request", patching 4 patch) ∷ [] }

patch_twin-settled_example :
    let after = patch_requested env 4 1 patch set_up in
    let end = patched 4 patch "request" (reply "?") patch_asked in
    Ends env
      (input (submit 4 (patch_twin patch)) (ready set_up)).0
      (input (submit 4 (patch_twin patch)) (ready set_up)).1
      after
    × (lookup "request" after.pending_responses ≡ some (patching 4 patch))
    × Ends env
        (handle_event (iot_response "request" (reply "?")) patch_asked).0
        (handle_event (iot_response "request" (reply "?")) patch_asked).1
        end
    × (lookup "request" end.pending_responses ≡ none)
unfolding lookup
patch_twin-settled_example =
    patch_twin-settled env 4 1 patch set_up patch_asked (reply "?") refl refl

-- The client library has lost its connection.
abbrev dropping : Env
dropping = record env { paho = λ n. returned no_conn n }

twin-unsent_example :
    Ends dropping
      (input (submit 4 (get_twin none)) (ready set_up)).0
      (input (submit 4 (get_twin none)) (ready set_up)).1
      (unsent dropping 4 (get_twin none) connection_dropped set_up)
    × Ends dropping
        (input (submit 4 (patch_twin patch)) (ready set_up)).0
        (input (submit 4 (patch_twin patch)) (ready set_up)).1
        (unsent dropping 4 (patch_twin patch) connection_dropped set_up)
    × (lookup "request" (erase "request" set_up.pending_responses) ≡ none)
unfolding call_error rc_error
twin-unsent_example = twin-unsent dropping 4 patch connection_dropped set_up refl
