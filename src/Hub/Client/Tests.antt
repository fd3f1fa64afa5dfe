-- ===== src/Hub/Client/Tests.antt =====
-- The theorems of the clients on a concrete history.
use azure_iot_sdk_python_pre.Prelude.{
  ℕ, zero, suc, ◌≡◌, ◌≢◌, ◌↔◌, refl, true, false, none, some, List, [], ◌∷◌, ◌++◌, arith, string_eq,
  nat_eq, if◌then◌else◌, ◌==◌,
}
use azure_iot_sdk_python_pre.Prelude.Dict.{lookup, insert, erase}
use azure_iot_sdk_python_pre.Errors.{success, no_conn, rc_error, connection_dropped}
use azure_iot_sdk_python_pre.Pipeline.Ops.{
  Kind, set_auth_provider, enable_feature, next, needs_connection,
}
use azure_iot_sdk_python_pre.Pipeline.Convert.{
  Env, returned, use_auth_provider, twin_request, with_request_id, convert, mqtt_args,
  set_topic_names,
}
use azure_iot_sdk_python_pre.Pipeline.World.{World, Act, Output, completed}
use azure_iot_sdk_python_pre.Pipeline.Exec.{exec, passage, task, call_error}
use azure_iot_sdk_python_pre.Pipeline.Run.{call}
use azure_iot_sdk_python_pre.Hub.Client.{
  Goal, waiting, entering, then_receive, method_requests, no_block, receives, begin, resume,
  new_client, no_features, with_feature, enable, set_feature, pipeline_enable_feature,
}
use azure_iot_sdk_python_pre.Hub.Client.Callbacks.{deliver, on_complete}
use azure_iot_sdk_python_pre.Hub.Client.System.{
  System, constructed, entered, submitted, at, moved, runs, begins, enters, resumes, hears, History,
  now, and_then,
}
use azure_iot_sdk_python_pre.Hub.Client.Events.{successes, failures}
use azure_iot_sdk_python_pre.Hub.Client.Waiting.{resume-success, failed-waits}
use azure_iot_sdk_python_pre.Hub.Client.Features.{enabled-stays}
use azure_iot_sdk_python_pre.Hub.Client.Asking.{asks, asks_goal}

-- The client library is set up, and has no network.
abbrev env : Env
env = record {
  urlencode = λ pairs. "";
  quote_plus = λ text. text;
  json_loads = λ text. none;
  uuid4 = λ n. "request";
  paho = λ n. returned (if n == 0 then success else no_conn) n;
}

-- So many calls of the pipeline's run.
calls : ℕ → System → World → List Act → System
calls zero s w acts = record s { config = record { world = w; agenda = acts } }
calls (suc n) s w [] = record s { config = record { world = w; agenda = [] } }
calls (suc n) s w (a ∷ acts) = calls n s (exec env a w).0 ((exec env a w).1 ++ acts)

abbrev run_calls : ℕ → System → System
run_calls n s = calls n s s.config.world s.config.agenda

History-calls :
    (n : ℕ) {u : System} (s : System) (w : World) (acts : List Act)
    → History env u (record s { config = record { world = w; agenda = acts } })
    → History env u (calls n s w acts)
unfolding calls
History-calls zero s w acts h = h
History-calls (suc n) s w [] h = h
History-calls (suc n) s w (a ∷ acts) h =
    History-calls n s (exec env a w).0 ((exec env a w).1 ++ acts)
      (and_then h (runs (call a acts refl refl) refl refl))

abbrev auth : Kind
auth = set_auth_provider (record {
  device_id = "device";
  module_id = none;
  hostname = "hub";
  gateway_hostname = none;
  ca_cert = none;
  credential = "token";
})

-- The first call asks for method requests, and the subscription fails.
abbrev built : System
built = run_calls 20 (constructed false auth)

-- The thread has tested the table, and then recorded the feature in it.
abbrev testing : System
testing = moved 0 (begin (receives (method_requests none) no_block) built.client) built

abbrev asking : System
asking = moved 0 (resume (testing.threads 0) testing.client) testing

abbrev goal : Goal
goal = then_receive (method_requests none) no_block

abbrev subscribing : System
subscribing = entered 0 (enable_feature "methods") goal asking

abbrev ended : System
ended = run_calls 30 subscribing

abbrev first : Output
first = completed 0 auth none

abbrev second : Output
second = completed 1 (enable_feature "methods") (some connection_dropped)

abbrev told : Output → System → System
told o s = record s { client = deliver o s.client; heard = o ∷ s.heard }

abbrev failed : System
failed = told second (told first ended)

ended_outputs : ended.config.world.outputs ≡ second ∷ first ∷ []
unfolding calls constructed submitted entered moved begin resume new_client with_feature no_features
    enable set_feature pipeline_enable_feature exec use_auth_provider twin_request with_request_id
    convert needs_connection passage task call_error rc_error next mqtt_args set_topic_names lookup
    insert erase at
ended_outputs = refl

built_ended : built.config.agenda ≡ []
unfolding calls constructed submitted entered moved begin resume new_client with_feature no_features
    enable set_feature pipeline_enable_feature exec use_auth_provider twin_request with_request_id
    convert needs_connection passage task call_error rc_error next mqtt_args set_topic_names lookup
    insert erase at
built_ended = refl

asking_enters : asking.threads 0 ≡ entering (enable_feature "methods") goal
unfolding calls constructed submitted entered moved begin resume new_client with_feature no_features
    enable set_feature pipeline_enable_feature exec use_auth_provider twin_request with_request_id
    convert needs_connection passage task call_error rc_error next mqtt_args set_topic_names lookup
    insert erase at
asking_enters = refl

asking_ended : asking.config.agenda ≡ []
unfolding calls constructed submitted entered moved begin resume new_client with_feature no_features
    enable set_feature pipeline_enable_feature exec use_auth_provider twin_request with_request_id
    convert needs_connection passage task call_error rc_error next mqtt_args set_topic_names lookup
    insert erase at
asking_ended = refl

History-asking : History env (constructed false auth) asking
unfolding calls constructed submitted entered moved begin resume new_client with_feature no_features
    enable set_feature pipeline_enable_feature exec use_auth_provider twin_request with_request_id
    convert needs_connection passage task call_error rc_error next mqtt_args set_topic_names lookup
    insert erase at
History-asking =
    and_then
      (and_then
        (History-calls 20 (constructed false auth) (constructed false auth).config.world
          (constructed false auth).config.agenda now)
        (begins 0 (receives (method_requests none) no_block) refl refl))
      (resumes 0 refl)

History-subscribing : History env (constructed false auth) subscribing
History-subscribing =
    and_then History-asking
      (enters 0 (enable_feature "methods") goal asking_enters asking_ended refl)

History-ended : {u : System} → History env u subscribing → History env u ended
History-ended h = History-calls 30 subscribing subscribing.config.world subscribing.config.agenda h

History-failed : {u : System} → History env u subscribing → History env u failed
unfolding calls constructed submitted entered moved begin resume new_client with_feature no_features
    enable set_feature pipeline_enable_feature exec use_auth_provider twin_request with_request_id
    convert needs_connection passage task call_error rc_error next mqtt_args set_topic_names lookup
    insert erase at
History-failed h =
    and_then (and_then (History-ended h) (hears (second ∷ []) first ended_outputs refl))
      (hears [] second ended_outputs refl)

abbrev looked : System
looked = moved 0 (resume (failed.threads 0) failed.client) failed

resume-success_example :
    ((resume (failed.threads 0) failed.client).1 ≢ waiting 1 goal)
    ↔ ((successes 1 failed.heard ≡ 1) × (failures 1 failed.heard ≡ 0))
unfolding calls constructed submitted entered moved begin resume new_client with_feature no_features
    enable set_feature pipeline_enable_feature exec use_auth_provider twin_request with_request_id
    convert needs_connection passage task call_error rc_error next mqtt_args set_topic_names lookup
    insert erase at
resume-success_example =
    resume-success env false auth (History-failed History-subscribing) 0 1 goal refl (omega arith)

failed-waits_example : looked.threads 0 ≡ waiting 1 goal
unfolding calls constructed submitted entered moved begin resume new_client with_feature no_features
    enable set_feature pipeline_enable_feature exec use_auth_provider twin_request with_request_id
    convert needs_connection passage task call_error rc_error next mqtt_args set_topic_names lookup
    insert erase at
failed-waits_example =
    failed-waits env false auth (History-failed History-subscribing) 0 1 goal refl refl
      (and_then now (resumes 0 refl))

-- Another thread asks for method requests afterwards.
abbrev asked_again : System
asked_again = moved 1 (begin (receives (method_requests none) no_block) failed.client) failed

threads_failed : (i : ℕ) → asks "methods" (failed.threads i) ≡ false
unfolding calls constructed submitted entered moved begin resume new_client with_feature no_features
    enable set_feature pipeline_enable_feature exec use_auth_provider twin_request with_request_id
    convert needs_connection passage task call_error rc_error next mqtt_args set_topic_names lookup
    insert erase at asks asks_goal
threads_failed i = ground arith

History-asked_again : History env failed asked_again
unfolding calls constructed submitted entered moved begin resume new_client with_feature no_features
    enable set_feature pipeline_enable_feature exec use_auth_provider twin_request with_request_id
    convert needs_connection passage task call_error rc_error next mqtt_args set_topic_names lookup
    insert erase at
History-asked_again = and_then now (begins 1 (receives (method_requests none) no_block) refl refl)

enabled-stays_example :
    (lookup "methods" asked_again.client.feature_enabled ≡ some true)
    × ((j : ℕ) (h : Goal) → asked_again.threads j ≢ entering (enable_feature "methods") h)
unfolding calls constructed submitted entered moved begin resume new_client with_feature no_features
    enable set_feature pipeline_enable_feature exec use_auth_provider twin_request with_request_id
    convert needs_connection passage task call_error rc_error next mqtt_args set_topic_names lookup
    insert erase at deliver on_complete
enabled-stays_example = enabled-stays env "methods" refl threads_failed History-asked_again

-- Two threads that test the table before either records the feature both submit the operation.
abbrev second_tests : System
second_tests = moved 1 (begin (receives (method_requests none) no_block) testing.client) testing

abbrev first_asks : System
first_asks = moved 0 (resume (second_tests.threads 0) second_tests.client) second_tests

abbrev both_ask : System
both_ask = moved 1 (resume (first_asks.threads 1) first_asks.client) first_asks

both_ask_again :
    (both_ask.threads 0 ≡ entering (enable_feature "methods") goal)
    × (both_ask.threads 1 ≡ entering (enable_feature "methods") goal)
unfolding calls constructed submitted entered moved begin resume new_client with_feature no_features
    enable set_feature pipeline_enable_feature exec use_auth_provider twin_request with_request_id
    convert needs_connection passage task call_error rc_error next mqtt_args set_topic_names lookup
    insert erase at
both_ask_again = (refl, refl)
