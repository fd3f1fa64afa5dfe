-- ===== src/Pipeline/Answer.antt =====
-- The answer to a twin request, and what happens to the request when its body is no JSON.
use azure_iot_sdk_python_pre.Prelude.{
  ℕ, ◌≡◌, none, some, [], ◌∷◌, arith, String, string_eq, leb, if◌then◌else◌, ◌==◌,
}
use azure_iot_sdk_python_pre.Prelude.Dict.{lookup, erase}
use azure_iot_sdk_python_pre.Errors.{value_error, other}
use azure_iot_sdk_python_pre.Pipeline.Ops.{request_and_wait, get_twin, set_kind, Response}
use azure_iot_sdk_python_pre.Pipeline.Convert.{Env, set_response, status_error}
use azure_iot_sdk_python_pre.Pipeline.World.{World, iot_response, completed, complete}
use azure_iot_sdk_python_pre.Pipeline.Exec.{exec, answer_twin}
use azure_iot_sdk_python_pre.Pipeline.Weight.{load}
use azure_iot_sdk_python_pre.Pipeline.Run.{handle_event, run_all}
use azure_iot_sdk_python_pre.Pipeline.Failures.{Ends}
use azure_iot_sdk_python_pre.Pipeline.Twin.{waiting_op}

-- The request has left the table.
abbrev pub answered : String → World → World
answered request_id w = record w { pending_responses = erase request_id w.pending_responses }

-- The client's callback gets the twin, and an error if the status is 300 or more. If the body is
-- no JSON, an exception is caught in the background instead.
abbrev pub twin_answer : Env → ℕ → Response → World → World
twin_answer env id r w = elim (env.json_loads r.response_body) [
  | none ↦ record w { background = value_error ∷ w.background }
  | some twin ↦ record w {
    outputs =
        completed id (get_twin (some twin)) (if leb 300 r.status_code then some other else none)
        ∷ w.outputs;
  }
]

answer_run :
    (env : Env) (id : ℕ) (r : Response) (w : World)
    → Ends env w
        (complete (set_kind (request_and_wait "twin" "GET" "/" " " (some r)) (waiting_op id)) ∷ [])
        (twin_answer env id r w)
unfolding exec run_all answer_twin status_error
answer_run env id r w = (3, ground arith)

-- The hub answers the request of a `get_twin` that waits for it. The run ends; the request is
-- answered for good, and the client's callback has the decoded twin, with an error exactly if the
-- status is 300 or more. If the body is no JSON, the callback is not called, and the exception is
-- caught in the background.
pub get_twin-answered :
    (env : Env) (id : ℕ) (request_id : String) (r : Response) (w : World)
    → lookup request_id w.pending_responses ≡ some (waiting_op id)
    → Ends env
        (handle_event (iot_response request_id r) w).0
        (handle_event (iot_response request_id r) w).1
        (twin_answer env id r (answered request_id w))
unfolding handle_event set_response
get_twin-answered env id request_id r w h =
    rw (h, handle_event) (answer_run env id r (answered request_id w))

-- How often a callback was called or is still owed a call.
abbrev pub owed : ℕ → World → ℕ
owed id w = load (λ j. if j == id then 1 else 0) 0 (w, [])
