-- ===== src/Pipeline/Twin.antt =====
-- A twin request from the client's call to the answer of the hub, through every stage.
use azure_iot_sdk_python_pre.Prelude.{
  inl, inr, ℕ, suc, ◌≡◌, refl, true, false, none, some, [], ◌∷◌, arith, String, string_eq,
}
use azure_iot_sdk_python_pre.Prelude.Dict.{insert}
use azure_iot_sdk_python_pre.Errors.{success, rc_error}
use azure_iot_sdk_python_pre.Hub.Topic
use azure_iot_sdk_python_pre.Mqtt.Manager
use azure_iot_sdk_python_pre.Pipeline.Ops.{
  next, root, use_auth, twin, coordinate, converter, ensure, mqtt, Callback, Op, op, user,
  delegated, got_twin, sent, request_and_wait, send_request, get_twin, publish, needs_connection,
}
use azure_iot_sdk_python_pre.Pipeline.Convert.{
  Env, returned, use_auth_provider, twin_request, with_request_id, convert,
}
use azure_iot_sdk_python_pre.Pipeline.World.{World, run, establish}
use azure_iot_sdk_python_pre.Pipeline.Exec.{exec, call_error, passage, task}
use azure_iot_sdk_python_pre.Pipeline.Run.{input, submit, run_all}
use azure_iot_sdk_python_pre.Pipeline.Below.{request-descends}
use azure_iot_sdk_python_pre.Pipeline.Failures.{Ends, Ends-step}

-- A request to the hub about the twin, which waits for its answer with this callback.
abbrev pub asking : String → String → String → Callback → Op
asking method location body c = op (request_and_wait "twin" method location body none) none c

-- The operation of `get_twin`, and the request that waits for its answer.
abbrev pub twin_op : ℕ → Op
twin_op id = op (get_twin none) none (user id)

abbrev pub waiting_op : ℕ → Op
waiting_op id = asking "GET" "/" " " (got_twin (twin_op id))

-- Connected, with no connection operation on its way.
abbrev pub ready : World → World
ready w = record w { connected = true; blocked = false; transport = true }

module _ (env : Env) (method location body : String) where
  -- The publish operation of the request.
  abbrev pub publish_op : String → Op
  publish_op request_id =
      op (publish (Topic.get_twin_topic_for_publish method location request_id) body) none (
        delegated (op (send_request "twin" method location body request_id) none (sent request_id)))

  -- The request has its id and is to be answered.
  abbrev pub held : Callback → World → World
  held c w = record (ready w) {
    pending_responses =
        insert (env.uuid4 w.drawn) (asking method location body c) w.pending_responses;
    drawn = suc w.drawn;
  }

  -- It was handed to the client library under a message id.
  abbrev pub asked : Callback → ℕ → World → World
  asked c mid w =
      let (m, triggered) =
        Manager.establish_operation mid (some (publish_op (env.uuid4 w.drawn))) w.manager in
      record (held c w) { manager = m; calls = suc w.calls }

  -- The request comes to the transport's stage.
  pub descends :
      (c : Callback) (w end : World)
      → Ends env (held c w) (run mqtt (publish_op (env.uuid4 w.drawn)) ∷ []) end
      → Ends env (ready w) (run coordinate (asking method location body c) ∷ []) end
  unfolding exec with_request_id convert next needs_connection task passage
  descends c w end rest =
      let o = asking method location body c in
      let request_id = env.uuid4 w.drawn in
      let request =
        op (send_request "twin" method location body request_id) none (sent request_id) in
      let v = held c w in
      Ends-step env (ready w) (run coordinate o) v (run converter request ∷ []) [] end refl (
        Ends-step env v (run converter request) v (run ensure (publish_op request_id) ∷ []) [] end
          refl (request-descends env v end _ _ refl refl (refl, refl, refl) rest))

  -- The request is recorded; if its acknowledgement came before, its operation is completed at once,
  -- and the answer is waited for all the same.
  established :
      (c : Callback) (mid : ℕ) (w : World)
      → Ends env
          (record (held c w) { calls = suc w.calls })
          (establish mid (publish_op (env.uuid4 w.drawn)) ∷ [])
          (asked c mid w)
  unfolding run_all exec
  established c mid w =
      elim (Manager.establish_operation-triggered mid (publish_op (env.uuid4 w.drawn)) w.manager) [
        | inl waits ↦ (1, ground (arith, waits))
        | inr early ↦ (4, ground (arith, early))
      ]

  pub coordinated :
      (c : Callback) (mid : ℕ) (w : World)
      → env.paho w.calls ≡ returned success mid
      → Ends env (ready w) (run coordinate (asking method location body c) ∷ []) (asked c mid w)
  unfolding run_all exec task call_error rc_error
  coordinated c mid w h =
      let o = publish_op (env.uuid4 w.drawn) in
      let v = held c w in
      descends c w (asked c mid w) (
        Ends-step env v (run mqtt o) (record v { calls = suc v.calls }) (establish mid o ∷ []) []
          (asked c mid w) (ground (arith, h)) (established c mid w))

abbrev pub requested : Env → ℕ → ℕ → World → World
requested env id mid w = asked env "GET" "/" " " (got_twin (twin_op id)) mid w

pub get_twin_requested_lem :
    (env : Env) (id : ℕ) (w end : World)
    → Ends env (ready w) (run coordinate (waiting_op id) ∷ []) end
    → Ends env (ready w) (run root (twin_op id) ∷ []) end
unfolding exec use_auth_provider twin_request next
get_twin_requested_lem env id w end rest =
    let o = twin_op id in
    let r = ready w in
    Ends-step env r (run root o) r (run use_auth o ∷ []) [] end refl (
      Ends-step env r (run use_auth o) r (run twin o ∷ []) [] end refl
        (Ends-step env r (run twin o) r (run coordinate (waiting_op id) ∷ []) [] end refl rest))

-- On a connected pipeline whose client library accepts the publish, the call of `get_twin` ends with
-- the request published on the twin topic under a newly drawn request id, its acknowledgement awaited
-- under the message id unless it came before, and the operation waiting for the answer to that
-- request.
pub get_twin-requested :
    (env : Env) (id mid : ℕ) (w : World)
    → env.paho w.calls ≡ returned success mid
    → Ends env
        (input (submit id (get_twin none)) (ready w)).0
        (input (submit id (get_twin none)) (ready w)).1
        (requested env id mid w)
unfolding input
get_twin-requested env id mid w h =
    get_twin_requested_lem env id w (requested env id mid w)
      (coordinated env "GET" "/" " " (got_twin (twin_op id)) mid w h)
