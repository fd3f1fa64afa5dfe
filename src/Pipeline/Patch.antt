-- ===== src/Pipeline/Patch.antt =====
-- A patch of the reported properties, from the client's call to the answer of the hub, through every
-- stage.
use azure_iot_sdk_python_pre.Prelude.{
  ℕ, ◌≡◌, refl, none, some, [], ◌∷◌, arith, String, string_eq, leb, if◌then◌else◌,
}
use azure_iot_sdk_python_pre.Prelude.Dict.{lookup, erase, lookup-erase, lookup-insert}
use azure_iot_sdk_python_pre.Errors.{success, other}
use azure_iot_sdk_python_pre.Hub.Message.{Json}
use azure_iot_sdk_python_pre.Pipeline.Ops.{
  next, root, use_auth, twin, coordinate, Op, op, user, patched_twin, patch_twin, request_and_wait,
  set_kind, Response,
}
use azure_iot_sdk_python_pre.Pipeline.Convert.{
  Env, returned, use_auth_provider, twin_request, set_response, status_error,
}
use azure_iot_sdk_python_pre.Pipeline.World.{World, run, complete, iot_response, completed}
use azure_iot_sdk_python_pre.Pipeline.Exec.{exec, answer_twin}
use azure_iot_sdk_python_pre.Pipeline.Run.{input, submit, handle_event, run_all}
use azure_iot_sdk_python_pre.Pipeline.Failures.{Ends, Ends-step}
use azure_iot_sdk_python_pre.Pipeline.Twin.{ready, asking, asked, coordinated}

abbrev pub patch_op : ℕ → Json → Op
patch_op id patch = op (patch_twin patch) none (user id)

-- The request that waits for the answer of the hub.
abbrev pub patching : ℕ → Json → Op
patching id patch =
    asking "PATCH" "/properties/reported/" patch.dumps (patched_twin (patch_op id patch))

abbrev pub patch_requested : Env → ℕ → ℕ → Json → World → World
patch_requested env id mid patch w =
    asked env "PATCH" "/properties/reported/" patch.dumps (patched_twin (patch_op id patch)) mid w

-- The answer was there: the client's callback has an error if the status is 300 or more.
abbrev pub patched : ℕ → Json → String → Response → World → World
patched id patch request_id r w = record w {
  pending_responses = erase request_id w.pending_responses;
  outputs =
      completed id (patch_twin patch) (if leb 300 r.status_code then some other else none)
      ∷ w.outputs;
}

pub patch_requested_lem :
    (env : Env) (id : ℕ) (patch : Json) (w end : World)
    → Ends env (ready w) (run coordinate (patching id patch) ∷ []) end
    → Ends env (ready w) (run root (patch_op id patch) ∷ []) end
unfolding exec use_auth_provider twin_request next
patch_requested_lem env id patch w end rest =
    let o = patch_op id patch in
    let r = ready w in
    Ends-step env r (run root o) r (run use_auth o ∷ []) [] end refl (
      Ends-step env r (run use_auth o) r (run twin o ∷ []) [] end refl
        (Ends-step env r (run twin o) r (run coordinate (patching id patch) ∷ []) [] end refl rest))

patched_lem :
    (env : Env) (id : ℕ) (patch : Json) (request_id : String) (r : Response) (w : World)
    → Ends env
        (record w { pending_responses = erase request_id w.pending_responses })
        (complete (
            set_kind
              (request_and_wait "twin" "PATCH" "/properties/reported/" patch.dumps (some r))
              (patching id patch))
          ∷ [])
        (patched id patch request_id r w)
unfolding exec run_all answer_twin status_error
patched_lem env id patch request_id r w = (3, ground arith)

-- A connected client submits a patch of the reported properties, and the client library accepts
-- the publish. The run ends with the patch published on the twin topic under a newly drawn request
-- id, its acknowledgement awaited unless it came before, and the operation waiting for the answer
-- to that request; and whenever the hub answers it while it waits, in whatever state the pipeline
-- is by then, that run ends with the callback called, with an error exactly if the status is 300
-- or more and whatever the body is, and the request gone.
pub patch_twin-settled :
    (env : Env) (id mid : ℕ) (patch : Json) (w v : World) (r : Response)
    → env.paho w.calls ≡ returned success mid
    → lookup (env.uuid4 w.drawn) v.pending_responses ≡ some (patching id patch)
    → let request_id = env.uuid4 w.drawn in
      let after = patch_requested env id mid patch w in
      let end = patched id patch request_id r v in
      Ends env
        (input (submit id (patch_twin patch)) (ready w)).0
        (input (submit id (patch_twin patch)) (ready w)).1
        after
      × (lookup request_id after.pending_responses ≡ some (patching id patch))
      × Ends env
          (handle_event (iot_response request_id r) v).0
          (handle_event (iot_response request_id r) v).1
          end
      × (lookup request_id end.pending_responses ≡ none)
unfolding input handle_event set_response
patch_twin-settled env id mid patch w v r h waits =
    let request_id = env.uuid4 w.drawn in
    (
      patch_requested_lem env id patch w (patch_requested env id mid patch w) (
          coordinated env "PATCH" "/properties/reported/" patch.dumps
            (patched_twin (patch_op id patch)) mid w h),
      ground (
        arith,
        lookup-insert request_id request_id (patching id patch) w.pending_responses,
        string_eq.beq_iff request_id request_id,
      ),
      rw (waits, handle_event) (patched_lem env id patch request_id r v),
      ground (
        arith,
        lookup-erase request_id request_id v.pending_responses,
        string_eq.beq_iff request_id request_id,
      ),
    )
