-- ===== src/Pipeline/Unsent.antt =====
-- A twin request that the client library refuses.
use azure_iot_sdk_python_pre.Prelude.{
  ℕ, suc, ◌≡◌, none, some, [], ◌∷◌, arith, String, string_eq, refl,
}
use azure_iot_sdk_python_pre.Prelude.Dict.{lookup, erase, lookup-insert, lookup-erase, erase-insert}
use azure_iot_sdk_python_pre.Errors.{Error}
use azure_iot_sdk_python_pre.Hub.Message.{Json}
use azure_iot_sdk_python_pre.Pipeline.Ops.{
  coordinate, mqtt, Callback, op, got_twin, patched_twin, Kind, get_twin, patch_twin, set_error,
  send_request, sent,
}
use azure_iot_sdk_python_pre.Pipeline.Convert.{Env}
use azure_iot_sdk_python_pre.Pipeline.World.{World, run, complete, completed}
use azure_iot_sdk_python_pre.Pipeline.Exec.{exec, call_error, task, answer_twin}
use azure_iot_sdk_python_pre.Pipeline.Run.{input, submit, run_all}
use azure_iot_sdk_python_pre.Pipeline.Failures.{Ends, Ends-step}
use azure_iot_sdk_python_pre.Pipeline.Twin.{
  ready, asking, held, descends, publish_op, twin_op, get_twin_requested_lem,
}
use azure_iot_sdk_python_pre.Pipeline.Patch.{patch_op, patch_requested_lem}

-- The client's callback has the error, and no request waits under the id that was drawn.
abbrev pub unsent : Env → ℕ → Kind → Error → World → World
unsent env id k e w = record (ready w) {
  pending_responses = erase (env.uuid4 w.drawn) w.pending_responses;
  drawn = suc w.drawn;
  calls = suc w.calls;
  outputs = completed id k (some e) ∷ w.outputs;
}

module _ (env : Env) (id : ℕ) (method location body : String) (e : Error) (w : World)
    (refuses : call_error (env.paho w.calls) ≡ some e) where
  -- The request is completed with the error, and so is the operation of the client.
  request-unsent :
      (k : Kind) (c : Callback)
      → ((v : World)
          → Ends env v
              (complete (set_error e (asking method location body c)) ∷ [])
              (record v { outputs = completed id k (some e) ∷ v.outputs }))
      → Ends env
          (ready w)
          (run coordinate (asking method location body c) ∷ [])
          (unsent env id k e w)
  unfolding exec task run_all
  request-unsent k c completes =
      let end = unsent env id k e w in
      let request_id = env.uuid4 w.drawn in
      let o = publish_op env method location body request_id in
      let waiting = asking method location body c in
      let v = record (held env method location body c w) { calls = suc w.calls } in
      let request =
        op (send_request "twin" method location body request_id) none (sent request_id) in
      let gone = record v { pending_responses = erase request_id w.pending_responses } in
      descends env method location body c w end (
        Ends-step env (held env method location body c w) (run mqtt o) v
          (complete (set_error e o) ∷ []) [] end (ground (arith, refuses))
          (Ends-step env v (complete (set_error e o)) v (complete (set_error e request) ∷ []) [] end
            refl
            (Ends-step env v (complete (set_error e request)) gone
              (complete (set_error e waiting) ∷ []) [] end
              (ground (
                arith,
                string_eq.beq_iff request_id request_id,
                lookup-insert request_id request_id waiting w.pending_responses,
                erase-insert request_id waiting w.pending_responses,
              ))
              (completes gone))))

-- On a connected pipeline whose client library refuses the publish, or raises, a `get_twin` and a patch
-- of the reported properties end with the client's callback called with that error, and no request
-- waits under the id that was drawn.
pub twin-unsent :
    (env : Env) (id : ℕ) (patch : Json) (e : Error) (w : World)
    → call_error (env.paho w.calls) ≡ some e
    → Ends env
        (input (submit id (get_twin none)) (ready w)).0
        (input (submit id (get_twin none)) (ready w)).1
        (unsent env id (get_twin none) e w)
      × Ends env
          (input (submit id (patch_twin patch)) (ready w)).0
          (input (submit id (patch_twin patch)) (ready w)).1
          (unsent env id (patch_twin patch) e w)
      × (lookup (env.uuid4 w.drawn) (erase (env.uuid4 w.drawn) w.pending_responses) ≡ none)
unfolding input exec run_all answer_twin
twin-unsent env id patch e w refuses =
    let request_id = env.uuid4 w.drawn in
    (
      get_twin_requested_lem env id w (unsent env id (get_twin none) e w) (
          request-unsent env id "GET" "/" " " e w refuses (get_twin none) (got_twin (twin_op id))
            (λ v. (3, refl))),
      patch_requested_lem env id patch w (unsent env id (patch_twin patch) e w) (
          request-unsent env id "PATCH" "/properties/reported/" patch.dumps e w refuses
            (patch_twin patch) (patched_twin (patch_op id patch)) (λ v. (3, refl))),
      ground (
        arith,
        lookup-erase request_id request_id w.pending_responses,
        string_eq.beq_iff request_id request_id,
      ),
    )
