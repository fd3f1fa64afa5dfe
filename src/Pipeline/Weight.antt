-- ===== src/Pipeline/Weight.antt =====
-- A weight for what the pipeline still owes: `u j` for the callback `j` of the client, `b` for each
-- operation that blocks `SerializeConnectOpsStage`. No call of a run adds to it.
use azure_iot_sdk_python_pre.Prelude.{
  ℕ, ◌+◌, ◌≤◌, ◌≡◌, refl, inl, inr, Bool, true, false, Option, none, some, List, [], ◌∷◌, map,
  arith, total, total-append, if◌then◌else◌, nat_eq, string_eq, Option-cases,
}
use azure_iot_sdk_python_pre.Prelude.Dict.{lookup, insert, total-erase, total-erase-lookup}
use azure_iot_sdk_python_pre.Errors.{Error, pipeline}
use azure_iot_sdk_python_pre.Mqtt.Manager.{triggered, establish_operation}
use azure_iot_sdk_python_pre.Mqtt.Manager.Totals.{measure, total-establish_operation}
use azure_iot_sdk_python_pre.Pipeline.Ops.{
  Stage, root, use_auth, twin, coordinate, converter, ensure, serialize, mqtt, Kind, Op, op,
  Callback, user, delegated, got_twin, patched_twin, sent, connected, unblocking, set_error,
}
use azure_iot_sdk_python_pre.Pipeline.Convert.{Env}
use azure_iot_sdk_python_pre.Pipeline.World.{
  World, Output, completed, is_connected, is_disconnected, event, Act, run, complete, start,
  establish, raise,
}
use azure_iot_sdk_python_pre.Pipeline.Exec.{
  pass_op, delegate_op, execute_twin, execute_coordinate, execute_converter, execute_ensure,
  execute_serialize, execute_mqtt, execute_start, execute_op, release, cancel, answer_twin,
  call_back, exec,
}

module _ (u : ℕ → ℕ) (b : ℕ) where
  unfoldable mutual
    pub weigh : Callback → ℕ
    weigh (user j) = u j
    weigh (delegated o) = weigh_op o
    weigh (got_twin o) = weigh_op o
    weigh (patched_twin o) = weigh_op o
    weigh (sent request_id) = 0
    weigh (connected o) = weigh_op o
    weigh (unblocking c) = b + weigh c

    pub weigh_op : Op → ℕ
    weigh_op (op k e c) = weigh c

  abbrev pub weigh_option : Option Op → ℕ
  weigh_option = measure weigh_op

  abbrev pub weigh_act : Act → ℕ
  weigh_act (run stage o) = weigh_op o
  weigh_act (complete o) = weigh_op o
  weigh_act (start o) = weigh_op o
  weigh_act (establish mid o) = weigh_op o
  weigh_act (raise e) = 0

  abbrev pub weigh_output : Output → ℕ
  weigh_output (completed j k e) = u j
  weigh_output is_connected = 0
  weigh_output is_disconnected = 0
  weigh_output (event e) = 0

  -- All that the state holds.
  unfoldable pub weigh_world : World → ℕ
  weigh_world w =
      total (λ x. weigh_op x.1) w.pending_responses
      + total weigh_op w.queue
      + weigh_option w.pending_connection
      + total (λ x. weigh_option x.1) w.manager.pending
      + total weigh_op w.scheduled
      + total weigh_output w.outputs

  -- What the state holds, with the room for a blocking operation that an unblocked stage leaves.
  unfoldable pub load : World × List Act → ℕ
  unfolding weigh_world
  load (w, acts) = weigh_world w + (if w.blocked then 0 else b) + total weigh_act acts

  weigh-pass_op : (s : Stage) (o : Op) → weigh_act (pass_op s o) ≡ weigh_op o
  unfolding pass_op weigh
  weigh-pass_op s (op k e c) = ground arith

  weigh-delegate_op : (s : Stage) (o : Op) (k : Kind) → weigh_act (delegate_op s o k) ≡ weigh_op o
  unfolding delegate_op weigh
  weigh-delegate_op s (op k' e c) k =
      ground (arith, weigh-pass_op s (op k none (delegated (op k' e c))))

  weigh-set_error : (e : Error) (o : Op) → weigh_op (set_error e o) ≡ weigh_op o
  unfolding weigh
  weigh-set_error e (op k _ c) = refl

  weigh-execute_twin : (o : Op) → weigh_act (execute_twin o) ≡ weigh_op o
  unfolding execute_twin weigh
  weigh-execute_twin (op k e c) = ground arith

  load-execute_coordinate :
      (env : Env) (o : Op) (w : World)
      → load (execute_coordinate env o w) ≤ load (w, []) + weigh_op o
  unfolding execute_coordinate load weigh insert
  load-execute_coordinate env (op k e c) w =
      ground (arith, total-erase weigh_op (env.uuid4 w.drawn) w.pending_responses)

  load-execute_converter :
      (env : Env) (o : Op) (w : World)
      → load (execute_converter env o w) ≤ load (w, []) + weigh_op o
  unfolding execute_converter load weigh
  load-execute_converter env (op k e c) w = ground arith

  weigh-execute_ensure : (o : Op) (w : World) → weigh_act (execute_ensure o w) ≡ weigh_op o
  unfolding execute_ensure weigh
  weigh-execute_ensure (op k e c) w = ground arith

  load-execute_serialize :
      (o : Op) (w : World) → load (execute_serialize o w) ≤ load (w, []) + weigh_op o
  unfolding execute_serialize load weigh
  load-execute_serialize (op k e c) w =
      ground (arith, total-append weigh_op w.queue (op k e c ∷ []))

  weigh-cancel : (p : Option Op) → total weigh_act (cancel p) ≡ weigh_option p
  unfolding cancel
  weigh-cancel none = refl
  weigh-cancel (some (op k e c)) = omega (arith, weigh-set_error pipeline (op k e c))

  load-execute_mqtt :
      (env : Env) (o : Op) (w : World) → load (execute_mqtt env o w) ≤ load (w, []) + weigh_op o
  unfolding execute_mqtt load weigh
  load-execute_mqtt env (op k e c) w = ground (arith, weigh-cancel w.pending_connection)

  load-execute_start :
      (env : Env) (o : Op) (w : World) → load (execute_start env o w) ≤ load (w, []) + weigh_op o
  unfolding execute_start load weigh
  load-execute_start env (op k e c) w = ground arith

  load-execute_op :
      (env : Env) (s : Stage) (o : Op) (w : World)
      → load (execute_op env s o w) ≤ load (w, []) + weigh_op o
  unfolding execute_op load weigh
  load-execute_op env root o w = ground (arith, weigh-pass_op root o)
  load-execute_op env use_auth (op k e c) w = ground arith
  load-execute_op env twin o w = ground (arith, weigh-execute_twin o)
  load-execute_op env coordinate o w = load-execute_coordinate env o w
  load-execute_op env converter o w = load-execute_converter env o w
  load-execute_op env ensure o w = ground (arith, weigh-execute_ensure o w)
  load-execute_op env serialize o w = load-execute_serialize o w
  load-execute_op env mqtt o w = load-execute_mqtt env o w

  total-release :
      (e : Option Error) (q : List Op) → total weigh_act (map (release e) q) ≡ total weigh_op q
  unfolding release
  total-release e [] = refl
  total-release none (o ∷ q) = omega (arith, total-release none q)
  total-release (some e) (o ∷ q) = omega (arith, total-release (some e) q, weigh-set_error e o)

  weigh-answer_twin :
      (env : Env) (whole : Bool) (o : Op) (k : Kind) (e : Option Error)
      → weigh_act (answer_twin env whole o k e) ≤ weigh_op o
  unfolding answer_twin weigh
  weigh-answer_twin env whole (op k' e' c) k (some e) = ground arith
  weigh-answer_twin env whole (op k' e' c) k none = ground arith

  load-call_back :
      (env : Env) (c : Callback) (k : Kind) (e : Option Error) (w : World)
      → load (call_back env c k e w) ≤ load (w, []) + weigh c
  unfolding call_back load weigh
  load-call_back env (user id) k e w = ground arith
  load-call_back env (delegated (op k' e' c)) k e w = ground arith
  load-call_back env (got_twin o) k e w = ground (arith, weigh-answer_twin env true o k e)
  load-call_back env (patched_twin o) k e w = ground (arith, weigh-answer_twin env false o k e)
  load-call_back env (sent request_id) k none w = ground arith
  load-call_back env (sent request_id) k (some e) w =
      elim (Option-cases (lookup request_id w.pending_responses)) [
        | inl missing ↦ rw (missing, call_back) (ground arith)
        | inr (op k' e' c, found) ↦
            rw (found, call_back)
              (ground (
                arith,
                total-erase-lookup weigh_op request_id w.pending_responses {v = op k' e' c} found,
              ))
      ]
  load-call_back env (connected o) k none w = ground (arith, weigh-pass_op ensure o)
  load-call_back env (connected (op k' e' c)) k (some e) w = ground arith
  load-call_back env (unblocking c) k e w = ground (
    arith,
    total-append weigh_act (map (release e) w.queue) (complete (op k e c) ∷ []),
    total-release e w.queue,
  )

  total-triggered : (o : Option Op) → total weigh_op (triggered o) ≡ weigh_option o
  total-triggered none = refl
  total-triggered (some o) = omega arith

  total-complete : (ops : List Op) → total weigh_act (map complete ops) ≡ total weigh_op ops
  total-complete [] = refl
  total-complete (o ∷ ops) = omega (arith, total-complete ops)

  -- A call on the pipeline's thread adds nothing to the load of the rest of its run.
  pub load-exec :
      (env : Env) (a : Act) (w : World) → load (exec env a w) ≤ load (w, []) + weigh_act a
  unfolding exec weigh
  load-exec env (run s o) w = load-execute_op env s o w
  load-exec env (complete (op k e c)) w = load-call_back env c k e w
  load-exec env (start o) w = load-execute_start env o w
  load-exec env (establish mid (op k e c)) w =
      unfold load in
      ground (
        arith,
        total-complete (establish_operation mid (some (op k e c)) w.manager).1,
        total-establish_operation weigh_op mid (some (op k e c)) w.manager,
      )
  load-exec env (raise e) w = unfold load in ground arith
