-- ===== src/Pipeline/Halts/Ranks.antt =====
-- `rank`: how often the stage of connection operations may unblock before a run ends.
use azure_iot_sdk_python_pre.Prelude.{
  ℕ, ◌+◌, ◌≤◌, ◌<◌, ◌≡◌, refl, inl, inr, Bool, true, false, Option, none, some, List, [], ◌∷◌, ◌++◌,
  map, arith, total, total-append, nat_eq, string_eq, Option-cases,
}
use azure_iot_sdk_python_pre.Prelude.Dict.{lookup, insert, total-erase, total-erase-lookup}
use azure_iot_sdk_python_pre.Errors.{Error}
use azure_iot_sdk_python_pre.Mqtt.Manager.{establish_operation-triggered}
use azure_iot_sdk_python_pre.Pipeline.Ops.{
  Stage, root, use_auth, twin, coordinate, converter, ensure, serialize, mqtt, Kind, Op, op,
  Callback, user, delegated, got_twin, patched_twin, sent, connected, unblocking,
}
use azure_iot_sdk_python_pre.Pipeline.Convert.{Env}
use azure_iot_sdk_python_pre.Pipeline.World.{World, Act, run, complete, start, establish, raise}
use azure_iot_sdk_python_pre.Pipeline.Exec.{
  execute_twin, execute_coordinate, execute_converter, execute_ensure, execute_serialize,
  execute_mqtt, execute_start, execute_op, release, cancel, answer_twin, call_back, exec,
}

unfoldable mutual
  pub rank_callback : Callback → ℕ
  rank_callback (user j) = 0
  rank_callback (delegated o) = rank_op o
  rank_callback (got_twin o) = rank_op o
  rank_callback (patched_twin o) = rank_op o
  rank_callback (sent request_id) = 0
  rank_callback (connected o) = 1 + rank_op o
  rank_callback (unblocking c) = 1 + rank_callback c

  pub rank_op : Op → ℕ
  rank_op (op k e c) = rank_callback c

abbrev pub rank_stage : Stage → ℕ
rank_stage mqtt = 0
rank_stage serialize = 1
rank_stage _ = 2

abbrev pub rank_act : Act → ℕ
rank_act (run s o) = rank_stage s + rank_op o
rank_act (complete o) = rank_op o
rank_act (start o) = rank_op o
rank_act (establish mid o) = rank_op o
rank_act (raise e) = 0

abbrev rank_option : Option Op → ℕ
rank_option none = 0
rank_option (some o) = rank_op o

unfoldable pub rank : World × List Act → ℕ
rank (w, acts) =
    total (λ x. rank_op x.1) w.pending_responses
    + total (λ o. 1 + rank_op o) w.queue
    + rank_option w.pending_connection
    + total rank_act acts

pub rank-append :
    (w : World) (acts rest : List Act)
    → rank (w, acts ++ rest) ≡ rank (w, acts) + total rank_act rest
unfolding rank
rank-append w acts rest = omega (arith, total-append rank_act acts rest)

rank-execute_coordinate :
    (env : Env) (o : Op) (w : World)
    → rank (execute_coordinate env o w) ≤ rank (w, []) + 2 + rank_op o
unfolding execute_coordinate rank rank_callback insert
rank-execute_coordinate env (op k e c) w =
    ground (arith, total-erase rank_op (env.uuid4 w.drawn) w.pending_responses)

rank-execute_converter :
    (env : Env) (o : Op) (w : World)
    → rank (execute_converter env o w) ≤ rank (w, []) + 2 + rank_op o
unfolding execute_converter rank rank_callback
rank-execute_converter env (op k e c) w = ground arith

rank-execute_ensure : (o : Op) (w : World) → rank_act (execute_ensure o w) ≤ 2 + rank_op o
unfolding execute_ensure rank_callback
rank-execute_ensure (op k e c) w = ground arith

rank-execute_twin : (o : Op) → rank_act (execute_twin o) ≤ 2 + rank_op o
unfolding execute_twin rank_callback
rank-execute_twin (op k e c) = ground arith

rank-execute_serialize :
    (o : Op) (w : World) → rank (execute_serialize o w) ≤ rank (w, []) + 1 + rank_op o
unfolding execute_serialize rank rank_callback
rank-execute_serialize (op k e c) w =
    ground (arith, total-append (λ o. 1 + rank_op o) w.queue (op k e c ∷ []))

rank-cancel : (p : Option Op) → total rank_act (cancel p) ≡ rank_option p
unfolding cancel rank_callback
rank-cancel none = refl
rank-cancel (some (op k e c)) = omega arith

rank-execute_mqtt :
    (env : Env) (o : Op) (w : World) → rank (execute_mqtt env o w) ≤ rank (w, []) + rank_op o
unfolding execute_mqtt rank rank_callback
rank-execute_mqtt env (op k e c) w = ground (arith, rank-cancel w.pending_connection)

rank-execute_start :
    (env : Env) (o : Op) (w : World) → rank (execute_start env o w) ≤ rank (w, []) + rank_op o
unfolding execute_start rank rank_callback
rank-execute_start env (op k e c) w = ground arith

rank-execute_op :
    (env : Env) (s : Stage) (o : Op) (w : World)
    → rank (execute_op env s o w) ≤ rank (w, []) + rank_stage s + rank_op o
unfolding execute_op rank rank_callback
rank-execute_op env root (op k e c) w = ground arith
rank-execute_op env use_auth (op k e c) w = ground arith
rank-execute_op env twin o w = ground (arith, rank-execute_twin o)
rank-execute_op env coordinate o w = rank-execute_coordinate env o w
rank-execute_op env converter o w = rank-execute_converter env o w
rank-execute_op env ensure o w = ground (arith, rank-execute_ensure o w)
rank-execute_op env serialize o w = rank-execute_serialize o w
rank-execute_op env mqtt o w = ground (arith, rank-execute_mqtt env o w)

total-release :
    (e : Option Error) (q : List Op)
    → total rank_act (map (release e) q) ≤ total (λ o. 1 + rank_op o) q
unfolding release rank_callback
total-release e [] = omega arith
total-release none (o ∷ q) = omega (arith, total-release none q)
total-release (some e) (op k e' c ∷ q) = omega (arith, total-release (some e) q)

rank-answer_twin :
    (env : Env) (whole : Bool) (o : Op) (k : Kind) (e : Option Error)
    → rank_act (answer_twin env whole o k e) ≤ rank_op o
unfolding answer_twin rank_callback
rank-answer_twin env whole (op k' e' c) k (some e) = ground arith
rank-answer_twin env whole (op k' e' c) k none = ground arith

-- The stage unblocks: the rank falls.
pub rank-unblock :
    (env : Env) (c : Callback) (k : Kind) (e : Option Error) (w : World)
    → rank (call_back env (unblocking c) k e w) < rank (w, []) + rank_callback (unblocking c)
unfolding call_back rank rank_callback
rank-unblock env c k e w = ground (
  arith,
  total-append rank_act (map (release e) w.queue) (complete (op k e c) ∷ []),
  total-release e w.queue,
)

pub rank-call_back :
    (env : Env) (c : Callback) (k : Kind) (e : Option Error) (w : World)
    → rank (call_back env c k e w) ≤ rank (w, []) + rank_callback c
unfolding call_back rank rank_callback
rank-call_back env (user id) k e w = ground arith
rank-call_back env (delegated (op k' e' c)) k e w = ground arith
rank-call_back env (got_twin o) k e w = ground (arith, rank-answer_twin env true o k e)
rank-call_back env (patched_twin o) k e w = ground (arith, rank-answer_twin env false o k e)
rank-call_back env (sent request_id) k none w = ground arith
rank-call_back env (sent request_id) k (some e) w =
    elim (Option-cases (lookup request_id w.pending_responses)) [
      | inl missing ↦ rw (missing, call_back) (ground arith)
      | inr (op k' e' c, found) ↦
          rw (found, call_back)
            (ground (
              arith,
              total-erase-lookup rank_op request_id w.pending_responses {v = op k' e' c} found,
            ))
    ]
rank-call_back env (connected (op k' e' c)) k none w = ground arith
rank-call_back env (connected (op k' e' c)) k (some e) w = ground arith
rank-call_back env (unblocking c) k e w = omega (arith, rank-unblock env c k e w)

-- No call raises the rank.
pub rank-exec : (env : Env) (a : Act) (w : World) → rank (exec env a w) ≤ rank (w, []) + rank_act a
unfolding exec rank_callback
rank-exec env (run s o) w = omega (arith, rank-execute_op env s o w)
rank-exec env (complete (op k e c)) w = rank-call_back env c k e w
rank-exec env (start o) w = rank-execute_start env o w
rank-exec env (establish mid o) w =
    unfold rank in
    elim (establish_operation-triggered mid o w.manager) [
      | inl waits ↦ ground (arith, waits)
      | inr early ↦ ground (arith, early)
    ]
rank-exec env (raise e) w = unfold rank in omega arith
