-- ===== src/Pipeline/Halts/Efforts.antt =====
-- `effort`: the calls that a run makes, at most, before the stage of connection operations unblocks.
use azure_iot_sdk_python_pre.Prelude.{
  ℕ, ◌+◌, ◌≤◌, ◌<◌, ◌≡◌, refl, ◌⊎◌, inl, inr, Bool, true, false, Option, none, some, List, [], ◌∷◌,
  ◌++◌, arith, total, total-append, nat_eq, string_eq, Option-cases, subst, sym,
}
use azure_iot_sdk_python_pre.Prelude.Dict.{lookup, insert, total-erase, total-erase-lookup}
use azure_iot_sdk_python_pre.Errors.{Error}
use azure_iot_sdk_python_pre.Mqtt.Manager.{establish_operation-triggered}
use azure_iot_sdk_python_pre.Pipeline.Ops.{
  Stage, root, use_auth, twin, coordinate, converter, ensure, serialize, mqtt, Kind, Op, op,
  Callback, user, delegated, got_twin, patched_twin, sent, connected, unblocking,
}
use azure_iot_sdk_python_pre.Pipeline.Convert.{Env}
use azure_iot_sdk_python_pre.Pipeline.World.{World, Act, run, complete, start, establish, raise}
use azure_iot_sdk_python_pre.Pipeline.Exec.{
  execute_twin, execute_coordinate, execute_converter, execute_ensure, execute_serialize,
  execute_mqtt, execute_start, execute_op, cancel, answer_twin, call_back, exec,
}
use azure_iot_sdk_python_pre.Pipeline.Halts.Ranks.{
  rank, rank_callback, rank-append, rank-unblock, rank-exec,
}

unfoldable mutual
  pub effort_callback : Callback → ℕ
  effort_callback (user j) = 0
  effort_callback (delegated o) = 1 + effort_op o
  effort_callback (got_twin o) = 1 + effort_op o
  effort_callback (patched_twin o) = 1 + effort_op o
  effort_callback (sent request_id) = 1
  effort_callback (connected o) = 4 + effort_op o
  effort_callback (unblocking c) = effort_callback c

  pub effort_op : Op → ℕ
  effort_op (op k e c) = effort_callback c

abbrev pub effort_stage : Stage → ℕ
effort_stage root = 19
effort_stage use_auth = 18
effort_stage twin = 16
effort_stage coordinate = 14
effort_stage converter = 11
effort_stage ensure = 9
effort_stage serialize = 4
effort_stage mqtt = 3

abbrev pub effort_act : Act → ℕ
effort_act (run s o) = effort_stage s + effort_op o
effort_act (complete o) = 1 + effort_op o
effort_act (start o) = 2 + effort_op o
effort_act (establish mid o) = 2 + effort_op o
effort_act (raise e) = 1

abbrev effort_option : Option Op → ℕ
effort_option none = 0
effort_option (some o) = 1 + effort_op o

-- An operation that waits in a table is completed when it leaves.
abbrev completing : Op → ℕ
completing o = 1 + effort_op o

unfoldable pub effort : World × List Act → ℕ
effort (w, acts) =
    total (λ x. completing x.1) w.pending_responses
    + effort_option w.pending_connection
    + total effort_act acts

pub effort-append :
    (w : World) (acts rest : List Act)
    → effort (w, acts ++ rest) ≡ effort (w, acts) + total effort_act rest
unfolding effort
effort-append w acts rest = omega (arith, total-append effort_act acts rest)

effort-execute_coordinate :
    (env : Env) (o : Op) (w : World)
    → effort (execute_coordinate env o w) < effort (w, []) + 14 + effort_op o
unfolding execute_coordinate effort effort_callback insert
effort-execute_coordinate env (op k e c) w =
    ground (arith, total-erase completing (env.uuid4 w.drawn) w.pending_responses)

effort-execute_converter :
    (env : Env) (o : Op) (w : World)
    → effort (execute_converter env o w) < effort (w, []) + 11 + effort_op o
unfolding execute_converter effort effort_callback
effort-execute_converter env (op k e c) w = ground arith

effort-execute_ensure : (o : Op) (w : World) → effort_act (execute_ensure o w) < 9 + effort_op o
unfolding execute_ensure effort_callback
effort-execute_ensure (op k e c) w = ground arith

effort-execute_twin : (o : Op) → effort_act (execute_twin o) < 16 + effort_op o
unfolding execute_twin effort_callback
effort-execute_twin (op k e c) = ground arith

effort-execute_serialize :
    (o : Op) (w : World) → effort (execute_serialize o w) < effort (w, []) + 4 + effort_op o
unfolding execute_serialize effort effort_callback
effort-execute_serialize (op k e c) w = ground arith

effort-cancel : (p : Option Op) → total effort_act (cancel p) ≡ effort_option p
unfolding cancel effort_callback
effort-cancel none = refl
effort-cancel (some (op k e c)) = omega arith

effort-execute_mqtt :
    (env : Env) (o : Op) (w : World)
    → effort (execute_mqtt env o w) < effort (w, []) + 3 + effort_op o
unfolding execute_mqtt effort effort_callback
effort-execute_mqtt env (op k e c) w = ground (
  arith,
  effort-cancel w.pending_connection,
  total-append effort_act (cancel w.pending_connection) (start (op k e c) ∷ []),
)

effort-execute_start :
    (env : Env) (o : Op) (w : World)
    → effort (execute_start env o w) < effort (w, []) + 2 + effort_op o
unfolding execute_start effort effort_callback
effort-execute_start env (op k e c) w = ground arith

effort-execute_op :
    (env : Env) (s : Stage) (o : Op) (w : World)
    → effort (execute_op env s o w) < effort (w, []) + effort_stage s + effort_op o
unfolding execute_op effort effort_callback
effort-execute_op env root (op k e c) w = ground arith
effort-execute_op env use_auth (op k e c) w = ground arith
effort-execute_op env twin o w = ground (arith, effort-execute_twin o)
effort-execute_op env coordinate o w = effort-execute_coordinate env o w
effort-execute_op env converter o w = effort-execute_converter env o w
effort-execute_op env ensure o w = ground (arith, effort-execute_ensure o w)
effort-execute_op env serialize o w = effort-execute_serialize o w
effort-execute_op env mqtt o w = effort-execute_mqtt env o w

effort-answer_twin :
    (env : Env) (whole : Bool) (o : Op) (k : Kind) (e : Option Error)
    → effort_act (answer_twin env whole o k e) ≤ 1 + effort_op o
unfolding answer_twin effort_callback
effort-answer_twin env whole (op k' e' c) k (some e) = ground arith
effort-answer_twin env whole (op k' e' c) k none = ground arith

abbrev Falls : World × List Act → World → Act → List Act → Type 0
Falls next w a rest =
    (rank (next.0, next.1 ++ rest) < rank (w, a ∷ rest))
    ⊎ ((rank (next.0, next.1 ++ rest) ≤ rank (w, a ∷ rest))
        × (effort (next.0, next.1 ++ rest) < effort (w, a ∷ rest)))

by_effort :
    (env : Env) (a : Act) (w : World) (rest : List Act)
    → effort (exec env a w) < effort (w, []) + effort_act a
    → Falls (exec env a w) w a rest
by_effort env a w rest h = inr (
  omega (
    arith,
    rank-append (exec env a w).0 (exec env a w).1 rest,
    rank-append w (a ∷ []) rest,
    rank-append w [] (a ∷ []),
    rank-exec env a w,
  ),
  omega (
    arith,
    effort-append (exec env a w).0 (exec env a w).1 rest,
    effort-append w (a ∷ []) rest,
    effort-append w [] (a ∷ []),
    h,
  ),
)

effort-call_back :
    (env : Env) (c : Callback) (k : Kind) (e : Option Error) (w : World)
    → ((d : Callback) × (c ≡ unblocking d))
      ⊎ (effort (call_back env c k e w) < effort (w, []) + 1 + effort_callback c)
unfolding call_back effort effort_callback
effort-call_back env (user id) k e w = inr (ground arith)
effort-call_back env (delegated (op k' e' c)) k e w = inr (ground arith)
effort-call_back env (got_twin o) k e w = inr (ground (arith, effort-answer_twin env true o k e))
effort-call_back env (patched_twin o) k e w =
    inr (ground (arith, effort-answer_twin env false o k e))
effort-call_back env (sent request_id) k none w = inr (ground arith)
effort-call_back env (sent request_id) k (some e) w =
    inr (elim (Option-cases (lookup request_id w.pending_responses)) [
      | inl missing ↦ rw (missing, call_back) (ground arith)
      | inr (op k' e' c, found) ↦
          rw (found, call_back)
            (ground (
              arith,
              total-erase-lookup completing request_id w.pending_responses {v = op k' e' c} found,
            ))
    ])
effort-call_back env (connected (op k' e' c)) k none w = inr (ground arith)
effort-call_back env (connected (op k' e' c)) k (some e) w = inr (ground arith)
effort-call_back env (unblocking c) k e w = inl (c, refl)

unblock-Falls :
    (env : Env) (c : Callback) (k : Kind) (e : Option Error) (w : World) (rest : List Act)
    → Falls
        (exec env (complete (op k e (unblocking c))) w)
        w
        (complete (op k e (unblocking c)))
        rest
unfolding exec rank_callback
unblock-Falls env c k e w rest =
    let next = call_back env (unblocking c) k e w in
    let a = complete (op k e (unblocking c)) in
    inl (
      omega (
        arith,
        rank-append next.0 next.1 rest,
        rank-append w (a ∷ []) rest,
        rank-append w [] (a ∷ []),
        rank-unblock env c k e w,
      ))

-- With each call of a run the rank falls, or it stays and the effort falls.
pub exec-Falls : (env : Env) (a : Act) (w : World) (rest : List Act) → Falls (exec env a w) w a rest
unfolding exec
exec-Falls env (run s o) w rest =
    by_effort env (run s o) w rest (omega (arith, effort-execute_op env s o w))
exec-Falls env (complete (op k e c)) w rest = elim (effort-call_back env c k e w) [
  | inl (d, is) ↦
      subst (λ x. Falls (exec env (complete (op k e x)) w) w (complete (op k e x)) rest) (sym is)
        (unblock-Falls env d k e w rest)
  | inr less ↦ by_effort env (complete (op k e c)) w rest (unfold effort_callback in omega arith)
]
exec-Falls env (start o) w rest =
    by_effort env (start o) w rest (omega (arith, effort-execute_start env o w))
exec-Falls env (establish mid o) w rest = by_effort env (establish mid o) w rest (
    unfold effort in
    elim (establish_operation-triggered mid o w.manager) [
      | inl waits ↦ ground (arith, waits)
      | inr early ↦ ground (arith, early)
    ])
exec-Falls env (raise e) w rest = by_effort env (raise e) w rest (unfold effort in omega arith)
