-- ===== src/Pipeline/Failures.antt =====
-- How a failure travels up: a completion with an error runs no stage, fails what is queued behind
-- it, and reaches the callback of the client through every callback that wraps it.
use mathlib.Core.List.{append-nil}
use azure_iot_sdk_python_pre.Prelude.{
  ap, ℕ, suc, ◌≡◌, refl, inl, inr, true, false, Option, none, some, List, [], ◌∷◌, ◌++◌, map, arith,
  string_eq, Option-cases, subst, sym,
}
use azure_iot_sdk_python_pre.Prelude.Dict.{lookup}
use azure_iot_sdk_python_pre.Errors.{Error}
use azure_iot_sdk_python_pre.Pipeline.Ops.{
  Kind, Op, op, Callback, user, delegated, got_twin, patched_twin, sent, connected, unblocking,
}
use azure_iot_sdk_python_pre.Pipeline.Convert.{Env}
use azure_iot_sdk_python_pre.Pipeline.World.{World, Output, completed, Act, complete, raise}
use azure_iot_sdk_python_pre.Pipeline.Exec.{release, answer_twin, call_back, exec}
use azure_iot_sdk_python_pre.Pipeline.Run.{
  is_connect, pending_if, on_mqtt_connection_failure, run_all,
}

-- A call that only completes an operation, with this error.
abbrev pub Fails : Error → Act → Type 0
Fails e (complete (op k (some d) c)) = d ≡ e
Fails e (complete (op k none c)) = ⊥
Fails e (raise d) = Unit
Fails e _ = ⊥

abbrev pub AllFail : Error → List Act → Type 0
AllFail e [] = Unit
AllFail e (a ∷ acts) = Fails e a × AllFail e acts

AllFail-append : (e : Error) (xs ys : List Act) → AllFail e xs → AllFail e ys → AllFail e (xs ++ ys)
AllFail-append e [] ys hx hy = hy
AllFail-append e (a ∷ xs) ys hx hy = (hx.0, AllFail-append e xs ys hx.1 hy)

release-AllFail : (e : Error) (q : List Op) → AllFail e (map (release (some e)) q)
unfolding release
release-AllFail e [] = tt
release-AllFail e (op k d c ∷ q) = (refl, release-AllFail e q)

-- A completion with an error leads only to completions with the same error (or to an exception in
-- the background): no stage runs an operation because of it.
pub call_back-AllFail :
    (env : Env) (c : Callback) (k : Kind) (e : Error) (w : World)
    → AllFail e (call_back env c k (some e) w).1
unfolding call_back answer_twin
call_back-AllFail env (user id) k e w = tt
call_back-AllFail env (delegated (op k' d c)) k e w = (refl, tt)
call_back-AllFail env (got_twin (op k' d c)) k e w = (refl, tt)
call_back-AllFail env (patched_twin (op k' d c)) k e w = (refl, tt)
call_back-AllFail env (sent request_id) k e w =
    elim (Option-cases (lookup request_id w.pending_responses)) [
      | inl missing ↦ rw (missing, call_back) (tt, tt)
      | inr (op k' d c, found) ↦ rw (found, call_back) (refl, tt)
    ]
call_back-AllFail env (connected (op k' d c)) k e w = (refl, tt)
call_back-AllFail env (unblocking c) k e w =
    AllFail-append e (map (release (some e)) w.queue) (complete (op k (some e) c) ∷ [])
      (release-AllFail e w.queue) (refl, tt)

-- The client's callback behind a callback, with the kind of the operation that it gets, unless a
-- request or a block is between.
unfoldable mutual
  pub owner : Callback → Kind → Option (ℕ × Kind)
  owner (user id) k = some (id, k)
  owner (delegated o) k = owner_op o
  owner (got_twin o) k = owner_op o
  owner (patched_twin o) k = owner_op o
  owner (sent request_id) k = none
  owner (connected o) k = owner_op o
  owner (unblocking c) k = none

  pub owner_op : Op → Option (ℕ × Kind)
  owner_op (op k e c) = owner c k

-- The calls of the client's callbacks, one after the other, each with this error.
abbrev pub report : Error → List (ℕ × Kind) → List Output → List Output
report e [] outputs = outputs
report e (r ∷ rs) outputs = report e rs (completed r.0 r.1 (some e) ∷ outputs)

-- The run ends in this state.
abbrev pub Ends : Env → World → List Act → World → Type 0
Ends env w acts end = (fuel : ℕ) × (run_all env fuel w acts ≡ some end)

pub Ends-step :
    (env : Env) (w : World) (a : Act) (w' : World) (acts rest : List Act) (end : World)
    → exec env a w ≡ (w', acts)
    → Ends env w' (acts ++ rest) end
    → Ends env w (a ∷ rest) end
unfolding run_all
Ends-step env w a w' acts rest end h (fuel, r) =
    (suc fuel, subst (λ x. run_all env fuel x.0 (x.1 ++ rest) ≡ some end) (sym h) r)

-- A completion with an error calls the client's callback behind it with that error, and changes
-- nothing else, through every callback that wraps it but a request's and a block's.
error-reported :
    (env : Env) (c : Callback) (k : Kind) (e : Error) (w : World) (r : ℕ × Kind) (rest : List Act)
    (end : World)
    → owner c k ≡ some r
    → Ends env (record w { outputs = completed r.0 r.1 (some e) ∷ w.outputs }) rest end
    → Ends env w (complete (op k (some e) c) ∷ rest) end
unfolding owner exec call_back answer_twin
error-reported env (user j) k e w r rest end h t =
    Ends-step env w _ _ [] rest end refl (ground (arith, t))
error-reported env (delegated (op k' d c)) k e w r rest end h t =
    Ends-step env w _ w _ rest end refl (error-reported env c k' e w r rest end h t)
error-reported env (got_twin (op k' d c)) k e w r rest end h t =
    Ends-step env w _ w _ rest end refl (error-reported env c k' e w r rest end h t)
error-reported env (patched_twin (op k' d c)) k e w r rest end h t =
    Ends-step env w _ w _ rest end refl (error-reported env c k' e w r rest end h t)
error-reported env (sent request_id) k e w r rest end h t = cc
error-reported env (connected (op k' d c)) k e w r rest end h t =
    Ends-step env w _ w _ rest end refl (error-reported env c k' e w r rest end h t)
error-reported env (unblocking c) k e w r rest end h t = cc

abbrev pub Owned : List Op → List (ℕ × Kind) → Type 0
Owned [] [] = Unit
Owned [] (r ∷ rs) = ⊥
Owned (o ∷ q) [] = ⊥
Owned (o ∷ q) (r ∷ rs) = (owner_op o ≡ some r) × Owned q rs

queue-reported :
    (env : Env) (e : Error) (q : List Op) (rs : List (ℕ × Kind)) (w : World) (rest : List Act)
    (end : World)
    → Owned q rs
    → Ends env (record w { outputs = report e rs w.outputs }) rest end
    → Ends env w (map (release (some e)) q ++ rest) end
unfolding release owner
queue-reported env e [] [] w rest end h t = t
queue-reported env e [] (r ∷ rs) w rest end h t = absurd h
queue-reported env e (o ∷ q) [] w rest end h t = absurd h
queue-reported env e (op k d c ∷ q) (r ∷ rs) w rest end h t =
    error-reported env c k e w r (map (release (some e)) q ++ rest) end h.0 (
      queue-reported env e q rs (record w { outputs = completed r.0 r.1 (some e) ∷ w.outputs }) rest
        end h.1 t)

report-append :
    (e : Error) (rs ss : List (ℕ × Kind)) (outputs : List Output)
    → report e (rs ++ ss) outputs ≡ report e ss (report e rs outputs)
report-append e [] ss outputs = refl
report-append e (r ∷ rs) ss outputs = report-append e rs ss (completed r.0 r.1 (some e) ∷ outputs)

-- What the failure of a connection operation leaves: the stage unblocked, its queue empty, and the
-- callbacks called of what was queued, in order, and then of the operation.
abbrev pub failed : Error → ℕ × Kind → List (ℕ × Kind) → World → World
failed e r rs w = record w {
  blocked = false;
  queue = [];
  outputs = report e (rs ++ r ∷ []) w.outputs;
}

unblock-reported :
    (env : Env) (e : Error) (k : Kind) (c : Callback) (w : World) (r : ℕ × Kind)
    (rs : List (ℕ × Kind))
    → owner c k ≡ some r
    → Owned w.queue rs
    → Ends env w (complete (op k (some e) (unblocking c)) ∷ []) (failed e r rs w)
unfolding exec call_back run_all
unblock-reported env e k c w r rs h q =
    let free = record w { blocked = false; queue = [] } in
    Ends-step env w _ free (map (release (some e)) w.queue ++ complete (op k (some e) c) ∷ []) []
      (failed e r rs w) refl
      (rw append-nil (
        queue-reported env e w.queue rs free (complete (op k (some e) c) ∷ []) (failed e r rs w) q (
          error-reported env c k e (record free { outputs = report e rs w.outputs }) r []
            (failed e r rs w) h
            (
              0,
              ap (λ (o : List Output). some (record free { outputs = o }))
                  (sym (report-append e rs (r ∷ []) w.outputs)),
            ))))

failure_call :
    (cause : Error) (k : Kind) (d : Option Error) (c : Callback) (w : World)
    → w.pending_connection ≡ some (op k d (unblocking c))
    → is_connect k ≡ true
    → on_mqtt_connection_failure cause w
      ≡ (record w { pending_connection = none }, complete (op k (some cause) (unblocking c)) ∷ [])
unfolding on_mqtt_connection_failure pending_if
failure_call cause k d c w p i = ground arith

-- The transport reports that the connection failed while a connect or reconnect operation of the
-- stage is pending, and the client's callbacks are behind it and behind all that is queued: the run
-- ends, and leaves the stage unblocked with an empty queue and no operation pending, and each of
-- these callbacks called with the cause, the queued ones first and in order. Nothing else changes.
pub connection_failure-reported :
    (env : Env) (cause : Error) (k : Kind) (d : Option Error) (c : Callback) (w : World)
    (r : ℕ × Kind) (rs : List (ℕ × Kind))
    → w.pending_connection ≡ some (op k d (unblocking c))
    → is_connect k ≡ true
    → owner c k ≡ some r
    → Owned w.queue rs
    → Ends env
        (on_mqtt_connection_failure cause w).0
        (on_mqtt_connection_failure cause w).1
        (failed cause r rs (record w { pending_connection = none }))
connection_failure-reported env cause k d c w r rs p i h q =
    let idle = record w { pending_connection = none } in
    subst (λ x. Ends env x.0 x.1 (failed cause r rs idle)) (sym (failure_call cause k d c w p i))
      (unblock-reported env cause k c idle r rs h q)
