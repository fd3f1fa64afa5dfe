-- ===== src/Pipeline/Delivery.antt =====
-- A message, a method's response or a change of a feature from the client's call to the
-- acknowledgement, through every stage.
pub mod Refusal
pub mod Connecting
use azure_iot_sdk_python_pre.Prelude.{
  ℕ, suc, ◌≡◌, ◌∙◌, refl, Option-cases, inl, inr, subst, Bool, true, false, String, Option, none,
  some, List, [], ◌∷◌, ◌++◌, arith, nat_eq, string_eq, ◌==◌,
}
use azure_iot_sdk_python_pre.Prelude.Dict.{lookup, insert, erase, lookup-insert, lookup-erase}
use azure_iot_sdk_python_pre.Errors.{success, rc_error}
use azure_iot_sdk_python_pre.Mqtt.Manager
use azure_iot_sdk_python_pre.Pipeline.Ops.{
  next, root, use_auth, twin, coordinate, converter, ensure, serialize, mqtt, Op, op, user,
  delegated, Kind, send_d2c_message, send_output_event, send_method_response, enable_feature,
  disable_feature, needs_connection,
}
use azure_iot_sdk_python_pre.Pipeline.Convert.{
  Env, returned, use_auth_provider, twin_request, with_request_id, convert, delegate, send_message,
  with_topic, ConverterState,
}
use azure_iot_sdk_python_pre.Pipeline.World.{World, Output, Act, run, establish, completed}
use azure_iot_sdk_python_pre.Pipeline.Exec.{exec, call_error, passage, passing, task, Task}
use azure_iot_sdk_python_pre.Pipeline.Run.{input, submit, due, on_ack, run_task, run_all}
use azure_iot_sdk_python_pre.Pipeline.Failures.{Ends, Ends-step}
use azure_iot_sdk_python_pre.Pipeline.Below.{IsRequest, request-descends}
use azure_iot_sdk_python_pre.Pipeline.Twin.{ready}

-- The operations that the client's methods submit and that the converter turns into one request.
abbrev pub is_plain : Kind → Bool
is_plain (send_d2c_message m) = true
is_plain (send_output_event m) = true
is_plain (send_method_response r) = true
is_plain (enable_feature name) = true
is_plain (disable_feature name) = true
is_plain _ = false

passes_stages :
    (k : Kind)
    → is_plain k ≡ true
    → (use_auth_provider k ≡ none)
      × (twin_request k ≡ none)
      × ((request_id : String) → with_request_id request_id k ≡ none)
unfolding use_auth_provider twin_request with_request_id
passes_stages (send_d2c_message m) h = (refl, refl, λ i. refl)
passes_stages (send_output_event m) h = (refl, refl, λ i. refl)
passes_stages (send_method_response r) h = (refl, refl, λ i. refl)
passes_stages (enable_feature name) h = (refl, refl, λ i. refl)
passes_stages (disable_feature name) h = (refl, refl, λ i. refl)
passes_stages _ h = absurd (cc)

converted-IsRequest :
    (env : Env) (s : ConverterState) (k r : Kind)
    → is_plain k ≡ true
    → (convert env s k).1 ≡ delegate r
    → ((convert env s k).0 ≡ s) × IsRequest r
unfolding convert send_message with_topic needs_connection task passage
converted-IsRequest env s (send_d2c_message m) r h e = ground (arith, e)
converted-IsRequest env s (send_output_event m) r h e = ground (arith, e)
converted-IsRequest env s (send_method_response m) r h e = ground (arith, e)
converted-IsRequest env s (enable_feature name) r h e = ground (arith, e)
converted-IsRequest env s (disable_feature name) r h e = ground (arith, e)
converted-IsRequest env s _ r h e = absurd (cc)

-- Down to the converter, and on with what it does.
upper_stages :
    (env : Env) (id : ℕ) (k : Kind) (w : World)
    → is_plain k ≡ true
    → (acts : List Act) (end : World)
    → (exec env (run converter (op k none (user id))) w) ≡ (w, acts)
    → Ends env w (acts ++ []) end
    → Ends env w (run root (op k none (user id)) ∷ []) end
unfolding exec next run_all
upper_stages env id k w plain acts end e rest =
    let (no_auth, no_twin, no_id) = passes_stages k plain in
    let o = op k none (user id) in
    let v = w in
    Ends-step env v (run root o) v (run use_auth o ∷ []) [] end refl (
      Ends-step env v (run use_auth o) v (run twin o ∷ []) [] end (ground (arith, no_auth)) (
        Ends-step env v (run twin o) v (run coordinate o ∷ []) [] end (ground (arith, no_twin)) (
          Ends-step env v (run coordinate o) v (run converter o ∷ []) [] end
            (ground (arith, no_id (env.uuid4 w.drawn)))
            (Ends-step env v (run converter o) v acts [] end e rest))))

-- The request that the converter makes, which completes the client's operation.
abbrev pub request_op : ℕ → Kind → Kind → Op
request_op id k r = op r none (delegated (op k none (user id)))

-- What the client's callback has got once the request is recorded: an acknowledgement that came
-- before completes the operation at once.
abbrev pub early_outputs : ℕ → ℕ → Kind → World → List Output
early_outputs id mid k w = elim (lookup mid w.manager.unknown) [
  | none ↦ w.outputs
  | some _ ↦ completed id k none ∷ w.outputs
]

-- The request was handed to the client library, and waits for the acknowledgement of a message id
-- unless it came before.
abbrev pub posted : ℕ → ℕ → Kind → Kind → World → World
posted id mid k r w =
    let (m, triggered) = Manager.establish_operation mid (some (request_op id k r)) w.manager in
    record (ready w) { manager = m; calls = suc w.calls; outputs = early_outputs id mid k w }

pub request-established :
    (env : Env) (id mid : ℕ) (k r : Kind) (w : World)
    → let (m, triggered) = Manager.establish_operation mid (some (request_op id k r)) w.manager in
      Ends env w
        (establish mid (request_op id k r) ∷ [])
        (record w { manager = m; outputs = early_outputs id mid k w })
unfolding exec run_all Manager.establish_operation
request-established env id mid k r w = elim (Option-cases (lookup mid w.manager.unknown)) [
  | inl waits ↦ (1, ground (arith, waits))
  | inr (_, early) ↦ (3, ground (arith, early))
]

module _ (env : Env) (id mid : ℕ) (k r : Kind) (w : World)
    (accepted : env.paho w.calls ≡ returned success mid) where
  posted_below :
      IsRequest r → Ends env (ready w) (run ensure (request_op id k r) ∷ []) (posted id mid k r w)
  unfolding exec task call_error rc_error
  posted_below is_request =
      let o = request_op id k r in
      let end = posted id mid k r w in
      let v = ready w in
      let told = record v { calls = suc w.calls } in
      request-descends env v end r (delegated (op k none (user id))) refl refl is_request (
        Ends-step env v (run mqtt o) told (establish mid o ∷ []) [] end
          (ground (arith, is_request.1, accepted)) (request-established env id mid k r told))

  posted_lem :
      is_plain k ≡ true
      → (convert env w.converter k).1 ≡ delegate r
      → Ends env (ready w) (run root (op k none (user id)) ∷ []) (posted id mid k r w)
  unfolding exec
  posted_lem plain e =
      let (same, is_request) = converted-IsRequest env w.converter k r plain e in
      upper_stages env id k (ready w) plain (run ensure (request_op id k r) ∷ [])
        (posted id mid k r w) (ground (arith, same, e)) (posted_below is_request)

-- The acknowledgement arrives, unless it did before the request was recorded.
abbrev pub acknowledged : ℕ → World → World → World
acknowledged mid before w = elim (lookup mid before.manager.unknown) [
  | none ↦ on_ack mid w
  | some _ ↦ w
]

-- The task that completes a request, when its turn has come.
request-completed :
    (env : Env) (id : ℕ) (k r : Kind) (v : World)
    → v.scheduled ≡ request_op id k r ∷ []
    → Ends env
        (input due v).0
        (input due v).1
        (record v { scheduled = []; outputs = completed id k none ∷ v.outputs })
unfolding input run_task exec run_all
request-completed env id k r v e = (2, ground (arith, e))

-- What an acknowledgement that comes later leaves.
IsDue : ℕ → ℕ → Kind → Kind → World → World → Type 0
IsDue id mid k r before v = (v.scheduled ≡ request_op id k r ∷ []) × (v.outputs ≡ before.outputs)

module _ (env : Env) (id mid : ℕ) (k r : Kind) (w : World)
    (unused : lookup mid w.manager.pending ≡ none) (idle : w.scheduled ≡ []) where
  acknowledged-IsDue :
      lookup mid w.manager.unknown ≡ none
      → IsDue id mid k r w (acknowledged mid w (posted id mid k r w))
  unfolding IsDue on_ack Manager.establish_operation Manager.complete_operation
  acknowledged-IsDue late =
      let o : Option Op = some (request_op id k r) in
      ground (arith, idle, late, nat_eq.beq_iff mid mid, lookup-insert mid mid o w.manager.pending)

  -- The message id is free again.
  acknowledged_free :
      let v = acknowledged mid w (posted id mid k r w) in
      (lookup mid v.manager.pending ≡ none) × (lookup mid v.manager.unknown ≡ none)
  unfolding on_ack Manager.establish_operation Manager.complete_operation
  acknowledged_free =
      let o : Option Op = some (request_op id k r) in
      ground (
        arith,
        unused,
        nat_eq.beq_iff mid mid,
        lookup-insert mid mid o w.manager.pending,
        lookup-erase mid mid (insert mid o w.manager.pending),
        lookup-erase mid mid w.manager.unknown,
      )

  early-completed :
      (c : ℕ)
      → lookup mid w.manager.unknown ≡ some c
      → let v = acknowledged mid w (posted id mid k r w) in
        Ends env
          (input due v).0
          (input due v).1
          (record v { scheduled = []; outputs = completed id k none ∷ w.outputs })
  unfolding input run_task run_all on_ack
  early-completed c early = (0, ground (arith, idle, early))

  acknowledged-completed :
      let v = acknowledged mid w (posted id mid k r w) in
      Ends env
        (input due v).0
        (input due v).1
        (record v { scheduled = []; outputs = completed id k none ∷ w.outputs })
  unfolding IsDue
  acknowledged-completed =
      let v = acknowledged mid w (posted id mid k r w) in
      elim (Option-cases (lookup mid w.manager.unknown)) [
        | inl late ↦
            let (scheduled, outputs) = acknowledged-IsDue late in
            subst
              (λ (o : List Output).
                Ends env (input due v).0 (input due v).1
                  (record v { scheduled = []; outputs = completed id k none ∷ o }))
              outputs (request-completed env id k r v scheduled)
        | inr (c, early) ↦ early-completed c early
      ]

-- On a connected pipeline with nothing scheduled, a client submits a message, a method's response or
-- a change of a feature for which the converter has a topic, and the client library accepts the
-- request under a message id that no other request has. The run ends with the request handed over,
-- and if the acknowledgement came before the request was recorded, with the client's callback called
-- in that run. Otherwise, once the acknowledgement is there, the next task calls it. In both orders
-- the callback is called without an error, and the message id is free in the end.
pub submitted-delivered :
    (env : Env) (id mid : ℕ) (k r : Kind) (w : World)
    → is_plain k ≡ true
    → (convert env w.converter k).1 ≡ delegate r
    → env.paho w.calls ≡ returned success mid
    → lookup mid w.manager.pending ≡ none
    → w.scheduled ≡ []
    → let after = posted id mid k r w in
      let v = acknowledged mid w after in
      let end = record v { scheduled = []; outputs = completed id k none ∷ w.outputs } in
      Ends env (input (submit id k) (ready w)).0 (input (submit id k) (ready w)).1 after
      × Ends env (input due v).0 (input due v).1 end
      × (lookup mid end.manager.pending ≡ none)
      × (lookup mid end.manager.unknown ≡ none)
unfolding input
submitted-delivered env id mid k r w plain e accepted unused idle =
    let (pending, unknown) = acknowledged_free env id mid k r w unused idle in
    (
      posted_lem env id mid k r w accepted plain e,
      acknowledged-completed env id mid k r w unused idle,
      pending,
      unknown,
    )
