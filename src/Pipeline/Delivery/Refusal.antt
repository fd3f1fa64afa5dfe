-- ===== src/Pipeline/Delivery/Refusal.antt =====
-- A request that the converter or the client library refuses.
use azure_iot_sdk_python_pre.Prelude.{
  ℕ, suc, ◌≡◌, refl, ◌⊎◌, inl, inr, true, none, some, [], ◌∷◌, arith,
}
use azure_iot_sdk_python_pre.Errors.{Error}
use azure_iot_sdk_python_pre.Pipeline.Ops.{
  root, ensure, mqtt, op, user, delegated, Kind, send_d2c_message, send_output_event,
  send_method_response, enable_feature, disable_feature, set_error,
}
use azure_iot_sdk_python_pre.Pipeline.Convert.{Env, convert, delegate, fail, ConverterState}
use azure_iot_sdk_python_pre.Pipeline.World.{World, run, completed, complete}
use azure_iot_sdk_python_pre.Pipeline.Exec.{exec, call_error, task}
use azure_iot_sdk_python_pre.Pipeline.Run.{input, submit, run_all}
use azure_iot_sdk_python_pre.Pipeline.Failures.{Ends, Ends-step}
use azure_iot_sdk_python_pre.Pipeline.Below.{request-descends}
use azure_iot_sdk_python_pre.Pipeline.Twin.{ready}
use azure_iot_sdk_python_pre.Pipeline.Delivery.{
  is_plain, converted-IsRequest, request_op, upper_stages,
}

-- The client's callback gets the error.
abbrev pub refused : ℕ → Kind → Error → World → World
refused id k e w = record w { outputs = completed id k (some e) ∷ w.outputs }

unchanged :
    (env : Env) (s : ConverterState) (k : Kind) → is_plain k ≡ true → (convert env s k).0 ≡ s
unfolding convert
unchanged env s (send_d2c_message m) h = refl
unchanged env s (send_output_event m) h = refl
unchanged env s (send_method_response m) h = refl
unchanged env s (enable_feature name) h = refl
unchanged env s (disable_feature name) h = refl
unchanged env s _ h = absurd (cc)

module _ (env : Env) (id : ℕ) (k : Kind) (w : World) (e : Error) (plain : is_plain k ≡ true) where
  no_topic-refused :
      (convert env w.converter k).1 ≡ fail e
      → Ends env (ready w) (run root (op k none (user id)) ∷ []) (refused id k e (ready w))
  unfolding exec run_all
  no_topic-refused f =
      let o = op k none (user id) in
      upper_stages env id k (ready w) plain (complete (set_error e o) ∷ [])
        (refused id k e (ready w)) (ground (arith, unchanged env w.converter k plain, f)) (1, refl)

  -- The client library's refusal, once the stages below the converter are passed.
  library-refused :
      (r : Kind)
      → (convert env w.converter k).1 ≡ delegate r
      → call_error (env.paho w.calls) ≡ some e
      → Ends env
          (ready w)
          (run root (op k none (user id)) ∷ [])
          (refused id k e (record (ready w) { calls = suc w.calls }))
  unfolding exec task run_all
  library-refused r d refuses =
      let (same, is_request) = converted-IsRequest env w.converter k r plain d in
      let o = request_op id k r in
      let v = ready w in
      let called = record v { calls = suc w.calls } in
      let end = refused id k e called in
      upper_stages env id k (ready w) plain (run ensure o ∷ []) end (ground (arith, same, d)) (
        request-descends env v end r (delegated (op k none (user id))) refl refl is_request (
          Ends-step env v (run mqtt o) called (complete (set_error e o) ∷ []) [] end
            (ground (arith, is_request.1, refuses)) (2, refl)))

-- Whether the converter fails, as without a topic, or the client library does; and whether the
-- library was called.
abbrev pub IsRefused : Env → World → Kind → Error → ℕ → Type 0
IsRefused env w k e calls =
    (((convert env w.converter k).1 ≡ fail e) × (calls ≡ w.calls))
    ⊎ ((r : Kind) × ((convert env w.converter k).1 ≡ delegate r)
        × (call_error (env.paho w.calls) ≡ some e)
        × (calls ≡ suc w.calls))

-- On a connected pipeline, a client submits a message, a method's response or a change of a feature
-- that the converter refuses, as before it has topics, or whose request the client library refuses.
-- The run ends with the client's callback called with that error, and nothing else is changed but
-- the count of the library's calls.
pub submitted-refused :
    (env : Env) (id calls : ℕ) (k : Kind) (e : Error) (w : World)
    → is_plain k ≡ true
    → IsRefused env w k e calls
    → Ends env
        (input (submit id k) (ready w)).0
        (input (submit id k) (ready w)).1
        (refused id k e (record (ready w) { calls = calls }))
unfolding input
submitted-refused env id calls k e w plain (inl (f, same)) =
    rw same (no_topic-refused env id k w e plain f)
submitted-refused env id calls k e w plain (inr (r, d, refuses, one)) =
    rw one (library-refused env id k w e plain r d refuses)
