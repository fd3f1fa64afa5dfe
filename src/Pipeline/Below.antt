-- ===== src/Pipeline/Below.antt =====
-- The way of a request from the converter to the transport, when the pipeline is connected and no
-- connection operation is on its way.
use azure_iot_sdk_python_pre.Prelude.{◌≡◌, true, false, none, [], ◌∷◌, arith}
use azure_iot_sdk_python_pre.Pipeline.Ops.{
  next, ensure, serialize, mqtt, op, Kind, Callback, needs_connection,
}
use azure_iot_sdk_python_pre.Pipeline.Convert.{Env}
use azure_iot_sdk_python_pre.Pipeline.World.{World, run}
use azure_iot_sdk_python_pre.Pipeline.Exec.{exec, passage, passing, task, Task}
use azure_iot_sdk_python_pre.Pipeline.Failures.{Ends, Ends-step}

-- What a request of the converter is for the stages below.
abbrev pub IsRequest : Kind → Type 0
IsRequest k = (needs_connection k ≡ true) × (task k ≡ Task.request) × (passage k true ≡ passing)

pub request-descends :
    (env : Env) (v end : World) (k : Kind) (c : Callback)
    → v.connected ≡ true
    → v.blocked ≡ false
    → IsRequest k
    → Ends env v (run mqtt (op k none c) ∷ []) end
    → Ends env v (run ensure (op k none c) ∷ []) end
unfolding exec passage task needs_connection next
request-descends env v end k c connected unblocked (asks, tasked, passed) rest =
    let o = op k none c in
    Ends-step env v (run ensure o) v (run serialize o ∷ []) [] end (ground (arith, asks, connected))
      (Ends-step env v (run serialize o) v (run mqtt o ∷ []) [] end
        (ground (arith, passed, connected, unblocked)) rest)
