-- ===== src/Pipeline/Halts.antt =====
-- Every run on the pipeline's thread ends. Two measures of what a run still has to do: `rank` counts
-- the times that `SerializeConnectOpsStage` may yet unblock, `effort` the calls up to then.
pub mod Ranks
pub mod Efforts
use azure_iot_sdk_python_pre.Prelude.{
  ℕ, zero, suc, ◌+◌, ◌≤◌, ◌<◌, ◌≡◌, refl, ◌⊎◌, inl, inr, List, [], ◌∷◌, ◌++◌, Option, some, arith,
}
use azure_iot_sdk_python_pre.Pipeline.Convert.{Env}
use azure_iot_sdk_python_pre.Pipeline.World.{World, Act}
use azure_iot_sdk_python_pre.Pipeline.Exec.{exec}
use azure_iot_sdk_python_pre.Pipeline.Run.{run_all}
use Ranks.{rank}
use Efforts.{effort, exec-Falls}

module _ (env : Env) where
  ends_within :
      (r f : ℕ) (w : World) (acts : List Act)
      → rank (w, acts) < r
      → effort (w, acts) < f
      → (fuel : ℕ) × (end : World) × (run_all env fuel w acts ≡ some end)
  unfolding run_all
  ends_within zero f w acts hr hf = absurd (omega arith)
  ends_within (suc r) zero w acts hr hf = absurd (omega arith)
  ends_within (suc r) (suc f) w [] hr hf = (0, w, refl)
  ends_within (suc r) (suc f) w (a ∷ rest) hr hf =
      let w' = (exec env a w).0 in
      let acts = (exec env a w).1 ++ rest in
      elim (exec-Falls env a w rest) [
        | inl lower ↦
            let (fuel, end, e) =
              ends_within r (suc (effort (w', acts))) w' acts (omega arith) (omega arith) in
            (suc fuel, end, e)
        | inr (le, less) ↦
            let (fuel, end, e) = ends_within (suc r) f w' acts (omega arith) (omega arith) in
            (suc fuel, end, e)
      ]

-- From any state and any calls to make, every run on the pipeline's thread ends: some fuel is
-- enough for it, whatever the client library answers.
pub run_all-ends :
    (env : Env) (w : World) (acts : List Act)
    → (fuel : ℕ) × (end : World) × (run_all env fuel w acts ≡ some end)
run_all-ends env w acts =
    ends_within env (suc (rank (w, acts))) (suc (effort (w, acts))) w acts (omega arith)
      (omega arith)
