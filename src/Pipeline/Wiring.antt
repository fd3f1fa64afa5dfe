-- ===== src/Pipeline/Wiring.antt =====
-- How the stages of a pipeline are put together (`PipelineStage.__init__` and
-- `PipelineRootStage.append_stage` of common/pipeline/pipeline_stages_base.py). A stage is an object
-- with an address; the heap has the attributes of each.
use azure_iot_sdk_python_pre.Prelude.{
  ℕ, zero, suc, ◌==◌, nat_eq, Option, none, some, List, [], ◌∷◌, if◌then◌else◌,
}
pub mod Chain
pub mod Upward
mod Tests

pub record Links : Type 0 where
  pub next : Option ℕ
  pub previous : Option ℕ
  pub pipeline_root : Option ℕ

abbrev pub Heap : Type 0
Heap = ℕ → Links

-- `PipelineStage.__init__`
abbrev pub new_stage : Links
new_stage = record { next = none; previous = none; pipeline_root = none }

abbrev pub put : ℕ → Links → Heap → Heap
put a l h b = if a == b then l else h b

-- `while old_tail.next: old_tail = old_tail.next`, in at most so many rounds
unfoldable pub old_tail : ℕ → Heap → ℕ → Option ℕ
old_tail zero h a = none
old_tail (suc fuel) h a = elim (h a).next [ none ↦ some a | some b ↦ old_tail fuel h b ]

-- The three assignments of `append_stage`
unfoldable pub attach : ℕ → ℕ → ℕ → Heap → Heap
attach root new tail h =
    let h = put tail (record (h tail) { next = some new }) h in
    let h = put new (record (h new) { previous = some tail }) h in
    put new (record (h new) { pipeline_root = some root }) h

unfoldable pub append_stage : ℕ → ℕ → ℕ → Heap → Option Heap
unfolding old_tail attach
append_stage fuel root new h = elim (old_tail fuel h root) [
  | none ↦ none
  | some tail ↦ some (attach root new tail h)
]

-- The calls of `append_stage` that a pipeline's constructor makes, one for each of the stages.
unfoldable pub append_stages : ℕ → ℕ → List ℕ → Heap → Option Heap
unfolding append_stage
append_stages fuel root [] h = some h
append_stages fuel root (s ∷ ss) h = elim (append_stage fuel root s h) [
  | none ↦ none
  | some h ↦ append_stages fuel root ss h
]
