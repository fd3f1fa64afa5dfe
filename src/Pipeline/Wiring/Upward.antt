-- ===== src/Pipeline/Wiring/Upward.antt =====
-- What travels up the chain of stages: `handle_pipeline_event`, `_handle_pipeline_event`,
-- `on_connected` and `on_disconnected` of common/pipeline/pipeline_stages_base.py, with
-- `pass_event_to_previous_stage` of operation_flow.py, on the pipeline's thread.
use azure_iot_sdk_python_pre.Prelude.{
  ℕ, zero, suc, ◌+◌, ◌≡◌, ◌≢◌, refl, subst, ◌==◌, nat_eq, Bool, true, false, Option, none, some,
  List, [], ◌∷◌, ◌++◌, length, arith, if◌then◌else◌,
}
use azure_iot_sdk_python_pre.Errors.{Error, not_implemented}
use azure_iot_sdk_python_pre.Pipeline.Wiring.{Heap}
use azure_iot_sdk_python_pre.Pipeline.Wiring.Chain.{IsLinked, IsPipeline, IsFresh}

-- What a stage does with an event in its own `_handle_pipeline_event`: it passes an event on, handles
-- it alone, or raises.
pub data Handling (E : Type 0) : Type 0 where
  passes : E → Handling E
  handles : Handling E
  raises : Error → Handling E

-- The attributes of `PipelineRootStage`.
pub record Root : Type 0 where
  pub connected : Bool
  pub on_pipeline_event_handler : Bool
  pub on_connected_handler : Bool
  pub on_disconnected_handler : Bool

-- What is left of an event, or of a change of the connection: a call on the callback thread of the
-- root's handler, a warning that there is none, an end in a stage, or a report of
-- `exception_caught_in_background_thread`.
pub data End (E : Type 0) : Type 0 where
  delivered : E → End E
  dropped handled : End E
  reported : Error → End E

pub data Notice : Type 0 where
  calls_on_connected calls_on_disconnected : Notice

module _ {E : Type 0} (stage : ℕ → E → Handling E) (h : Heap) (root : ℕ) (r : Root) where
  -- `_handle_pipeline_event` of the root, and of a stage with what it passes on.
  unfoldable pub handle_at_root : E → End E
  handle_at_root e = if r.on_pipeline_event_handler then delivered e else dropped

  -- `handle_pipeline_event` of the stage at an address, `none` when the rounds are over.
  unfoldable pub handle_pipeline_event : ℕ → ℕ → E → Option (End E)
  unfolding handle_at_root
  handle_pipeline_event zero a e = none
  handle_pipeline_event (suc fuel) a e =
      if a == root then some (handle_at_root e) else elim (stage a e) [
        | handles ↦ some handled
        | raises x ↦ some (reported x)
        | passes e ↦ elim (h a).previous [
          | none ↦ some (reported not_implemented)
          | some b ↦ handle_pipeline_event fuel b e
        ]
      ]

  -- `on_connected` and `on_disconnected`, which reach the root or stop at a stage that has no
  -- `previous`.
  unfoldable pub notify : Notice → Root × List Notice
  notify calls_on_connected = (
    record r { connected = true },
    if r.on_connected_handler then calls_on_connected ∷ [] else [],
  )
  notify calls_on_disconnected = (
    record r { connected = false },
    if r.on_disconnected_handler then calls_on_disconnected ∷ [] else [],
  )

  unfoldable pub on_connection_change : Notice → ℕ → ℕ → Option (Root × List Notice)
  unfolding notify
  on_connection_change n zero a = none
  on_connection_change n (suc fuel) a =
      if a == root
      then some (notify n)
      else elim (h a).previous [ none ↦ some (r, []) | some b ↦ on_connection_change n fuel b ]

-- The stages above, nearest first.
abbrev pub above : List ℕ → List ℕ → List ℕ
above nearer [] = nearer
above nearer (b ∷ further) = above (b ∷ nearer) further

module _ {E : Type 0} (stage : ℕ → E → Handling E) (h : Heap) (root : ℕ) (r : Root) where
  -- The stages in turn, up to the root.
  unfoldable pub climb : List ℕ → E → End E
  climb [] e = handle_at_root stage h root r e
  climb (a ∷ stages) e = elim (stage a e) [
    | handles ↦ handled
    | raises x ↦ reported x
    | passes e ↦ climb stages e
  ]

  abbrev At : ℕ → ℕ → List ℕ → Type 0
  At fuel a stages =
      ((e : E) → handle_pipeline_event stage h root r fuel a e ≡ some (climb stages e))
      × ((n : Notice)
          → on_connection_change stage h root r n fuel a ≡ some (notify stage h root r n))

  At-root : (fuel : ℕ) → At (suc fuel) root []
  unfolding handle_pipeline_event on_connection_change climb
  At-root fuel =
      (λ e. ground (arith, nat_eq.beq_iff root root), λ n. ground (arith, nat_eq.beq_iff root root))

  At-next :
      (fuel p a : ℕ) (stages : List ℕ)
      → (h a).previous ≡ some p
      → root ≢ a
      → At fuel p stages
      → At (suc fuel) a (a ∷ stages)
  unfolding handle_pipeline_event on_connection_change climb
  At-next fuel p a stages e other (events, notices) = (
    λ x.
        elim (stage a x)
            as (λ (s : Handling E).
              stage a x ≡ s
              → handle_pipeline_event stage h root r (suc fuel) a x ≡ some (climb (a ∷ stages) x)) [
                | passes y ↦ λ s. ground (arith, s, e, other, events y, nat_eq.beq_iff a root)
                | handles ↦ λ s. ground (arith, s, e, other, nat_eq.beq_iff a root)
                | raises y ↦ λ s. ground (arith, s, e, other, nat_eq.beq_iff a root)
              ]
          refl,
    λ n. ground (arith, e, other, notices n, nat_eq.beq_iff a root),
  )

  At-stage :
      (fuel p a : ℕ) (nearer before later : List ℕ) (s : Option ℕ)
      → At fuel p nearer
      → IsLinked h (some p) s root (before ++ (a ∷ later))
      → IsFresh root (before ++ (a ∷ later))
      → At (length before + suc fuel) a (a ∷ above nearer before)
  At-stage fuel p a nearer [] later s at linked apart =
      subst (λ (k : ℕ). At k a (a ∷ nearer)) (no_rounds (suc fuel))
        (At-next fuel p a nearer linked.1 apart.0 at)
    where
      no_rounds : (n : ℕ) → n ≡ 0 + n
      no_rounds n = omega arith
  At-stage fuel p a nearer (b ∷ before) later s at linked apart =
      subst (λ (k : ℕ). At k a (a ∷ above (b ∷ nearer) before)) (rounds (length before) fuel)
        (At-stage (suc fuel) b a (b ∷ nearer) before later (some root)
          (At-next fuel p b nearer linked.1 apart.0 at) linked.3 apart.1)
    where
      rounds : (m n : ℕ) → m + suc (suc n) ≡ suc m + suc n
      rounds m n = omega arith

  -- In the chain of a pipeline whose root stands in it once, an event that a stage gets is handled by
  -- this stage and by those above it in turn, until one of them handles it alone or raises, which is
  -- reported, or the root calls its handler or drops it; and a change of the connection that a stage
  -- gets reaches the root. The rounds are the stages from there to the root.
  pub travels_up :
      (fuel a : ℕ) (before later : List ℕ)
      → IsPipeline h root (before ++ (a ∷ later))
      → IsFresh root (before ++ (a ∷ later))
      → ((e : E)
          → handle_pipeline_event stage h root r (length before + suc (suc fuel)) a e
            ≡ some (climb (a ∷ above [] before) e))
        × ((n : Notice)
            → on_connection_change stage h root r n (length before + suc (suc fuel)) a
              ≡ some (notify stage h root r n))
  travels_up fuel a before later linked apart =
      At-stage (suc fuel) root a [] before later (some root) (At-root fuel) linked.3 apart
