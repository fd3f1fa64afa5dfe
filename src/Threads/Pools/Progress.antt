-- ===== src/Threads/Pools/Progress.antt =====
-- Every step of the threads and the workers comes nearer to the end.
use azure_iot_sdk_python_pre.Prelude.{
  ℕ, zero, suc, ◌+◌, ◌≤◌, ◌<◌, ◌≡◌, refl, Bool, Option, none, some, List, [], ◌∷◌, total,
  total-append, arith, Option-cases, inl, inr, ap, sym, ◌∙◌,
}
use azure_iot_sdk_python_pre.Threads.Pools.{
  ThreadName, pipeline, callback, other, Program, ends, raises, invokes, on_pipeline,
  on_pipeline_nowait, on_callback_nowait, thread_name_of, is_blocking, then_run, Phase, going,
  waits, Pool, Shared, submit, invoke_on_executor, advance, pool_of, set_pool, set_worker, take_job,
  work, System, Mover, worker_of, thread, move_thread, move, run,
}

-- The steps that a program can still make at most, with those of the jobs that it submits.
unfoldable pub size : Program → ℕ
size ends = 0
size raises = 1
size (invokes d p q) = 4 + size p + size q

unfoldable pub left : Phase → ℕ
unfolding size
left (going p) = size p
left (waits f p) = 1 + size p

unfoldable pub left_of_worker : Option (ℕ × Phase) → ℕ
unfolding left
left_of_worker none = 0
left_of_worker (some (f, p)) = 1 + left p

abbrev left_of_pool : Pool → ℕ
left_of_pool pool =
    total (λ (j : ℕ × Program). 2 + size j.1) pool.queue + left_of_worker pool.worker

abbrev pub left_of_shared : Shared → ℕ
left_of_shared sh = left_of_pool sh.pipeline_pool + left_of_pool sh.callback_pool

abbrev pub weight : System → ℕ
weight s = left_of_shared s.shared + total left s.threads

then_run-size : (p q : Program) → size (then_run p q) ≤ size p + size q
unfolding then_run size
then_run-size ends q = omega arith
then_run-size raises q = omega arith
then_run-size (invokes d p r) q = omega (arith, then_run-size r q)

submit-left :
    (name : ThreadName) (p : Program) (sh : Shared)
    → left_of_shared (submit name p sh) ≤ left_of_shared sh + 2 + size p
unfolding submit
submit-left pipeline p sh = omega (
  arith,
  total-append (λ (j : ℕ × Program). 2 + size j.1) sh.pipeline_pool.queue ((sh.created, p) ∷ []),
)
submit-left callback p sh = omega (
  arith,
  total-append (λ (j : ℕ × Program). 2 + size j.1) sh.callback_pool.queue ((sh.created, p) ∷ []),
)
submit-left other p sh = omega arith

invoke-left :
    (current name : ThreadName) (block : Bool) (p q : Program) (sh : Shared)
    → let (phase, after) = invoke_on_executor current name block p q sh in
      left phase + left_of_shared after < 4 + size p + size q + left_of_shared sh
unfolding invoke_on_executor left
invoke-left current name block p q sh = ground (arith, then_run-size p q, submit-left name p sh)

advance-left :
    (current : ThreadName) (p q : Phase) (sh after : Shared)
    → advance current p sh ≡ some (q, after)
    → left q + left_of_shared after < left p + left_of_shared sh
unfolding advance left size
advance-left current (waits f rest) q sh after h = ground (arith, h)
advance-left current (going ends) q sh after h = ground (arith, h)
advance-left current (going raises) q sh after h = ground (arith, h)
advance-left current (going (invokes d body rest)) q sh after h =
    ground (arith, h, invoke-left current (thread_name_of d) (is_blocking d) body rest sh)

-- The jobs that the workers run, which only they change.
pub advance-worker :
    (current : ThreadName) (p q : Phase) (sh after : Shared)
    → advance current p sh ≡ some (q, after)
    → (after.pipeline_pool.worker ≡ sh.pipeline_pool.worker)
      × (after.callback_pool.worker ≡ sh.callback_pool.worker)
unfolding advance invoke_on_executor submit thread_name_of is_blocking
advance-worker current (waits f rest) q sh after h = ground (arith, h)
advance-worker current (going ends) q sh after h = ground (arith, h)
advance-worker current (going raises) q sh after h = ground (arith, h)
advance-worker current (going (invokes on_pipeline body rest)) q sh after h = ground (arith, h)
advance-worker current (going (invokes on_pipeline_nowait body rest)) q sh after h =
    ground (arith, h)
advance-worker current (going (invokes on_callback_nowait body rest)) q sh after h =
    ground (arith, h)

set_worker-left :
    (name : ThreadName) (f : ℕ) (p q : Phase) (sh between after : Shared)
    → (pool_of name sh).worker ≡ some (f, p)
    → advance name p sh ≡ some (q, between)
    → set_worker name f (some (q, between)) ≡ some after
    → left_of_shared after < left_of_shared sh
unfolding set_worker pool_of set_pool left_of_worker
set_worker-left pipeline f p q sh between after w a h =
    ground (
      arith,
      w,
      h,
      advance-left pipeline p q sh between a,
      advance-worker pipeline p q sh between a,
    )
set_worker-left callback f p q sh between after w a h =
    ground (
      arith,
      w,
      h,
      advance-left callback p q sh between a,
      advance-worker callback p q sh between a,
    )
set_worker-left other f p q sh between after w a h = ground (arith, w)

take_job-left :
    (name : ThreadName) (jobs : List (ℕ × Program)) (sh after : Shared)
    → (pool_of name sh).worker ≡ none
    → (pool_of name sh).queue ≡ jobs
    → take_job name jobs sh ≡ some after
    → left_of_shared after < left_of_shared sh
unfolding take_job pool_of set_pool left_of_worker left
take_job-left name [] sh after w q h = ground (arith, h)
take_job-left pipeline ((f, p) ∷ jobs) sh after w q h = ground (arith, w, q, h)
take_job-left callback ((f, p) ∷ jobs) sh after w q h = ground (arith, w, q, h)
take_job-left other ((f, p) ∷ jobs) sh after w q h = ground (arith, q)

module _ (name : ThreadName) (f : ℕ) (sh after : Shared) where
  working-left :
      (p : Phase)
      → (pool_of name sh).worker ≡ some (f, p)
      → set_worker name f (advance name p sh) ≡ some after
      → left_of_shared after < left_of_shared sh
  unfolding set_worker
  working-left p w h = elim (Option-cases (advance name p sh)) [
    | inl stuck ↦ absurd (ground (arith, h, stuck))
    | inr ((q, between), a) ↦
        set_worker-left name f p q sh between after w a (ap (set_worker name f) (sym a) ∙ h)
  ]

  ended-left :
      (pool_of name sh).worker ≡ some (f, going ends)
      → work name (some (f, going ends)) sh ≡ some after
      → left_of_shared after < left_of_shared sh
  unfolding work pool_of set_pool left_of_worker left size
  ended-left w h =
      elim name
          as (λ n.
            (pool_of n sh).worker ≡ some (f, going ends)
            → work n (some (f, going ends)) sh ≡ some after
            → left_of_shared after < left_of_shared sh) [
              | pipeline ↦ λ w h. ground (arith, w, h)
              | callback ↦ λ w h. ground (arith, w, h)
              | other ↦ λ w h. ground (arith, w)
            ]
        w h

work-left :
    (name : ThreadName) (job : Option (ℕ × Phase)) (sh after : Shared)
    → (pool_of name sh).worker ≡ job
    → work name job sh ≡ some after
    → left_of_shared after < left_of_shared sh
unfolding work
work-left name none sh after w h = take_job-left name (pool_of name sh).queue sh after w refl h
work-left name (some (f, going ends)) sh after w h = ended-left name f sh after w h
work-left name (some (f, going raises)) sh after w h =
    working-left name f sh after (going raises) w h
work-left name (some (f, going (invokes d p q))) sh after w h =
    working-left name f sh after (going (invokes d p q)) w h
work-left name (some (f, waits g p)) sh after w h = working-left name f sh after (waits g p) w h

move_thread-left :
    (i : ℕ) (ps qs : List Phase) (sh after : Shared)
    → move_thread i ps sh ≡ some (qs, after)
    → left_of_shared after + total left qs < left_of_shared sh + total left ps
unfolding move_thread
move_thread-left i [] qs sh after h = ground (arith, h)
move_thread-left zero (p ∷ ps) qs sh after h = elim (Option-cases (advance other p sh)) [
  | inl stuck ↦ absurd (ground (arith, h, stuck))
  | inr ((q, between), a) ↦ ground (arith, h, a, advance-left other p q sh between a)
]
move_thread-left (suc i) (p ∷ ps) qs sh after h = elim (Option-cases (move_thread i ps sh)) [
  | inl stuck ↦ absurd (ground (arith, h, stuck))
  | inr ((rs, between), a) ↦ ground (arith, h, a, move_thread-left i ps rs sh between a)
]

pub move-weight : (m : Mover) (s t : System) → move m s ≡ some t → weight t < weight s
unfolding move
move-weight (worker_of name) s t h =
    elim (Option-cases (work name (pool_of name s.shared).worker s.shared)) [
      | inl stuck ↦ absurd (ground (arith, h, stuck))
      | inr (sh, a) ↦ ground (arith, h, a, work-left name _ s.shared sh refl a)
    ]
move-weight (thread i) s t h = elim (Option-cases (move_thread i s.threads s.shared)) [
  | inl stuck ↦ absurd (ground (arith, h, stuck))
  | inr ((ps, sh), a) ↦ ground (arith, h, a, move_thread-left i s.threads ps s.shared sh a)
]

-- How many of those that were to move in a history did.
unfoldable pub moves : List Mover → System → ℕ
unfolding move
moves [] s = 0
moves (m ∷ ms) s = elim (move m s) [ none ↦ moves ms s | some t ↦ suc (moves ms t) ]

-- Whoever moves when, the steps that are made are at most as many as the weight of the programs: four
-- for each call of a decorated function and one for an exception, with those of the bodies.
pub moves-bound :
    (schedule : List Mover) (s : System) → moves schedule s + weight (run schedule s) ≤ weight s
unfolding moves run
moves-bound [] s = omega arith
moves-bound (m ∷ ms) s = elim (Option-cases (move m s)) [
  | inl stuck ↦ ground (arith, stuck, moves-bound ms s)
  | inr (t, made) ↦ ground (arith, made, move-weight m s t made, moves-bound ms t)
]
