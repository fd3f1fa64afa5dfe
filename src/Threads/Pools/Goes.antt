-- ===== src/Threads/Pools/Goes.antt =====
-- What a step of a worker keeps: no job is lost, and what is waited for is a job of the pipeline.
use azure_iot_sdk_python_pre.Prelude.{
  ℕ, ◌≡◌, refl, ◌∙◌, sym, ap, true, Option, none, some, List, [], ◌∷◌, arith, Option-cases, inl,
  inr,
}
use azure_iot_sdk_python_pre.Threads.Pools.{
  ThreadName, pipeline, callback, other, Program, ends, raises, invokes, Phase, going, waits,
  Shared, has_ended, advance, pool_of, set_pool, set_worker, take_job, work,
}
use azure_iot_sdk_python_pre.Threads.Pools.Progress.{advance-worker}
use azure_iot_sdk_python_pre.Threads.Pools.Waits.{
  queued, runs_job, is_known, is_sound, is_free, is_sound_worker, Keeps, is_sound-Keeps,
  advance-Keeps, advance-is_sound, advance-is_free,
}

-- The pipeline's thread does not wait, and the callback thread waits for a job of the pipeline.
abbrev pub IsSoundShared : Shared → Type 0
IsSoundShared sh =
    (is_free sh.pipeline_pool.worker ≡ true) × (is_sound_worker sh sh.callback_pool.worker ≡ true)

pub is_sound_worker-Keeps :
    (sh after : Shared) (job : Option (ℕ × Phase))
    → Keeps sh after
    → is_sound_worker sh job ≡ true
    → is_sound_worker after job ≡ true
unfolding is_sound_worker
is_sound_worker-Keeps sh after none k h = refl
is_sound_worker-Keeps sh after (some (f, p)) k h = is_sound-Keeps sh after p k h

abbrev pub Goes : Shared → Shared → Type 0
Goes sh after = Keeps sh after × IsSoundShared after

-- The worker of the pipeline or of the callbacks has gone on with its job.
pipeline-Goes :
    (f : ℕ) (p q : Phase) (sh between after : Shared)
    → IsSoundShared sh
    → sh.pipeline_pool.worker ≡ some (f, p)
    → advance pipeline p sh ≡ some (q, between)
    → set_worker pipeline f (some (q, between)) ≡ some after
    → Goes sh after
unfolding set_worker set_pool pool_of is_known runs_job
pipeline-Goes f p q sh between after (free, sound) w a h =
    let keeps : Keeps sh after = λ g k. ground (
      arith,
      h,
      w,
      advance-Keeps pipeline p q sh between a g k,
      advance-worker pipeline p q sh between a,
    ) in
    (
      keeps,
      (
        ground (arith, h, advance-is_free f p q sh between a),
        is_sound_worker-Keeps sh after after.callback_pool.worker keeps
            (ground (arith, h, sound, advance-worker pipeline p q sh between a)),
      ),
    )

callback-Goes :
    (f : ℕ) (p q : Phase) (sh between after : Shared)
    → IsSoundShared sh
    → advance callback p sh ≡ some (q, between)
    → set_worker callback f (some (q, between)) ≡ some after
    → Goes sh after
unfolding set_worker set_pool pool_of is_known is_sound_worker
callback-Goes f p q sh between after (free, sound) a h =
    let same : Keeps between after = λ g k. ground (arith, h, k) in
    (
      λ g k. same g (advance-Keeps callback p q sh between a g k),
      (
        ground (arith, h, free, advance-worker callback p q sh between a),
        ground (
          arith,
          h,
          is_sound-Keeps between after q same (advance-is_sound callback p q sh between a),
        ),
      ),
    )

take_job-Goes :
    (name : ThreadName) (jobs : List (ℕ × Program)) (sh after : Shared)
    → IsSoundShared sh
    → (pool_of name sh).worker ≡ none
    → (pool_of name sh).queue ≡ jobs
    → take_job name jobs sh ≡ some after
    → Goes sh after
unfolding take_job pool_of set_pool is_known queued runs_job is_free is_sound_worker is_sound
take_job-Goes name [] sh after s w q h = absurd (ground (arith, h))
take_job-Goes pipeline ((f, p) ∷ jobs) sh after (free, sound) w q h =
    let keeps : Keeps sh after = λ g k. ground (arith, h, w, q, k) in
    (
      keeps,
      (
        ground (arith, h),
        is_sound_worker-Keeps sh after after.callback_pool.worker keeps (ground (arith, h, sound)),
      ),
    )
take_job-Goes callback ((f, p) ∷ jobs) sh after (free, sound) w q h =
    (λ g k. ground (arith, h, k), (ground (arith, h, free), ground (arith, h)))
take_job-Goes other ((f, p) ∷ jobs) sh after s w q h = absurd (ground (arith, q))

ended-Goes :
    (name : ThreadName) (f : ℕ) (sh after : Shared)
    → IsSoundShared sh
    → (pool_of name sh).worker ≡ some (f, going ends)
    → work name (some (f, going ends)) sh ≡ some after
    → Goes sh after
unfolding work pool_of set_pool is_known has_ended runs_job is_free is_sound_worker
ended-Goes pipeline f sh after (free, sound) w h =
    let keeps : Keeps sh after = λ g k. ground (arith, h, w, k) in
    (
      keeps,
      (
        ground (arith, h),
        is_sound_worker-Keeps sh after after.callback_pool.worker keeps (ground (arith, h, sound)),
      ),
    )
ended-Goes callback f sh after (free, sound) w h =
    (λ g k. ground (arith, h, k), (ground (arith, h, free), ground (arith, h)))
ended-Goes other f sh after s w h = absurd (ground (arith, w))

working-Goes :
    (name : ThreadName) (f : ℕ) (p : Phase) (sh after : Shared)
    → IsSoundShared sh
    → (pool_of name sh).worker ≡ some (f, p)
    → set_worker name f (advance name p sh) ≡ some after
    → Goes sh after
unfolding pool_of set_worker
working-Goes name f p sh after s w h = elim (Option-cases (advance name p sh)) [
  | inl stuck ↦ absurd (ground (arith, h, stuck))
  | inr ((q, between), a) ↦
      elim name
          as (λ n.
            (pool_of n sh).worker ≡ some (f, p)
            → advance n p sh ≡ some (q, between)
            → set_worker n f (some (q, between)) ≡ some after
            → Goes sh after) [
              | pipeline ↦ λ w a h. pipeline-Goes f p q sh between after s w a h
              | callback ↦ λ w a h. callback-Goes f p q sh between after s a h
              | other ↦ λ w a h. absurd (ground (arith, w))
            ]
        w a (ap (set_worker name f) (sym a) ∙ h)
]

pub work-Goes :
    (name : ThreadName) (job : Option (ℕ × Phase)) (sh after : Shared)
    → IsSoundShared sh
    → (pool_of name sh).worker ≡ job
    → work name job sh ≡ some after
    → Goes sh after
unfolding work
work-Goes name none sh after s w h = take_job-Goes name (pool_of name sh).queue sh after s w refl h
work-Goes name (some (f, going ends)) sh after s w h = ended-Goes name f sh after s w h
work-Goes name (some (f, going raises)) sh after s w h =
    working-Goes name f (going raises) sh after s w h
work-Goes name (some (f, going (invokes d p q))) sh after s w h =
    working-Goes name f (going (invokes d p q)) sh after s w h
work-Goes name (some (f, waits g p)) sh after s w h = working-Goes name f (waits g p) sh after s w h
