-- ===== src/Threads/Pools/Completion.antt =====
-- No history of the threads ends in a deadlock.
use azure_iot_sdk_python_pre.Prelude.{
  ℕ, zero, suc, ◌≡◌, ◌⊎◌, ◌≤◌, ◌<◌, refl, ◌∙◌, sym, ap, Bool, true, false, ◌&&◌, Option, none, some,
  List, [], ◌∷◌, ◌++◌, arith, Option-cases, inl, inr,
}
use azure_iot_sdk_python_pre.Threads.Pools.{
  ThreadName, pipeline, callback, other, Program, ends, raises, invokes, Phase, going, waits,
  Shared, has_ended, advance, pool_of, set_worker, take_job, work, System, start, Mover, worker_of,
  thread, move_thread, move, run,
}
use azure_iot_sdk_python_pre.Threads.Pools.Progress.{weight, moves, move-weight, moves-bound}
use azure_iot_sdk_python_pre.Threads.Pools.Waits.{
  queued, runs_job, is_known, is_sound, all_sound, is_free, is_sound_worker,
}
use azure_iot_sdk_python_pre.Threads.Pools.Sound.{IsSound, move-IsSound, start-IsSound, run-IsSound}

unfoldable pub is_empty : List (ℕ × Program) → Bool
is_empty [] = true
is_empty (j ∷ jobs) = false

unfoldable pub is_idle : Option (ℕ × Phase) → Bool
is_idle none = true
is_idle (some j) = false

unfoldable pub all_ended : List Phase → Bool
all_ended [] = true
all_ended (going ends ∷ ps) = all_ended ps
all_ended (p ∷ ps) = false

-- Every thread has returned from its calls, and everything that was submitted has run.
unfoldable pub is_finished : System → Bool
unfolding is_empty is_idle all_ended
is_finished s =
    is_idle s.shared.pipeline_pool.worker
    && is_empty s.shared.pipeline_pool.queue
    && is_idle s.shared.callback_pool.worker
    && is_empty s.shared.callback_pool.queue
    && all_ended s.threads

-- A step that can be made.
abbrev Next : {A : Type 0} → Option A → Type 0
Next {A} o = (x : A) × (o ≡ some x)

runs-Next :
    (current : ThreadName) (p : Program) (sh : Shared)
    → (p ≡ ends) ⊎ Next (advance current (going p) sh)
unfolding advance
runs-Next current ends sh = inl refl
runs-Next current raises sh = inr (_, refl)
runs-Next current (invokes d p q) sh = inr (_, refl)

-- What a thread waits for has ended.
unfoldable is_ready : List ℕ → Phase → Bool
is_ready done (going p) = true
is_ready done (waits f p) = has_ended f done

advance-Next :
    (current : ThreadName) (p : Phase) (sh : Shared)
    → is_ready sh.done p ≡ true
    → (p ≡ going ends) ⊎ Next (advance current p sh)
unfolding advance is_ready
advance-Next current (waits f p) sh h = inr ((going p, sh), ground (arith, h))
advance-Next current (going p) sh h = elim (runs-Next current p sh) [
  | inl same ↦ inl (ap going same)
  | inr next ↦ inr next
]

works-Next :
    (name : ThreadName) (f : ℕ) (p : Phase) (sh : Shared)
    → is_ready sh.done p ≡ true
    → Next (work name (some (f, p)) sh)
unfolding work advance set_worker is_ready
works-Next name f (going ends) sh h = (_, refl)
works-Next name f (going raises) sh h = (_, refl)
works-Next name f (going (invokes d p q)) sh h = (_, refl)
works-Next name f (waits g p) sh h = rw h (_, refl)

take_job-Next :
    (name : ThreadName) (jobs : List (ℕ × Program)) (sh : Shared)
    → (jobs ≡ []) ⊎ Next (take_job name jobs sh)
unfolding take_job
take_job-Next name [] sh = inl refl
take_job-Next name ((f, p) ∷ jobs) sh = inr (_, refl)

pool-Next :
    (name : ThreadName) (job : Option (ℕ × Phase)) (sh : Shared)
    → ((f : ℕ) (p : Phase) → job ≡ some (f, p) → is_ready sh.done p ≡ true)
    → ((job ≡ none) × ((pool_of name sh).queue ≡ [])) ⊎ Next (work name job sh)
unfolding work
pool-Next name (some (f, p)) sh h = inr (works-Next name f p sh (h f p refl))
pool-Next name none sh h = elim (take_job-Next name (pool_of name sh).queue sh) [
  | inl empty ↦ inl (refl, empty)
  | inr next ↦ inr next
]

-- When the pipeline's executor is idle, nobody waits.
idle_ready :
    (sh : Shared) (p : Phase)
    → sh.pipeline_pool.worker ≡ none
    → sh.pipeline_pool.queue ≡ []
    → is_sound sh p ≡ true
    → is_ready sh.done p ≡ true
unfolding is_sound is_known is_ready queued runs_job
idle_ready sh (going p) w q h = refl
idle_ready sh (waits f p) w q h = ground (arith, w, q, h)

threads-Next :
    (ps : List Phase) (sh : Shared)
    → sh.pipeline_pool.worker ≡ none
    → sh.pipeline_pool.queue ≡ []
    → all_sound sh ps ≡ true
    → (all_ended ps ≡ true) ⊎ ((i : ℕ) × Next (move_thread i ps sh))
unfolding all_sound all_ended move_thread
threads-Next [] sh w q h = inl refl
threads-Next (p ∷ ps) sh w q h =
    elim (advance-Next other p sh (idle_ready sh p w q (ground (arith, h)))) [
      | inr ((phase, after), next) ↦ inr (0, ((phase ∷ ps, after), ground (arith, next)))
      | inl ended ↦ elim (threads-Next ps sh w q (ground (arith, h))) [
        | inl rest ↦ inl (rw ended rest)
        | inr (i, ((rs, after), next)) ↦ inr (suc i, ((p ∷ rs, after), ground (arith, next)))
      ]
    ]

is_free-is_ready :
    (sh : Shared) (f : ℕ) (p : Phase) → is_free (some (f, p)) ≡ true → is_ready sh.done p ≡ true
unfolding is_free is_ready
is_free-is_ready sh f (going p) h = refl
is_free-is_ready sh f (waits g p) h = absurd (cc)

abbrev Moves : System → Type 0
Moves s = (m : Mover) × Next (move m s)

worker-Moves :
    (name : ThreadName) (s : System)
    → Next (work name (pool_of name s.shared).worker s.shared)
    → Moves s
unfolding move
worker-Moves name s (sh, next) = (worker_of name, (record s { shared = sh }, rw (next, move) refl))

thread-Moves : (i : ℕ) (s : System) → Next (move_thread i s.threads s.shared) → Moves s
unfolding move
thread-Moves i s ((ps, sh), next) =
    (thread i, (record { shared = sh; threads = ps }, rw (next, move) refl))

-- While anything is left to do, somebody can move.
pub system-Moves : (s : System) → IsSound s → (is_finished s ≡ true) ⊎ Moves s
unfolding is_finished is_idle is_empty pool_of is_sound_worker
system-Moves s ((free, sound), all) =
    let sh = s.shared in
    elim (pool-Next pipeline sh.pipeline_pool.worker sh
      (λ f p e. is_free-is_ready sh f p (ap is_free (sym e) ∙ free))) [
        | inr next ↦ inr (worker-Moves pipeline s next)
        | inl (w, q) ↦
            elim (pool-Next callback sh.callback_pool.worker sh
              (λ f p e. idle_ready sh p w q (ap (is_sound_worker sh) (sym e) ∙ sound))) [
                | inr next ↦ inr (worker-Moves callback s next)
                | inl (v, r) ↦ elim (threads-Next s.threads sh w q all) [
                  | inl ended ↦ inl (ground (arith, w, q, v, r, ended))
                  | inr (i, next) ↦ inr (thread-Moves i s next)
                ]
              ]
      ]

finishes :
    (n : ℕ) (s : System)
    → weight s < n
    → IsSound s
    → (rest : List Mover) × (is_finished (run rest s) ≡ true)
unfolding run
finishes zero s h sound = absurd (omega (arith, h))
finishes (suc n) s h sound = elim (system-Moves s sound) [
  | inl done ↦ ([], done)
  | inr (m, (t, made)) ↦
      let lighter = move-weight m s t made in
      let (rest, done) = finishes n t (omega (arith, h, lighter)) (move-IsSound m s t made sound) in
      (m ∷ rest, rw (made, run) done)
]

run-append : (ms ns : List Mover) (s : System) → run (ms ++ ns) s ≡ run ns (run ms s)
unfolding run
run-append [] ns s = refl
run-append (m ∷ ms) ns s = elim (Option-cases (move m s)) [
  | inl stuck ↦ rw (stuck, run) (run-append ms ns s)
  | inr (t, made) ↦ rw (made, run) (run-append ms ns t)
]

-- Threads call decorated functions, whose bodies and those that they call in turn may do the same and
-- raise exceptions, and the threads and the two workers move in any order. There is no deadlock: from
-- each state that comes up they can go on to one in which every thread has returned from its calls,
-- and everything that was submitted has run; as long as it is not there, somebody can move; and the
-- steps that are made are at most as many as the weight of the programs, which counts four for each
-- call and one for each exception.
pub run-finishes :
    (programs : List Program) (schedule : List Mover)
    → let s = run schedule (start programs) in
      ((rest : List Mover) × (is_finished (run (schedule ++ rest) (start programs)) ≡ true))
      × ((is_finished s ≡ true) ⊎ ((m : Mover) × (t : System) × (move m s ≡ some t)))
      × (moves schedule (start programs) ≤ weight (start programs))
run-finishes programs schedule =
    let s = run schedule (start programs) in
    let sound = run-IsSound schedule (start programs) (start-IsSound programs) in
    let (rest, done) = finishes (suc (weight s)) s (omega arith) sound in
    (
      (rest, ap is_finished (run-append schedule rest (start programs)) ∙ done),
      elim (system-Moves s sound) [ inl over ↦ inl over | inr (m, (t, made)) ↦ inr (m, t, made) ],
      omega (arith, moves-bound schedule (start programs)),
    )
