-- ===== src/Threads/Pools/Waits.antt =====
-- What threads wait for: only for jobs of the pipeline's executor, which its worker has yet to end.
use azure_iot_sdk_python_pre.Prelude.{
  ℕ, ◌≡◌, refl, Bool, true, false, ◌&&◌, ◌||◌, ◌==◌, Option, none, some, List, [], ◌∷◌, ◌++◌, arith,
  ==_iff,
}
use azure_iot_sdk_python_pre.Threads.Pools.{
  ThreadName, pipeline, callback, other, same, Program, ends, raises, invokes, on_pipeline,
  on_pipeline_nowait, on_callback_nowait, thread_name_of, is_blocking, Phase, going, waits, Shared,
  has_ended, submit, invoke_on_executor, advance,
}

unfoldable pub queued : ℕ → List (ℕ × Program) → Bool
queued f [] = false
queued f ((g, p) ∷ jobs) = (f == g) || queued f jobs

unfoldable pub runs_job : ℕ → Option (ℕ × Phase) → Bool
runs_job f none = false
runs_job f (some (g, p)) = f == g

-- A job of the pipeline's executor: it waits, runs or has ended.
unfoldable pub is_known : ℕ → Shared → Bool
unfolding has_ended queued runs_job
is_known f sh =
    has_ended f sh.done || queued f sh.pipeline_pool.queue || runs_job f sh.pipeline_pool.worker

unfoldable pub is_sound : Shared → Phase → Bool
unfolding is_known
is_sound sh (going p) = true
is_sound sh (waits f p) = is_known f sh

unfoldable pub all_sound : Shared → List Phase → Bool
unfolding is_sound
all_sound sh [] = true
all_sound sh (p ∷ ps) = is_sound sh p && all_sound sh ps

unfoldable pub is_free : Option (ℕ × Phase) → Bool
is_free none = true
is_free (some (f, going p)) = true
is_free (some (f, waits g p)) = false

unfoldable pub is_sound_worker : Shared → Option (ℕ × Phase) → Bool
unfolding is_sound
is_sound_worker sh none = true
is_sound_worker sh (some (f, p)) = is_sound sh p

-- No job is lost.
abbrev pub Keeps : Shared → Shared → Type 0
Keeps sh after = (f : ℕ) → is_known f sh ≡ true → is_known f after ≡ true

queued-append :
    (f : ℕ) (jobs more : List (ℕ × Program))
    → queued f (jobs ++ more) ≡ (queued f jobs || queued f more)
unfolding queued
queued-append f [] more = refl
queued-append f ((g, p) ∷ jobs) more = ground (arith, queued-append f jobs more)

pub is_sound-Keeps :
    (sh after : Shared) (p : Phase)
    → Keeps sh after
    → is_sound sh p ≡ true
    → is_sound after p ≡ true
unfolding is_sound
is_sound-Keeps sh after (going p) k h = refl
is_sound-Keeps sh after (waits f p) k h = k f h

pub all_sound-Keeps :
    (sh after : Shared) (ps : List Phase)
    → Keeps sh after
    → all_sound sh ps ≡ true
    → all_sound after ps ≡ true
unfolding all_sound
all_sound-Keeps sh after [] k h = refl
all_sound-Keeps sh after (p ∷ ps) k h =
    ground (arith, h, is_sound-Keeps sh after p k, all_sound-Keeps sh after ps k)

submit-Keeps : (name : ThreadName) (p : Program) (sh : Shared) → Keeps sh (submit name p sh)
unfolding submit is_known
submit-Keeps pipeline p sh f h =
    ground (arith, h, queued-append f sh.pipeline_pool.queue ((sh.created, p) ∷ []))
submit-Keeps callback p sh f h = h
submit-Keeps other p sh f h = h

submit-is_known : (p : Program) (sh : Shared) → is_known sh.created (submit pipeline p sh) ≡ true
unfolding submit is_known queued
submit-is_known p sh = ground (
  arith,
  queued-append sh.created sh.pipeline_pool.queue ((sh.created, p) ∷ []),
  ==_iff sh.created sh.created,
)

invoke-Keeps :
    (current name : ThreadName) (block : Bool) (p q : Program) (sh : Shared)
    → Keeps sh (invoke_on_executor current name block p q sh).1
unfolding invoke_on_executor
invoke-Keeps current name block p q sh f h = ground (arith, h, submit-Keeps name p sh f h)

pub advance-Keeps :
    (current : ThreadName) (p q : Phase) (sh after : Shared)
    → advance current p sh ≡ some (q, after)
    → Keeps sh after
unfolding advance
advance-Keeps current (waits g rest) q sh after h f k = ground (arith, h, k)
advance-Keeps current (going ends) q sh after h f k = ground (arith, h)
advance-Keeps current (going raises) q sh after h f k = ground (arith, h, k)
advance-Keeps current (going (invokes d body rest)) q sh after h f k =
    ground (arith, h, invoke-Keeps current (thread_name_of d) (is_blocking d) body rest sh f k)

-- A thread that waits after its step waits for the job that it has submitted, and the pipeline's
-- thread never waits.
pub advance-is_sound :
    (current : ThreadName) (p q : Phase) (sh after : Shared)
    → advance current p sh ≡ some (q, after)
    → is_sound after q ≡ true
unfolding advance is_sound invoke_on_executor thread_name_of is_blocking
advance-is_sound current (waits g rest) q sh after h = ground (arith, h)
advance-is_sound current (going ends) q sh after h = ground (arith, h)
advance-is_sound current (going raises) q sh after h = ground (arith, h)
advance-is_sound current (going (invokes on_pipeline body rest)) q sh after h =
    ground (arith, h, submit-is_known body sh)
advance-is_sound current (going (invokes on_pipeline_nowait body rest)) q sh after h =
    ground (arith, h)
advance-is_sound current (going (invokes on_callback_nowait body rest)) q sh after h =
    ground (arith, h)

pub advance-is_free :
    (f : ℕ) (p q : Phase) (sh after : Shared)
    → advance pipeline p sh ≡ some (q, after)
    → is_free (some (f, q)) ≡ true
unfolding advance is_free invoke_on_executor same thread_name_of is_blocking
advance-is_free f (waits g rest) q sh after h = ground (arith, h)
advance-is_free f (going ends) q sh after h = ground (arith, h)
advance-is_free f (going raises) q sh after h = ground (arith, h)
advance-is_free f (going (invokes on_pipeline body rest)) q sh after h = ground (arith, h)
advance-is_free f (going (invokes on_pipeline_nowait body rest)) q sh after h = ground (arith, h)
advance-is_free f (going (invokes on_callback_nowait body rest)) q sh after h = ground (arith, h)
