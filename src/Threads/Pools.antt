-- ===== src/Threads/Pools.antt =====
-- The two executors of common/pipeline/pipeline_thread.py with their queues, and the threads that call
-- into them through the decorators. An executor has one worker, which takes what was submitted in
-- that order, as `ThreadPoolExecutor(max_workers=1)` does. A future is its number; an exception that
-- is no `Exception` is left out, and the table has both executors.
use azure_iot_sdk_python_pre.Prelude.{
  ℕ, zero, suc, ◌+◌, Bool, true, false, ◌||◌, ◌==◌, Option, none, some, List, [], ◌∷◌, ◌++◌, map,
  if◌then◌else◌,
}
pub mod Progress
pub mod Waits
pub mod Goes
pub mod Sound
pub mod Completion

-- `threading.current_thread().name`; `other` is every thread that is none of the two workers.
pub data ThreadName : Type 0 where
  pipeline callback other : ThreadName

unfoldable pub same : ThreadName → ThreadName → Bool
same pipeline pipeline = true
same callback callback = true
same other other = true
same _ _ = false

-- `invoke_on_pipeline_thread`, `invoke_on_pipeline_thread_nowait`, `invoke_on_callback_thread_nowait`
pub data Decorator : Type 0 where
  on_pipeline on_pipeline_nowait on_callback_nowait : Decorator

unfoldable pub thread_name_of : Decorator → ThreadName
thread_name_of on_pipeline = pipeline
thread_name_of on_pipeline_nowait = pipeline
thread_name_of on_callback_nowait = callback

unfoldable pub is_blocking : Decorator → Bool
is_blocking on_pipeline = true
is_blocking on_pipeline_nowait = false
is_blocking on_callback_nowait = false

-- What a function does, as far as the decorators see it: it ends, raises an exception, or calls a
-- decorated function, whose own body is the first argument, and goes on.
pub data Program : Type 0 where
  ends raises : Program
  invokes : Decorator → Program → Program → Program

-- A call in the same thread; an exception leaves the caller too.
unfoldable pub then_run : Program → Program → Program
then_run ends q = q
then_run raises q = raises
then_run (invokes d p r) q = invokes d p (then_run r q)

-- A thread runs, or waits in `future.result()`.
pub data Phase : Type 0 where
  going : Program → Phase
  waits : ℕ → Program → Phase

-- An executor: what is submitted, and what its worker runs, each with its future.
pub record Pool : Type 0 where
  pub queue : List (ℕ × Program)
  pub worker : Option (ℕ × Phase)

pub record Shared : Type 0 where
  pub pipeline_pool : Pool
  pub callback_pool : Pool
  pub created : ℕ
  pub done : List ℕ

unfoldable pub has_ended : ℕ → List ℕ → Bool
has_ended f [] = false
has_ended f (g ∷ gs) = (f == g) || has_ended f gs

abbrev pub append_job : ℕ → Program → Pool → Pool
append_job f p pool = record pool { queue = pool.queue ++ (f, p) ∷ [] }

-- `_get_named_executor(thread_name).submit(thread_proc)`
unfoldable pub submit : ThreadName → Program → Shared → Shared
submit pipeline p sh = record sh {
  pipeline_pool = append_job sh.created p sh.pipeline_pool;
  created = suc sh.created;
}
submit callback p sh = record sh {
  callback_pool = append_job sh.created p sh.callback_pool;
  created = suc sh.created;
}
submit other p sh = sh

-- `_invoke_on_executor_thread`: the wrapper, called in a thread of a name, with the rest of its caller.
unfoldable pub invoke_on_executor :
    ThreadName → ThreadName → Bool → Program → Program → Shared → Phase × Shared
unfolding then_run submit same
invoke_on_executor current thread_name block body rest sh =
    if same current thread_name
    then (going (then_run body rest), sh)
    else (if block then waits sh.created rest else going rest, submit thread_name body sh)

-- The next step of a thread of a name; `none` is a thread that has ended or waits.
unfoldable pub advance : ThreadName → Phase → Shared → Option (Phase × Shared)
unfolding invoke_on_executor has_ended thread_name_of is_blocking
advance current (waits f rest) sh = if has_ended f sh.done then some (going rest, sh) else none
advance current (going ends) sh = none
advance current (going raises) sh = some (going ends, sh)
advance current (going (invokes d body rest)) sh =
    some (invoke_on_executor current (thread_name_of d) (is_blocking d) body rest sh)

unfoldable pub pool_of : ThreadName → Shared → Pool
pool_of pipeline sh = sh.pipeline_pool
pool_of callback sh = sh.callback_pool
pool_of other sh = record { queue = []; worker = none }

unfoldable pub set_pool : ThreadName → Pool → Shared → Shared
set_pool pipeline pool sh = record sh { pipeline_pool = pool }
set_pool callback pool sh = record sh { callback_pool = pool }
set_pool other pool sh = sh

unfoldable pub set_worker : ThreadName → ℕ → Option (Phase × Shared) → Option Shared
unfolding pool_of set_pool
set_worker name f none = none
set_worker name f (some (p, sh)) =
    some (set_pool name (record (pool_of name sh) { worker = some (f, p) }) sh)

-- The next step of a worker without a job, which takes the next one.
unfoldable pub take_job : ThreadName → List (ℕ × Program) → Shared → Option Shared
unfolding set_pool
take_job name [] sh = none
take_job name ((f, p) ∷ jobs) sh =
    some (set_pool name (record { queue = jobs; worker = some (f, going p) }) sh)

-- The next step of a worker: the future of a job that has ended is done.
unfoldable pub work : ThreadName → Option (ℕ × Phase) → Shared → Option Shared
unfolding take_job set_worker advance pool_of set_pool
work name none sh = take_job name (pool_of name sh).queue sh
work name (some (f, going ends)) sh =
    some (record (set_pool name (record (pool_of name sh) { worker = none }) sh) {
      done = f ∷ sh.done;
    })
work name (some (f, p)) sh = set_worker name f (advance name p sh)

-- The executors, and the threads that call into them.
pub record System : Type 0 where
  pub shared : Shared
  pub threads : List Phase

abbrev pub start : List Program → System
start programs = record {
  shared = record {
    pipeline_pool = record { queue = []; worker = none };
    callback_pool = record { queue = []; worker = none };
    created = 0;
    done = [];
  };
  threads = map going programs;
}

-- Who takes the next step: a worker, or a thread by its number.
pub data Mover : Type 0 where
  worker_of : ThreadName → Mover
  thread : ℕ → Mover

unfoldable pub move_thread : ℕ → List Phase → Shared → Option (List Phase × Shared)
unfolding advance
move_thread i [] sh = none
move_thread zero (p ∷ ps) sh = elim (advance other p sh) [
  | none ↦ none
  | some (q, sh') ↦ some (q ∷ ps, sh')
]
move_thread (suc i) (p ∷ ps) sh = elim (move_thread i ps sh) [
  | none ↦ none
  | some (qs, sh') ↦ some (p ∷ qs, sh')
]

unfoldable pub move : Mover → System → Option System
unfolding work move_thread pool_of
move (worker_of name) s = elim (work name (pool_of name s.shared).worker s.shared) [
  | none ↦ none
  | some sh ↦ some (record s { shared = sh })
]
move (thread i) s = elim (move_thread i s.threads s.shared) [
  | none ↦ none
  | some (ps, sh) ↦ some (record { shared = sh; threads = ps })
]

-- A history: in which order they are to move; who cannot does not.
unfoldable pub run : List Mover → System → System
unfolding move
run [] s = s
run (m ∷ ms) s = elim (move m s) [ none ↦ run ms s | some t ↦ run ms t ]
