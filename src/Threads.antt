-- ===== src/Threads.antt =====
-- common/pipeline/pipeline_thread.py and common/unhandled_exceptions.py: the decorators that choose
-- the thread of a call. A function is what it does in a thread of a name; an executor runs what it is
-- given on its own thread, as `ThreadPoolExecutor` does.
use azure_iot_sdk_python_pre.Prelude.{
  ◌≡◌, ◌≢◌, refl, String, Bool, true, false, List, [], ◌∷◌, ◌++◌, arith, str_eq, eq_iff, eq_refl,
  if◌then◌else◌,
}
use azure_iot_sdk_python_pre.Errors.{Error, other}
pub mod Awaitable
pub mod Compat
pub mod Executors
pub mod Pools
mod Tests

-- What a call returns: `None`, a value, or the future of a call that does not block.
pub data Value (A : Type 0) : Type 0 where
  no_value future : Value A
  value : A → Value A

-- How a call ends: `aborted` is a `BaseException` that is no `Exception`.
pub data Outcome (A : Type 0) : Type 0 where
  returned : Value A → Outcome A
  raised : Error → Outcome A
  aborted : Outcome A

-- What the log gets: a call of `exception_caught_in_background_thread`, or a traceback.
pub data Report : Type 0 where
  exception_caught_in_background_thread : Error → Report
  traceback : Report

abbrev pub Function : Type 0 → Type 0
Function A = String → Outcome A × List Report

module _ {A : Type 0} where
  unfoldable pub thread_proc : Bool → Outcome A × List Report → Outcome A × List Report
  thread_proc block (returned v, log) = (returned v, log)
  thread_proc block (raised e, log) =
      if block
      then (returned no_value, log)
      else (returned no_value, log ++ (exception_caught_in_background_thread e ∷ []))
  thread_proc block (aborted, log) =
      if block then (aborted, log) else (aborted, log ++ (traceback ∷ []))

  -- `_invoke_on_executor_thread`. What a call that does not block leaves in the log comes later.
  unfoldable pub invoke_on_executor_thread : String → Bool → Function A → Function A
  unfolding thread_proc
  invoke_on_executor_thread thread_name block func current =
      if str_eq current thread_name
      then func current
      else (if block
          then thread_proc block (func thread_name)
          else (returned future, (thread_proc block (func thread_name)).1))

  unfoldable pub invoke_on_pipeline_thread : Function A → Function A
  unfolding invoke_on_executor_thread
  invoke_on_pipeline_thread func = invoke_on_executor_thread "pipeline" true func

  unfoldable pub invoke_on_pipeline_thread_nowait : Function A → Function A
  unfolding invoke_on_executor_thread
  invoke_on_pipeline_thread_nowait func = invoke_on_executor_thread "pipeline" false func

  unfoldable pub invoke_on_callback_thread_nowait : Function A → Function A
  unfolding invoke_on_executor_thread
  invoke_on_callback_thread_nowait func = invoke_on_executor_thread "callback" false func

  -- `_assert_executor_thread`; its failure is an `AssertionError`.
  unfoldable pub assert_executor_thread : String → Function A → Function A
  assert_executor_thread thread_name func current =
      if str_eq current thread_name then func current else (raised other, [])

  unfoldable pub runs_on_pipeline_thread : Function A → Function A
  unfolding assert_executor_thread
  runs_on_pipeline_thread func = assert_executor_thread "pipeline" func

  -- A function that asserts its thread does the same, and never fails the assertion, when it is called
  -- through a decorator for this thread, from any thread.
  pub invoke-assert :
      (thread_name current : String) (block : Bool) (func : Function A)
      → invoke_on_executor_thread thread_name block
          (assert_executor_thread thread_name func)
          current
        ≡ invoke_on_executor_thread thread_name block func current
  unfolding invoke_on_executor_thread assert_executor_thread
  invoke-assert thread_name current block func = ground (arith, eq_refl thread_name)
