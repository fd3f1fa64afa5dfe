-- ===== src/Threads/Tests.antt =====
-- The theorems of the threads on concrete functions.
use azure_iot_sdk_python_pre.Prelude.{
  ℕ, ◌≤◌, ◌⊎◌, List, ◌++◌, true, String, ◌≡◌, refl, [], ◌∷◌, some, nat_eq, string_eq,
}
use azure_iot_sdk_python_pre.Prelude.Dict.{lookup, insert}
use azure_iot_sdk_python_pre.Threads.Executors.{Phase, testing, got, Table, step, run}
use azure_iot_sdk_python_pre.Threads.Pools
use azure_iot_sdk_python_pre.Threads.Pools.{
  Program, ends, raises, invokes, on_pipeline, on_callback_nowait, thread_name_of, is_blocking,
  Mover, thread, worker_of, pipeline, callback, start, System, move, work, move_thread, advance,
  invoke_on_executor, submit, take_job, set_worker, pool_of, set_pool, same,
}
use azure_iot_sdk_python_pre.Threads.Pools.Progress.{moves, weight}
use azure_iot_sdk_python_pre.Threads.Pools.Completion.{is_finished, run-finishes}
use azure_iot_sdk_python_pre.Errors.{value_error}
use azure_iot_sdk_python_pre.Threads.{
  Function, returned, raised, future, exception_caught_in_background_thread,
  invoke_on_executor_thread, invoke_on_pipeline_thread_nowait, thread_proc,
}

abbrev main : String
main = "MainThread"

abbrev failing : Function ℕ
failing current = (raised value_error, [])

nowait_reports :
    invoke_on_pipeline_thread_nowait failing main
    ≡ (returned future, exception_caught_in_background_thread value_error ∷ [])
unfolding invoke_on_pipeline_thread_nowait invoke_on_executor_thread thread_proc
nowait_reports = refl

-- Two threads that ask for the first executor of a name at the same time may get different ones.
abbrev race : Table × (ℕ → Phase)
race =
    run (0 ∷ 1 ∷ 0 ∷ 0 ∷ 0 ∷ 1 ∷ 1 ∷ 1 ∷ []) (record { executors = []; created = 0 })
      (λ j. testing "pipeline")

race-differs : (race.1 0 ≡ got "pipeline" (some 0)) × (race.1 1 ≡ got "pipeline" (some 1))
unfolding run step lookup insert
race-differs = (refl, refl)

-- A client calls into the pipeline, whose code calls back; the callback calls into the pipeline and
-- waits.
abbrev client_call : Program
client_call =
    invokes on_pipeline (invokes on_callback_nowait (invokes on_pipeline ends raises) ends) ends

abbrev some_moves : List Mover
some_moves =
    thread 0
    ∷ worker_of pipeline
    ∷ worker_of pipeline
    ∷ worker_of callback
    ∷ worker_of callback
    ∷ []

run-finishes_example :
    let s = Pools.run some_moves (start (client_call ∷ client_call ∷ [])) in
    ((rest : List Mover) × (is_finished
          (Pools.run (some_moves ++ rest) (start (client_call ∷ client_call ∷ [])))
        ≡ true))
    × ((is_finished s ≡ true) ⊎ ((m : Mover) × (t : System) × (move m s ≡ some t)))
    × (moves some_moves (start (client_call ∷ client_call ∷ []))
        ≤ weight (start (client_call ∷ client_call ∷ [])))
run-finishes_example = run-finishes (client_call ∷ client_call ∷ []) some_moves

-- The callback waits for the pipeline, and the client's call has not returned yet.
some_moves-made : moves some_moves (start (client_call ∷ [])) ≡ 5
unfolding moves move work move_thread advance invoke_on_executor submit take_job set_worker pool_of
    set_pool same
some_moves-made = refl
