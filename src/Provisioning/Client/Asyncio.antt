-- ===== src/Provisioning/Client/Asyncio.antt =====
-- provisioning/aio/async_provisioning_device_client.py with `emulate_async` of common/async_adapter.py.
-- A coroutine waits for a thread of the default executor, which runs the method of the process, and
-- then for the completion of its callback.
use azure_iot_sdk_python_pre.Prelude.{
  ℕ, ◌≤◌, ◌-◌, ◌≡◌, ◌↔◌, refl, Bool, true, false, List, [], ◌∷◌, length, Eq, nat_eq, ◌==◌, arith,
  ==_iff, if◌then◌else◌,
}
use azure_iot_sdk_python_pre.Provisioning.Polling.Defs.{
  Trigger, QueryResult, Effect, registered, cancelled, Machine, Service,
}
use azure_iot_sdk_python_pre.Provisioning.Polling.Handlers.{Outcome}
use azure_iot_sdk_python_pre.Provisioning.Client.{
  Call, raises, waits_registered, waits_cancelled, Status, raised, waiting, returned, status,
  registrations, cancellations, client_register, client_cancel,
}
use azure_iot_sdk_python_pre.Threads.Awaitable.{
  Loop, count, is_done, run_loop, History, run_loop-done,
}

-- The callbacks of the calls of `register` and of `cancel`, by number.
pub data Callback : Type 0 where
  sync_on_register_complete sync_on_cancel_complete : ℕ → Callback

abbrev same : Callback → Callback → Bool
same (sync_on_register_complete c) (sync_on_register_complete d) = c == d
same (sync_on_cancel_complete c) (sync_on_cancel_complete d) = c == d
same _ _ = false

pub same_iff : (a b : Callback) → (same a b ≡ true) ↔ (a ≡ b)
same_iff (sync_on_register_complete c) (sync_on_register_complete d) = ground (arith, ==_iff c d)
same_iff (sync_on_cancel_complete c) (sync_on_cancel_complete d) = ground (arith, ==_iff c d)
same_iff (sync_on_register_complete c) (sync_on_cancel_complete d) = ground arith
same_iff (sync_on_cancel_complete c) (sync_on_register_complete d) = ground arith

instance abbrev pub callback_eq : Eq Callback
callback_eq = record { beq = same; beq_iff = same_iff }

-- The callbacks that the process called, the last one first.
unfoldable pub called : List Effect → List Callback
called [] = []
called (registered c result error ∷ es) = sync_on_register_complete c ∷ called es
called (cancelled c ∷ es) = sync_on_cancel_complete c ∷ called es
called (Effect.enable_responses ∷ es) = called es
called (Effect.send_request i o ∷ es) = called es
called (Effect.start_polling_timer n r ∷ es) = called es
called (Effect.disconnect e ∷ es) = called es

-- Where a coroutine is: it awaits the executor, which is to run a method of the process, or it goes on
-- as that method ended.
pub data Coroutine : Type 0 where
  register_async cancel_async : ℕ → Coroutine
  called_back : Call → Coroutine

abbrev pub async_register : ℕ → Coroutine
async_register c = register_async c

abbrev pub async_cancel : ℕ → Coroutine
async_cancel c = cancel_async c

abbrev completed : Callback → Loop Callback → Status
completed c l = if is_done c l.done then returned else waiting

-- `await callback.completion()`, after `await register_async(...)`, which raises what the method does
unfoldable pub completion : Loop Callback → Coroutine → Status
unfolding is_done
completion l (called_back (raises e)) = raised e
completion l (called_back (waits_registered c)) = completed (sync_on_register_complete c) l
completion l (called_back (waits_cancelled c)) = completed (sync_on_cancel_complete c) l
completion l _ = waiting

registrations-called :
    (c : ℕ) (es : List Effect)
    → registrations c es ≡ count (sync_on_register_complete c) (called es)
unfolding registrations called
registrations-called c [] = refl
registrations-called c (registered d result error ∷ es) =
    ground (arith, ==_iff c d, ==_iff d c, registrations-called c es)
registrations-called c (cancelled d ∷ es) = ground (arith, registrations-called c es)
registrations-called c (Effect.enable_responses ∷ es) = registrations-called c es
registrations-called c (Effect.send_request i o ∷ es) = registrations-called c es
registrations-called c (Effect.start_polling_timer n r ∷ es) = registrations-called c es
registrations-called c (Effect.disconnect e ∷ es) = registrations-called c es

cancellations-called :
    (c : ℕ) (es : List Effect) → cancellations c es ≡ count (sync_on_cancel_complete c) (called es)
unfolding cancellations called
cancellations-called c [] = refl
cancellations-called c (cancelled d ∷ es) =
    ground (arith, ==_iff c d, ==_iff d c, cancellations-called c es)
cancellations-called c (registered d result error ∷ es) = ground (arith, cancellations-called c es)
cancellations-called c (Effect.enable_responses ∷ es) = cancellations-called c es
cancellations-called c (Effect.send_request i o ∷ es) = cancellations-called c es
cancellations-called c (Effect.start_polling_timer n r ∷ es) = cancellations-called c es
cancellations-called c (Effect.disconnect e ∷ es) = cancellations-called c es

module _ (env : Service) (fire : Trigger → QueryResult → Machine → Outcome) where
  -- A thread of the executor runs the method.
  unfoldable pub run_in_executor : Coroutine → Machine → Machine × Coroutine
  unfolding client_register client_cancel
  run_in_executor (register_async c) m =
      let (n, call) = client_register env fire c m in (n, called_back call)
  run_in_executor (cancel_async c) m =
      let (n, call) = client_cancel env fire c m in (n, called_back call)
  run_in_executor (called_back call) m = (m, called_back call)

  completion-status :
      (es : List Effect) {l : Loop Callback}
      → History (called es) l
      → (n : ℕ) → length l.scheduled ≤ n
      → (call : Call) → completion (run_loop n l) (called_back call) ≡ status es call
  unfolding completion status
  completion-status es h n enough (raises e) = refl
  completion-status es h n enough (waits_registered c) =
      let (done, _) = run_loop-done h n enough (sync_on_register_complete c) in
      ground (arith, done, registrations-called c es)
  completion-status es h n enough (waits_cancelled c) =
      let (done, _) = run_loop-done h n enough (sync_on_cancel_complete c) in
      ground (arith, done, cancellations-called c es)

  -- The process calls callbacks, and the event loop runs, in any order, until it has made the calls
  -- that were scheduled. Then a coroutine of the client that was run by the executor has raised,
  -- still waits or returns as the call of the synchronous client does, and leaves the same machine;
  -- and each time that the process called a callback of `register` or `cancel` again, the event loop
  -- met an `InvalidStateError`.
  pub run_in_executor-client_register :
      (es : List Effect) {l : Loop Callback}
      → History (called es) l
      → (n : ℕ) → length l.scheduled ≤ n
      → (c : ℕ) (m : Machine)
      → let (registered_machine, registers) = run_in_executor (async_register c) m in
        let (cancelled_machine, cancels) = run_in_executor (async_cancel c) m in
        let after = run_loop n l in
        (registered_machine ≡ (client_register env fire c m).0)
        × (completion after registers ≡ status es (client_register env fire c m).1)
        × (cancelled_machine ≡ (client_cancel env fire c m).0)
        × (completion after cancels ≡ status es (client_cancel env fire c m).1)
        × (count (sync_on_register_complete c) after.errors ≡ registrations c es - 1)
        × (count (sync_on_cancel_complete c) after.errors ≡ cancellations c es - 1)
  unfolding run_in_executor
  run_in_executor-client_register es h n enough c m =
      let (_, registered_errors) = run_loop-done h n enough (sync_on_register_complete c) in
      let (_, cancelled_errors) = run_loop-done h n enough (sync_on_cancel_complete c) in
      (
        refl,
        completion-status es h n enough (client_register env fire c m).1,
        refl,
        completion-status es h n enough (client_cancel env fire c m).1,
        ground (arith, registered_errors, registrations-called c es),
        ground (arith, cancelled_errors, cancellations-called c es),
      )
