-- ===== src/Threads/Compat.antt =====
-- common/asyncio_compat.py: functions of asyncio, by what its version has. A field that is `none` is an
-- attribute that this version lacks, where reading it raises AttributeError.
use azure_iot_sdk_python_pre.Prelude.{◌≡◌, Option, none, some, refl}

-- What the functions use of asyncio: `old_get_running_loop` is `_get_running_loop`, and a running loop
-- that is `none` is `None` there, and a RuntimeError in `get_running_loop`.
pub record Asyncio (EventLoop Coroutine Task Future : Type 0) : Type 0 where
  pub running : Option (Option EventLoop)
  pub old_get_running_loop : Option EventLoop
  pub new_task : Option (Coroutine → Task)
  pub ensure_future : Coroutine → Task
  pub new_future : EventLoop → Option Future
  pub future_of : EventLoop → Future

module _ {EventLoop Coroutine Task Future : Type 0}
    (asyncio : Asyncio EventLoop Coroutine Task Future) where
  -- `none` is a RuntimeError.
  unfoldable pub get_running_loop : Option EventLoop
  get_running_loop = elim asyncio.running [ some loop ↦ loop | none ↦ asyncio.old_get_running_loop ]

  unfoldable pub create_task : Coroutine → Task
  create_task coro = elim asyncio.new_task [
    | some new ↦ new coro
    | none ↦ asyncio.ensure_future coro
  ]

  unfoldable pub create_future : EventLoop → Future
  create_future loop = elim (asyncio.new_future loop) [
    | some future ↦ future
    | none ↦ asyncio.future_of loop
  ]

  -- Where both are there, the newer function finds the loop that the older one does. Then the
  -- version makes no difference.
  get_running_loop-old :
      ((loop : Option EventLoop)
        → asyncio.running ≡ some loop
        → loop ≡ asyncio.old_get_running_loop)
      → get_running_loop ≡ asyncio.old_get_running_loop
  unfolding get_running_loop
  get_running_loop-old agree =
      elim asyncio.running
          as (λ (r : Option (Option EventLoop)).
            ((loop : Option EventLoop) → r ≡ some loop → loop ≡ asyncio.old_get_running_loop)
            → elim r [ some loop ↦ loop | none ↦ asyncio.old_get_running_loop ]
              ≡ asyncio.old_get_running_loop) [
                | none ↦ λ agree. refl
                | some loop ↦ λ agree. agree loop refl
              ]
        agree
