-- ===== src/Provisioning/Client/Steps.antt =====
-- What can happen to the registration process next, with the pipeline that answers its operations:
-- `answer` is the error that an operation ends with, if any.
use azure_iot_sdk_python_pre.Prelude.{ℕ, ◌≡◌, String, Option, some}
use azure_iot_sdk_python_pre.Errors.{Error}
use azure_iot_sdk_python_pre.Provisioning.Polling.Defs.{
  Trigger, QueryResult, Effect, Timer, start_polling_timer, Machine, Service,
}
use azure_iot_sdk_python_pre.Provisioning.Polling.Handlers.{Outcome}
use azure_iot_sdk_python_pre.Provisioning.Polling.Events.{
  handle, responds, query_time_up, polling_time_up,
}
use azure_iot_sdk_python_pre.Provisioning.Pipeline.{Reaction, reaches, completion}
use azure_iot_sdk_python_pre.Provisioning.Client.{client_register, client_cancel}
use mathlib.Core.List.{Memᴰ}

module _ (env : Service) (fire : Trigger → QueryResult → Machine → Outcome)
    (answer : Effect → Option Error) where
  -- Only a callback that reaches the process changes it.
  unfoldable pub react : Reaction → Machine → Machine
  unfolding handle
  react (reaches e) m = (handle env fire e m).0
  react _ m = m

  -- Without a call of the client: an operation that was submitted ends, a message of the service
  -- arrives, or the time of a timer that runs is up.
  pub data Step (m : Machine) : Machine → Type 0 where
    ends : (o : Effect) → Memᴰ o m.effects → Step m (react (completion o (answer o)) m)
    answers :
        (request_id status_code : String) (retry_after : Option String) (body : String)
        → Step m (handle env fire (responds request_id status_code retry_after body) m).0
    query_timer_ends :
        m.query_timer ≡ some Timer.running → Step m (handle env fire query_time_up m).0
    polling_timer_ends :
        (n : ℕ) (r : QueryResult)
        → Memᴰ (start_polling_timer n r) m.effects
        → m.polling_timer ≡ some Timer.running
        → Step m (handle env fire (polling_time_up r) m).0

  pub data Steps (m : Machine) : Machine → Type 0 where
    stop : Steps m m
    more : {n k : Machine} → Steps m n → Step n k → Steps m k

  -- With calls of the client, on any thread
  pub data Move (m : Machine) : Machine → Type 0 where
    alone : {n : Machine} → Step m n → Move m n
    registers_again : (c : ℕ) → Move m (client_register env fire c m).0
    cancels_again : (c : ℕ) → Move m (client_cancel env fire c m).0

  pub data Moves (m : Machine) : Machine → Type 0 where
    stop : Moves m m
    more : {n k : Machine} → Moves m n → Move n k → Moves m k
