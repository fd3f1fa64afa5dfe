-- ===== src/Provisioning/Client.antt =====
-- The calls of provisioning/provisioning_device_client.py on the registration process, and the log of
-- provisioning/abstract_provisioning_device_client.py. A call that waits waits for its own event: it
-- is set when the process calls the callback of this number.
use azure_iot_sdk_python_pre.Prelude.{
  ℕ, ◌+◌, Bool, true, false, ◌||◌, ◌==◌, nat_eq, str_eq, String, Option, none, some, List, [], ◌∷◌,
  if◌then◌else◌,
}
use azure_iot_sdk_python_pre.Provisioning.Polling.Defs.{
  Trigger, QueryResult, RegistrationResult, Failure, Effect, registered, cancelled, Exception,
  Machine, Service,
}
use azure_iot_sdk_python_pre.Provisioning.Polling.Handlers.{Outcome}
use azure_iot_sdk_python_pre.Provisioning.Polling.Events.{register, cancel}
pub mod Creation
pub mod Once
pub mod Steps
pub mod Stuck
pub mod Cancelled
pub mod Answered
pub mod Asyncio
pub mod Incoming
mod Tests
mod CreationTests

pub data LogLine : Type 0 where
  successfully_registered failed_registering : LogLine
  polling_error : Failure → LogLine

-- `log_on_register_complete`
unfoldable pub log_result : Option RegistrationResult → List LogLine
log_result none = []
log_result (some r) = elim r.status [
  | none ↦ failed_registering ∷ []
  | some status ↦
      if str_eq status "assigned" then successfully_registered ∷ [] else failed_registering ∷ []
]

unfoldable pub log_on_register_complete : Option RegistrationResult → Option Failure → List LogLine
unfolding log_result
log_on_register_complete result none = log_result result
log_on_register_complete none (some e) = polling_error e ∷ []
log_on_register_complete (some r) (some e) = elim (log_result (some r)) [
  | [] ↦ polling_error e ∷ []
  | l ∷ ls ↦ l ∷ polling_error e ∷ []
]

-- How often the process called the callback of a number, of `register` and of `cancel`.
unfoldable pub registrations : ℕ → List Effect → ℕ
registrations c [] = 0
registrations c (registered d result error ∷ es) = (if c == d then 1 else 0) + registrations c es
registrations c (Effect.enable_responses ∷ es) = registrations c es
registrations c (Effect.send_request i o ∷ es) = registrations c es
registrations c (Effect.start_polling_timer n r ∷ es) = registrations c es
registrations c (Effect.disconnect e ∷ es) = registrations c es
registrations c (cancelled d ∷ es) = registrations c es

unfoldable pub cancellations : ℕ → List Effect → ℕ
cancellations c [] = 0
cancellations c (cancelled d ∷ es) = (if c == d then 1 else 0) + cancellations c es
cancellations c (registered d result error ∷ es) = cancellations c es
cancellations c (Effect.enable_responses ∷ es) = cancellations c es
cancellations c (Effect.send_request i o ∷ es) = cancellations c es
cancellations c (Effect.start_polling_timer n r ∷ es) = cancellations c es
cancellations c (Effect.disconnect e ∷ es) = cancellations c es

pub data Call : Type 0 where
  raises : Exception → Call
  waits_registered waits_cancelled : ℕ → Call

-- A call after the process has done what it has: it raises, or returns once its event is set.
pub data Status : Type 0 where
  raised : Exception → Status
  waiting returned : Status

abbrev set : ℕ → Status
set n = if n == 0 then waiting else returned

unfoldable pub status : List Effect → Call → Status
unfolding registrations cancellations
status es (raises e) = raised e
status es (waits_registered c) = set (registrations c es)
status es (waits_cancelled c) = set (cancellations c es)

abbrev pub unless_raised : Outcome → Call → Machine × Call
unless_raised (m, none) c = (m, c)
unless_raised (m, some e) c = (m, raises e)

module _ (env : Service) (fire : Trigger → QueryResult → Machine → Outcome) where
  -- `register` and `cancel`, whose events have the number `c`.
  unfoldable pub client_register : ℕ → Machine → Machine × Call
  client_register c m = unless_raised (register env fire (some c) m) (waits_registered c)

  unfoldable pub client_cancel : ℕ → Machine → Machine × Call
  client_cancel c m = unless_raised (cancel env fire (some c) m) (waits_cancelled c)
