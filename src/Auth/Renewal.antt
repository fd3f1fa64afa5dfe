-- ===== src/Auth/Renewal.antt =====
-- `BaseRenewableTokenAuthenticationProvider`
-- (iothub/auth/base_renewable_token_authentication_provider.py) with the timers that it starts.
-- Time is in milliseconds.
use azure_iot_sdk_python_pre.Prelude.{
  ℕ, zero, suc, ◌+◌, ◌-◌, ◌*◌, Bool, true, false, Option, none, some, List, [], ◌∷◌, ◌==◌, leb,
  if◌then◌else◌,
}
use Prim.Native.Nat.{◌/◌}
use azure_iot_sdk_python_pre.Text.{Text}
use azure_iot_sdk_python_pre.Auth.Token.{given, resource_uri, token_text}
pub mod Schedule
pub mod Signers

-- A `Timer` that was started, by a number for the object, with the moment when its time is up.
pub record Alarm : Type 0 where
  pub timer : ℕ
  pub due : ℕ

pub record Provider : Type 0 where
  pub hostname : Text
  pub device_id : Text
  pub module_id : Option Text
  pub shared_access_key_name : Option Text
  pub token_validity_period : ℕ
  pub token_renewal_margin : ℕ
  pub token_update_timer : Option ℕ
  pub sas_token_str : Option Text
  -- whether `token_update_callback` is set, and how often it was called
  pub token_update_callback : Bool
  pub notified : ℕ
  -- the timers whose time is not up and that were not cancelled, and the number of the next one
  pub alarms : List Alarm
  pub next_timer : ℕ

-- `_sign` of the derived class, `none` if it raises, and `quote_plus` of urllib.
pub record Signing : Type 0 where
  pub sign : Text → ℕ → Option Text
  pub quote_plus : Text → Text

unfoldable pub without : ℕ → List Alarm → List Alarm
without t [] = []
without t (a ∷ more) = let rest = without t more in if a.timer == t then rest else a ∷ rest

-- `_cancel_token_update_timer`
unfoldable pub cancel_token_update_timer : Provider → Provider
unfolding without
cancel_token_update_timer p = elim p.token_update_timer [
  | none ↦ record p { token_update_timer = none }
  | some t ↦ record p { token_update_timer = none; alarms = without t p.alarms }
]

-- `_schedule_token_update`, at a moment. A time that would be negative is up at once.
unfoldable pub schedule_token_update : ℕ → ℕ → Provider → Provider
unfolding cancel_token_update_timer
schedule_token_update now seconds p =
    let c = cancel_token_update_timer p in
    record c {
      token_update_timer = some c.next_timer;
      next_timer = suc c.next_timer;
      alarms = record { timer = c.next_timer; due = now + seconds * 1000 } ∷ c.alarms;
    }

-- `_notify_token_updated`
unfoldable pub notify_token_updated : Provider → Provider
notify_token_updated p =
    if p.token_update_callback then record p { notified = suc p.notified } else p

unfoldable pub disconnect : Provider → Provider
unfolding cancel_token_update_timer
disconnect p = cancel_token_update_timer p

unfoldable pub is_due : ℕ → ℕ → List Alarm → Bool
is_due t now [] = false
is_due t now (a ∷ more) =
    let rest = is_due t now more in if a.timer == t then leb a.due now else rest

-- The moment of expiry, in seconds.
unfoldable pub expiry_at : ℕ → Provider → ℕ
expiry_at now p = now / 1000 + p.token_validity_period

module _ (env : Signing) where
  -- The token that the provider builds at a moment.
  unfoldable pub token_at : ℕ → Provider → Option Text
  unfolding resource_uri token_text expiry_at
  token_at now p =
      let uri = env.quote_plus (resource_uri p.hostname p.device_id p.module_id) in
      elim (env.sign uri (expiry_at now p)) [
        | none ↦ none
        | some signature ↦
            some (token_text uri signature (expiry_at now p) p.shared_access_key_name)
      ]

  -- `generate_new_sas_token`, at a moment, when `_sign` returns so many milliseconds later; a failure
  -- to sign raises before anything changes
  unfoldable pub generate_new_sas_token : ℕ → ℕ → Provider → Provider
  unfolding token_at schedule_token_update notify_token_updated
  generate_new_sas_token now delay p = elim (token_at now p) [
    | none ↦ p
    | some token ↦ notify_token_updated (
        schedule_token_update (now + delay) (p.token_validity_period - p.token_renewal_margin)
          (record p { sas_token_str = some token }))
  ]

  -- `get_current_sas_token`, the provider afterwards
  unfoldable pub get_current_sas_token : ℕ → ℕ → Provider → Provider
  unfolding given generate_new_sas_token
  get_current_sas_token now delay p = elim (given p.sas_token_str) [
    | none ↦ generate_new_sas_token now delay p
    | some _ ↦ p
  ]

  -- `timerfunc`, when the time of a timer is up
  unfoldable pub time_up : ℕ → ℕ → ℕ → Provider → Provider
  unfolding is_due without generate_new_sas_token
  time_up t now delay p =
      if is_due t now p.alarms
      then generate_new_sas_token now delay (record p { alarms = without t p.alarms })
      else p

-- What reaches a provider: a call or a timer, with the moment and the time that `_sign` takes then.
pub data Event : Type 0 where
  generates gets : ℕ → ℕ → Event
  disconnects : Event
  rings : ℕ → ℕ → ℕ → Event

unfoldable pub handle : Signing → Event → Provider → Provider
unfolding generate_new_sas_token get_current_sas_token disconnect time_up
handle env (generates now delay) p = generate_new_sas_token env now delay p
handle env (gets now delay) p = get_current_sas_token env now delay p
handle env disconnects p = disconnect p
handle env (rings t now delay) p = time_up env t now delay p

unfoldable pub handle_all : Signing → List Event → Provider → Provider
unfolding handle
handle_all env [] p = p
handle_all env (e ∷ es) p = handle_all env es (handle env e p)
