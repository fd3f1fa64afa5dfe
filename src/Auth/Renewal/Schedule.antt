-- ===== src/Auth/Renewal/Schedule.antt =====
-- The token and its timer belong together, whatever reaches the provider.
use azure_iot_sdk_python_pre.Prelude.{
  ℕ, suc, ◌+◌, ◌-◌, ◌*◌, ◌≤◌, ◌<◌, ◌≡◌, inl, inr, refl, sym, subst, Bool, true, false, none, some,
  List, [], ◌∷◌, ==_iff, if◌then◌else◌, arith, Option-cases, Bool-cases,
}
use azure_iot_sdk_python_pre.Text.{Text}
use azure_iot_sdk_python_pre.Auth.Token.{given}
use azure_iot_sdk_python_pre.Auth.Renewal.{
  Alarm, Provider, Signing, without, cancel_token_update_timer, schedule_token_update,
  notify_token_updated, expiry_at, token_at, generate_new_sas_token, get_current_sas_token,
  disconnect, is_due, time_up, Event, generates, gets, disconnects, rings, handle, handle_all,
}

-- No timer runs, or one does: the one that the provider holds, which was started with the current
-- token, for its validity period less the margin, when the token had been signed.
pub data IsScheduled (env : Signing) (p : Provider) : Type 0 where
  idle : p.alarms ≡ [] → IsScheduled env p
  renewing :
      (now delay t : ℕ)
      → p.alarms
        ≡ record {
          timer = t;
          due = now + delay + (p.token_validity_period - p.token_renewal_margin) * 1000;
        }
          ∷ []
      → p.token_update_timer ≡ some t
      → p.sas_token_str ≡ token_at env now p
      → IsScheduled env p

module _ (env : Signing) where
  cancel_alarms : (p : Provider) → IsScheduled env p → (cancel_token_update_timer p).alarms ≡ []
  unfolding cancel_token_update_timer without
  cancel_alarms p (idle e) = ground (arith, e)
  cancel_alarms p (renewing now delay t e f g) = ground (arith, e, f, ==_iff t t)

  abbrev renewed : ℕ → ℕ → Text → Provider → Provider
  renewed now delay token p = record p {
    sas_token_str = some token;
    token_update_timer = some p.next_timer;
    next_timer = suc p.next_timer;
    alarms =
        record {
          timer = p.next_timer;
          due = now + delay + (p.token_validity_period - p.token_renewal_margin) * 1000;
        }
        ∷ [];
    notified = if p.token_update_callback then suc p.notified else p.notified;
  }

  -- What a new token leaves.
  generate_renewed :
      (now delay : ℕ) (p : Provider) (token : Text)
      → (cancel_token_update_timer p).alarms ≡ []
      → token_at env now p ≡ some token
      → generate_new_sas_token env now delay p ≡ renewed now delay token p
  unfolding generate_new_sas_token schedule_token_update notify_token_updated
      cancel_token_update_timer
  generate_renewed now delay p token w e = ground (arith, e, w)

  generate_refused :
      (now delay : ℕ) (p : Provider)
      → token_at env now p ≡ none
      → generate_new_sas_token env now delay p ≡ p
  unfolding generate_new_sas_token
  generate_refused now delay p e = ground (arith, e)

  token_at-renewed :
      (now delay : ℕ) (p : Provider) (token : Text)
      → token_at env now p ≡ some token
      → (renewed now delay token p).sas_token_str ≡ token_at env now (renewed now delay token p)
  unfolding token_at expiry_at
  token_at-renewed now delay p token e = sym e

  generate-IsScheduled :
      (now delay : ℕ) (p : Provider)
      → (cancel_token_update_timer p).alarms ≡ []
      → IsScheduled env p
      → IsScheduled env (generate_new_sas_token env now delay p)
  generate-IsScheduled now delay p c w = elim (Option-cases (token_at env now p)) [
    | inl e ↦ subst (IsScheduled env) (sym (generate_refused now delay p e)) w
    | inr (token, e) ↦
        subst (IsScheduled env) (sym (generate_renewed now delay p token c e))
          (renewing now delay p.next_timer refl refl (token_at-renewed now delay p token e))
  ]

  disconnect-IsScheduled : (p : Provider) → IsScheduled env p → IsScheduled env (disconnect p)
  unfolding disconnect
  disconnect-IsScheduled p w = idle (cancel_alarms p w)

  -- A timer whose time is up leaves none.
  rung_alarms :
      (t now : ℕ) (p : Provider)
      → IsScheduled env p
      → is_due t now p.alarms ≡ true
      → without t p.alarms ≡ []
  unfolding is_due without
  rung_alarms t now p (idle e) h = ground (arith, e)
  rung_alarms t now p (renewing at delay u e f g) h = ground (arith, e)

  cancel-none : (p : Provider) → p.alarms ≡ [] → (cancel_token_update_timer p).alarms ≡ []
  unfolding cancel_token_update_timer without
  cancel-none p e = ground (arith, e)

  rings-IsScheduled :
      (t now delay : ℕ) (p : Provider)
      → IsScheduled env p
      → IsScheduled env (time_up env t now delay p)
  unfolding time_up
  rings-IsScheduled t now delay p w = elim (Bool-cases (is_due t now p.alarms)) [
    | inr early ↦ rw (early, time_up) w
    | inl due ↦
        let q = record p { alarms = without t p.alarms } in
        let gone = rung_alarms t now p w due in
        rw (due, time_up) (generate-IsScheduled now delay q (cancel-none q gone) (idle gone))
  ]

  gets-IsScheduled :
      (now delay : ℕ) (p : Provider)
      → IsScheduled env p
      → IsScheduled env (get_current_sas_token env now delay p)
  unfolding get_current_sas_token
  gets-IsScheduled now delay p w = elim (Option-cases (given p.sas_token_str)) [
    | inl e ↦ rw (e, get_current_sas_token) (generate-IsScheduled now delay p (cancel_alarms p w) w)
    | inr (token, e) ↦ rw (e, get_current_sas_token) w
  ]

  handle-IsScheduled :
      (e : Event) (p : Provider) → IsScheduled env p → IsScheduled env (handle env e p)
  unfolding handle
  handle-IsScheduled (generates now delay) p w =
      generate-IsScheduled now delay p (cancel_alarms p w) w
  handle-IsScheduled (gets now delay) p w = gets-IsScheduled now delay p w
  handle-IsScheduled disconnects p w = disconnect-IsScheduled p w
  handle-IsScheduled (rings t now delay) p w = rings-IsScheduled t now delay p w

-- From a provider without a timer, after any history: no timer runs, or one does: the one that the
-- provider holds, started when the current token had been signed, for its validity period less the
-- margin.
pub handle_all-IsScheduled :
    (env : Signing) (es : List Event) (p : Provider)
    → IsScheduled env p
    → IsScheduled env (handle_all env es p)
unfolding handle_all
handle_all-IsScheduled env [] p w = w
handle_all-IsScheduled env (e ∷ es) p w =
    handle_all-IsScheduled env es (handle env e p) (handle-IsScheduled env e p w)

-- A new token starts one timer. If the validity period has room for the margin, its time is up the
-- margin before the token expires, but later by the time that signing took and by less than a second.
pub generate-due :
    (env : Signing) (now delay : ℕ) (p : Provider) (token : Text)
    → IsScheduled env p
    → token_at env now p ≡ some token
    → p.token_renewal_margin ≤ p.token_validity_period
    → (a : Alarm) × ((generate_new_sas_token env now delay p).alarms ≡ a ∷ [])
      × ((generate_new_sas_token env now delay p).sas_token_str ≡ some token)
      × (expiry_at now p * 1000 + delay ≤ a.due + p.token_renewal_margin * 1000)
      × (a.due + p.token_renewal_margin * 1000 < expiry_at now p * 1000 + delay + 1000)
unfolding expiry_at
generate-due env now delay p token w e h =
    let renewal = generate_renewed env now delay p token (cancel_alarms env p w) e in
    (
      record {
        timer = p.next_timer;
        due = now + delay + (p.token_validity_period - p.token_renewal_margin) * 1000;
      },
      rw renewal refl,
      rw renewal refl,
      omega arith,
      omega arith,
    )

-- Asking for the token, and timers whose time is up.
abbrev pub no_renewal : List Event → Bool
no_renewal [] = true
no_renewal (gets now delay ∷ es) = no_renewal es
no_renewal (rings t now delay ∷ es) = no_renewal es
no_renewal (generates now delay ∷ es) = false
no_renewal (disconnects ∷ es) = false

silent :
    (env : Signing) (es : List Event) (p : Provider) (token : Text)
    → p.alarms ≡ []
    → given p.sas_token_str ≡ some token
    → no_renewal es ≡ true
    → handle_all env es p ≡ p
unfolding handle_all handle time_up is_due get_current_sas_token
silent env [] p token e g n = refl
silent env (gets now delay ∷ es) p token e g n = ground (arith, e, g, silent env es p token e g n)
silent env (rings t now delay ∷ es) p token e g n = ground (arith, e, silent env es p token e g n)
silent env (generates now delay ∷ es) p token e g n = absurd (ground (arith, n))
silent env (disconnects ∷ es) p token e g n = absurd (ground (arith, n))

-- If the timer's time is up, the renewal fails to sign and the provider has a token, then the renewal
-- is the last one: whatever timers ring and however often the token is asked for afterwards, the
-- provider keeps the old token, starts no timer and notifies nobody.
pub failed_renewal-last :
    (env : Signing) (t now delay : ℕ) (p : Provider) (token : Text) (es : List Event)
    → IsScheduled env p
    → is_due t now p.alarms ≡ true
    → token_at env now p ≡ none
    → given p.sas_token_str ≡ some token
    → no_renewal es ≡ true
    → handle_all env es (time_up env t now delay p) ≡ record p { alarms = [] }
unfolding time_up
failed_renewal-last env t now delay p token es w due e g n =
    let q = record p { alarms = without t p.alarms } in
    let gone = rung_alarms env t now p w due in
    ground (arith, due, gone, generate_refused env now delay q e, silent env es q token gone g n)
