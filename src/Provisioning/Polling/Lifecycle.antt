-- ===== src/Provisioning/Polling/Lifecycle.antt =====
-- Which states the table of transitions of `PollingMachine` lets follow which.
use azure_iot_sdk_python_pre.Prelude.{
  ◌≡◌, refl, ◌∙◌, Option-cases, ◌⊎◌, inl, inr, sym, subst, Option, none, some, arith,
}
use azure_iot_sdk_python_pre.Provisioning.Polling.Defs
use azure_iot_sdk_python_pre.Provisioning.Polling.Defs.{
  State, Trigger, transition, QueryResult, Machine, Service,
}
use azure_iot_sdk_python_pre.Provisioning.Polling.Handlers.{
  Outcome, ◌>>=◌, act, act_if, move, follow, documented,
}

-- A state may stay, or give way to one of these.
abbrev pub Follows : State → State → Type 0
Follows State.disconnected t = (t ≡ State.disconnected) ⊎ (t ≡ State.initializing)
Follows State.initializing t =
    (t ≡ State.initializing) ⊎ (t ≡ State.registering) ⊎ (t ≡ State.cancelling)
Follows State.registering t =
    (t ≡ State.registering)
    ⊎ (t ≡ State.waiting_to_poll)
    ⊎ (t ≡ State.completed)
    ⊎ (t ≡ State.error)
    ⊎ (t ≡ State.cancelling)
Follows State.waiting_to_poll t =
    (t ≡ State.waiting_to_poll)
    ⊎ (t ≡ State.registering)
    ⊎ (t ≡ State.polling)
    ⊎ (t ≡ State.completed)
    ⊎ (t ≡ State.error)
    ⊎ (t ≡ State.cancelling)
Follows State.polling t =
    (t ≡ State.polling)
    ⊎ (t ≡ State.waiting_to_poll)
    ⊎ (t ≡ State.completed)
    ⊎ (t ≡ State.error)
    ⊎ (t ≡ State.cancelling)
Follows State.completed t = t ≡ State.completed
Follows State.error t = (t ≡ State.error) ⊎ (t ≡ State.initializing)
Follows State.cancelling t = t ≡ State.cancelling

pub Follows-refl : (s : State) → Follows s s
Follows-refl State.disconnected = inl refl
Follows-refl State.completed = refl
Follows-refl State.cancelling = refl
Follows-refl _ = inl refl

state-act :
    (env : Service) (r : QueryResult) (a : Defs.Action) (m : Machine)
    → (act env r a m).0.state ≡ m.state
unfolding act
state-act env r a m = ground arith

transition-Follows :
    (t : Trigger) (s s' : State) (x : Defs.Transition)
    → transition t s ≡ some x
    → x.dest ≡ some s'
    → Follows s s'
unfolding transition
transition-Follows Trigger.trig_register s s' x e d = ground arith
transition-Follows _ s s' x e d = ground arith

abbrev Arrives : Machine → Option State → State → Type 0
Arrives m none s = s ≡ m.state
Arrives m (some d) s = (s ≡ m.state) ⊎ (s ≡ d)

module _ (env : Service) (r : QueryResult) where
  after-Arrives :
      (dest : Option State) (after : Option Defs.Action) (m n : Machine)
      → n.state ≡ m.state
      → Arrives m dest (follow env r none dest after n).0.state
  unfolding follow
  after-Arrives none none m n e = e
  after-Arrives none (some a) m n e = state-act env r a n ∙ e
  after-Arrives (some d) none m n e = inr refl
  after-Arrives (some d) (some a) m n e = inr (state-act env r a (record n { state = d }))

  -- The state after `before`, which does not change it, whether it raised or not.
  bound-Arrives :
      (dest : Option State) (after : Option Defs.Action) (m : Machine) (o : Outcome)
      → o.0.state ≡ m.state
      → Arrives m dest (o >>= λ n. act_if env r after (move env dest n)).0.state
  unfolding follow
  bound-Arrives dest after m (n, none) e = after-Arrives dest after m n e
  bound-Arrives none after m (n, some x) e = e
  bound-Arrives (some d) after m (n, some x) e = inl e

  follow-Arrives :
      (before : Option Defs.Action) (dest : Option State) (after : Option Defs.Action) (m : Machine)
      → Arrives m dest (follow env r before dest after m).0.state
  unfolding follow
  follow-Arrives none dest after m = after-Arrives dest after m m refl
  follow-Arrives (some a) dest after m =
      bound-Arrives dest after m (act env r a m) (state-act env r a m)

  Arrives-Follows :
      (dest : Option State) (m : Machine) (s : State)
      → ((d : State) → dest ≡ some d → Follows m.state d)
      → Arrives m dest s
      → Follows m.state s
  Arrives-Follows none m s table e = subst (λ s. Follows m.state s) (sym e) (Follows-refl m.state)
  Arrives-Follows (some d) m s table (inl e) =
      subst (λ s. Follows m.state s) (sym e) (Follows-refl m.state)
  Arrives-Follows (some d) m s table (inr e) = subst (λ s. Follows m.state s) (sym e) (table d refl)

  -- A trigger leads along the table.
  pub documented-Follows :
      (t : Trigger) (m : Machine) → Follows m.state (documented env t r m).0.state
  unfolding documented
  documented-Follows t m = elim (Option-cases (transition t m.state)) [
    | inl nothing ↦ rw (nothing, documented) (Follows-refl m.state)
    | inr (x, e) ↦
        rw (e, documented)
          (Arrives-Follows x.dest m _ (λ d. transition-Follows t m.state d x e)
            (follow-Arrives x.before x.dest x.after m))
  ]
