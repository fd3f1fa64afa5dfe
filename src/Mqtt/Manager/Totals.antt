-- ===== src/Mqtt/Manager/Totals.antt =====
-- What a measure of the callbacks sums to over an `OperationManager`: a call triggers a callback or
-- keeps it, and makes none up.
use azure_iot_sdk_python_pre.Prelude.{
  ℕ, ◌+◌, ◌≤◌, Option, none, some, arith, nat_eq, total, Option-cases, inl, inr,
}
use azure_iot_sdk_python_pre.Prelude.Dict.{lookup, insert, total-erase, total-erase-lookup}
use azure_iot_sdk_python_pre.Mqtt.Manager.{Manager, establish_operation, complete_operation}

module _ {C : Type 0} (f : C → ℕ) where
  abbrev pub measure : Option C → ℕ
  measure none = 0
  measure (some c) = f c

  abbrev pub pending_total : Manager C → ℕ
  pending_total m = total (λ x. measure x.1) m.pending

  pub total-establish_operation :
      (mid : ℕ) (callback : Option C) (m : Manager C)
      → pending_total (establish_operation mid callback m).0
          + total f (establish_operation mid callback m).1
        ≤ pending_total m + measure callback
  unfolding establish_operation insert
  total-establish_operation mid none m = ground (arith, total-erase measure mid m.pending)
  total-establish_operation mid (some c) m = ground (arith, total-erase measure mid m.pending)

  pub total-complete_operation :
      (mid : ℕ) (m : Manager C)
      → pending_total (complete_operation mid m).0 + total f (complete_operation mid m).1
        ≤ pending_total m
  unfolding complete_operation
  total-complete_operation mid m = elim (Option-cases (lookup mid m.pending)) [
    | inl missing ↦ rw (missing, complete_operation) (ground arith)
    | inr (none, found) ↦
        rw (found, complete_operation)
          (ground (arith, total-erase-lookup measure mid m.pending {v = none} found))
    | inr (some c, found) ↦
        rw (found, complete_operation)
          (ground (arith, total-erase-lookup measure mid m.pending {v = some c} found))
  ]
