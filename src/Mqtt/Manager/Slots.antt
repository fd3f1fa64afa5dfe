-- ===== src/Mqtt/Manager/Slots.antt =====
-- What `OperationManager` promises for one message id, and that its two tables keep the promise.
use azure_iot_sdk_python_pre.Prelude.{
  ℕ, ◌≡◌, ◌⊎◌, List, [], Option, none, some, arith, nat_eq, ==_iff, ◌==◌, if◌then◌else◌,
}
use azure_iot_sdk_python_pre.Prelude.Dict.{lookup, lookup-insert, lookup-erase}
use azure_iot_sdk_python_pre.Mqtt.Manager.{
  Manager, triggered, establish_operation, complete_operation,
}

-- A message id is idle, waits for its response, or has a response that waits for its request.
pub data Slot (C : Type 0) : Type 0 where
  idle : Slot C
  waiting : Option C → Slot C
  answered : Slot C

module _ {C : Type 0} where
  abbrev pub establish_slot : Option C → Slot C → Slot C × List C
  establish_slot callback answered = (idle, triggered callback)
  establish_slot callback idle = (waiting callback, [])
  establish_slot callback (waiting _) = (waiting callback, [])

  abbrev pub complete_slot : Slot C → Slot C × List C
  complete_slot (waiting callback) = (idle, triggered callback)
  complete_slot idle = (answered, [])
  complete_slot answered = (answered, [])

  unfoldable pub slot : Manager C → ℕ → Slot C
  slot m k = elim (lookup k m.pending) [
    | some callback ↦ waiting callback
    | none ↦ elim (lookup k m.unknown) [ some _ ↦ answered | none ↦ idle ]
  ]

  -- No message id is pending and answered at once.
  pub record IsDisjoint (m : Manager C) : Type 0 where
    pub apart : (k : ℕ) → (lookup k m.pending ≡ none) ⊎ (lookup k m.unknown ≡ none)

  pub establish_at :
      (mid : ℕ) (callback : Option C) (m : Manager C) (k : ℕ)
      → IsDisjoint m
      → ((lookup k (establish_operation mid callback m).0.pending ≡ none)
          ⊎ (lookup k (establish_operation mid callback m).0.unknown ≡ none))
        × (slot (establish_operation mid callback m).0 k
            ≡ (if mid == k then (establish_slot callback (slot m mid)).0 else slot m k))
        × ((establish_operation mid callback m).1 ≡ (establish_slot callback (slot m mid)).1)
  unfolding establish_operation slot
  establish_at mid callback m k d = ground (
    arith,
    d.apart k,
    d.apart mid,
    ==_iff mid k,
    lookup-insert mid k callback m.pending,
    lookup-erase mid k m.unknown,
  )

  pub complete_at :
      (mid : ℕ) (m : Manager C) (k : ℕ)
      → IsDisjoint m
      → ((lookup k (complete_operation mid m).0.pending ≡ none)
          ⊎ (lookup k (complete_operation mid m).0.unknown ≡ none))
        × (slot (complete_operation mid m).0 k
            ≡ (if mid == k then (complete_slot (slot m mid)).0 else slot m k))
        × ((complete_operation mid m).1 ≡ (complete_slot (slot m mid)).1)
  unfolding complete_operation slot
  complete_at mid m k d = ground (
    arith,
    d.apart k,
    d.apart mid,
    ==_iff mid k,
    lookup-insert mid k mid m.unknown,
    lookup-erase mid k m.pending,
  )
