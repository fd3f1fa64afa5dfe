-- ===== src/Mqtt/Manager/Refinement.antt =====
-- `OperationManager` against its promise for one message id, over whole histories of calls.
use azure_iot_sdk_python_pre.Prelude.{
  ℕ, ◌≡◌, refl, ◌⊎◌, inl, List, [], ◌∷◌, ◌++◌, Option, none, arith, nat_eq, ==_iff, ◌==◌,
  if◌then◌else◌,
}
use mathlib.Core.List.{append-nil}
use azure_iot_sdk_python_pre.Prelude.Dict.{lookup}
use azure_iot_sdk_python_pre.Mqtt.Manager.{
  Manager, init, triggered, establish_operation, complete_operation,
}
use azure_iot_sdk_python_pre.Mqtt.Manager.Slots.{
  Slot, idle, establish_slot, complete_slot, slot, IsDisjoint, establish_at, complete_at,
}

-- A call: the client's thread establishes a request, or the network's thread completes one.
pub data Call (C : Type 0) : Type 0 where
  establish : ℕ → Option C → Call C
  complete : ℕ → Call C

module _ {C : Type 0} where
  abbrev pub call : Call C → Manager C → Manager C × List C
  call (establish mid callback) m = establish_operation mid callback m
  call (complete mid) m = complete_operation mid m

  abbrev pub mid_of : Call C → ℕ
  mid_of (establish mid callback) = mid
  mid_of (complete mid) = mid

  abbrev pub call_slot : Call C → Slot C → Slot C × List C
  call_slot (establish mid callback) s = establish_slot callback s
  call_slot (complete mid) s = complete_slot s

  -- The manager after a history, with the callbacks that the calls for `k` triggered.
  unfoldable pub run : ℕ → List (Call C) → Manager C → Manager C × List C
  run k [] m = (m, [])
  run k (c ∷ cs) m =
      let rest = run k cs (call c m).0 in
      (rest.0, (if mid_of c == k then (call c m).1 else []) ++ rest.1)

  -- The slot of `k` after the calls for `k` alone.
  unfoldable pub run_slot : ℕ → List (Call C) → Slot C → Slot C × List C
  run_slot k [] s = (s, [])
  run_slot k (c ∷ cs) s =
      let next = if mid_of c == k then call_slot c s else (s, []) in
      let rest = run_slot k cs next.0 in (rest.0, next.1 ++ rest.1)

  call_at :
      (c : Call C) (m : Manager C) (k : ℕ)
      → IsDisjoint m
      → ((lookup k (call c m).0.pending ≡ none) ⊎ (lookup k (call c m).0.unknown ≡ none))
        × (slot (call c m).0 k
            ≡ (if mid_of c == k then (call_slot c (slot m (mid_of c))).0 else slot m k))
        × ((call c m).1 ≡ (call_slot c (slot m (mid_of c))).1)
  call_at (establish mid callback) m k d = establish_at mid callback m k d
  call_at (complete mid) m k d = complete_at mid m k d

  -- Every call keeps the two tables apart.
  pub call-IsDisjoint : (c : Call C) (m : Manager C) → IsDisjoint m → IsDisjoint (call c m).0
  call-IsDisjoint c m d = record { apart = λ k. (call_at c m k d).0 }

  next_slot :
      (c : Call C) (m : Manager C) (k : ℕ)
      → IsDisjoint m
      → (slot (call c m).0 k ≡ (if mid_of c == k then call_slot c (slot m k) else (slot m k, [])).0)
        × ((if mid_of c == k then (call c m).1 else [])
            ≡ (if mid_of c == k then call_slot c (slot m k) else (slot m k, [])).1)
  next_slot c m k d = ground (arith, call_at c m k d, ==_iff (mid_of c) k)

  -- From tables that are apart, after any history of calls, for every message id: the manager's
  -- tables show the slot that the calls for this id alone lead to, and the callbacks that these
  -- calls triggered are those of the slot machine, in order.
  pub run-refines_slot :
      (k : ℕ) (cs : List (Call C)) (m : Manager C)
      → IsDisjoint m
      → (slot (run k cs m).0 k ≡ (run_slot k cs (slot m k)).0)
        × ((run k cs m).1 ≡ (run_slot k cs (slot m k)).1)
  unfolding run run_slot
  run-refines_slot k [] m d = (refl, refl)
  run-refines_slot k (c ∷ cs) m d =
      ground (arith, next_slot c m k d, run-refines_slot k cs (call c m).0 (call-IsDisjoint c m d))

  pub init-IsDisjoint : IsDisjoint (init {C = C})
  unfolding lookup
  init-IsDisjoint = record { apart = λ k. inl refl }

  -- A request and its response trigger the request's callback once, in either order of arrival,
  -- and leave the message id idle: for tables that are apart and an id that is idle.
  pub either_order :
      (mid : ℕ) (callback : Option C) (m : Manager C)
      → IsDisjoint m
      → slot m mid ≡ idle
      → ((run mid (establish mid callback ∷ complete mid ∷ []) m).1 ≡ triggered callback)
        × (slot (run mid (establish mid callback ∷ complete mid ∷ []) m).0 mid ≡ idle)
        × ((run mid (complete mid ∷ establish mid callback ∷ []) m).1 ≡ triggered callback)
        × (slot (run mid (complete mid ∷ establish mid callback ∷ []) m).0 mid ≡ idle)
  unfolding run_slot
  either_order mid callback m d e = ground (
    arith,
    ==_iff mid mid,
    run-refines_slot mid (establish mid callback ∷ complete mid ∷ []) m d,
    run-refines_slot mid (complete mid ∷ establish mid callback ∷ []) m d,
    append-nil (triggered callback),
  )
