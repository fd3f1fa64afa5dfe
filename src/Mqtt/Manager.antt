-- ===== src/Mqtt/Manager.antt =====
-- `OperationManager` of common/mqtt_transport.py: it pairs the message id of a request with the
-- completion callback, whichever of the two arrives first. The callback type is a parameter.
pub mod Totals
pub mod Slots
pub mod Refinement
use azure_iot_sdk_python_pre.Prelude.{
  ℕ, List, [], ◌∷◌, Option, none, some, nat_eq, ◌≡◌, ◌⊎◌, inl, inr, refl, Option-cases,
}
use azure_iot_sdk_python_pre.Prelude.Dict.{Dict, lookup, insert, erase}

pub record Manager (C : Type 0) : Type 0 where
  pub pending : Dict ℕ (Option C)
  pub unknown : Dict ℕ ℕ

module _ {C : Type 0} where
  abbrev pub init : Manager C
  init = record { pending = []; unknown = [] }

  -- A method returns the manager and the callbacks that it triggers.
  abbrev pub triggered : Option C → List C
  triggered none = []
  triggered (some c) = c ∷ []

  unfoldable pub establish_operation : ℕ → Option C → Manager C → Manager C × List C
  establish_operation mid callback m = elim (lookup mid m.unknown) [
    | some _ ↦ (record m { unknown = erase mid m.unknown }, triggered callback)
    | none ↦ (record m { pending = insert mid callback m.pending }, [])
  ]

  pub establish_operation-triggered :
      (mid : ℕ) (c : C) (m : Manager C)
      → ((establish_operation mid (some c) m).1 ≡ [])
        ⊎ ((establish_operation mid (some c) m).1 ≡ c ∷ [])
  unfolding establish_operation
  establish_operation-triggered mid c m = elim (Option-cases (lookup mid m.unknown)) [
    | inl unknown ↦ inl (rw (unknown, establish_operation) refl)
    | inr (_, early) ↦ inr (rw (early, establish_operation) refl)
  ]

  unfoldable pub complete_operation : ℕ → Manager C → Manager C × List C
  complete_operation mid m = elim (lookup mid m.pending) [
    | some callback ↦ (record m { pending = erase mid m.pending }, triggered callback)
    | none ↦ (record m { unknown = insert mid mid m.unknown }, [])
  ]
