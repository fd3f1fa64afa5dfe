-- ===== src/Prelude/Dict.antt =====
-- A dict of the program, as an association list over keys with a test.
use Prim.Native.Nat.{ℕ, ◌+◌, ◌≤◌}
use mathlib.Core.Path.{◌≡◌}
use mathlib.Core.List.{List, [], ◌∷◌}
use mathlib.Core.Option.{Option, none, some}
use native.Mathlib.Omega.{arith}
use azure_iot_sdk_python_pre.Prelude.Tests.{Eq, if◌then◌else◌}
use azure_iot_sdk_python_pre.Prelude.Lists.{total}

abbrev pub Dict : Type 0 → Type 0 → Type 0
Dict K V = List (K × V)

module _ {K V : Type 0} ⦃e : Eq K⦄ where
  unfoldable pub lookup : K → Dict K V → Option V
  lookup k [] = none
  lookup k ((j, v) ∷ d) = if e.beq j k then some v else lookup k d

  -- `del d[k]`
  unfoldable pub erase : K → Dict K V → Dict K V
  erase k [] = []
  erase k ((j, v) ∷ d) = let rest = erase k d in if e.beq j k then rest else (j, v) ∷ rest

  -- `d[k] = v`
  unfoldable pub insert : K → V → Dict K V → Dict K V
  unfolding erase
  insert k v d = (k, v) ∷ erase k d

  pub lookup-erase :
      (k j : K) (d : Dict K V) → lookup j (erase k d) ≡ (if e.beq k j then none else lookup j d)
  unfolding lookup erase
  lookup-erase k j [] = ground arith
  lookup-erase k j ((i, v) ∷ d) =
      ground (arith, e.beq_iff k j, e.beq_iff i k, e.beq_iff i j, lookup-erase k j d)

  pub lookup-insert :
      (k j : K) (v : V) (d : Dict K V)
      → lookup j (insert k v d) ≡ (if e.beq k j then some v else lookup j d)
  unfolding lookup insert
  lookup-insert k j v d = ground (arith, lookup-erase k j d)

  pub erase-insert : (k : K) (v : V) (d : Dict K V) → erase k (insert k v d) ≡ erase k d
  unfolding erase insert
  erase-insert k v [] = ground (arith, e.beq_iff k k)
  erase-insert k v ((j, u) ∷ d) = ground (arith, e.beq_iff k k, e.beq_iff j k, erase-insert k u d)

  -- What a measure sums to over the values falls by the value that goes.
  pub total-erase :
      (f : V → ℕ) (k : K) (d : Dict K V) → total (λ x. f x.1) (erase k d) ≤ total (λ x. f x.1) d
  unfolding erase
  total-erase f k [] = omega arith
  total-erase f k ((j, v) ∷ d) = ground (arith, total-erase f k d)

  pub total-erase-lookup :
      (f : V → ℕ) (k : K) (d : Dict K V) {v : V}
      → lookup k d ≡ some v
      → total (λ x. f x.1) (erase k d) + f v ≤ total (λ x. f x.1) d
  unfolding erase lookup
  total-erase-lookup f k [] h = ground arith
  total-erase-lookup f k ((j, w) ∷ d) {v} h =
      ground (arith, total-erase f k d, total-erase-lookup f k d {v = v})

pub ruleset dict_laws = (lookup-insert, lookup-erase)
