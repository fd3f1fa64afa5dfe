-- ===== src/Text/Decimal.antt =====
-- `str` of a number that is not negative.
use azure_iot_sdk_python_pre.Prelude.{
  ℕ, zero, suc, ◌+◌, ◌%◌, ◌<◌, ◌≡◌, refl, true, [], ◌∷◌, ◌++◌, arith, ltb, if◌then◌else◌,
}
use Prim.Native.Nat.{◌/◌}
use azure_iot_sdk_python_pre.Text.{Text, free, free-append}

-- Fuel for as many digits as there may be.
unfoldable pub digits : ℕ → ℕ → Text
digits zero n = []
digits (suc fuel) n =
    let higher = digits fuel (n / 10) in
    if ltb n 10 then (48 + n) ∷ [] else higher ++ ((48 + n % 10) ∷ [])

unfoldable pub decimal : ℕ → Text
unfolding digits
decimal n = digits (suc n) n

digits-free : (d : ℕ) → d < 48 → (fuel n : ℕ) → free d (digits fuel n) ≡ true
unfolding digits free
digits-free d h zero n = refl
digits-free d h (suc fuel) n = ground (
  arith,
  digits-free d h fuel (n / 10),
  free-append d (digits fuel (n / 10)) ((48 + n % 10) ∷ []),
)

-- No character below "0" is in a number.
pub decimal-free : (d : ℕ) → d < 48 → (n : ℕ) → free d (decimal n) ≡ true
unfolding decimal
decimal-free d h n = digits-free d h (suc n) n

decimal_runs : decimal 1560 ≡ 49 ∷ 53 ∷ 54 ∷ 48 ∷ []
unfolding decimal
decimal_runs = refl
