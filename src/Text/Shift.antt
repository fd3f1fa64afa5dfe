-- ===== src/Text/Shift.antt =====
-- A function that quotes a text, and its inverse, for the tests: every code point is moved away from
-- those that separate the parts of a topic or a token.
use azure_iot_sdk_python_pre.Prelude.{ℕ, ◌+◌, ◌-◌, ◌<◌, ◌≡◌, refl, true, [], ◌∷◌, arith}
use azure_iot_sdk_python_pre.Text.{Text, free}

unfoldable pub shift : Text → Text
shift [] = []
shift (c ∷ s) = (c + 1000) ∷ shift s

unfoldable pub unshift : Text → Text
unshift [] = []
unshift (c ∷ s) = (c - 1000) ∷ unshift s

pub unshift-shift : (s : Text) → unshift (shift s) ≡ s
unfolding shift unshift
unshift-shift [] = refl
unshift-shift (c ∷ s) = ground (arith, unshift-shift s)

pub free-shift : (d : ℕ) → d < 1000 → (s : Text) → free d (shift s) ≡ true
unfolding shift free
free-shift d h [] = refl
free-shift d h (c ∷ s) = ground (arith, free-shift d h s)
