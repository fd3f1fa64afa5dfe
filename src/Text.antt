-- ===== src/Text.antt =====
-- Text as the list of its code points, for the code that walks it: `str.split` and `in`.
use Prim.Native.Char.{code}
use Prim.Native.String.{String}
use azure_iot_sdk_python_pre.Prelude.{
  ℕ, zero, suc, ◌≡◌, refl, ◌↔◌, Bool, true, false, not, ◌&&◌, Option, none, some, List, [], ◌∷◌,
  ◌++◌, arith, Eq, ==_iff, ◌==◌, if◌then◌else◌,
}
pub mod Decimal
pub mod Shift

abbrev pub Text : Type 0
Text = List ℕ

unfoldable pub codes : String → Text
codes String.[] = []
codes (String.◌∷◌ c s) = code c ∷ codes s

unfoldable pub equal : Text → Text → Bool
equal [] [] = true
equal [] (d ∷ t) = false
equal (c ∷ s) [] = false
equal (c ∷ s) (d ∷ t) = c == d && equal s t

pub equal_iff : (s t : Text) → (equal s t ≡ true) ↔ (s ≡ t)
unfolding equal
equal_iff [] [] = ground arith
equal_iff [] (d ∷ t) = ground arith
equal_iff (c ∷ s) [] = ground arith
equal_iff (c ∷ s) (d ∷ t) = ground (arith, equal_iff s t)

instance abbrev pub text_eq : Eq Text
text_eq = record { beq = equal; beq_iff = equal_iff }

abbrev put_first : ℕ → List Text → List Text
put_first c [] = (c ∷ []) ∷ []
put_first c (s ∷ ss) = (c ∷ s) ∷ ss

-- `text.split(d)`, for a separator of one character
unfoldable pub split : ℕ → Text → List Text
split d [] = [] ∷ []
split d (c ∷ s) = let parts = split d s in if c == d then [] ∷ parts else put_first c parts

-- `text.split(d, 1)`, when it has two parts
unfoldable pub cut : ℕ → Text → Option (Text × Text)
cut d [] = none
cut d (c ∷ s) =
    let later = cut d s in
    if c == d
    then some ([], s)
    else elim later [ none ↦ none | some parts ↦ some (c ∷ parts.0, parts.1) ]

-- `parts[i]`
unfoldable pub get_elem? : List Text → ℕ → Option Text
get_elem? [] i = none
get_elem? (s ∷ ss) zero = some s
get_elem? (s ∷ ss) (suc i) = get_elem? ss i

-- No `d` is in the text.
unfoldable pub free : ℕ → Text → Bool
free d [] = true
free d (c ∷ s) = not (c == d) && free d s

pub split-free : (d : ℕ) (s : Text) → free d s ≡ true → split d s ≡ s ∷ []
unfolding split free
split-free d [] h = refl
split-free d (c ∷ s) h = ground (arith, split-free d s)

pub split-append : (d : ℕ) (s t : Text) → free d s ≡ true → split d (s ++ d ∷ t) ≡ s ∷ split d t
unfolding split free
split-append d [] t h = ground (arith, ==_iff d d)
split-append d (c ∷ s) t h = ground (arith, split-append d s t)

pub cut-append : (d : ℕ) (s t : Text) → free d s ≡ true → cut d (s ++ d ∷ t) ≡ some (s, t)
unfolding cut free
cut-append d [] t h = ground (arith, ==_iff d d)
cut-append d (c ∷ s) t h = ground (arith, cut-append d s t)

pub free-append : (d : ℕ) (s t : Text) → free d s ≡ true → free d t ≡ true → free d (s ++ t) ≡ true
unfolding free
free-append d [] t h k = k
free-append d (c ∷ s) t h k = ground (arith, free-append d s t)
