-- ===== src/Hub/Incoming/Patterns.antt =====
-- When a topic does not contain a pattern: it has fewer slashes.
use azure_iot_sdk_python_pre.Prelude.{
  ℕ, ◌+◌, ◌<◌, ◌≤◌, ◌≡◌, refl, true, false, [], ◌∷◌, ◌++◌, ◌==◌, arith, if◌then◌else◌,
}
use azure_iot_sdk_python_pre.Text.{Text, codes, free}
use azure_iot_sdk_python_pre.Hub.Received.{
  slash, starts_with, contains, is_c2d_topic, is_input_topic,
}

unfoldable pub count : ℕ → Text → ℕ
count d [] = 0
count d (c ∷ s) = (if c == d then 1 else 0) + count d s

pub count-append : (d : ℕ) (s t : Text) → count d (s ++ t) ≡ count d s + count d t
unfolding count
count-append d [] t = omega arith
count-append d (c ∷ s) t = omega (arith, count-append d s t)

pub count-free : (d : ℕ) (s : Text) → free d s ≡ true → count d s ≡ 0
unfolding count free
count-free d [] h = refl
count-free d (c ∷ s) h = ground (arith, count-free d s)

starts-count : (d : ℕ) (p s : Text) → starts_with p s ≡ true → count d p ≤ count d s
unfolding count starts_with
starts-count d [] s h = omega arith
starts-count d (c ∷ p) [] h = ground (arith, h)
starts-count d (c ∷ p) (b ∷ s) h = ground (arith, h, starts-count d p s)

contains-count : (d : ℕ) (p s : Text) → contains p s ≡ true → count d p ≤ count d s
unfolding count contains
contains-count d p [] h = starts-count d p [] h
contains-count d p (c ∷ s) h = ground (arith, h, starts-count d p (c ∷ s), contains-count d p s)

pub contains-few : (d : ℕ) (p s : Text) → count d s < count d p → contains p s ≡ false
contains-few d p s h = ground (arith, h, contains-count d p s)

-- A text with at most one slash has no part of the topics of messages.
pub few-is_c2d_topic : (s device_id : Text) → count slash s ≤ 1 → is_c2d_topic s device_id ≡ false
unfolding is_c2d_topic codes count
few-is_c2d_topic s d h =
    contains-few slash (codes "devices/" ++ d ++ codes "/messages/devicebound") s
      (omega (arith, h, count-append slash d (codes "/messages/devicebound")))

pub few-is_input_topic :
    (s device_id module_id : Text)
    → count slash s ≤ 1
    → is_input_topic s device_id module_id ≡ false
unfolding is_input_topic codes count
few-is_input_topic s d m h =
    contains-few slash (codes "devices/" ++ d ++ codes "/modules/" ++ m ++ codes "/inputs/") s (
      omega (
        arith,
        h,
        count-append slash ((d ++ codes "/modules/") ++ m) (codes "/inputs/"),
        count-append slash (d ++ codes "/modules/") m,
        count-append slash d (codes "/modules/"),
      ))
