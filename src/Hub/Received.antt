-- ===== src/Hub/Received.antt =====
-- iothub/pipeline/mqtt_topic_iothub.py: the topics that the hub publishes on, on code points. An
-- exception (`ValueError`, `IndexError`, `KeyError`) is `none`. `unquote_plus` is urllib's.
use Prim.Native.String.{String}
use azure_iot_sdk_python_pre.Prelude.{
  ℕ, zero, suc, Bool, true, false, ◌&&◌, ◌||◌, Option, none, some, List, [], ◌∷◌, ◌++◌, length, leb,
  ◌==◌, if◌then◌else◌,
}
use azure_iot_sdk_python_pre.Prelude.Dict.{Dict, lookup, insert}
use azure_iot_sdk_python_pre.Text.{Text, codes, equal, text_eq, split, get_elem?}
pub mod Formats
pub mod Properties
pub mod Encoding
mod Tests

unfoldable pub starts_with : Text → Text → Bool
starts_with [] s = true
starts_with (c ∷ p) [] = false
starts_with (c ∷ p) (d ∷ s) = c == d && starts_with p s

-- `p in s`
unfoldable pub contains : Text → Text → Bool
unfolding starts_with
contains p [] = starts_with p []
contains p (c ∷ s) = starts_with p (c ∷ s) || contains p s

-- "/", "?", "&", "=", "$"
abbrev pub slash : ℕ
slash = 47

abbrev pub question : ℕ
question = 63

abbrev pub ampersand : ℕ
ampersand = 38

abbrev pub equals : ℕ
equals = 61

abbrev pub dollar : ℕ
dollar = 36

unfoldable pub is_input_topic : Text → Text → Text → Bool
unfolding contains codes
is_input_topic topic device_id module_id =
    contains (codes "devices/" ++ device_id ++ codes "/modules/" ++ module_id ++ codes "/inputs/")
      topic

unfoldable pub is_c2d_topic : Text → Text → Bool
unfolding contains codes
is_c2d_topic topic device_id =
    contains (codes "devices/" ++ device_id ++ codes "/messages/devicebound") topic

unfoldable pub is_method_topic : Text → Bool
unfolding contains codes
is_method_topic topic = contains (codes "$iothub/methods/POST") topic

unfoldable pub is_twin_response_topic : Text → Bool
unfolding starts_with codes
is_twin_response_topic topic = starts_with (codes "$iothub/twin/res/") topic

unfoldable pub get_input_name_from_topic : Text → Option Text
unfolding split get_elem? codes equal
get_input_name_from_topic topic =
    let parts = split slash topic in
    elim (get_elem? parts 4) [
      | none ↦ none
      | some kind ↦ if equal kind (codes "inputs") then get_elem? parts 5 else none
    ]

unfoldable pub get_method_name_from_topic : Text → Option Text
unfolding split is_method_topic get_elem?
get_method_name_from_topic topic =
    if is_method_topic topic then get_elem? (split slash topic) 3 else none

unfoldable pub get_twin_status_code_from_topic : Text → Option Text
unfolding split is_twin_response_topic get_elem?
get_twin_status_code_from_topic topic =
    if is_twin_response_topic topic then get_elem? (split slash topic) 3 else none

-- `lstrip("$")`
unfoldable pub strip : Text → Text
strip [] = []
strip (c ∷ s) = let later = strip s in if c == dollar then later else c ∷ s

module _ (unquote_plus : Text → Text) where
  -- The loop of `_extract_properties`
  unfoldable pub extract_pairs : List Text → Dict Text Text → Option (Dict Text Text)
  unfolding split strip
  extract_pairs [] d = some d
  extract_pairs (pair ∷ pairs) d =
      let parts = split equals pair in
      elim (get_elem? parts 0) [
        | none ↦ none
        | some key ↦ elim (get_elem? parts 1) [
          | none ↦ none
          | some value ↦
              extract_pairs pairs (insert (strip (unquote_plus key)) (unquote_plus value) d)
        ]
      ]

  unfoldable pub extract_properties : Text → Option (Dict Text Text)
  unfolding extract_pairs split
  extract_properties s = extract_pairs (split ampersand s) []

  -- `_extract_properties(topic.split("?")[1])["rid"]`
  unfoldable pub request_id_of : Text → Option Text
  unfolding split extract_properties codes get_elem?
  request_id_of topic = elim (get_elem? (split question topic) 1) [
    | none ↦ none
    | some properties ↦ elim (extract_properties properties) [
      | none ↦ none
      | some d ↦ lookup (codes "rid") d
    ]
  ]

  unfoldable pub get_method_request_id_from_topic : Text → Option Text
  unfolding request_id_of is_method_topic split
  get_method_request_id_from_topic topic =
      if is_method_topic topic && leb 4 (length (split slash topic))
      then request_id_of topic
      else none

  unfoldable pub get_twin_request_id_from_topic : Text → Option Text
  unfolding request_id_of is_twin_response_topic split
  get_twin_request_id_from_topic topic =
      if is_twin_response_topic topic && leb 4 (length (split slash topic))
      then request_id_of topic
      else none
