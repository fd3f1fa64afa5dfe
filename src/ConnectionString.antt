-- ===== src/ConnectionString.antt =====
-- common/connection_string.py. Every `ValueError` of the parser is `none`.
use Prim.Native.String.{String}
use azure_iot_sdk_python_pre.Prelude.{
  ℕ, Bool, true, false, ◌&&◌, ◌||◌, Option, none, some, List, [], ◌∷◌, map, length, ◌==◌,
  if◌then◌else◌,
}
use azure_iot_sdk_python_pre.Prelude.Dict.{Dict, lookup, insert}
use azure_iot_sdk_python_pre.Text.{Text, codes, equal, text_eq, split, cut}
pub mod Filling
pub mod Parsing
mod Tests

-- ";" and "="
abbrev pub cs_delimiter : ℕ
cs_delimiter = 59

abbrev pub cs_val_separator : ℕ
cs_val_separator = 61

unfoldable pub host_name : Text
unfolding codes
host_name = codes "HostName"

unfoldable pub shared_access_key_name : Text
unfolding codes
shared_access_key_name = codes "SharedAccessKeyName"

unfoldable pub shared_access_key : Text
unfolding codes
shared_access_key = codes "SharedAccessKey"

unfoldable pub device_id : Text
unfolding codes
device_id = codes "DeviceId"

unfoldable pub valid_keys : List Text
unfolding codes host_name shared_access_key_name shared_access_key device_id
valid_keys =
    host_name
    ∷ shared_access_key_name
    ∷ shared_access_key
    ∷ codes "SharedAccessSignature"
    ∷ device_id
    ∷ codes "ModuleId"
    ∷ codes "GatewayHostName"
    ∷ []

unfoldable pub is_in : Text → List Text → Bool
unfolding equal
is_in k [] = false
is_in k (j ∷ js) = equal j k || is_in k js

-- The `dict` of a sequence of pairs; a later pair replaces an earlier one.
unfoldable pub fill : List (Text × Text) → Dict Text Text → Dict Text Text
fill [] d = d
fill ((k, v) ∷ es) d = fill es (insert k v d)

-- A part without a separator makes `dict` raise.
unfoldable pub cut_all : List Text → Option (List (Text × Text))
cut_all [] = some []
cut_all (s ∷ ss) =
    let later = cut_all ss in
    elim (cut cs_val_separator s) [
      | none ↦ none
      | some x ↦ elim later [ none ↦ none | some xs ↦ some (x ∷ xs) ]
    ]

unfoldable pub all_valid : Dict Text Text → Bool
unfolding is_in
all_valid [] = true
all_valid ((k, v) ∷ d) = is_in k valid_keys && all_valid d

-- A value in a test: a missing one and the empty text are false.
unfoldable pub is_given : Option Text → Bool
is_given none = false
is_given (some []) = false
is_given (some (c ∷ s)) = true

-- `_validate_keys`, whether it passes
unfoldable pub validate_keys : Dict Text Text → Bool
unfolding is_given host_name device_id shared_access_key shared_access_key_name
validate_keys d =
    is_given (lookup host_name d)
      && is_given (lookup device_id d)
      && is_given (lookup shared_access_key d)
    || is_given (lookup host_name d)
      && is_given (lookup shared_access_key d)
      && is_given (lookup shared_access_key_name d)

-- The tests on the dictionary of so many parts.
unfoldable pub accepted : ℕ → Dict Text Text → Option (Dict Text Text)
unfolding all_valid validate_keys
accepted parts d = if parts == length d && all_valid d && validate_keys d then some d else none

-- `_parse_connection_string`
unfoldable pub parse_connection_string : Text → Option (Dict Text Text)
unfolding accepted split cut_all fill
parse_connection_string s =
    let parts = split cs_delimiter s in
    elim (cut_all parts) [ none ↦ none | some es ↦ accepted (length parts) (fill es []) ]
