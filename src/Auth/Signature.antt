-- ===== src/Auth/Signature.antt =====
-- iothub/auth/sas_authentication_provider.py. Every `ValueError` of the parser is `none`;
-- `unquote_plus` is urllib's.
use azure_iot_sdk_python_pre.Prelude.{
  ℕ, Bool, true, false, ◌&&◌, Option, none, some, List, [], ◌∷◌, length, ◌==◌, if◌then◌else◌,
}
use azure_iot_sdk_python_pre.Prelude.Dict.{Dict, lookup}
use azure_iot_sdk_python_pre.Text.{Text, codes, text_eq, split, get_elem?}
use azure_iot_sdk_python_pre.ConnectionString.{is_in, is_given, cut_all, fill}
pub mod Entries
pub mod Reading

-- " ", "&" and "/"
abbrev pub parts_separator : ℕ
parts_separator = 32

abbrev pub delimiter : ℕ
delimiter = 38

abbrev pub uri_separator : ℕ
uri_separator = 47

unfoldable pub sas_keys : List Text
unfolding codes
sas_keys = codes "sig" ∷ codes "skn" ∷ codes "sr" ∷ codes "se" ∷ []

unfoldable pub keys_in : List Text → Dict Text Text → Bool
unfolding is_in
keys_in keys [] = true
keys_in keys ((k, v) ∷ d) = is_in k keys && keys_in keys d

-- `_validate_required_keys`, whether it passes
unfoldable pub validate_required_keys : Dict Text Text → Bool
unfolding is_given codes
validate_required_keys d =
    is_given (lookup (codes "sr") d)
    && is_given (lookup (codes "sig") d)
    && is_given (lookup (codes "se") d)

pub record SasProvider : Type 0 where
  pub hostname : Text
  pub device_id : Text
  pub module_id : Option Text
  pub sas_token_str : Text

-- The segments of the resource uri; one that is missing raises.
unfoldable pub provider_of : Text → List Text → Option SasProvider
unfolding get_elem?
provider_of token segments = elim (get_elem? segments 0) [
  | none ↦ none
  | some hostname ↦ elim (get_elem? segments 2) [
    | none ↦ none
    | some device_id ↦ some (record {
      hostname = hostname;
      device_id = device_id;
      module_id = get_elem? segments 4;
      sas_token_str = token;
    })
  ]
]

abbrev pub text_of : Option Text → Text
text_of none = []
text_of (some s) = s

module _ (unquote_plus : Text → Text) where
  -- The tests on so many parts, with these entries.
  unfoldable pub checked : Text → ℕ → List (Text × Text) → Option SasProvider
  unfolding sas_keys keys_in validate_required_keys provider_of fill split codes
  checked token parts entries =
      let d = fill entries [] in
      if parts == 2 && length entries == length d && keys_in sas_keys d && validate_required_keys d
      then (provider_of token
          (split uri_separator (unquote_plus (text_of (lookup (codes "sr") d)))))
      else none

  unfoldable pub parse_signature : Text → Option SasProvider
  unfolding checked split get_elem? cut_all
  parse_signature token =
      let parts = split parts_separator token in
      elim (get_elem? parts 1) [
        | none ↦ none
        | some arguments ↦ elim (cut_all (split delimiter arguments)) [
          | none ↦ none
          | some entries ↦ checked token (length parts) entries
        ]
      ]
