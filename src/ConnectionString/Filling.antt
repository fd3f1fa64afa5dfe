-- ===== src/ConnectionString/Filling.antt =====
-- The dictionary that the parser of connection strings makes of well-formed entries.
use azure_iot_sdk_python_pre.Prelude.{
  ◌+◌, ◌≡◌, refl, Bool, true, false, not, ◌&&◌, Option, none, some, List, [], ◌∷◌, map, length,
  arith,
}
use azure_iot_sdk_python_pre.Prelude.Dict.{Dict, lookup, insert, erase, lookup-insert}
use azure_iot_sdk_python_pre.Text.{Text, equal_iff, text_eq, free}
use azure_iot_sdk_python_pre.ConnectionString.{
  cs_delimiter, host_name, shared_access_key_name, shared_access_key, device_id, valid_keys, is_in,
  fill, all_valid, validate_keys,
}

-- The keys are valid and distinct, and no value has a delimiter.
unfoldable pub well_formed : List (Text × Text) → Bool
unfolding is_in
well_formed [] = true
well_formed ((k, v) ∷ es) =
    is_in k valid_keys
    && free cs_delimiter v
    && not (is_in k (map (λ (x : Text × Text). x.0) es))
    && well_formed es

erase-missing : (k : Text) (d : Dict Text Text) → lookup k d ≡ none → erase k d ≡ d
unfolding erase lookup
erase-missing k [] h = refl
erase-missing k ((j, v) ∷ d) h = ground (arith, erase-missing k d)

abbrev pub key : Text × Text → Text
key x = x.0

-- The first entry of a key.
abbrev pub or_else : Option Text → Option Text → Option Text
or_else none b = b
or_else (some v) b = some v

lookup-absent :
    (k : Text) (es : List (Text × Text)) → is_in k (map key es) ≡ false → lookup k es ≡ none
unfolding lookup is_in
lookup-absent k [] h = refl
lookup-absent k ((j, v) ∷ es) h = ground (arith, lookup-absent k es)

pub lookup-fill :
    (es : List (Text × Text)) (d : Dict Text Text) (k : Text)
    → well_formed es ≡ true
    → lookup k (fill es d) ≡ or_else (lookup k es) (lookup k d)
unfolding fill lookup well_formed
lookup-fill [] d k h = refl
lookup-fill ((j, v) ∷ es) d k h = ground (
  arith,
  lookup-fill es (insert j v d) k,
  lookup-insert j k v d,
  lookup-absent j es,
  equal_iff j k,
)

pub length-fill :
    (es : List (Text × Text)) (d : Dict Text Text)
    → well_formed es ≡ true
    → ((k : Text) → is_in k (map key es) ≡ true → lookup k d ≡ none)
    → length (fill es d) ≡ length es + length d
unfolding fill well_formed insert is_in
length-fill [] d h a = omega arith
length-fill ((j, v) ∷ es) d h a = ground (
  arith,
  equal_iff j j,
  erase-missing j d (a j (ground (arith, equal_iff j j))),
  length-fill es (insert j v d) (ground (arith, h))
      (λ k i. ground (arith, lookup-insert j k v d, equal_iff j k, a k, i, h)),
)

all_valid-erase :
    (k : Text) (d : Dict Text Text) → all_valid d ≡ true → all_valid (erase k d) ≡ true
unfolding all_valid erase
all_valid-erase k [] h = refl
all_valid-erase k ((j, v) ∷ d) h = ground (arith, all_valid-erase k d)

pub all_valid-fill :
    (es : List (Text × Text)) (d : Dict Text Text)
    → well_formed es ≡ true
    → all_valid d ≡ true
    → all_valid (fill es d) ≡ true
unfolding fill well_formed all_valid insert
all_valid-fill [] d h a = a
all_valid-fill ((j, v) ∷ es) d h a =
    ground (arith, all_valid-fill es (insert j v d), all_valid-erase j d)

pub validate_keys-fill :
    (es : List (Text × Text))
    → well_formed es ≡ true
    → validate_keys (fill es []) ≡ validate_keys es
unfolding validate_keys lookup
validate_keys-fill es h = ground (
  arith,
  lookup-fill es [] host_name,
  lookup-fill es [] device_id,
  lookup-fill es [] shared_access_key,
  lookup-fill es [] shared_access_key_name,
)
