-- ===== src/ConnectionString/Parsing.antt =====
-- The parser of connection strings against the text that lists the entries.
use azure_iot_sdk_python_pre.Prelude.{
  ℕ, ◌≡◌, refl, Bool, true, ◌&&◌, none, some, List, [], ◌∷◌, ◌++◌, map, length, arith, ==_iff,
  if◌then◌else◌,
}
use azure_iot_sdk_python_pre.Prelude.Dict.{Dict, lookup}
use azure_iot_sdk_python_pre.Text.{
  Text, equal_iff, text_eq, split, free, split-free, split-append, cut-append, free-append,
}
use azure_iot_sdk_python_pre.ConnectionString.{
  cs_delimiter, cs_val_separator, valid_keys, is_in, fill, cut_all, validate_keys, accepted,
  parse_connection_string,
}
use azure_iot_sdk_python_pre.ConnectionString.Filling.{
  well_formed, lookup-fill, length-fill, all_valid-fill, validate_keys-fill,
}

unfoldable pub entry : Text × Text → Text
entry x = x.0 ++ cs_val_separator ∷ x.1

-- The entries one after the other, the first apart.
unfoldable pub print : Text × Text → List (Text × Text) → Text
unfolding entry
print x [] = entry x
print x (y ∷ es) = entry x ++ cs_delimiter ∷ print y es

abbrev all_free : ℕ → List Text → Bool
all_free d [] = true
all_free d (k ∷ keys) = free d k && all_free d keys

is_in-free :
    (d : ℕ) (k : Text) (keys : List Text)
    → is_in k keys ≡ true
    → all_free d keys ≡ true
    → free d k ≡ true
unfolding is_in
is_in-free d k [] h a = ground arith
is_in-free d k (j ∷ keys) h a = ground (arith, equal_iff j k, is_in-free d k keys)

valid-delimiter : all_free cs_delimiter valid_keys ≡ true
unfolding valid_keys free
valid-delimiter = refl

valid-separator : all_free cs_val_separator valid_keys ≡ true
unfolding valid_keys free
valid-separator = refl

entry-free :
    (x : Text × Text)
    → is_in x.0 valid_keys ≡ true
    → free cs_delimiter x.1 ≡ true
    → free cs_delimiter (entry x) ≡ true
unfolding entry free
entry-free x h f =
    free-append cs_delimiter x.0 (cs_val_separator ∷ x.1)
      (is_in-free cs_delimiter x.0 valid_keys h valid-delimiter) (ground (arith, f))

split-print :
    (x : Text × Text) (es : List (Text × Text))
    → well_formed (x ∷ es) ≡ true
    → split cs_delimiter (print x es) ≡ map entry (x ∷ es)
unfolding print well_formed
split-print x [] h = ground (arith, entry-free x, split-free cs_delimiter (entry x))
split-print x (y ∷ es) h =
    ground (arith, entry-free x, split-append cs_delimiter (entry x) (print y es), split-print y es)

cut_all-entries :
    (es : List (Text × Text)) → well_formed es ≡ true → cut_all (map entry es) ≡ some es
unfolding cut_all well_formed entry
cut_all-entries [] h = refl
cut_all-entries (x ∷ es) h = ground (
  arith,
  is_in-free cs_val_separator x.0 valid_keys,
  valid-separator,
  cut-append cs_val_separator x.0 x.1,
  cut_all-entries es,
)

length-map : (es : List (Text × Text)) → length (map entry es) ≡ length es
length-map [] = refl
length-map (x ∷ es) = ground (arith, length-map es)

-- Entries with valid and distinct keys and no delimiter in a value, printed one after the other,
-- are parsed to a dictionary with these entries, if they are complete; else the parser refuses.
pub parse_connection_string-print :
    (x : Text × Text) (es : List (Text × Text))
    → well_formed (x ∷ es) ≡ true
    → (d : Dict Text Text) × (parse_connection_string (print x es)
        ≡ (if validate_keys (x ∷ es) then some d else none))
      × ((k : Text) → lookup k d ≡ lookup k (x ∷ es))
unfolding parse_connection_string accepted lookup
parse_connection_string-print x es h =
    let all = x ∷ es in
    (
      fill all [],
      ground (
        arith,
        split-print x es h,
        cut_all-entries all h,
        length-map all,
        length-fill all [] h (λ k i. refl),
        all_valid-fill all [] h refl,
        validate_keys-fill all h,
        ==_iff (length all) (length all),
      ),
      λ k. ground (arith, lookup-fill all [] k h),
    )
