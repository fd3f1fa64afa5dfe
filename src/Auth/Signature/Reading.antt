-- ===== src/Auth/Signature/Reading.antt =====
-- The token of `BaseRenewableTokenAuthenticationProvider` is read by
-- `SharedAccessSignatureAuthenticationProvider`.
use azure_iot_sdk_python_pre.Prelude.{
  ℕ, ◌≡◌, ◌∙◌, ap, true, Option, none, some, List, [], ◌∷◌, ◌++◌, length, arith,
}
use azure_iot_sdk_python_pre.Text.{
  Text, codes, text_eq, split, get_elem?, free, split-free, split-append, free-append,
}
use azure_iot_sdk_python_pre.Text.Decimal.{decimal, decimal-free}
use azure_iot_sdk_python_pre.ConnectionString.{is_given, cut_all}
use azure_iot_sdk_python_pre.Auth.Token.{given, resource_uri, token_text}
use azure_iot_sdk_python_pre.Auth.Signature.{
  parts_separator, delimiter, uri_separator, text_of, SasProvider, provider_of, checked,
  parse_signature,
}
use azure_iot_sdk_python_pre.Auth.Signature.Entries.{
  IsUriQuoting, is_value, last_part, NameIsValue, all_entries, checked-entries,
}

abbrev arguments_of : Text → Text → ℕ → Option Text → Text
arguments_of uri signature expiry name =
    codes "sr="
    ++ (uri ++ (codes "&sig=" ++ (signature ++ (codes "&se=" ++ last_part expiry name))))

last_part-free :
    (expiry : ℕ) (name : Option Text)
    → NameIsValue name
    → free parts_separator (last_part expiry name) ≡ true
unfolding given is_value free codes
last_part-free n none w = decimal-free parts_separator (omega arith) n
last_part-free n (some []) w = decimal-free parts_separator (omega arith) n
last_part-free n (some (c ∷ s)) w =
    free-append parts_separator (decimal n) (codes "&skn=" ++ (c ∷ s))
      (decimal-free parts_separator (omega arith) n) (ground (arith, w))

split-token_text :
    (uri signature : Text) (expiry : ℕ) (name : Option Text)
    → free parts_separator uri ≡ true
    → is_value signature ≡ true
    → NameIsValue name
    → split parts_separator (token_text uri signature expiry name)
      ≡ codes "SharedAccessSignature" ∷ arguments_of uri signature expiry name ∷ []
unfolding token_text codes split is_value free
split-token_text uri sig n name f g w =
    let last = last_part n name in
    let second = codes "&se=" ++ last in
    let first = codes "&sig=" ++ (sig ++ second) in
    ap (λ parts. codes "SharedAccessSignature" ∷ parts)
      (split-free parts_separator (codes "sr=" ++ (uri ++ first)) (
        free-append parts_separator uri first f
          (free-append parts_separator sig second (ground (arith, g)) (last_part-free n name w))))

device_segments :
    (hostname device_id : Text)
    → free uri_separator hostname ≡ true
    → free uri_separator device_id ≡ true
    → split uri_separator (hostname ++ (codes "/devices/" ++ device_id))
      ≡ hostname ∷ codes "devices" ∷ device_id ∷ []
unfolding codes split
device_segments h d f g =
    split-append uri_separator h (codes "devices/" ++ d) f
    ∙ ap (λ parts. h ∷ codes "devices" ∷ parts) (split-free uri_separator d g)

module_segments :
    (hostname device_id module_id : Text)
    → free uri_separator hostname ≡ true
    → free uri_separator device_id ≡ true
    → free uri_separator module_id ≡ true
    → split uri_separator
        (hostname ++ (codes "/devices/" ++ (device_id ++ (codes "/modules/" ++ module_id))))
      ≡ hostname ∷ codes "devices" ∷ device_id ∷ codes "modules" ∷ module_id ∷ []
unfolding codes split
module_segments h d m f g k =
    split-append uri_separator h (codes "devices/" ++ (d ++ (codes "/modules/" ++ m))) f
    ∙ ap (λ parts. h ∷ codes "devices" ∷ parts)
        (split-append uri_separator d (codes "modules/" ++ m) g
          ∙ ap (λ parts. d ∷ codes "modules" ∷ parts) (split-free uri_separator m k))

-- The segments of a resource uri are read.
provider_of-resource_uri :
    (token hostname device_id : Text) (module_id : Option Text)
    → free uri_separator hostname ≡ true
    → free uri_separator device_id ≡ true
    → free uri_separator (text_of (given module_id)) ≡ true
    → provider_of token (split uri_separator (resource_uri hostname device_id module_id))
      ≡ some (record {
        hostname = hostname;
        device_id = device_id;
        module_id = given module_id;
        sas_token_str = token;
      })
unfolding provider_of resource_uri given codes get_elem?
provider_of-resource_uri token h d none f g k = ap (provider_of token) (device_segments h d f g)
provider_of-resource_uri token h d (some []) f g k =
    ap (provider_of token) (device_segments h d f g)
provider_of-resource_uri token h d (some (c ∷ m)) f g k =
    ap (provider_of token) (module_segments h d (c ∷ m) f g k)

quoted_given :
    (quote_plus unquote_plus : Text → Text)
    → IsUriQuoting quote_plus unquote_plus
    → (s : Text) (c : ℕ) (t : Text) → is_given (some (quote_plus (s ++ (c ∷ t)))) ≡ true
quoted_given q u w [] c t = w.not_empty c t
quoted_given q u w (d ∷ s) c t = w.not_empty d (s ++ (c ∷ t))

resource_uri-given :
    (quote_plus unquote_plus : Text → Text)
    → IsUriQuoting quote_plus unquote_plus
    → (hostname device_id : Text) (module_id : Option Text)
    → is_given (some (quote_plus (resource_uri hostname device_id module_id))) ≡ true
unfolding resource_uri given codes
resource_uri-given q u w h d none = quoted_given q u w h uri_separator (codes "devices/" ++ d)
resource_uri-given q u w h d (some []) = quoted_given q u w h uri_separator (codes "devices/" ++ d)
resource_uri-given q u w h d (some (c ∷ m)) =
    quoted_given q u w h uri_separator (codes "devices/" ++ (d ++ (codes "/modules/" ++ (c ∷ m))))

-- A token that a renewable provider builds is read as its host name, its device and its module:
-- for `quote_plus` and `unquote_plus` as urllib documents them, names without a slash, and a
-- signature and a key name that are not empty and have no space and no "&".
pub parse_signature-token_text :
    (quote_plus unquote_plus : Text → Text)
    → IsUriQuoting quote_plus unquote_plus
    → (hostname device_id : Text) (module_id : Option Text) (signature : Text) (expiry : ℕ)
      (name : Option Text)
    → free uri_separator hostname ≡ true
    → free uri_separator device_id ≡ true
    → free uri_separator (text_of (given module_id)) ≡ true
    → is_value signature ≡ true
    → NameIsValue name
    → let uri = quote_plus (resource_uri hostname device_id module_id) in
      let token = token_text uri signature expiry name in
      parse_signature unquote_plus token
      ≡ some (record {
        hostname = hostname;
        device_id = device_id;
        module_id = given module_id;
        sas_token_str = token;
      })
unfolding parse_signature get_elem?
parse_signature-token_text q u w h d m sig n name fh fd fm g k =
    let resource = resource_uri h d m in
    let uri = q resource in
    let token = token_text uri sig n name in
    let read = λ (parts : List Text). elim (get_elem? parts 1) as (λ _. Option SasProvider) [
      | none ↦ none
      | some arguments ↦ elim (cut_all (split delimiter arguments)) [
        | none ↦ none
        | some entries ↦ checked u token (length parts) entries
      ]
    ] in
    let decide = λ (o : Option (List (Text × Text))). elim o as (λ _. Option SasProvider) [
      | none ↦ none
      | some entries ↦ checked u token 2 entries
    ] in
    ap read (split-token_text uri sig n name (w.no_space resource) g k)
    ∙ ap decide (all_entries uri sig n name (w.no_ampersand resource) g k)
    ∙ checked-entries u token uri sig n name (resource_uri-given q u w h d m) g
    ∙ ap (λ s. provider_of token (split uri_separator s)) (w.inverse resource)
    ∙ provider_of-resource_uri token h d m fh fd fm
