-- ===== src/Auth/Signature/Entries.antt =====
-- The entries of a token of `BaseRenewableTokenAuthenticationProvider`, as
-- `SharedAccessSignatureAuthenticationProvider` reads them.
use azure_iot_sdk_python_pre.Prelude.{
  ℕ, ◌≡◌, refl, ◌∙◌, ap, Bool, true, ◌&&◌, Option, none, some, List, [], ◌∷◌, ◌++◌, ◌%◌, ◌+◌, arith,
}
use Prim.Native.Nat.{◌/◌}
use azure_iot_sdk_python_pre.Prelude.Dict.{lookup, insert, erase}
use azure_iot_sdk_python_pre.Text.{
  Text, codes, equal, text_eq, split, cut, free, split-free, split-append,
}
use azure_iot_sdk_python_pre.Text.Decimal.{decimal, decimal-free, digits}
use azure_iot_sdk_python_pre.ConnectionString.{
  cs_val_separator as equals, is_in, is_given, cut_all, fill,
}
use azure_iot_sdk_python_pre.Auth.Token.{given}
use azure_iot_sdk_python_pre.Auth.Signature.{
  parts_separator, delimiter, uri_separator, sas_keys, keys_in, validate_required_keys, provider_of,
  checked,
}

-- What urllib documents of `quote_plus` and `unquote_plus`: the one inverts the other, a quoted
-- text has no space and no "&", and it is empty only for the empty text.
pub record IsUriQuoting (quote_plus unquote_plus : Text → Text) : Type 0 where
  pub inverse : (s : Text) → unquote_plus (quote_plus s) ≡ s
  pub no_space : (s : Text) → free parts_separator (quote_plus s) ≡ true
  pub no_ampersand : (s : Text) → free delimiter (quote_plus s) ≡ true
  pub not_empty : (c : ℕ) (s : Text) → is_given (some (quote_plus (c ∷ s))) ≡ true

-- A value of the token: not empty, without a space and without "&".
unfoldable pub is_value : Text → Bool
unfolding is_given free
is_value s = is_given (some s) && free parts_separator s && free delimiter s

-- The last part of the token.
abbrev pub last_part : ℕ → Option Text → Text
last_part expiry name = elim (given name) [
  | none ↦ decimal expiry
  | some n ↦ decimal expiry ++ (codes "&skn=" ++ n)
]

abbrev pub name_entries : Option Text → List (Text × Text)
name_entries name = elim (given name) [ none ↦ [] | some n ↦ (codes "skn", n) ∷ [] ]

-- The entries of a token.
abbrev pub token_entries : Text → Text → ℕ → Option Text → List (Text × Text)
token_entries uri signature expiry name =
    (codes "sr", uri) ∷ (codes "sig", signature) ∷ (codes "se", decimal expiry) ∷ name_entries name

abbrev pub NameIsValue : Option Text → Type 0
NameIsValue none = Unit
NameIsValue (some []) = Unit
NameIsValue (some (c ∷ s)) = is_value (c ∷ s) ≡ true

last_entries :
    (expiry : ℕ) (name : Option Text)
    → NameIsValue name
    → cut_all (split delimiter (codes "se=" ++ last_part expiry name))
      ≡ some ((codes "se", decimal expiry) ∷ name_entries name)
unfolding cut_all cut codes free given is_value
last_entries n none w = ap cut_all (
    split-free delimiter (codes "se=" ++ decimal n)
      (ground (arith, decimal-free delimiter (omega arith) n)))
last_entries n (some []) w = ap cut_all (
    split-free delimiter (codes "se=" ++ decimal n)
      (ground (arith, decimal-free delimiter (omega arith) n)))
last_entries n (some (c ∷ s)) w = ap cut_all (
    split-append delimiter (codes "se=" ++ decimal n) (codes "skn=" ++ (c ∷ s))
      (ground (arith, decimal-free delimiter (omega arith) n))
    ∙ ap (λ parts. (codes "se=" ++ decimal n) ∷ parts)
        (split-free delimiter (codes "skn=" ++ (c ∷ s)) (ground (arith, w))))

cut_all-cons :
    (s : Text) (ss : List Text) {x : Text × Text} {xs : List (Text × Text)}
    → cut equals s ≡ some x
    → cut_all ss ≡ some xs
    → cut_all (s ∷ ss) ≡ some (x ∷ xs)
unfolding cut_all
cut_all-cons s ss h k = ground (arith, h, k)

pub all_entries :
    (uri signature : Text) (expiry : ℕ) (name : Option Text)
    → free delimiter uri ≡ true
    → is_value signature ≡ true
    → NameIsValue name
    → cut_all (
        split delimiter (
          codes "sr="
          ++ (uri ++ (codes "&sig=" ++ (signature ++ (codes "&se=" ++ last_part expiry name))))))
      ≡ some (token_entries uri signature expiry name)
unfolding codes free is_value cut
all_entries uri sig n name f g w =
    ap cut_all (
      split-append delimiter (codes "sr=" ++ uri)
        (codes "sig=" ++ (sig ++ (codes "&se=" ++ last_part n name))) (ground (arith, f))
      ∙ ap (λ parts. (codes "sr=" ++ uri) ∷ parts)
          (split-append delimiter (codes "sig=" ++ sig) (codes "se=" ++ last_part n name)
            (ground (arith, g))))
    ∙ cut_all-cons (codes "sr=" ++ uri) _ refl
        (cut_all-cons (codes "sig=" ++ sig) _ refl (last_entries n name w))

is_given-append : (s : Text) (c : ℕ) (t : Text) → is_given (some (s ++ (c ∷ t))) ≡ true
unfolding is_given
is_given-append [] c t = refl
is_given-append (d ∷ s) c t = refl

is_given-decimal : (n : ℕ) → is_given (some (decimal n)) ≡ true
unfolding decimal digits is_given
is_given-decimal n = ground (arith, is_given-append (digits n (n / 10)) (48 + n % 10) [])

pub checked-entries :
    (u : Text → Text) (token uri signature : Text) (expiry : ℕ) (name : Option Text)
    → is_given (some uri) ≡ true
    → is_value signature ≡ true
    → checked u token 2 (token_entries uri signature expiry name)
      ≡ provider_of token (split uri_separator (u uri))
unfolding checked sas_keys keys_in validate_required_keys fill codes lookup insert erase equal is_in
    is_value given
checked-entries u token uri sig n none g h = ground (arith, g, h, is_given-decimal n)
checked-entries u token uri sig n (some []) g h = ground (arith, g, h, is_given-decimal n)
checked-entries u token uri sig n (some (c ∷ s)) g h = ground (arith, g, h, is_given-decimal n)
