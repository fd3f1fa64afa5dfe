-- ===== src/Hub/Received/Encoding.antt =====
-- Properties that urllib encoded are read back from the topic of a message.
use mathlib.Core.Bool.{false≢true}
use azure_iot_sdk_python_pre.Prelude.{
  ℕ, ◌≡◌, refl, ◌∙◌, ap, sym, inl, inr, Bool-cases, ==_iff, Bool, true, false, Option, none, some,
  List, [], ◌∷◌, ◌++◌, map, arith, if◌then◌else◌,
}
use azure_iot_sdk_python_pre.Text.{
  get_elem?, Text, codes, equal, equal_iff, text_eq, split, free, split-free, split-append,
  free-append,
}
use azure_iot_sdk_python_pre.Hub.Received.{slash, ampersand, equals}
use azure_iot_sdk_python_pre.Hub.Received.Properties.{
  Properties, set_property, properties_part, read_pairs, read_properties,
  extract_properties_from_topic, set_all, encode_pair, urlencode, c2d_topic,
}

-- What urllib documents of the two functions: the one inverts the other, and a quoted text has
-- none of "/", "&" and "=".
pub record IsQuoting (quote_plus unquote_plus : Text → Text) : Type 0 where
  pub inverse : (s : Text) → unquote_plus (quote_plus s) ≡ s
  pub no_slash : (s : Text) → free slash (quote_plus s) ≡ true
  pub no_ampersand : (s : Text) → free ampersand (quote_plus s) ≡ true
  pub no_equals : (s : Text) → free equals (quote_plus s) ≡ true

module _ (q u : Text → Text) (w : IsQuoting q u) where
  pair-free :
      (d : ℕ) (x : Text × Text)
      → free d (q x.0) ≡ true
      → free d (equals ∷ q x.1) ≡ true
      → free d (encode_pair q x) ≡ true
  unfolding encode_pair
  pair-free d x f g = free-append d (q x.0) (equals ∷ q x.1) f g

  pair-ampersand : (x : Text × Text) → free ampersand (encode_pair q x) ≡ true
  unfolding free
  pair-ampersand x = pair-free ampersand x (w.no_ampersand x.0) (ground (arith, w.no_ampersand x.1))

  urlencode-slash :
      (x : Text × Text) (ps : List (Text × Text)) → free slash (urlencode q x ps) ≡ true
  unfolding urlencode free
  urlencode-slash x [] = pair-free slash x (w.no_slash x.0) (ground (arith, w.no_slash x.1))
  urlencode-slash x (y ∷ ps) =
      free-append slash (encode_pair q x) (ampersand ∷ urlencode q y ps)
        (pair-free slash x (w.no_slash x.0) (ground (arith, w.no_slash x.1)))
        (ground (arith, urlencode-slash y ps))

  split-urlencode :
      (x : Text × Text) (ps : List (Text × Text))
      → split ampersand (urlencode q x ps) ≡ map (encode_pair q) (x ∷ ps)
  unfolding urlencode
  split-urlencode x [] = split-free ampersand (encode_pair q x) (pair-ampersand x)
  split-urlencode x (y ∷ ps) =
      split-append ampersand (encode_pair q x) (urlencode q y ps) (pair-ampersand x)
      ∙ ap (λ parts. encode_pair q x ∷ parts) (split-urlencode y ps)

  split-pair : (x : Text × Text) → split equals (encode_pair q x) ≡ q x.0 ∷ q x.1 ∷ []
  unfolding encode_pair
  split-pair x =
      split-append equals (q x.0) (q x.1) (w.no_equals x.0)
      ∙ ap (λ parts. q x.0 ∷ parts) (split-free equals (q x.1) (w.no_equals x.1))

  read_pairs-map :
      (ps : List (Text × Text)) (p : Properties)
      → read_pairs u (map (encode_pair q) ps) p ≡ some (set_all ps p)
  unfolding read_pairs set_all get_elem?
  read_pairs-map [] p = refl
  read_pairs-map ((k, v) ∷ ps) p =
      ground
        (arith, split-pair (k, v), w.inverse k, w.inverse v, read_pairs-map ps (set_property k v p))

  abbrev is_empty : Text → Bool
  is_empty [] = true
  is_empty (c ∷ s) = false

  not_empty : (s : Text) (c : ℕ) (t : Text) → is_empty (s ++ (c ∷ t)) ≡ false
  not_empty [] c t = refl
  not_empty (d ∷ s) c t = refl

  urlencode-not_empty :
      (x : Text × Text) (ps : List (Text × Text)) → is_empty (urlencode q x ps) ≡ false
  unfolding urlencode encode_pair
  urlencode-not_empty x [] = not_empty (q x.0) equals (q x.1)
  urlencode-not_empty x (y ∷ ps) = not_empty (encode_pair q x) ampersand (urlencode q y ps)

  read_properties-some :
      (s : Text) (p : Properties)
      → is_empty s ≡ false
      → read_properties u (some s) p ≡ read_pairs u (split ampersand s) p
  unfolding read_properties
  read_properties-some [] p h = ground arith
  read_properties-some (c ∷ s) p h = refl

  not_free : (d : ℕ) (s t : Text) → free d (s ++ (d ∷ t)) ≡ false
  unfolding free
  not_free d [] t = ground (arith, ==_iff d d)
  not_free d (c ∷ s) t = ground (arith, not_free d s t)

  not_free-append : (d : ℕ) (s t : Text) → free d s ≡ false → free d (s ++ t) ≡ false
  unfolding free
  not_free-append d [] t h = ground arith
  not_free-append d (c ∷ s) t h = ground (arith, not_free-append d s t)

  urlencode-not_free :
      (x : Text × Text) (ps : List (Text × Text)) → free equals (urlencode q x ps) ≡ false
  unfolding urlencode encode_pair
  urlencode-not_free x [] = not_free equals (q x.0) (q x.1)
  urlencode-not_free x (y ∷ ps) =
      not_free-append equals (encode_pair q x) (ampersand ∷ urlencode q y ps)
        (not_free equals (q x.0) (q x.1))

  -- Encoded properties are no "inputs".
  urlencode-inputs :
      (x : Text × Text) (ps : List (Text × Text))
      → equal (urlencode q x ps) (codes "inputs") ≡ false
  unfolding codes free
  urlencode-inputs x ps = elim (Bool-cases (equal (urlencode q x ps) (codes "inputs"))) [
    | inr other ↦ other
    | inl same ↦ absurd (
        false≢true (
          sym (urlencode-not_free x ps)
          ∙ ap (free equals) ((equal_iff (urlencode q x ps) (codes "inputs")).0 same)))
  ]

  -- The parts of a topic of a message to a device are read.
  read_parts :
      (device_id : Text) (x : Text × Text) (ps : List (Text × Text))
      → properties_part (
          codes "devices"
          ∷ device_id
          ∷ codes "messages"
          ∷ codes "devicebound"
          ∷ urlencode q x ps
          ∷ [])
        ≡ some (some (urlencode q x ps))
  unfolding properties_part get_elem? codes equal
  read_parts d x ps =
      ap (λ (b : Bool). if b then some none else some (some (urlencode q x ps)))
        (urlencode-inputs x ps)

-- The parts of a topic of a message to a device.
split-c2d_topic :
    (device_id properties : Text)
    → free slash device_id ≡ true
    → free slash properties ≡ true
    → split slash (c2d_topic device_id properties)
      ≡ codes "devices" ∷ device_id ∷ codes "messages" ∷ codes "devicebound" ∷ properties ∷ []
unfolding c2d_topic codes split
split-c2d_topic d s f g =
    ap (λ parts. codes "devices" ∷ parts)
      (split-append slash d (codes "messages/devicebound/" ++ s) f
        ∙ ap (λ parts. d ∷ codes "messages" ∷ codes "devicebound" ∷ parts) (split-free slash s g))

-- A topic of a message to a device, with properties that urllib encoded, sets these properties one
-- after the other: for `quote_plus` and `unquote_plus` as urllib documents them, and a device id
-- without a slash.
pub extract_properties_from_topic-urlencode :
    (quote_plus unquote_plus : Text → Text)
    → IsQuoting quote_plus unquote_plus
    → (device_id : Text) (x : Text × Text) (ps : List (Text × Text)) (p : Properties)
    → free slash device_id ≡ true
    → extract_properties_from_topic unquote_plus (c2d_topic device_id (urlencode quote_plus x ps)) p
      ≡ some (set_all (x ∷ ps) p)
unfolding extract_properties_from_topic
extract_properties_from_topic-urlencode q u w d x ps p f =
    let read = λ (o : Option (Option Text)). elim o as (λ _. Option Properties) [
      | none ↦ none
      | some properties ↦ read_properties u properties p
    ] in
    ap (λ parts. read (properties_part parts))
      (split-c2d_topic d (urlencode q x ps) f (urlencode-slash q u w x ps))
    ∙ ap read (read_parts q u w d x ps)
    ∙ read_properties-some q u w (urlencode q x ps) p (urlencode-not_empty q u w x ps)
    ∙ ap (λ parts. read_pairs u parts p) (split-urlencode q u w x ps)
    ∙ read_pairs-map q u w (x ∷ ps) p
