-- ===== src/Hub/Received/Formats.antt =====
-- The topics of the formats that mqtt_topic_iothub.py documents, and what is read of them.
use mathlib.Core.List.{append_assoc}
use azure_iot_sdk_python_pre.Prelude.{
  ℕ, ◌≡◌, refl, ◌∙◌, ap, Bool, true, ◌&&◌, Option, none, some, [], ◌∷◌, ◌++◌, length, leb, arith,
  if◌then◌else◌,
}
use azure_iot_sdk_python_pre.Prelude.Dict.{Dict, lookup, insert, erase}
use azure_iot_sdk_python_pre.Text.{
  get_elem?, Text, codes, equal, text_eq, split, free, split-free, split-append, free-append,
}
use azure_iot_sdk_python_pre.Hub.Received.{
  slash, question, ampersand, equals, starts_with, contains, is_method_topic,
  is_twin_response_topic, get_method_name_from_topic, get_twin_status_code_from_topic, strip,
  extract_pairs, extract_properties, request_id_of, get_method_request_id_from_topic,
  get_twin_request_id_from_topic,
}

-- "%" and "+" are what `unquote_plus` replaces.
abbrev pub percent : ℕ
percent = 37

abbrev pub plus : ℕ
plus = 43

-- A part of a topic or of its query that no code treats as more than one.
unfoldable pub is_plain : Text → Bool
unfolding free
is_plain s =
    free slash s
    && free question s
    && free ampersand s
    && free equals s
    && free percent s
    && free plus s

-- "$iothub/methods/POST/{method name}/?$rid={request id}"
unfoldable pub method_topic : Text → Text → Text
unfolding codes
method_topic name request_id =
    (codes "$iothub/methods/POST/" ++ (name ++ codes "/"))
    ++ (question ∷ (codes "$rid=" ++ request_id))

-- "$iothub/twin/res/{status}/?$rid={request id}"
unfoldable pub twin_response_topic : Text → Text → Text
unfolding codes
twin_response_topic status request_id =
    (codes "$iothub/twin/res/" ++ (status ++ codes "/"))
    ++ (question ∷ (codes "$rid=" ++ request_id))

module _ (unquote_plus : Text → Text)
    (unchanged : (s : Text) → free percent s ≡ true → free plus s ≡ true → unquote_plus s ≡ s) where
  query-id :
      (request_id : Text)
      → is_plain request_id ≡ true
      → extract_properties unquote_plus (codes "$rid=" ++ request_id)
        ≡ some ((codes "rid", request_id) ∷ [])
  unfolding extract_properties extract_pairs codes is_plain free strip get_elem? insert erase
  query-id r h = ground (
    arith,
    split-free ampersand (codes "$rid=" ++ r),
    split-append equals (codes "$rid") r,
    split-free equals r,
    unchanged r,
    unchanged (codes "$rid") refl refl,
  )

  query_part :
      (before query : Text)
      → free question before ≡ true
      → free question query ≡ true
      → get_elem? (split question (before ++ question ∷ query)) 1 ≡ some query
  unfolding get_elem?
  query_part s q f g =
      ap (λ parts. get_elem? parts 1) (split-append question s q f)
      ∙ ap (λ parts. get_elem? parts 0) (split-free question q g)

  abbrev from_pairs : Option (Dict Text Text) → Option Text
  from_pairs o = elim o [ none ↦ none | some d ↦ lookup (codes "rid") d ]

  abbrev from_query : Option Text → Option Text
  from_query o = elim o [
    | none ↦ none
    | some query ↦ from_pairs (extract_properties unquote_plus query)
  ]

  -- The id of a topic whose part before the query has no question mark.
  request_id-query :
      (before request_id : Text)
      → free question before ≡ true
      → is_plain request_id ≡ true
      → request_id_of unquote_plus (before ++ (question ∷ (codes "$rid=" ++ request_id)))
        ≡ some request_id
  unfolding request_id_of codes lookup equal free is_plain
  request_id-query s r f h =
      ap from_query (query_part s (codes "$rid=" ++ r) f (ground (arith, h)))
      ∙ ap from_pairs (query-id r h)

-- The parts of a text whose first one is followed by one without a slash.
split-two :
    (part query : Text)
    → free slash part ≡ true
    → free slash query ≡ true
    → split slash ((part ++ codes "/") ++ query) ≡ part ∷ query ∷ []
unfolding codes
split-two s q f g =
    ap (split slash) (append_assoc s (slash ∷ []) q)
    ∙ split-append slash s q f
    ∙ ap (λ parts. s ∷ parts) (split-free slash q g)

method_topic-parts :
    (name request_id : Text)
    → is_plain name ≡ true
    → is_plain request_id ≡ true
    → split slash (method_topic name request_id)
      ≡ codes "$iothub"
        ∷ codes "methods"
        ∷ codes "POST"
        ∷ name
        ∷ (question ∷ (codes "$rid=" ++ request_id))
        ∷ []
unfolding method_topic codes split free is_plain
method_topic-parts n r h k =
    ap (λ parts. codes "$iothub" ∷ codes "methods" ∷ codes "POST" ∷ parts)
      (split-two n (question ∷ (codes "$rid=" ++ r)) (ground (arith, h)) (ground (arith, k)))

twin_topic-parts :
    (status request_id : Text)
    → is_plain status ≡ true
    → is_plain request_id ≡ true
    → split slash (twin_response_topic status request_id)
      ≡ codes "$iothub"
        ∷ codes "twin"
        ∷ codes "res"
        ∷ status
        ∷ (question ∷ (codes "$rid=" ++ request_id))
        ∷ []
unfolding twin_response_topic codes split free is_plain
twin_topic-parts n r h k =
    ap (λ parts. codes "$iothub" ∷ codes "twin" ∷ codes "res" ∷ parts)
      (split-two n (question ∷ (codes "$rid=" ++ r)) (ground (arith, h)) (ground (arith, k)))

-- A topic of a method request with a plain name and a plain id is read as this name and this id:
-- for an `unquote_plus` that leaves a text without "%" and "+" as it is.
pub method_topic-read :
    (unquote_plus : Text → Text)
    → ((s : Text) → free percent s ≡ true → free plus s ≡ true → unquote_plus s ≡ s)
    → (name request_id : Text) → is_plain name ≡ true
    → is_plain request_id ≡ true
    → (get_method_name_from_topic (method_topic name request_id) ≡ some name)
      × (get_method_request_id_from_topic unquote_plus (method_topic name request_id)
          ≡ some request_id)
unfolding get_method_name_from_topic get_method_request_id_from_topic is_method_topic contains
    starts_with get_elem? method_topic codes is_plain free
method_topic-read u l n r h k = (
  ap (λ parts. get_elem? parts 3) (method_topic-parts n r h k),
  ap (λ parts. if leb 4 (length parts) then request_id_of u (method_topic n r) else none)
        (method_topic-parts n r h k)
      ∙ request_id-query u l (codes "$iothub/methods/POST/" ++ (n ++ codes "/")) r
          (free-append question n (codes "/") (ground (arith, h)) refl) k,
)

-- A topic of the answer to a twin request with a plain status and a plain id is read as this status
-- and this id: for an `unquote_plus` that leaves a text without "%" and "+" as it is.
pub twin_response_topic-read :
    (unquote_plus : Text → Text)
    → ((s : Text) → free percent s ≡ true → free plus s ≡ true → unquote_plus s ≡ s)
    → (status request_id : Text) → is_plain status ≡ true
    → is_plain request_id ≡ true
    → (get_twin_status_code_from_topic (twin_response_topic status request_id) ≡ some status)
      × (get_twin_request_id_from_topic unquote_plus (twin_response_topic status request_id)
          ≡ some request_id)
unfolding get_twin_status_code_from_topic get_twin_request_id_from_topic is_twin_response_topic
    starts_with get_elem? twin_response_topic codes is_plain free
twin_response_topic-read u l n r h k = (
  ap (λ parts. get_elem? parts 3) (twin_topic-parts n r h k),
  ap (λ parts. if leb 4 (length parts) then request_id_of u (twin_response_topic n r) else none)
        (twin_topic-parts n r h k)
      ∙ request_id-query u l (codes "$iothub/twin/res/" ++ (n ++ codes "/")) r
          (free-append question n (codes "/") (ground (arith, h)) refl) k,
)
