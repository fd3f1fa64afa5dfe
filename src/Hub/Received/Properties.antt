-- ===== src/Hub/Received/Properties.antt =====
-- `extract_properties_from_topic` of iothub/pipeline/mqtt_topic_iothub.py, against urllib's encoding
-- of properties. A message stands here for the attributes that the function sets.
use azure_iot_sdk_python_pre.Prelude.{Option, none, some, List, [], ◌∷◌, ◌++◌, if◌then◌else◌}
use azure_iot_sdk_python_pre.Prelude.Dict.{Dict, insert}
use azure_iot_sdk_python_pre.Text.{get_elem?, Text, codes, equal, text_eq, split}
use azure_iot_sdk_python_pre.Hub.Received.{slash, ampersand, equals}

pub record Properties : Type 0 where
  pub message_id : Option Text
  pub correlation_id : Option Text
  pub user_id : Option Text
  pub to : Option Text
  pub content_type : Option Text
  pub content_encoding : Option Text
  pub custom_properties : Dict Text Text

unfoldable pub set_property : Text → Text → Properties → Properties
unfolding equal codes
set_property key value p =
    if equal key (codes "$.mid")
    then record p { message_id = some value }
    else if equal key (codes "$.cid")
    then record p { correlation_id = some value }
    else if equal key (codes "$.uid")
    then record p { user_id = some value }
    else if equal key (codes "$.to")
    then record p { to = some value }
    else if equal key (codes "$.ct")
    then record p { content_type = some value }
    else if equal key (codes "$.ce")
    then record p { content_encoding = some value }
    else record p { custom_properties = insert key value p.custom_properties }

-- The part of a topic that has the properties, if there is one; no topic of another format has one.
unfoldable pub properties_part : List Text → Option (Option Text)
unfolding get_elem? equal codes
properties_part parts =
    let devicebound : Option (Option Text) = elim (get_elem? parts 3) [
      | none ↦ none
      | some kind ↦ if equal kind (codes "devicebound") then some (get_elem? parts 4) else none
    ] in
    elim (get_elem? parts 4) [
      | none ↦ devicebound
      | some kind ↦ if equal kind (codes "inputs") then some (get_elem? parts 6) else devicebound
    ]

module _ (unquote_plus : Text → Text) where
  -- The loop over the pairs; a pair without a separator raises.
  unfoldable pub read_pairs : List Text → Properties → Option Properties
  unfolding split get_elem? set_property
  read_pairs [] p = some p
  read_pairs (pair ∷ pairs) p =
      let parts = split equals pair in
      elim (get_elem? parts 0) [
        | none ↦ none
        | some key ↦ elim (get_elem? parts 1) [
          | none ↦ none
          | some value ↦ read_pairs pairs (set_property (unquote_plus key) (unquote_plus value) p)
        ]
      ]

  unfoldable pub read_properties : Option Text → Properties → Option Properties
  unfolding read_pairs split
  read_properties none p = some p
  read_properties (some []) p = some p
  read_properties (some (c ∷ s)) p = read_pairs (split ampersand (c ∷ s)) p

  unfoldable pub extract_properties_from_topic : Text → Properties → Option Properties
  unfolding properties_part read_properties split
  extract_properties_from_topic topic p = elim (properties_part (split slash topic)) [
    | none ↦ none
    | some properties ↦ read_properties properties p
  ]

-- The properties one after the other, in order.
unfoldable pub set_all : List (Text × Text) → Properties → Properties
set_all [] p = p
set_all ((k, v) ∷ ps) p = set_all ps (set_property k v p)

module _ (quote_plus : Text → Text) where
  unfoldable pub encode_pair : Text × Text → Text
  encode_pair x = quote_plus x.0 ++ (equals ∷ quote_plus x.1)

  -- `urlencode` of the pairs, the first apart
  unfoldable pub urlencode : Text × Text → List (Text × Text) → Text
  unfolding encode_pair
  urlencode x [] = encode_pair x
  urlencode x (y ∷ ps) = encode_pair x ++ (ampersand ∷ urlencode y ps)

-- "devices/{device id}/messages/devicebound/{properties}"
unfoldable pub c2d_topic : Text → Text → Text
unfolding codes
c2d_topic device_id properties =
    codes "devices/" ++ (device_id ++ (codes "/messages/devicebound/" ++ properties))
