-- ===== src/Hub/Incoming/Routing.antt =====
-- The topics that mqtt_topic_iothub.py documents, and the events that they become.
use mathlib.Core.Option
use azure_iot_sdk_python_pre.Prelude.{
  ◌≤◌, ◌≡◌, refl, true, false, Option, some, List, [], ◌∷◌, ◌++◌, arith,
}
use azure_iot_sdk_python_pre.Text.{Text, codes, free}
use azure_iot_sdk_python_pre.Hub.Received.{
  slash, question, starts_with, contains, is_c2d_topic, is_input_topic, is_method_topic,
  is_twin_response_topic,
}
use azure_iot_sdk_python_pre.Hub.Received.Formats.{
  percent, plus, is_plain, method_topic, twin_response_topic, method_topic-read,
  twin_response_topic-read,
}
use azure_iot_sdk_python_pre.Hub.Received.Properties.{set_all, urlencode, c2d_topic}
use azure_iot_sdk_python_pre.Hub.Received.Encoding.{
  IsQuoting, extract_properties_from_topic-urlencode,
}
use azure_iot_sdk_python_pre.Hub.Incoming.{
  c2d_message, method_request, iot_response, no_properties, formatted, Decoders, on_c2d, on_method,
  on_twin_response, handle_pipeline_event,
}
use azure_iot_sdk_python_pre.Hub.Incoming.Patterns.{
  count, count-append, count-free, few-is_c2d_topic, few-is_input_topic, contains-few,
}

-- What follows the name in a topic: one slash.
named : Text → Text → Text
named name request_id = (name ++ codes "/") ++ (question ∷ (codes "$rid=" ++ request_id))

named-count :
    (name request_id : Text)
    → is_plain name ≡ true
    → is_plain request_id ≡ true
    → count slash (named name request_id) ≡ 1
unfolding named codes count is_plain
named-count n r h k = ground (
  arith,
  count-append slash (n ++ codes "/") (question ∷ (codes "$rid=" ++ r)),
  count-append slash n (codes "/"),
  count-free slash n,
  count-free slash r,
  h,
  k,
)

-- The literal part of a topic of a method has none of the patterns.
method_topic-c2d :
    (device_id name request_id : Text)
    → is_c2d_topic (method_topic name request_id) device_id
      ≡ is_c2d_topic (named name request_id) device_id
unfolding is_c2d_topic contains starts_with codes method_topic named
method_topic-c2d d n r = refl

method_topic-input :
    (device_id module_id name request_id : Text)
    → is_input_topic (method_topic name request_id) device_id module_id
      ≡ is_input_topic (named name request_id) device_id module_id
unfolding is_input_topic contains starts_with codes method_topic named
method_topic-input d m n r = refl

twin_topic-c2d :
    (device_id name request_id : Text)
    → is_c2d_topic (twin_response_topic name request_id) device_id
      ≡ is_c2d_topic (named name request_id) device_id
unfolding is_c2d_topic contains starts_with codes twin_response_topic named
twin_topic-c2d d n r = refl

twin_topic-input :
    (device_id module_id name request_id : Text)
    → is_input_topic (twin_response_topic name request_id) device_id module_id
      ≡ is_input_topic (named name request_id) device_id module_id
unfolding is_input_topic contains starts_with codes twin_response_topic named
twin_topic-input d m n r = refl

twin_topic-method :
    (name request_id : Text)
    → is_method_topic (twin_response_topic name request_id)
      ≡ contains (codes "$iothub/methods/POST") (named name request_id)
unfolding is_method_topic contains starts_with codes twin_response_topic named
twin_topic-method n r = refl

method_topic-is_method :
    (name request_id : Text) → is_method_topic (method_topic name request_id) ≡ true
unfolding is_method_topic contains starts_with codes method_topic
method_topic-is_method n r = refl

twin_topic-is_twin_response :
    (status request_id : Text)
    → is_twin_response_topic (twin_response_topic status request_id) ≡ true
unfolding is_twin_response_topic starts_with codes twin_response_topic
twin_topic-is_twin_response n r = refl

method-few : (s : Text) → count slash s ≤ 1 → contains (codes "$iothub/methods/POST") s ≡ false
unfolding codes count
method-few s h = contains-few slash (codes "$iothub/methods/POST") s (omega (arith, h))

-- Whatever the device and the module: a message on a documented topic of a method, with a plain name
-- and a plain id, becomes the request with this id, this name and the decoded payload; if the
-- payload is no JSON, the handler raises.
pub handle_pipeline_event-method :
    (env : Decoders)
    → ((s : Text) → free percent s ≡ true → free plus s ≡ true → env.unquote_plus s ≡ s)
    → (device_id module_id : Option Text) (name request_id payload : Text) → is_plain name ≡ true
    → is_plain request_id ≡ true
    → handle_pipeline_event env device_id module_id (method_topic name request_id) payload
      ≡ Option.map (method_request request_id name) (env.loads payload)
unfolding handle_pipeline_event on_method
handle_pipeline_event-method env keeps d m n r payload h k =
    let few : count slash (named n r) ≤ 1 = omega (arith, named-count n r h k) in
    ground (
      arith,
      method_topic-c2d (formatted d) n r,
      few-is_c2d_topic (named n r) (formatted d) few,
      method_topic-input (formatted d) (formatted m) n r,
      few-is_input_topic (named n r) (formatted d) (formatted m) few,
      method_topic-is_method n r,
      method_topic-read env.unquote_plus keeps n r h k,
    )

-- Whatever the device and the module: a message on a documented topic of the answer to a twin request,
-- with a plain status and a plain id, becomes the response with this id, the number of the status
-- and the payload; if the status is no number, the handler raises.
pub handle_pipeline_event-twin_response :
    (env : Decoders)
    → ((s : Text) → free percent s ≡ true → free plus s ≡ true → env.unquote_plus s ≡ s)
    → (device_id module_id : Option Text) (status request_id payload : Text)
    → is_plain status ≡ true
    → is_plain request_id ≡ true
    → handle_pipeline_event env device_id module_id (twin_response_topic status request_id) payload
      ≡ Option.map (λ n. iot_response request_id n payload) (env.int status)
unfolding handle_pipeline_event on_twin_response
handle_pipeline_event-twin_response env keeps d m n r payload h k =
    let few : count slash (named n r) ≤ 1 = omega (arith, named-count n r h k) in
    ground (
      arith,
      twin_topic-c2d (formatted d) n r,
      few-is_c2d_topic (named n r) (formatted d) few,
      twin_topic-input (formatted d) (formatted m) n r,
      few-is_input_topic (named n r) (formatted d) (formatted m) few,
      twin_topic-method n r,
      method-few (named n r) few,
      twin_topic-is_twin_response n r,
      twin_response_topic-read env.unquote_plus keeps n r h k,
    )

starts-append : (d p s : Text) → starts_with (d ++ p) (d ++ (p ++ s)) ≡ true
unfolding starts_with
starts-append [] [] s = refl
starts-append [] (c ∷ p) s = ground (arith, starts-append [] p s)
starts-append (c ∷ d) p s = ground (arith, starts-append d p s)

c2d_topic-is_c2d :
    (device_id rest : Text) → is_c2d_topic (c2d_topic device_id rest) device_id ≡ true
unfolding is_c2d_topic contains starts_with c2d_topic codes
c2d_topic-is_c2d d s = ground (arith, starts-append d (codes "/messages/devicebound") (slash ∷ s))

-- A message on a topic of messages to the device, with properties that urllib encoded, becomes the
-- message with these properties, set one after the other, and its payload: for functions of urllib
-- as documented, and a device id without a slash.
pub handle_pipeline_event-c2d :
    (env : Decoders) (quote_plus : Text → Text)
    → IsQuoting quote_plus env.unquote_plus
    → (device_id payload : Text) (module_id : Option Text) (x : Text × Text)
      (ps : List (Text × Text))
    → free slash device_id ≡ true
    → handle_pipeline_event env
        (some device_id)
        module_id
        (c2d_topic device_id (urlencode quote_plus x ps))
        payload
      ≡ some (c2d_message (set_all (x ∷ ps) no_properties) payload)
unfolding handle_pipeline_event on_c2d formatted
handle_pipeline_event-c2d env q w d payload m x ps f = ground (
  arith,
  c2d_topic-is_c2d d (urlencode q x ps),
  extract_properties_from_topic-urlencode q env.unquote_plus w d x ps no_properties f,
)
