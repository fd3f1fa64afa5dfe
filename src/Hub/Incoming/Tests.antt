-- ===== src/Hub/Incoming/Tests.antt =====
-- The theorems of incoming messages on concrete topics.
use azure_iot_sdk_python_pre.Text.Shift.{shift, unshift, unshift-shift, free-shift}
use azure_iot_sdk_python_pre.Prelude.{
  ℕ, ◌+◌, ◌-◌, ◌*◌, ◌≡◌, refl, Option, none, some, [], ◌∷◌, arith,
}
use azure_iot_sdk_python_pre.Text.{Text, codes, free}
use azure_iot_sdk_python_pre.Hub.Message.{Json}
use azure_iot_sdk_python_pre.Hub.Received.{slash, ampersand, equals}
use azure_iot_sdk_python_pre.Hub.Received.Properties.{set_all, urlencode, c2d_topic}
use azure_iot_sdk_python_pre.Hub.Received.Encoding.{IsQuoting}
use azure_iot_sdk_python_pre.Hub.Incoming.{
  c2d_message, no_properties, Decoders, handle_pipeline_event,
}
use azure_iot_sdk_python_pre.Hub.Incoming.Routing.{handle_pipeline_event-c2d}

loads : Text → Option Json
loads [] = none
loads (c ∷ s) = some (record { dumps = "{}" })

int : Text → Option ℕ
int (c ∷ d ∷ e ∷ []) = some (100 * (c - 48) + 10 * (d - 48) + (e - 48))
int s = none

shift-IsQuoting : IsQuoting shift unshift
shift-IsQuoting = record {
  inverse = unshift-shift;
  no_slash = free-shift slash (omega arith);
  no_ampersand = free-shift ampersand (omega arith);
  no_equals = free-shift equals (omega arith);
}

abbrev quoted : Decoders
quoted = record { unquote_plus = unshift; loads = loads; int = int }

status_200 : int (codes "200") ≡ some 200
unfolding int codes
status_200 = refl

handle_pipeline_event-c2d_example :
    handle_pipeline_event quoted
      (some (codes "d"))
      none
      (c2d_topic
        (codes "d")
        (urlencode shift (codes "$.mid", codes "7") ((codes "colour", codes "a=b&c") ∷ [])))
      (codes "hello")
    ≡ some (
        c2d_message
          (set_all
            ((codes "$.mid", codes "7") ∷ (codes "colour", codes "a=b&c") ∷ [])
            no_properties)
          (codes "hello"))
unfolding codes free
handle_pipeline_event-c2d_example =
    handle_pipeline_event-c2d quoted shift shift-IsQuoting (codes "d") (codes "hello") none
      (codes "$.mid", codes "7") ((codes "colour", codes "a=b&c") ∷ []) refl
