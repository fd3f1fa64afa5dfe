-- ===== src/Hub/Message.antt =====
-- iothub/models/message.py and iothub/models/methods.py, and JSON values.
use azure_iot_sdk_python_pre.Prelude.{String, List, [], Option, none}

-- A JSON-compatible value, by the text that `json.dumps` gives for it.
pub record Json : Type 0 where
  pub dumps : String

-- `expiry_time_utc`: a `date`, by its `isoformat()`, or a text.
pub data Expiry : Type 0 where
  date text : String → Expiry

pub record Message : Type 0 where
  pub payload : String
  pub custom_properties : List (String × String)
  pub message_id : Option String
  pub to : Option String
  pub expiry_time_utc : Option Expiry
  pub correlation_id : Option String
  pub user_id : Option String
  pub content_encoding : Option String
  pub content_type : Option String
  pub output_name : Option String

-- `Message(data)`
unfoldable pub new_message : String → Message
new_message s = record {
  payload = s;
  custom_properties = [];
  message_id = none;
  to = none;
  expiry_time_utc = none;
  correlation_id = none;
  user_id = none;
  content_encoding = none;
  content_type = none;
  output_name = none;
}

-- What an application gives `send_d2c_message` and `send_to_output`: a `Message`, or other data, by its text.
pub data Sendable : Type 0 where
  message : Message → Sendable
  data_of : String → Sendable

-- `if not isinstance(message, Message): message = Message(message)`
unfoldable pub as_message : Sendable → Message
unfolding new_message
as_message (message m) = m
as_message (data_of s) = new_message s

-- `status` by its `str`.
pub record MethodResponse : Type 0 where
  pub request_id : String
  pub status : String
  pub payload : Json

pub record MethodRequest : Type 0 where
  pub request_id : String
  pub name : String
  pub payload : Json

-- `MethodResponse.create_from_method_request`
unfoldable pub create_from_method_request : MethodRequest → String → Json → MethodResponse
create_from_method_request r status payload = record {
  request_id = r.request_id;
  status = status;
  payload = payload;
}
