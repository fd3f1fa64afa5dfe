-- ===== src/Provisioning/Polling/Defs.antt =====
-- The state of `PollingMachine` with its `RequestResponseProvider`, the table of transitions of its
-- constructor, and the results of provisioning/models/registration_result.py.
use azure_iot_sdk_python_pre.Prelude.{ℕ, String, Option, none, some, List, []}
use azure_iot_sdk_python_pre.Prelude.Dict.{Dict}

pub data State : Type 0 where
  disconnected initializing registering waiting_to_poll polling completed error cancelling : State

pub data Trigger : Type 0 where
  trig_register trig_send_register_request trig_wait trig_poll trig_complete trig_error : Trigger
  trig_cancel : Trigger

pub data Action : Type 0 where
  initialize_register send_register_request wait_for_interval query_operation_status : Action
  call_complete call_error inform_no_process call_cancel : Action

-- `dest = None` is an internal transition, which keeps the state.
pub record Transition : Type 0 where
  pub before : Option Action
  pub dest : Option State
  pub after : Option Action

abbrev before_to : Action → State → Option Transition
before_to a s = some (record { before = some a; dest = some s; after = none })

abbrev to_after : State → Action → Option Transition
to_after s a = some (record { before = none; dest = some s; after = some a })

abbrev stay : Option Transition
stay = some (record { before = none; dest = none; after = none })

-- The transitions, by trigger and source; `none` is a pair that the table does not have.
unfoldable pub transition : Trigger → State → Option Transition
transition trig_register disconnected = before_to initialize_register initializing
transition trig_register error = before_to initialize_register initializing
transition trig_register registering = stay
transition trig_send_register_request initializing = before_to send_register_request registering
transition trig_send_register_request waiting_to_poll = before_to send_register_request registering
transition trig_wait registering = to_after waiting_to_poll wait_for_interval
transition trig_wait cancelling = stay
transition trig_wait polling = to_after waiting_to_poll wait_for_interval
transition trig_poll waiting_to_poll = to_after polling query_operation_status
transition trig_poll cancelling = stay
transition trig_complete registering = to_after completed call_complete
transition trig_complete waiting_to_poll = to_after completed call_complete
transition trig_complete polling = to_after completed call_complete
transition trig_error registering = to_after error call_error
transition trig_error waiting_to_poll = to_after error call_error
transition trig_error polling = to_after error call_error
transition trig_error cancelling = stay
transition trig_cancel disconnected =
    some (record { before = none; dest = none; after = some inform_no_process })
transition trig_cancel completed =
    some (record { before = none; dest = none; after = some inform_no_process })
transition trig_cancel initializing = to_after cancelling call_cancel
transition trig_cancel registering = to_after cancelling call_cancel
transition trig_cancel waiting_to_poll = to_after cancelling call_cancel
transition trig_cancel polling = to_after cancelling call_cancel
transition _ _ = none

-- `RegistrationQueryStatusResult`
pub record QueryResult : Type 0 where
  pub request_id : String
  pub retry_after : Option String
  pub operation_id : Option String
  pub status : Option String

pub record RegistrationState : Type 0 where
  pub device_id : Option String
  pub assigned_hub : Option String
  pub sub_status : Option String
  pub created_date_time : Option String
  pub last_update_date_time : Option String
  pub etag : Option String

pub record RegistrationResult : Type 0 where
  pub request_id : String
  pub operation_id : Option String
  pub status : Option String
  pub registration_state : Option RegistrationState

-- What the code reads of the decoded body of a response.
pub record Body : Type 0 where
  pub operation_id : Option String
  pub status : Option String
  pub registration_state : Option RegistrationState

-- The texts of the errors that the machine reports to its client.
pub data Failure : Type 0 where
  message_failure never_sent other_failure query_timeout : Failure

-- What a handler may raise.
pub data Exception : Type 0 where
  machine_error runtime_error key_error value_error attribute_error : Exception

-- Which response callback a request has: `_on_register_response_received` or
-- `_on_query_response_received`.
pub data Purpose : Type 0 where
  registration query : Purpose

-- A timer runs until it is cancelled or its time is up.
pub data Timer : Type 0 where
  running stopped : Timer

-- Whom the disconnect callback serves.
pub data Ending : Type 0 where
  on_error on_cancel on_register : Ending

-- The calls on the provisioning pipeline, and those of the client's callbacks.
pub data Effect : Type 0 where
  enable_responses : Effect
  send_request : String → Option String → Effect
  start_polling_timer : ℕ → QueryResult → Effect
  disconnect : Ending → Effect
  registered : ℕ → Option RegistrationResult → Option Failure → Effect
  cancelled : ℕ → Effect

pub record Machine : Type 0 where
  pub state : State
  pub polling_timer : Option Timer
  pub query_timer : Option Timer
  pub register_callback : Option ℕ
  pub cancel_callback : Option ℕ
  pub registration_error : Option Failure
  pub registration_result : Option RegistrationResult
  pub operations : Dict String String
  pub pending_requests : Dict String Purpose
  pub drawn : ℕ
  -- latest first
  pub effects : List Effect

-- The attributes that `PollingMachine.__init__` and `RequestResponseProvider.__init__` set.
abbrev pub new_machine : Machine
new_machine = record {
  state = disconnected;
  polling_timer = none;
  query_timer = none;
  register_callback = none;
  cancel_callback = none;
  registration_error = none;
  registration_result = none;
  operations = [];
  pending_requests = [];
  drawn = 0;
  effects = [];
}

-- Code outside the repository: `int(text, 10)`, `json.loads` by what is read of its result, the
-- `operationId` that `parse_qs` finds in a query topic (`none` where these raise), and `uuid4`.
pub record Service : Type 0 where
  pub int10 : String → Option ℕ
  pub loads : String → Option Body
  pub query_operation_id : String → Option String
  pub uuid4 : ℕ → String
