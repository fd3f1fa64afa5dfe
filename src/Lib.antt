-- ===== src/Lib.antt =====
-- The device library (azure-iot-device/azure/iot/device): its pipeline of stages, the message ids
-- of its MQTT transport, its clients with their inboxes, connection strings, the authentication
-- providers, and the registration process of its provisioning client. Paths are below that directory.
--
-- The parts. A client submits operations to the pipeline that iothub/pipeline/iothub_pipeline.py
-- builds: PipelineRootStage, UseAuthProviderStage, HandleTwinOperationsStage,
-- CoordinateRequestAndResponseStage, IoTHubMQTTConverterStage, EnsureConnectionStage,
-- SerializeConnectOpsStage and MQTTTransportStage. An operation travels down until a stage completes
-- it; a stage may delegate it to another operation, queue it, or wait for the network. The transport
-- calls handlers of the last stage, and its OperationManager matches the network's acknowledgements
-- with the requests. The provisioning client has a state machine of its own.
--
-- Files.
-- - Prelude and its children: tests, lists, association lists, with their lemmas.
-- - Errors: common/errors.py and the tables of return codes of common/mqtt_transport.py.
-- - Text, ConnectionString: common/connection_string.py, with `str.split`, on code points. Filling has
--   the dictionary of well-formed entries, Parsing the round trip.
-- - Auth: iothub/auth. Token and Renewal are base_renewable_token_authentication_provider.py, with
--   the timers that it starts, and Renewal/Signers the `_sign` of its derived classes. Signature is
--   sas_authentication_provider.py (Entries and Reading have its round trip), SharedKey the parser of
--   sk_authentication_provider.py, Edge and Edge/Hsm iotedge_authentication_provider.py, with the
--   requests that it makes, Environment `create_from_edge_environment` of iothub/abstract_clients.py,
--   and Creation the other class methods that make a client, with x509_authentication_provider.py.
-- - Hub/Inbox: iothub/inbox_manager.py and iothub/sync_inbox.py. Boxes has the promise for one inbox,
--   Steps and Refinement that the manager keeps it; AsyncInbox is iothub/aio/async_inbox.py.
-- - Hub/Client: iothub/sync_clients.py on iothub/pipeline/iothub_pipeline.py. A call is a phase of its
--   thread; Callbacks is what the callback thread does; System has all threads and the pipeline, in
--   any order. Events and Waiting are about calls that wait, Asking and Features about the features
--   they enable. Asyncio is what the calls of iothub/aio/async_clients.py do before the executor runs
--   a method of the pipeline for them.
-- - Hub/Message, Hub/Topic: iothub/models and the topics of iothub/pipeline/mqtt_topic_iothub.py
--   that the device builds.
-- - Hub/Received: the functions of the same file that read a topic, on code points; Formats has the
--   topics of the documented formats, Properties and Encoding the properties of a message.
-- - Hub/Incoming: `_handle_pipeline_event` of iothub/pipeline/pipeline_stages_iothub_mqtt.py, on code
--   points. Patterns and Routing have the events that the documented topics become.
-- - Mqtt/Manager: OperationManager, with its two tables. Slots has the promise for one message id,
--   Refinement the histories of calls. Mqtt/Transport: the constructor of MQTTTransport with its TLS
--   context, and what it logs in with.
-- - Pipeline/Ops: the classes of operations (pipeline_ops_base.py, pipeline_ops_mqtt.py,
--   pipeline_ops_iothub.py) and their callbacks, each closure of the code as a constructor with what
--   it captures. Pipeline/Convert: the pure part of UseAuthProviderStage, HandleTwinOperationsStage,
--   CoordinateRequestAndResponseStage and IoTHubMQTTConverterStage. Pipeline/World: the state of all
--   stages. Pipeline/Exec: `_execute_op` of each stage, with common/pipeline/operation_flow.py.
--   Pipeline/Run: the handlers of events, and the histories of the pipeline.
-- - Pipeline/Wiring: the objects of the stages, which `append_stage` links (Chain), and what travels up
--   these links (Upward; common/pipeline/pipeline_stages_base.py). Pipeline/Login: what a client logs in
--   with, from its provider to the client library.
-- - Pipeline/Weight and Load (a weight of all that holds a callback, which no call increases),
--   Halts (two measures that fall with each call), Marks (operations past the serializing stage),
--   Once, Serial, Failures, Twin, Answer, Patch and Unsent: proofs. Twin and Answer follow a
--   request for the twin, Patch one of a change of it, and Unsent both where the client library
--   refuses. Below is the way of a request past the stages of the connection; Delivery has
--   messages, methods' responses and changes of features through every stage, Delivery/Refusal
--   those that fail, and Delivery/Connecting those that connect first.
-- - Provisioning/Polling: provisioning/internal/polling_machine.py and request_response_provider.py.
--   Lifecycle and Forward have the order of its states, Retry what it does when it is told to wait;
--   Observed carries what each trigger keeps over the responses and the timers.
-- - Provisioning/Pipeline: the methods of provisioning/pipeline/provisioning_pipeline.py and of the
--   provider, which the process calls, with the callbacks that they put on operations.
-- - Provisioning/Client: provisioning/provisioning_device_client.py, its asynchronous twin and
--   provisioning/abstract_provisioning_device_client.py. Creation is how a client is made, Incoming the
--   way of a response to it; Steps is what can happen to the process with its pipeline, and Once,
--   Stuck, Cancelled and Answered are about the calls that wait for it. Asyncio has the coroutines of
--   the asynchronous client, whose calls end as those of the synchronous one.
-- - Provisioning/Stages: provisioning/pipeline, with the requests of the polling machine (Requests) and
--   the responses that reach it (Responses).
-- - Provisioning/Security: common/sastoken.py and provisioning/security/sk_security_client.py. Renewed
--   has the tokens over time.
-- - Threads: the decorators of common/pipeline/pipeline_thread.py, as functions of the caller's
--   thread, and Executors its table of executors, with threads that interrupt each other. Pools has
--   the two executors with their queues, and the threads that call into them and wait: Progress
--   weighs what is left to do, Waits, Goes and Sound have what is waited for, and Completion that all of
--   it can be done. Awaitable is `AwaitableCallback` of common/async_adapter.py with the calls that
--   it schedules on the event loop, and Compat is common/asyncio_compat.py.
-- - The modules named Tests, CreationTests and LoginTests apply the theorems to concrete states and histories.
--
-- The model. A run on the pipeline's thread is a list of the calls still to make, the innermost
-- first, in the order in which the code makes them; `exec` makes one call. Exceptions in
-- `_execute_op` complete the operation with the exception, as `run_op` does; exceptions in
-- callbacks are caught in the background, as `complete_op` does. The events of Pipeline are those
-- that the converter stage hands up, with texts as strings. Acknowledgements, which the client
-- library's thread delivers, may come between any two calls; one that came before its request is
-- recorded completes the operation at that call, and any other makes a task for the pipeline's
-- thread. The client library (paho), urllib, json and uuid are the fields of `Env`, a number for
-- each call of the client library or each id drawn; `int`, json, `parse_qs` and uuid of the
-- provisioning client are the fields of `Service`; the transitions library is the argument `fire`.
-- A JSON value stands for its printed text. A message id is the number that the client library
-- returned. `_cancel_pending_connection_op` clears the pending operation before it completes it,
-- not after: the completion has an error and runs no stage.
--
-- A call of a client stops where its thread waits: for the pipeline's thread, for the event that
-- the callback of its operation sets, or for an item in an inbox; and between its test of
-- `feature_enabled` and `enable_feature`, which no lock holds together. Callbacks have numbers,
-- drawn when the operation is submitted; number 0 is the one of the constructor. Any thread, the
-- callback thread and the pipeline may take the next step.
--
-- A call of the provisioning client waits for the callback of its own number, which the process is
-- to call. In Steps an operation that was submitted may end at any time, and more than once, with
-- the error that `answer` gives it; what holds in every such history holds in those of the code.
-- The asynchronous client runs the same calls in a thread of an executor, and its event loop sets
-- the results of the futures later, in the order in which the callbacks were called. The process
-- has its texts as strings, and the way of a response to it is on code points.
--
-- Fuel. `run_all` runs a list of calls on fuel, one unit a call. How much is enough is no fixed
-- number, since a call may release a queue; the measures of Pipeline/Halts bound it for each
-- state.
--
-- The provider of renewable tokens reads the clock, signs, and starts its timer when it has
-- signed: an event gives the moment and the time that signing takes. Calls and timers do not
-- interrupt it.
--
-- Not modelled: logging and the texts of exceptions, the TLS handshake, tasks of asyncio that are
-- cancelled, the awaits of the asynchronous hub clients after the executor has run a method, the
-- HMAC of a token, and the scripts that build packages or certificates.
mod Prelude
pub mod Text
pub mod Threads
pub mod ConnectionString
pub mod Auth
pub mod Errors
pub mod Mqtt
pub mod Hub
pub mod Pipeline
pub mod Provisioning
