-- ===== src/Provisioning/Pipeline.antt =====
-- The methods of `ProvisioningPipeline` (provisioning/pipeline/provisioning_pipeline.py) with those of
-- `RequestResponseProvider` (provisioning/internal/request_response_provider.py) that hand the calls
-- of the registration process on: what they submit, and what the end of an operation calls back.
use azure_iot_sdk_python_pre.Prelude.{String, Option, none, some}
use azure_iot_sdk_python_pre.Errors.{Error}
use azure_iot_sdk_python_pre.Provisioning.Stages.{Kind, connect, disconnect}
use azure_iot_sdk_python_pre.Provisioning.Stages
use azure_iot_sdk_python_pre.Provisioning.Polling.Defs.{Effect}
use azure_iot_sdk_python_pre.Provisioning.Polling.Events.{Event, subscribed, disconnected}

-- The callbacks that a method of the pipeline is given: those of the registration process, and the
-- provider's own.
pub data Callback : Type 0 where
  to_process : Event → Callback
  on_publish_completed on_subscribe_completed on_unsubscribe_completed : Callback
  on_connection_state_change : Callback

-- What a callback of an operation does: `exits` is `exit(1)`, in the callback thread, which ends
-- nothing but that call.
pub data Reaction : Type 0 where
  exits nothing logs raises_type_error : Reaction
  reaches : Event → Reaction

-- The pipeline calls a callback with no argument; `_on_connection_state_change` wants one.
unfoldable pub call : Callback → Reaction
call (to_process e) = reaches e
call on_connection_state_change = raises_type_error
call _ = logs

-- `pipeline_callback`, which each method of the pipeline puts on its operation
unfoldable pub pipeline_callback : Option Callback → Option Error → Reaction
unfolding call
pipeline_callback callback (some e) = exits
pipeline_callback none none = nothing
pipeline_callback (some c) none = call c

-- An operation that is run, with what its end leads to, by its error.
pub record Submission : Type 0 where
  pub operation : Kind
  pub on_complete : Option Error → Reaction

-- The methods of the pipeline.
unfoldable pub pipeline_connect : Option Callback → Submission
unfolding pipeline_callback
pipeline_connect callback = record { operation = connect; on_complete = pipeline_callback callback }

unfoldable pub pipeline_disconnect : Option Callback → Submission
unfolding pipeline_callback
pipeline_disconnect callback = record {
  operation = disconnect;
  on_complete = pipeline_callback callback;
}

unfoldable pub pipeline_send_request :
    String → String → Option String → Option Callback → Submission
unfolding pipeline_callback
pipeline_send_request request_id payload operation_id callback = record {
  operation = Stages.send_request request_id payload operation_id;
  on_complete = pipeline_callback callback;
}

unfoldable pub pipeline_enable_responses : Option Callback → Submission
unfolding pipeline_callback
pipeline_enable_responses callback = record {
  operation = Stages.enable_responses;
  on_complete = pipeline_callback callback;
}

unfoldable pub pipeline_disable_responses : Option Callback → Submission
unfolding pipeline_callback
pipeline_disable_responses callback = record {
  operation = Stages.disable_responses;
  on_complete = pipeline_callback callback;
}

-- The methods of the provider. `send_request` has another part in the process.
abbrev or_own : Callback → Option Callback → Option Callback
or_own own none = some own
or_own own (some c) = some c

unfoldable pub provider_connect : Option Callback → Submission
unfolding pipeline_connect
provider_connect callback = pipeline_connect (or_own on_connection_state_change callback)

unfoldable pub provider_disconnect : Option Callback → Submission
unfolding pipeline_disconnect
provider_disconnect callback = pipeline_disconnect (or_own on_connection_state_change callback)

unfoldable pub provider_enable_responses : Option Callback → Submission
unfolding pipeline_enable_responses
provider_enable_responses callback =
    pipeline_enable_responses (or_own on_subscribe_completed callback)

unfoldable pub provider_disable_responses : Option Callback → Submission
unfolding pipeline_disable_responses
provider_disable_responses callback =
    pipeline_disable_responses (or_own on_unsubscribe_completed callback)

unfoldable pub provider_send_request : String → String → Option String → Submission
unfolding pipeline_send_request
provider_send_request request_id payload operation_id =
    pipeline_send_request request_id payload operation_id (some on_publish_completed)

-- What the process calls of the pipeline, `none` for a timer and for a call of the client.
unfoldable pub submission : Effect → Option Submission
unfolding provider_enable_responses provider_send_request provider_disconnect
submission Effect.enable_responses = some (provider_enable_responses (some (to_process subscribed)))
submission (Effect.send_request request_id operation_id) =
    some (provider_send_request request_id " " operation_id)
submission (Effect.disconnect e) = some (provider_disconnect (some (to_process (disconnected e))))
submission _ = none

-- What the end of an operation of the process leads to.
unfoldable pub completion : Effect → Option Error → Reaction
unfolding submission
completion o error = elim (submission o) [ none ↦ nothing | some s ↦ s.on_complete error ]
