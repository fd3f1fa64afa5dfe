-- ===== src/Pipeline/Once.antt =====
-- What the load shows of every history of the pipeline that starts with nothing in it: a callback is
-- never called twice, and one connection operation at a time is past `SerializeConnectOpsStage`.
use azure_iot_sdk_python_pre.Prelude.{
  ℕ, ◌+◌, ◌≤◌, ◌≡◌, false, none, List, [], ◌∷◌, arith, total, ◌==◌, if◌then◌else◌,
}
use azure_iot_sdk_python_pre.Mqtt.Manager
use azure_iot_sdk_python_pre.Pipeline.Convert.{Env, ConverterState}
use azure_iot_sdk_python_pre.Pipeline.World.{
  World, Output, completed, is_connected, is_disconnected, event,
}
use azure_iot_sdk_python_pre.Pipeline.Weight.{weigh_act, weigh_output, weigh_world, load}
use azure_iot_sdk_python_pre.Pipeline.Run.{Config, Reach}
use azure_iot_sdk_python_pre.Pipeline.Load.{load-Reach}

-- The pipeline as `IoTHubPipeline` builds it.
abbrev pub no_topics : ConverterState
no_topics = record {
  device_id = none;
  module_id = none;
  telemetry_topic = none;
  feature_to_topic = [];
}

abbrev pub initial : World
initial = record {
  connected = false;
  pending_responses = [];
  drawn = 0;
  converter = no_topics;
  blocked = false;
  queue = [];
  args = none;
  transport = false;
  pending_connection = none;
  manager = Manager.init;
  calls = 0;
  scheduled = [];
  outputs = [];
  background = [];
}

abbrev pub start : Config
start = record { world = initial; agenda = [] }

-- How often a number stands in a list, and how often its callback was called.
abbrev pub occurrences : ℕ → List ℕ → ℕ
occurrences id = total (λ j. if j == id then 1 else 0)

abbrev pub is_completion : ℕ → Output → ℕ
is_completion id (completed j k e) = if j == id then 1 else 0
is_completion id is_connected = 0
is_completion id is_disconnected = 0
is_completion id (event e) = 0

abbrev pub completions : ℕ → World → ℕ
completions id w = total (is_completion id) w.outputs

pub completions-weigh :
    (id : ℕ) (outputs : List Output)
    → total (is_completion id) outputs
      ≡ total (weigh_output (λ j. if j == id then 1 else 0) 0) outputs
completions-weigh id [] = omega arith
completions-weigh id (completed j k e ∷ os) = omega (arith, completions-weigh id os)
completions-weigh id (is_connected ∷ os) = omega (arith, completions-weigh id os)
completions-weigh id (is_disconnected ∷ os) = omega (arith, completions-weigh id os)
completions-weigh id (event e ∷ os) = omega (arith, completions-weigh id os)

-- In every history of the pipeline from its construction, whatever the network and the client
-- library answer and whenever acknowledgements arrive: the callback of an operation is called at
-- most as often as the operation was submitted.
pub completions-le-submitted :
    (env : Env) {ids : List ℕ} {c : Config}
    → Reach env start ids c
    → (id : ℕ) → completions id c.world ≤ occurrences id ids
unfolding load weigh_world
completions-le-submitted env {c = c} r id =
    omega
      (arith, load-Reach (λ j. if j == id then 1 else 0) 0 r, completions-weigh id c.world.outputs)

-- The operations past `SerializeConnectOpsStage` that will unblock it: those in the state of any
-- stage or of the transport, and those that the run has still to deal with.
unfoldable pub in_flight : Config → ℕ
unfolding weigh_world
in_flight c = weigh_world (λ _. 0) 1 c.world + total (weigh_act (λ _. 0) 1) c.agenda

no_weight : (ids : List ℕ) → total (λ _. 0) ids ≡ 0
no_weight [] = omega arith
no_weight (j ∷ ids) = omega (arith, no_weight ids)

-- In every history of the pipeline from its construction: at most one connect, reconnect or
-- disconnect operation has gone past `SerializeConnectOpsStage` and not completed, and none has
-- while the stage is not blocked.
pub in_flight-le-one :
    (env : Env) {ids : List ℕ} {c : Config}
    → Reach env start ids c
    → in_flight c ≤ (if c.world.blocked then 1 else 0)
unfolding in_flight load weigh_world
in_flight-le-one env {ids} {c} r = ground (arith, load-Reach (λ _. 0) 1 r, no_weight ids)
