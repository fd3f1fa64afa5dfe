-- ===== src/Pipeline/Wiring/Tests.antt =====
-- The stages of the two pipelines, put together as their constructors do (iothub_pipeline.py and
-- provisioning_pipeline.py), and an event and a connection that travel up.
use azure_iot_sdk_python_pre.Prelude.{
  ℕ, ◌≡◌, refl, ◌==◌, nat_eq, true, false, none, some, List, [], ◌∷◌, arith, if◌then◌else◌,
}
use azure_iot_sdk_python_pre.Pipeline.Wiring.{Heap, new_stage, append_stages}
use azure_iot_sdk_python_pre.Pipeline.Wiring.Chain.{IsPipeline, append_stages-IsPipeline}
use azure_iot_sdk_python_pre.Pipeline.Wiring.Upward.{
  Handling, passes, Root, Notice, handle_pipeline_event, notify, above, climb, on_connection_change,
  travels_up,
}

-- The root has the address 0, the seven stages of `IoTHubPipeline` the next ones.
abbrev hub_stages : List ℕ
hub_stages = 1 ∷ 2 ∷ 3 ∷ 4 ∷ 5 ∷ 6 ∷ 7 ∷ []

abbrev unlinked : Heap
unlinked a = new_stage

append_stages-IsPipeline_example :
    (after : Heap) × (append_stages 8 0 hub_stages unlinked ≡ some after)
    × IsPipeline after 0 hub_stages
append_stages-IsPipeline_example =
    append_stages-IsPipeline 8 0 [] hub_stages unlinked (omega arith) (refl, refl, refl, tt)
      (ground arith)

-- Three stages whose links are as they are then.
abbrev linked : Heap
linked a =
    if a == 0
    then record { next = some 1; previous = none; pipeline_root = none }
    else if a == 1
    then record { next = some 2; previous = some 0; pipeline_root = some 0 }
    else record { next = none; previous = some 1; pipeline_root = some 0 }

-- The stage 1 passes an event on with one more.
abbrev adding : ℕ → ℕ → Handling ℕ
adding a e = if a == 1 then passes 9 else passes e

abbrev hub_root : Root
hub_root = record {
  connected = false;
  on_pipeline_event_handler = true;
  on_connected_handler = true;
  on_disconnected_handler = false;
}

travels_up_example :
    ((e : ℕ)
      → handle_pipeline_event adding linked 0 hub_root 3 2 e
        ≡ some (climb adding linked 0 hub_root (2 ∷ above [] (1 ∷ [])) e))
    × ((n : Notice)
        → on_connection_change adding linked 0 hub_root n 3 2
          ≡ some (notify adding linked 0 hub_root n))
travels_up_example =
    travels_up adding linked 0 hub_root 0 2 (1 ∷ []) []
      (refl, refl, refl, (refl, refl, refl, (refl, refl, refl, tt))) (ground arith)
