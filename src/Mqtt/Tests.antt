-- ===== src/Mqtt/Tests.antt =====
-- The theorems of the message ids on concrete histories.
use azure_iot_sdk_python_pre.Prelude.{ℕ, ◌≡◌, refl, List, ◌∷◌, [], some, nat_eq}
use azure_iot_sdk_python_pre.Prelude.Dict.{lookup, insert}
use azure_iot_sdk_python_pre.Mqtt.Manager.{Manager, init, establish_operation, complete_operation}
use azure_iot_sdk_python_pre.Mqtt.Manager.Slots.{slot}
use azure_iot_sdk_python_pre.Mqtt.Manager.Refinement.{
  Call, establish, complete, run, run_slot, run-refines_slot, init-IsDisjoint,
}

abbrev empty : Manager ℕ
empty = init

-- The response of 5 comes before its request, another request between.
abbrev history : List (Call ℕ)
history = complete 5 ∷ establish 6 (some 60) ∷ establish 5 (some 50) ∷ complete 6 ∷ []

run_5 : (run 5 history empty).1 ≡ 50 ∷ []
unfolding run lookup insert establish_operation complete_operation
run_5 = refl

run-refines_slot_example :
    (slot (run 5 history empty).0 5 ≡ (run_slot 5 history (slot empty 5)).0)
    × ((run 5 history empty).1 ≡ (run_slot 5 history (slot empty 5)).1)
run-refines_slot_example = run-refines_slot 5 history empty init-IsDisjoint
