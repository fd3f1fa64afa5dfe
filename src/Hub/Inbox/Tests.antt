-- ===== src/Hub/Inbox/Tests.antt =====
-- The theorems of the inboxes on a concrete history.
use azure_iot_sdk_python_pre.Prelude.{List, [], ◌∷◌, ◌≡◌, refl, some, none, string_eq}
use azure_iot_sdk_python_pre.Prelude.Dict.{lookup, insert}
use azure_iot_sdk_python_pre.Hub.Message.{MethodRequest}
use azure_iot_sdk_python_pre.Hub.Inbox.{
  request, named_method_request, generic_method_request, put, get, contents, empty_manager,
}
use azure_iot_sdk_python_pre.Hub.Inbox.Boxes.{Call, opens_method, routes_request, gets, call, same}
use azure_iot_sdk_python_pre.Hub.Inbox.Refinement.{
  run, run_box, run-refines_box, empty_manager-IsKnown,
}

abbrev reboot : MethodRequest
reboot = record { request_id = "1"; name = "reboot"; payload = record { dumps = "{}" } }

-- The first request comes before its method has an inbox.
abbrev history : List Call
history =
    routes_request reboot
    ∷ opens_method (some "reboot")
    ∷ routes_request reboot
    ∷ gets (named_method_request "reboot")
    ∷ gets (named_method_request "reboot")
    ∷ []

named_first :
    (run (named_method_request "reboot") history empty_manager).1
    ≡ some (request reboot) ∷ none ∷ []
unfolding run call same lookup insert empty_manager put get
named_first = refl

generic_first :
    contents generic_method_request (run generic_method_request history empty_manager).0
    ≡ some (request reboot ∷ [])
unfolding run call contents lookup insert empty_manager put get
generic_first = refl

run-refines_box_example :
    (contents
        (named_method_request "reboot")
        (run (named_method_request "reboot") history empty_manager).0
      ≡ (run_box
          (named_method_request "reboot")
          []
          history
          (contents (named_method_request "reboot") empty_manager)).0)
    × ((run (named_method_request "reboot") history empty_manager).1
        ≡ (run_box
            (named_method_request "reboot")
            []
            history
            (contents (named_method_request "reboot") empty_manager)).1)
run-refines_box_example =
    run-refines_box (named_method_request "reboot") [] history empty_manager empty_manager-IsKnown
