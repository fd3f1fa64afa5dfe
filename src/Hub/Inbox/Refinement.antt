-- ===== src/Hub/Inbox/Refinement.antt =====
-- `InboxManager` against the promise for one inbox, over whole histories of calls.
use azure_iot_sdk_python_pre.Prelude.{
  String, Option, List, [], ◌∷◌, ◌≡◌, refl, string_eq, arith, if◌then◌else◌,
}
use azure_iot_sdk_python_pre.Prelude.Dict.{lookup}
use azure_iot_sdk_python_pre.Hub.Inbox.{Item, Inbox, InboxManager, Handle, contents, empty_manager}
use azure_iot_sdk_python_pre.Hub.Inbox.Boxes.{
  Call, gets, opens_input, opens_method, clears, routes_input, routes_c2d, routes_request,
  routes_patch, same, call, has, learn, box, handed,
}
use azure_iot_sdk_python_pre.Hub.Inbox.Steps.{IsKnown, call-IsKnown, call-box, get-box}

-- The items that the calls of `get` on the inbox of `h` returned; `none` for `InboxEmpty`.
abbrev pub shown : Handle → Call → Option Item → List (Option Item) → List (Option Item)
shown h (gets g) i more = if same g h then i ∷ more else more
shown h _ i more = more

unfoldable pub run : Handle → List Call → InboxManager → InboxManager × List (Option Item)
run h [] m = (m, [])
run h (c ∷ cs) m = let rest = run h cs (call c m).0 in (rest.0, shown h c (call c m).1 rest.1)

-- The box of `h` by the calls alone, with the names of methods that they gave an inbox.
unfoldable pub run_box :
    Handle → List String → List Call → Option Inbox → Option Inbox × List (Option Item)
run_box h names [] b = (b, [])
run_box h names (c ∷ cs) b =
    let rest = run_box h (learn c names) cs (box h names c b) in
    (rest.0, shown h c (handed h c b) rest.1)

shown-box :
    (c : Call) (names : List String) (m : InboxManager) (h : Handle) (more : List (Option Item))
    → shown h c (call c m).1 more ≡ shown h c (handed h c (contents h m)) more
shown-box (gets g) names m h more = ground (arith, (get-box g names m h).1)
shown-box (opens_input n) names m h more = refl
shown-box (opens_method n) names m h more = refl
shown-box clears names m h more = refl
shown-box (routes_input n x) names m h more = refl
shown-box (routes_c2d x) names m h more = refl
shown-box (routes_request r) names m h more = refl
shown-box (routes_patch x) names m h more = refl

-- From a manager whose named inboxes have these names, after any history of calls, for every
-- inbox: it holds what the calls lead its box to, and every `get` on it returned what the box
-- handed out. A method request goes to the inbox of its name, or to the generic one before this was
-- made; a message for an input without an inbox goes nowhere.
pub run-refines_box :
    (h : Handle) (names : List String) (cs : List Call) (m : InboxManager)
    → IsKnown names m
    → (contents h (run h cs m).0 ≡ (run_box h names cs (contents h m)).0)
      × ((run h cs m).1 ≡ (run_box h names cs (contents h m)).1)
unfolding run run_box
run-refines_box h names [] m w = (refl, refl)
run-refines_box h names (c ∷ cs) m w = ground (
  arith,
  call-box c names m h w,
  shown-box c names m h (run h cs (call c m).0).1,
  run-refines_box h (learn c names) cs (call c m).0 (record { known = call-IsKnown c names m w }),
)

pub empty_manager-IsKnown : IsKnown [] empty_manager
unfolding empty_manager has lookup
empty_manager-IsKnown = record { known = λ k. refl }
