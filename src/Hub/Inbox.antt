-- ===== src/Hub/Inbox.antt =====
-- iothub/inbox_manager.py and iothub/sync_inbox.py. A queue is a list, the oldest item first. The
-- manager never replaces or removes an inbox, so a handle, which says where the manager keeps an
-- inbox, stands for the object.
use azure_iot_sdk_python_pre.Prelude.{
  String, Bool, true, false, Option, none, some, List, [], ◌∷◌, ◌++◌, map, str_eq, string_eq,
  if◌then◌else◌,
}
use azure_iot_sdk_python_pre.Prelude.Dict.{Dict, lookup, insert}
use azure_iot_sdk_python_pre.Hub.Message.{Json, Message, MethodRequest}
pub mod Boxes
pub mod Steps
pub mod Refinement
pub mod AsyncInbox
mod Tests

pub data Item : Type 0 where
  message : Message → Item
  request : MethodRequest → Item
  patch : Json → Item

-- `SyncClientInbox`
abbrev pub Inbox : Type 0
Inbox = List Item

unfoldable pub put : Item → Inbox → Inbox
put i q = q ++ i ∷ []

-- `get(block=False)`: without an item it raises `InboxEmpty`.
unfoldable pub get : Inbox → Option Item × Inbox
get [] = (none, [])
get (i ∷ q) = (some i, q)

pub record InboxManager : Type 0 where
  pub c2d_message_inbox : Inbox
  pub input_message_inboxes : Dict String Inbox
  pub generic_method_request_inbox : Inbox
  pub named_method_request_inboxes : Dict String Inbox
  pub twin_patch_inbox : Inbox

pub data Handle : Type 0 where
  c2d_message generic_method_request twin_patch : Handle
  input_message named_method_request : String → Handle

unfoldable pub empty_manager : InboxManager
empty_manager = record {
  c2d_message_inbox = [];
  input_message_inboxes = [];
  generic_method_request_inbox = [];
  named_method_request_inboxes = [];
  twin_patch_inbox = [];
}

unfoldable pub get_input_message_inbox : String → InboxManager → InboxManager × Handle
get_input_message_inbox input_name m = (
  elim (lookup input_name m.input_message_inboxes) [
    | some _ ↦ m
    | none ↦ record m { input_message_inboxes = insert input_name [] m.input_message_inboxes }
  ],
  input_message input_name,
)

-- An empty name is false in a test.
unfoldable pub get_method_request_inbox : Option String → InboxManager → InboxManager × Handle
get_method_request_inbox none m = (m, generic_method_request)
get_method_request_inbox (some method_name) m =
    if str_eq method_name "" then (m, generic_method_request) else (
      elim (lookup method_name m.named_method_request_inboxes) [
        | some _ ↦ m
        | none ↦ record m {
          named_method_request_inboxes = insert method_name [] m.named_method_request_inboxes;
        }
      ],
      named_method_request method_name,
    )

abbrev pub emptied : String × Inbox → String × Inbox
emptied x = (x.0, [])

unfoldable pub clear_all_method_requests : InboxManager → InboxManager
clear_all_method_requests m = record m {
  generic_method_request_inbox = [];
  named_method_request_inboxes = map emptied m.named_method_request_inboxes;
}

-- Each returns whether the item was routed.
unfoldable pub route_input_message : String → Message → InboxManager → InboxManager × Bool
unfolding put
route_input_message input_name incoming m = elim (lookup input_name m.input_message_inboxes) [
  | none ↦ (m, false)
  | some q ↦
      let inboxes = insert input_name (put (message incoming) q) m.input_message_inboxes in
      (record m { input_message_inboxes = inboxes }, true)
]

unfoldable pub route_c2d_message : Message → InboxManager → InboxManager × Bool
unfolding put
route_c2d_message incoming m =
    (record m { c2d_message_inbox = put (message incoming) m.c2d_message_inbox }, true)

unfoldable pub route_method_request : MethodRequest → InboxManager → InboxManager × Bool
unfolding put
route_method_request incoming m = (
  elim (lookup incoming.name m.named_method_request_inboxes) [
    | none ↦ record m {
      generic_method_request_inbox = put (request incoming) m.generic_method_request_inbox;
    }
    | some q ↦
        let inboxes =
          insert incoming.name (put (request incoming) q) m.named_method_request_inboxes in
        record m { named_method_request_inboxes = inboxes }
  ],
  true,
)

unfoldable pub route_twin_patch : Json → InboxManager → InboxManager × Bool
unfolding put
route_twin_patch incoming m =
    (record m { twin_patch_inbox = put (patch incoming) m.twin_patch_inbox }, true)

-- What an inbox holds; `none` before the manager has made it.
unfoldable pub contents : Handle → InboxManager → Option Inbox
contents c2d_message m = some m.c2d_message_inbox
contents generic_method_request m = some m.generic_method_request_inbox
contents twin_patch m = some m.twin_patch_inbox
contents (input_message name) m = lookup name m.input_message_inboxes
contents (named_method_request name) m = lookup name m.named_method_request_inboxes

-- `get` on the inbox of a handle.
unfoldable pub get_from : Handle → InboxManager → InboxManager × Option Item
unfolding get
get_from c2d_message m =
    let (i, q) = get m.c2d_message_inbox in (record m { c2d_message_inbox = q }, i)
get_from generic_method_request m =
    let (i, q) = get m.generic_method_request_inbox in
    (record m { generic_method_request_inbox = q }, i)
get_from twin_patch m =
    let (i, q) = get m.twin_patch_inbox in (record m { twin_patch_inbox = q }, i)
get_from (input_message name) m = elim (lookup name m.input_message_inboxes) [
  | none ↦ (m, none)
  | some q ↦
      let (i, rest) = get q in
      (record m { input_message_inboxes = insert name rest m.input_message_inboxes }, i)
]
get_from (named_method_request name) m = elim (lookup name m.named_method_request_inboxes) [
  | none ↦ (m, none)
  | some q ↦
      let (i, rest) = get q in
      (
        record m { named_method_request_inboxes = insert name rest m.named_method_request_inboxes },
        i,
      )
]
