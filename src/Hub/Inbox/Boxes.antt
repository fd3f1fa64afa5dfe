-- ===== src/Hub/Inbox/Boxes.antt =====
-- What the inboxes promise: for one inbox, what it holds and hands out by the calls alone.
use azure_iot_sdk_python_pre.Prelude.{
  String, Bool, true, false, not, ◌&&◌, ◌||◌, Option, none, some, List, [], ◌∷◌, ◌++◌, str_eq,
  if◌then◌else◌,
}
use azure_iot_sdk_python_pre.Hub.Message.{Json, Message, MethodRequest}
use azure_iot_sdk_python_pre.Hub.Inbox.{
  Item, message, request, patch, Inbox, InboxManager, Handle, c2d_message, generic_method_request,
  twin_patch, input_message, named_method_request, get_input_message_inbox,
  get_method_request_inbox, clear_all_method_requests, route_input_message, route_c2d_message,
  route_method_request, route_twin_patch, get_from,
}

-- The calls of the client's threads and of the pipeline's handlers.
pub data Call : Type 0 where
  opens_input : String → Call
  opens_method : Option String → Call
  clears : Call
  routes_input : String → Message → Call
  routes_c2d : Message → Call
  routes_request : MethodRequest → Call
  routes_patch : Json → Call
  gets : Handle → Call

unfoldable pub same : Handle → Handle → Bool
same c2d_message c2d_message = true
same generic_method_request generic_method_request = true
same twin_patch twin_patch = true
same (input_message n) (input_message k) = str_eq n k
same (named_method_request n) (named_method_request k) = str_eq n k
same _ _ = false

-- A call, with the item that it hands out.
unfoldable pub call : Call → InboxManager → InboxManager × Option Item
unfolding get_input_message_inbox get_method_request_inbox clear_all_method_requests
    route_input_message route_c2d_message route_method_request route_twin_patch get_from
call (opens_input n) m = ((get_input_message_inbox n m).0, none)
call (opens_method n) m = ((get_method_request_inbox n m).0, none)
call clears m = (clear_all_method_requests m, none)
call (routes_input n x) m = ((route_input_message n x m).0, none)
call (routes_c2d x) m = ((route_c2d_message x m).0, none)
call (routes_request r) m = ((route_method_request r m).0, none)
call (routes_patch x) m = ((route_twin_patch x m).0, none)
call (gets h) m = get_from h m

-- Names of methods that have an inbox.
unfoldable pub has : String → List String → Bool
has k [] = false
has k (n ∷ names) = str_eq n k || has k names

unfoldable pub learn : Call → List String → List String
learn (opens_method (some n)) names = if str_eq n "" then names else n ∷ names
learn _ names = names

-- The inbox that an item is for.
unfoldable pub address : MethodRequest → List String → Handle
unfolding has
address r names = if has r.name names then named_method_request r.name else generic_method_request

-- A box: nothing, or the items of an inbox.
abbrev pub opened : Option Inbox → Option Inbox
opened none = some []
opened (some q) = some q

abbrev pub deliver : Item → Option Inbox → Option Inbox
deliver i none = none
deliver i (some q) = some (q ++ i ∷ [])

abbrev pub first : Option Inbox → Option Item
first none = none
first (some []) = none
first (some (i ∷ q)) = some i

abbrev pub rest : Option Inbox → Option Inbox
rest none = none
rest (some []) = some []
rest (some (i ∷ q)) = some q

abbrev pub cleared : Option Inbox → Option Inbox
cleared none = none
cleared (some q) = some []

abbrev pub is_method : Handle → Bool
is_method generic_method_request = true
is_method (named_method_request n) = true
is_method c2d_message = false
is_method twin_patch = false
is_method (input_message n) = false

-- What a call does to the box of a handle, when these names have inboxes.
unfoldable pub box : Handle → List String → Call → Option Inbox → Option Inbox
unfolding same address
box h names (opens_input n) b = if same (input_message n) h then opened b else b
box h names (opens_method none) b = b
box h names (opens_method (some n)) b =
    if not (str_eq n "") && same (named_method_request n) h then opened b else b
box h names clears b = if is_method h then cleared b else b
box h names (routes_input n x) b = if same (input_message n) h then deliver (message x) b else b
box h names (routes_c2d x) b = if same c2d_message h then deliver (message x) b else b
box h names (routes_request r) b = if same (address r names) h then deliver (request r) b else b
box h names (routes_patch x) b = if same twin_patch h then deliver (patch x) b else b
box h names (gets g) b = if same g h then rest b else b

unfoldable pub handed : Handle → Call → Option Inbox → Option Item
unfolding same
handed h (gets g) b = if same g h then first b else none
handed h _ b = none
