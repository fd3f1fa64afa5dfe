-- ===== src/Hub/Inbox/Steps.antt =====
-- `InboxManager` against the promise for one inbox, call by call.
use azure_iot_sdk_python_pre.Prelude.{
  String, Bool, true, false, Option, none, some, List, [], ◌∷◌, ◌≡◌, refl, Option-cases, inl, inr,
  ◌++◌, map, eq_iff, string_eq, arith, if◌then◌else◌,
}
use azure_iot_sdk_python_pre.Prelude.Dict.{Dict, lookup, lookup-insert}
use azure_iot_sdk_python_pre.Hub.Message.{Message, MethodRequest}
use azure_iot_sdk_python_pre.Hub.Inbox.{
  message, request, Inbox, InboxManager, Handle, c2d_message, generic_method_request, twin_patch,
  input_message, named_method_request, put, get, get_input_message_inbox, get_method_request_inbox,
  clear_all_method_requests, route_input_message, route_c2d_message, route_method_request,
  route_twin_patch, get_from, contents, emptied,
}
use azure_iot_sdk_python_pre.Hub.Inbox.Boxes.{
  Call, opens_input, opens_method, clears, routes_input, routes_c2d, routes_request, routes_patch,
  gets, same, call, has, learn, address, cleared, box, handed,
}

abbrev pub is_some : {A : Type 0} → Option A → Bool
is_some none = false
is_some (some _) = true

-- These names are those that have an inbox.
pub record IsKnown (names : List String) (m : InboxManager) : Type 0 where
  pub known : (k : String) → has k names ≡ is_some (lookup k m.named_method_request_inboxes)

lookup-emptied :
    (k : String) (d : Dict String Inbox) → lookup k (map emptied d) ≡ cleared (lookup k d)
unfolding lookup
lookup-emptied k [] = refl
lookup-emptied k ((j, q) ∷ d) = ground (arith, lookup-emptied k d)

pub call-IsKnown :
    (c : Call) (names : List String) (m : InboxManager)
    → IsKnown names m
    → (k : String)
    → has k (learn c names) ≡ is_some (lookup k (call c m).0.named_method_request_inboxes)
unfolding call learn has
call-IsKnown (opens_input n) names m w k = ground (arith, w.known k)
call-IsKnown (opens_method none) names m w k = w.known k
call-IsKnown (opens_method (some n)) names m w k =
    ground
      (arith, w.known k, w.known n, eq_iff n k, lookup-insert n k [] m.named_method_request_inboxes)
call-IsKnown clears names m w k =
    ground (arith, w.known k, lookup-emptied k m.named_method_request_inboxes)
call-IsKnown (routes_input n x) names m w k = ground (arith, w.known k)
call-IsKnown (routes_c2d x) names m w k = w.known k
call-IsKnown (routes_request r) names m w k =
    elim (Option-cases (lookup r.name m.named_method_request_inboxes)) [
      | inl e ↦ ground (arith, w.known k, e)
      | inr (q, e) ↦ ground (
        arith,
        w.known k,
        e,
        eq_iff r.name k,
        lookup-insert r.name k (put (request r) q) m.named_method_request_inboxes,
      )
    ]
call-IsKnown (routes_patch x) names m w k = w.known k
call-IsKnown (gets c2d_message) names m w k = ground (arith, w.known k)
call-IsKnown (gets generic_method_request) names m w k = ground (arith, w.known k)
call-IsKnown (gets twin_patch) names m w k = ground (arith, w.known k)
call-IsKnown (gets (input_message n)) names m w k = ground (arith, w.known k)
call-IsKnown (gets (named_method_request n)) names m w k =
    elim (Option-cases (lookup n m.named_method_request_inboxes)) [
      | inl e ↦ ground (arith, w.known k, e)
      | inr (q, e) ↦ ground (
        arith,
        w.known k,
        e,
        eq_iff n k,
        lookup-insert n k (get q).1 m.named_method_request_inboxes,
      )
    ]

pub open_input-box :
    (n : String) (names : List String) (m : InboxManager) (h : Handle)
    → contents h (call (opens_input n) m).0 ≡ box h names (opens_input n) (contents h m)
unfolding call contents box same get_input_message_inbox
open_input-box n names m c2d_message = ground arith
open_input-box n names m generic_method_request = ground arith
open_input-box n names m twin_patch = ground arith
open_input-box n names m (named_method_request k) = ground arith
open_input-box n names m (input_message k) =
    ground (arith, eq_iff n k, lookup-insert n k [] m.input_message_inboxes)

pub open_method-box :
    (n : Option String) (names : List String) (m : InboxManager) (h : Handle)
    → contents h (call (opens_method n) m).0 ≡ box h names (opens_method n) (contents h m)
unfolding call contents box same get_method_request_inbox
open_method-box none names m h = refl
open_method-box (some n) names m c2d_message = ground arith
open_method-box (some n) names m generic_method_request = ground arith
open_method-box (some n) names m twin_patch = ground arith
open_method-box (some n) names m (input_message k) = ground arith
open_method-box (some n) names m (named_method_request k) =
    ground (arith, eq_iff n k, lookup-insert n k [] m.named_method_request_inboxes)

pub clear-box :
    (names : List String) (m : InboxManager) (h : Handle)
    → contents h (call clears m).0 ≡ box h names clears (contents h m)
unfolding call contents box clear_all_method_requests
clear-box names m c2d_message = refl
clear-box names m generic_method_request = refl
clear-box names m twin_patch = refl
clear-box names m (input_message k) = refl
clear-box names m (named_method_request k) = lookup-emptied k m.named_method_request_inboxes

pub route_input-box :
    (n : String) (x : Message) (names : List String) (m : InboxManager) (h : Handle)
    → contents h (call (routes_input n x) m).0 ≡ box h names (routes_input n x) (contents h m)
unfolding call contents box same route_input_message put
route_input-box n x names m c2d_message = ground arith
route_input-box n x names m generic_method_request = ground arith
route_input-box n x names m twin_patch = ground arith
route_input-box n x names m (named_method_request k) = ground arith
route_input-box n x names m (input_message k) =
    elim (Option-cases (lookup n m.input_message_inboxes)) [
      | inl e ↦ ground (arith, e, eq_iff n k)
      | inr (q, e) ↦
          ground
            (arith, e, eq_iff n k, lookup-insert n k (q ++ message x ∷ []) m.input_message_inboxes)
    ]

pub route_request-box :
    (r : MethodRequest) (names : List String) (m : InboxManager) (h : Handle)
    → IsKnown names m
    → contents h (call (routes_request r) m).0 ≡ box h names (routes_request r) (contents h m)
unfolding call contents box same address route_method_request put
route_request-box r names m c2d_message w = ground (arith, w.known r.name)
route_request-box r names m generic_method_request w = ground (arith, w.known r.name)
route_request-box r names m twin_patch w = ground (arith, w.known r.name)
route_request-box r names m (input_message k) w = ground (arith, w.known r.name)
route_request-box r names m (named_method_request k) w =
    elim (Option-cases (lookup r.name m.named_method_request_inboxes)) [
      | inl e ↦ ground (arith, e, w.known r.name)
      | inr (q, e) ↦ ground (
        arith,
        e,
        w.known r.name,
        eq_iff r.name k,
        lookup-insert r.name k (q ++ request r ∷ []) m.named_method_request_inboxes,
      )
    ]

pub get-box :
    (g : Handle) (names : List String) (m : InboxManager) (h : Handle)
    → (contents h (call (gets g) m).0 ≡ box h names (gets g) (contents h m))
      × ((if same g h then (call (gets g) m).1 else none) ≡ handed h (gets g) (contents h m))
unfolding call contents box handed same get_from get
get-box c2d_message names m h = ground arith
get-box generic_method_request names m h = ground arith
get-box twin_patch names m h = ground arith
get-box (input_message n) names m c2d_message = ground arith
get-box (input_message n) names m generic_method_request = ground arith
get-box (input_message n) names m twin_patch = ground arith
get-box (input_message n) names m (named_method_request k) = ground arith
get-box (input_message n) names m (input_message k) =
    elim (Option-cases (lookup n m.input_message_inboxes)) [
      | inl e ↦ ground (arith, e, eq_iff n k)
      | inr (q, e) ↦
          ground (arith, e, eq_iff n k, lookup-insert n k (get q).1 m.input_message_inboxes)
    ]
get-box (named_method_request n) names m c2d_message = ground arith
get-box (named_method_request n) names m generic_method_request = ground arith
get-box (named_method_request n) names m twin_patch = ground arith
get-box (named_method_request n) names m (input_message k) = ground arith
get-box (named_method_request n) names m (named_method_request k) =
    elim (Option-cases (lookup n m.named_method_request_inboxes)) [
      | inl e ↦ ground (arith, e, eq_iff n k)
      | inr (q, e) ↦
          ground (arith, e, eq_iff n k, lookup-insert n k (get q).1 m.named_method_request_inboxes)
    ]

-- What a call does to the inbox of a handle is what it does to its box.
pub call-box :
    (c : Call) (names : List String) (m : InboxManager) (h : Handle)
    → IsKnown names m
    → contents h (call c m).0 ≡ box h names c (contents h m)
unfolding call contents box same route_c2d_message route_twin_patch put
call-box (opens_input n) names m h w = open_input-box n names m h
call-box (opens_method n) names m h w = open_method-box n names m h
call-box clears names m h w = clear-box names m h
call-box (routes_input n x) names m h w = route_input-box n x names m h
call-box (routes_c2d x) names m h w = ground arith
call-box (routes_request r) names m h w = route_request-box r names m h w
call-box (routes_patch x) names m h w = ground arith
call-box (gets g) names m h w = (get-box g names m h).0
