-- ===== src/Ink/Dispatch/Message.antt =====
-- libink: the built-in methods, and the dispatch of messages.
use finit.Prelude.{
  ℕ, Bool, true, false, ◌&&◌, ◌||◌, ◌==◌, List, [], codes, Option, none, some, if◌then◌else◌,
}
use finit.Ink.Match.{str_same}
use finit.Ink.Proto.{Msg, Parsed, need_more, bad, message, msg_parse}
use finit.Ink.Dispatch.{Server, Object, Parked, Bus, Connection, find_object, resolve}
use finit.Ink.Dispatch.Send.{
  Host, Builtin, hello, add_match, remove_match, ping, get_machine_id, introspect, properties_get,
  properties_get_all, Answer, answer_error, answer_return, overflow, send_method_return, send_error,
}
use finit.Ink.Dispatch.Park.{unpark, map_slots, find_slot}
use finit.Ink.Dispatch.Call.{call_found}
use finit.Ink.Dispatch.Outbound.{deliver_reply}

-- `member_is`: the member, in this interface if the message names one.
abbrev pub is_text : Option (List ℕ) → List ℕ → Bool
is_text none s = false
is_text (some t) s = str_same t s

abbrev pub may_be : Option (List ℕ) → List ℕ → Bool
may_be none s = true
may_be (some t) s = str_same t s

unfoldable pub member_is : Msg → List ℕ → List ℕ → Bool
member_is m iface member = is_text m.member member && may_be m.interface iface

abbrev pub bus_interface : List ℕ
bus_interface = codes "org.freedesktop.DBus"

abbrev pub at_bus : Msg → Bool
at_bus m = is_text m.path (codes "/org/freedesktop/DBus")

-- Which built-in method a message is for.
unfoldable pub builtin_of : Msg → Option Builtin
builtin_of m =
    if member_is m bus_interface (codes "Hello") && at_bus m
    then some hello
    else if member_is m bus_interface (codes "AddMatch") && at_bus m
    then some add_match
    else if member_is m bus_interface (codes "RemoveMatch") && at_bus m
    then some remove_match
    else if member_is m (codes "org.freedesktop.DBus.Peer") (codes "Ping")
    then some ping
    else if member_is m (codes "org.freedesktop.DBus.Peer") (codes "GetMachineId")
    then some get_machine_id
    else if member_is m (codes "org.freedesktop.DBus.Introspectable") (codes "Introspect")
    then some introspect
    else if member_is m (codes "org.freedesktop.DBus.Properties") (codes "Get")
    then some properties_get
    else if member_is m (codes "org.freedesktop.DBus.Properties") (codes "GetAll")
    then some properties_get_all
    else none

-- The members that a broker answers itself.
abbrev pub is_brokers : Msg → Bool
is_brokers m =
    is_text m.member (codes "Hello")
    || is_text m.member (codes "AddMatch")
    || is_text m.member (codes "RemoveMatch")

abbrev pub send_answer : Host → Connection → Msg → Answer → Connection × Bool
send_answer host c m (answer_error name text) = send_error host c m name text
send_answer host c m (answer_return sig body) = send_method_return host c m sig body
send_answer host c m overflow = (c, false)

-- `__handle_builtin`; 1, that the message is for none of them, is `none`.
unfoldable pub handle_builtin : Host → Connection → Msg → Option (Connection × Bool)
handle_builtin host c m =
    if c.broker && is_brokers m
    then some (
        send_error host c m (codes "org.freedesktop.DBus.Error.AccessDenied")
          (some (codes "Handled by the message bus, not by this peer")))
    else elim (builtin_of m) [
      | none ↦ none
      | some b ↦ some (send_answer host c m (host.builtin b c m))
    ]

-- `dispatch_call`
abbrev pub call_object :
    Host
    → Server
    → Connection
    → Msg
    → List ℕ
    → Option ℕ
    → Bool
    → List ℕ
    → Option Object
    → Connection × Bool
call_object host srv c m frame known_uid resumed member none =
    send_error host c m (codes "org.freedesktop.DBus.Error.UnknownObject")
      (some (codes "No such object"))
call_object host srv c m frame known_uid resumed member (some o) =
    call_found host srv c m frame known_uid resumed (resolve o m.interface member)

abbrev pub unless_builtin : Option (Connection × Bool) → Connection × Bool → Connection × Bool
unless_builtin none other = other
unless_builtin (some r) other = r

abbrev pub call_named :
    Host
    → Server
    → Connection
    → Msg
    → List ℕ
    → Option ℕ
    → Bool
    → Option (List ℕ)
    → Option (List ℕ)
    → Connection × Bool
call_named host srv c m frame known_uid resumed (some path) (some member) =
    unless_builtin (handle_builtin host c m)
      (call_object host srv c m frame known_uid resumed member (find_object srv.objects path))
call_named host srv c m frame known_uid resumed path member =
    send_error host c m (codes "org.freedesktop.DBus.Error.InvalidArgs")
      (some (codes "Method call without path or member"))

unfoldable pub dispatch_call :
    Host → Server → Connection → Msg → List ℕ → Option ℕ → Bool → Connection × Bool
dispatch_call host srv c m frame known_uid resumed =
    call_named host srv c m frame known_uid resumed m.path m.member

-- `resume_parked`: the slot is freed before the call is dispatched again, without its frame.
abbrev pub uid_or : Option ℕ → ℕ → ℕ
uid_or none slot_uid = slot_uid
uid_or (some uid) slot_uid = uid

abbrev pub redispatch : Host → Server → Connection → ℕ → Bool → Parsed → Connection
redispatch host srv c uid resumed (message m n) =
    (dispatch_call host srv c m [] (some uid) resumed).0
redispatch host srv c uid resumed need_more = c
redispatch host srv c uid resumed bad = c

abbrev pub resume_slot :
    Host → Server → Connection → ℕ → Option ℕ → Bool → Option Parked → Connection
resume_slot host srv c tok uid resumed none = c
resume_slot host srv c tok uid resumed (some p) =
    redispatch host srv (map_slots (unpark tok) c) (uid_or uid p.uid) resumed (msg_parse p.buf)

abbrev pub slots_of : Option Bus → List Parked
slots_of none = []
slots_of (some b) = b.parked

unfoldable pub resume_parked : Host → Server → Connection → ℕ → Option ℕ → Bool → Connection
resume_parked host srv c tok uid resumed =
    if tok == 0 then c else resume_slot host srv c tok uid resumed (find_slot tok (slots_of c.bus))

-- `link_uid_resolved` and `link_call_resume`
unfoldable pub uid_resolved : Host → Server → Connection → ℕ → ℕ → Connection
uid_resolved host srv c tok uid = resume_parked host srv c tok (some uid) false

unfoldable pub call_resume : Host → Server → Connection → ℕ → Connection
call_resume host srv c tok = resume_parked host srv c tok none true

-- `__dispatch_message`
unfoldable pub dispatch_message : Host → Server → Connection → Msg → List ℕ → Connection × Bool
dispatch_message host srv c m frame =
    if m.type == 2 || m.type == 3
    then (deliver_reply c m, true)
    else if m.type == 1
    then dispatch_call host srv c m frame none false
    else (c, true)
