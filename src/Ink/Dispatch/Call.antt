-- ===== src/Ink/Dispatch/Call.antt =====
-- libink/dispatch.c: from a message to the handler, and to the answer.
use finit.Prelude.{
  ℕ, Bool, true, false, not, ◌&&◌, leb, ◌==◌, List, [], ◌∷◌, ◌++◌, length, codes, Option, none,
  some, if◌then◌else◌,
}
use finit.Ink.Match.{str_same}
use finit.Ink.Proto.{Msg}
use finit.Ink.Dispatch.{
  Script, done, reply, reply_error, park_call, Method, Resolution, known, later, unknown, busy,
  Server, Connection,
}
use finit.Ink.Dispatch.Send.{Host, send_method_return, send_error}
use finit.Ink.Dispatch.Park.{uid_unknown, park, unpark, map_slots}

-- `caller_may`
unfoldable pub caller_may : Server → ℕ → List ℕ → Bool
caller_may srv uid groups =
    if uid == uid_unknown
    then false
    else elim srv.authorizer [ some may ↦ may uid groups | none ↦ uid == 0 ]

-- The groups that the authorizer gets to see.
abbrev pub groups_of : Connection → List ℕ
groups_of c = if c.broker then [] else c.peer_groups

-- `struct link_call`: `body` is the reply that has been begun, and what it comes to.
pub record Call : Type 0 where
  pub conn : Connection
  pub incoming : Msg
  pub body : Option (Option (List ℕ))
  pub error_sent : Bool
  pub uid : ℕ
  pub frame : List ℕ
  pub parked : Bool
  pub resumed : Bool

-- `link_call_reply`, with what is written through it: NULL if there has been a reply or an error.
unfoldable pub call_reply : Option (List ℕ) → Call → Call × Bool
call_reply written c =
    if c.error_sent
    then (c, false)
    else elim c.body [ some b ↦ (c, false) | none ↦ (record c { body = some written }, true) ]

-- `link_call_reply_error`
unfoldable pub call_reply_error : Host → List ℕ → Option (List ℕ) → Call → Call × Bool
call_reply_error host name text c =
    let sent = send_error host c.conn c.incoming name text in
    if c.error_sent then (c, false) else (record c { conn = sent.0; error_sent = true }, sent.1)

-- `link_call_park`
abbrev pub parked_call : Call → Option (ℕ × Connection) → Call × Bool
parked_call c none = (c, false)
parked_call c (some (tok, conn)) = (record c { conn = conn; parked = true }, true)

unfoldable pub call_park : Call → Call × Bool
call_park c = if c.resumed then (c, false) else parked_call c (park c.conn c.frame c.uid)

-- A handler at work, and whether what it returns is negative.
unfoldable pub run_script : Host → Script → Call → Call × Bool
run_script host (done failed) c = (c, failed)
run_script host (reply written next) c =
    let (c1, worked) = call_reply written c in run_script host (next worked) c1
run_script host (reply_error name text next) c =
    let (c1, worked) = call_reply_error host name text c in run_script host (next worked) c1
run_script host (park_call next) c =
    let (c1, worked) = call_park c in run_script host (next worked) c1

-- What is sent behind the handler; the status is false for a negative one.
abbrev pub finish_reply :
    Host → Msg → Method → Bool → Option (Option (List ℕ)) → Connection → Connection × Bool
finish_reply host m meth failed (some none) c =
    send_error host c m (codes "org.freedesktop.DBus.Error.Failed")
      (some (codes "Reply marshalling overflow"))
finish_reply host m meth failed (some (some body)) c = send_method_return host c m meth.out_sig body
finish_reply host m meth true none c =
    send_error host c m (codes "org.freedesktop.DBus.Error.Failed") (some (codes "Handler failed"))
finish_reply host m meth false none c = send_method_return host c m none []

abbrev pub finish_call : Host → Method → Call × Bool → Connection × Bool
finish_call host meth (c, failed) =
    if c.parked
    then (c.conn, true)
    else if c.error_sent
    then (c.conn, not failed)
    else finish_reply host c.incoming meth failed c.body c.conn

-- The handler of a method, for a caller that may.
abbrev pub begun : Method → Msg → List ℕ → ℕ → Bool → Connection → Call
begun meth m frame uid resumed c = record {
  conn = record c { ran = c.ran ++ record { uid = uid; privileged = meth.privileged } ∷ [] };
  incoming = m;
  body = none;
  error_sent = false;
  uid = uid;
  frame = frame;
  parked = false;
  resumed = resumed;
}

unfoldable pub run_handler :
    Host → Method → Msg → List ℕ → ℕ → Bool → Connection → Connection × Bool
run_handler host meth m frame uid resumed c = finish_call host meth (
    run_script host (meth.handler (record { uid = uid; incoming = m; resumed = resumed }))
      (begun meth m frame uid resumed c))

-- `resolve_caller`: the slot is taken before the resolver is ask_parked, and freed unless it answers later.
abbrev pub resolved : ℕ → Connection → Resolution → Resolution × Connection
resolved tok c later = (later, c)
resolved tok c r = (r, map_slots (unpark tok) c)

abbrev pub sender_max : ℕ
sender_max = 64

abbrev pub ask_parked :
    (List ℕ → ℕ → Resolution)
    → List ℕ
    → Connection
    → Option (ℕ × Connection)
    → Resolution × Connection
ask_parked ask sender c none = (busy, c)
ask_parked ask sender c (some (tok, held)) = resolved tok held (ask sender tok)

unfoldable pub ask_resolver :
    (List ℕ → ℕ → Resolution) → Connection → List ℕ → List ℕ → Resolution × Connection
ask_resolver ask c sender frame =
    if leb sender_max (length sender)
    then (unknown, c)
    else ask_parked ask sender c (park c frame uid_unknown)

unfoldable pub resolve_caller :
    Server → Connection → Option (List ℕ) → List ℕ → Resolution × Connection
resolve_caller srv c none frame = (unknown, c)
resolve_caller srv c (some sender) frame = elim srv.uid_resolver [
  | none ↦ (unknown, c)
  | some ask ↦ ask_resolver ask c sender frame
]

-- The last test in front of a handler.
abbrev pub authorise :
    Host → Server → Method → Msg → List ℕ → ℕ → Bool → Connection → Connection × Bool
authorise host srv meth m frame uid resumed c =
    if caller_may srv uid (groups_of c)
    then run_handler host meth m frame uid resumed c
    else send_error host c m (codes "org.freedesktop.DBus.Error.AccessDenied")
        (some (codes "Caller is not privileged for this method"))

abbrev pub identified :
    Host → Server → Method → Msg → List ℕ → Bool → Resolution × Connection → Connection × Bool
identified host srv meth m frame resumed (later, c) = (c, true)
identified host srv meth m frame resumed (busy, c) =
    send_error host c m (codes "org.freedesktop.DBus.Error.LimitsExceeded")
      (some (codes "Too many calls awaiting authorization"))
identified host srv meth m frame resumed (unknown, c) =
    authorise host srv meth m frame uid_unknown resumed c
identified host srv meth m frame resumed (known uid, c) =
    authorise host srv meth m frame uid resumed c

abbrev pub caller : Connection → Option ℕ → ℕ
caller c none = c.peer_uid
caller c (some uid) = uid

abbrev pub is_none : Option ℕ → Bool
is_none none = true
is_none (some u) = false

-- A call of a method that there is, with the right signature.
unfoldable pub call_method :
    Host → Server → Connection → Msg → List ℕ → Option ℕ → Bool → Method → Connection × Bool
call_method host srv c m frame known_uid resumed meth =
    if not meth.privileged
    then run_handler host meth m frame (caller c known_uid) resumed c
    else if c.broker && is_none known_uid
    then identified host srv meth m frame resumed (resolve_caller srv c m.sender frame)
    else authorise host srv meth m frame (caller c known_uid) resumed c

abbrev pub text_of : Option (List ℕ) → List ℕ
text_of none = []
text_of (some s) = s

-- The method of an object, with its signature.
abbrev pub call_found :
    Host → Server → Connection → Msg → List ℕ → Option ℕ → Bool → Option Method → Connection × Bool
call_found host srv c m frame known_uid resumed none =
    send_error host c m (codes "org.freedesktop.DBus.Error.UnknownMethod")
      (some (codes "No such method on this object"))
call_found host srv c m frame known_uid resumed (some meth) =
    if str_same (text_of m.signature) (text_of meth.in_sig)
    then call_method host srv c m frame known_uid resumed meth
    else send_error host c m (codes "org.freedesktop.DBus.Error.InvalidArgs")
        (some (codes "Argument signature mismatch"))
