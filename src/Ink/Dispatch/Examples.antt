-- ===== src/Ink/Dispatch/Examples.antt =====
-- A server with one privileged method, and calls of it.
use finit.Prelude.{ℕ, arith, Bool, true, false, ◌≡◌, refl, List, [], ◌∷◌, codes, none, some}
use finit.Ink.Reader.{rd_u32}
use finit.Ink.Auth.{AuthState}
use finit.Ink.Proto.{
  Msg, text, parse_string, parse_signature, value_at, round_at, store_field, walk, msg_parse,
}
use finit.Ink.Proto.RoundTrip.{header_bytes}
use finit.Ink.Proto.Headers.{method_call, msg_of}
use finit.Ink.Writer.{
  padding, u32_bytes, w_init, w_string, w_finish, write_lenprefixed, reserve, put,
}
use finit.Ink.Proto.Build.{
  put_padding, put_bytes, put_field_text, put_field_sign, put_field_u32, finalize_header,
  msg_build_return, msg_build_error,
}
use finit.Ink.Dispatch.{
  done, later, Server, Connection, find_object, resolve, resolve_any, find_method,
}
use finit.Ink.Dispatch.Send.{Host, answer_return, send_method_return, send_error}
use finit.Ink.Dispatch.Park.{park, take_slot, find_slot, unpark}
use finit.Ink.Dispatch.Call.{
  caller_may, run_script, run_handler, ask_resolver, resolve_caller, call_method,
}
use finit.Ink.Dispatch.Message.{
  handle_builtin, builtin_of, member_is, dispatch_call, dispatch_message, resume_parked,
}
use finit.Ink.Dispatch.Events.{arrived, answered, tick, Link, process_binary, read_more, step, run}
use finit.Ink.Dispatch.Authorised.{AllAllowed, run-AllAllowed}
use finit.Ink.Dispatch.Park.{empty_bus}
use finit.Ink.Dispatch.Outbound.{free_pending, deliver_reply, connection_expire, forget_conn}
use finit.Ink.Dispatch.Callbacks.{times_run, owed_and_run, callbacks-once}
use finit.Ink.Dispatch.Reading.{process_binary_enough}
use finit.Ink.Dispatch.Once.{answered_then, run-answered_once}

abbrev host : Host
host = record { wrote = λ n bytes. true; builtin = λ b c m. answer_return none [] }

abbrev server : Server
server = record {
  objects =
      record {
        path = codes "/a";
        vtables =
            record {
              interface = codes "i";
              methods =
                  record {
                    name = codes "M";
                    in_sig = none;
                    out_sig = none;
                    privileged = true;
                    handler = λ seen. done false;
                  }
                  ∷ [];
            }
            ∷ [];
      }
      ∷ [];
  uid_resolver = some (λ sender tok. later);
  authorizer = none;
}

abbrev peer : ℕ → Bool → Connection
peer uid broker = record {
  peer_uid = uid;
  peer_groups = [];
  broker = broker;
  auth = AuthState.done;
  matches = [];
  next_serial = 0;
  bus = none;
  now = 0;
  wire = [];
  ran = [];
  delivered = [];
  parks = 0;
}

abbrev link : Connection → Link
link c = record { rxbuf = []; conn = c; alive = true }

abbrev call : Msg
call = msg_of 7 (method_call (codes "/a") none (codes "M") none none) []

abbrev sent_by_someone : Msg
sent_by_someone = record call { sender = some (codes ":1.4") }

-- Root may, others may not; over a broker the call is parked until the resolver has answered.
root_test :
    (dispatch_call host server (peer 0 false) call [] none false).0.ran
    ≡ record { uid = 0; privileged = true } ∷ []
unfolding dispatch_call handle_builtin builtin_of member_is find_object resolve resolve_any
    find_method call_method caller_may run_handler run_script send_method_return msg_build_return
    msg_build_error put_field_u32 put_field_text put_field_sign put_padding put_bytes
    finalize_header padding u32_bytes
root_test = refl

other_test : (dispatch_call host server (peer 1000 false) call [] none false).0.ran ≡ []
unfolding dispatch_call handle_builtin builtin_of member_is find_object resolve resolve_any
    find_method call_method caller_may send_error w_init w_string w_finish write_lenprefixed reserve
    put msg_build_return msg_build_error put_field_u32 put_field_text put_field_sign put_padding
    put_bytes finalize_header padding u32_bytes
other_test = refl

broker_test :
    (dispatch_call host server (peer 0 true) sent_by_someone (1 ∷ []) none false).0.parks ≡ 1
unfolding dispatch_call handle_builtin builtin_of member_is find_object resolve resolve_any
    find_method call_method resolve_caller ask_resolver park take_slot
broker_test = refl

-- The call of someone on a bus, as it comes in, and what happens around it.
abbrev frame : List ℕ
frame =
    header_bytes 1 0 0 7 (
      (1, 111, text (codes "/a")) ∷ (3, 115, text (codes "M")) ∷ (7, 115, text (codes ":1.4")) ∷ [])

abbrev start : Link
start = link (peer 0 true)

parked_test : (run host server (arrived frame ∷ []) start).conn.parks ≡ 1
unfolding run step read_more process_binary dispatch_message dispatch_call handle_builtin builtin_of
    member_is find_object resolve resolve_any find_method call_method msg_parse rd_u32 walk round_at
    value_at parse_signature parse_string store_field resolve_caller ask_resolver park take_slot
    padding u32_bytes
parked_test = refl

answered_test :
    (answered_then host server (arrived frame ∷ []) start 1 (some 0) false (tick 5 ∷ [])).parks ≡ 1
unfolding run step read_more process_binary dispatch_message dispatch_call handle_builtin builtin_of
    member_is find_object resolve resolve_any find_method call_method msg_parse rd_u32 walk round_at
    value_at parse_signature parse_string store_field resolve_caller ask_resolver park take_slot
    resume_parked find_slot unpark caller_may run_handler run_script send_method_return
    msg_build_return put_field_u32 put_field_text put_field_sign put_padding put_bytes
    finalize_header padding u32_bytes
answered_test = refl

run-AllAllowed_example :
    AllAllowed server []
      (run host server
        (arrived frame ∷ answered 1 1000 ∷ arrived frame ∷ answered 2 0 ∷ [])
        start).conn.ran
run-AllAllowed_example =
    run-AllAllowed host server (arrived frame ∷ answered 1 1000 ∷ arrived frame ∷ answered 2 0 ∷ [])
      start (omega arith)

run-answered_once_example :
    resume_parked host server
      (answered_then host server (arrived frame ∷ []) start 1 (some 0) false (tick 5 ∷ []))
      1
      (some 0)
      false
    ≡ answered_then host server (arrived frame ∷ []) start 1 (some 0) false (tick 5 ∷ [])
run-answered_once_example =
    run-answered_once host server (arrived frame ∷ []) (tick 5 ∷ []) start 1 (some 0) (some 0) false
      false refl refl (omega (arith, parked_test)) (omega (arith, answered_test))

-- A connection that waits for two replies, and one of them.
abbrev waiting_peer : Connection
waiting_peer = record (peer 0 true) {
  bus = some (record empty_bus {
    pending =
        record { used = true; serial = 3; stamp = 0; cb = some 9 }
        ∷ record { used = true; serial = 4; stamp = 0; cb = some 9 }
        ∷ [];
  });
}

abbrev reply_to_three : Msg
reply_to_three = record call { reply_serial = 3 }

one_reply_test : (times_run 9 (deliver_reply waiting_peer reply_to_three).delivered ≡ 1)
unfolding deliver_reply free_pending
one_reply_test = refl

callbacks-once_example :
    (owed_and_run 9 (deliver_reply waiting_peer reply_to_three) ≡ owed_and_run 9 waiting_peer)
    × (owed_and_run 9 (connection_expire host 0 waiting_peer).0 ≡ owed_and_run 9 waiting_peer)
    × (times_run 9 (forget_conn waiting_peer).delivered ≡ owed_and_run 9 waiting_peer)
callbacks-once_example = callbacks-once 9 host 0 waiting_peer reply_to_three

process_binary_enough_example :
    process_binary 100 host server frame (peer 0 true)
    ≡ process_binary 200 host server frame (peer 0 true)
unfolding padding u32_bytes
process_binary_enough_example =
    process_binary_enough 100 200 host server frame (peer 0 true) (omega arith) (omega arith)
