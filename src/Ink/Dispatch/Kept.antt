-- ===== src/Ink/Dispatch/Kept.antt =====
-- What the dispatch of a message keeps.
use finit.Prelude.{
  ℕ, ◌≤◌, arith, Bool, true, false, ◌&&◌, ◌||◌, ◌==◌, List, [], ◌∷◌, ◌++◌, Option, none, some,
}
use finit.Ink.Proto.{Msg, Parsed, need_more, bad, message, msg_parse}
use finit.Ink.Dispatch.{Server, Object, Parked, Pending, Connection, find_object, resolve}
use finit.Ink.Dispatch.Send.{Host}
use finit.Ink.Dispatch.Park.{bus_of, unpark, map_slots}
use finit.Ink.Dispatch.Outbound.{with_pending}
use finit.Ink.Dispatch.Message.{
  builtin_of, handle_builtin, call_object, call_named, dispatch_call, redispatch, resume_slot,
  resume_parked,
}
use finit.Ink.Dispatch.Laws.{Law, on_if, on_option, send_error_keeps}
use finit.Ink.Dispatch.Handlers.{send_answer_keeps, call_found_keeps}
use finit.Ink.Dispatch.Park.{find_slot}
use finit.Ink.Dispatch.Message.{is_brokers, unless_builtin, uid_or, slots_of, dispatch_message}
use finit.Ink.Dispatch.Outbound.{reply_slot, give_reply, run_cb, deliver_reply, run_all}

pub on_parsed :
    {A : Type 0} (P : A → Type 0) (p : Parsed) {x y : A} {f : Msg → ℕ → A}
    → P x
    → P y
    → ((m : Msg) (n : ℕ) → P (f m n))
    → P (elim p [ need_more ↦ x | bad ↦ y | message m n ↦ f m n ])
on_parsed P need_more a b k = a
on_parsed P bad a b k = b
on_parsed P (message m n) a b k = k m n

pub on_status :
    {A : Type 0} (P : A → Type 0) (b : Bool) {x y : A}
    → P x
    → P y
    → P (elim b [ false ↦ x | true ↦ y ])
on_status P false p q = p
on_status P true p q = q

module _ (host : Host) (srv : Server) (Inv : Connection → Type 0) (law : Law srv Inv) where
  -- What a built-in method leaves, if the message is for one.
  abbrev Kept : Option (Connection × Bool) → Type 0
  Kept none = 0 ≤ 0
  Kept (some r) = Inv r.0

  handle_builtin_keeps : (c : Connection) (m : Msg) → Inv c → Kept (handle_builtin host c m)
  unfolding handle_builtin
  handle_builtin_keeps c m h =
      on_if Kept (c.broker && is_brokers m) (send_error_keeps host srv Inv law c m _ _ h) (
        on_option Kept (builtin_of m) (omega arith)
          (λ b. send_answer_keeps host srv Inv law c m (host.builtin b c m) h))

  or_else :
      (o : Option (Connection × Bool)) (x : Connection × Bool)
      → Kept o
      → Inv x.0
      → Inv (unless_builtin o x).0
  or_else none x k h = h
  or_else (some r) x k h = k

  call_object_keeps :
      (c : Connection) (m : Msg) (frame : List ℕ) (known_uid : Option ℕ) (resumed : Bool)
      (member : List ℕ) (o : Option Object)
      → Inv c
      → Inv (call_object host srv c m frame known_uid resumed member o).0
  call_object_keeps c m frame known_uid resumed member none h =
      send_error_keeps host srv Inv law c m _ _ h
  call_object_keeps c m frame known_uid resumed member (some o) h =
      call_found_keeps host srv Inv law c m frame known_uid resumed (resolve o m.interface member) h

  call_named_keeps :
      (c : Connection) (m : Msg) (frame : List ℕ) (known_uid : Option ℕ) (resumed : Bool)
      (path member : Option (List ℕ))
      → Inv c
      → Inv (call_named host srv c m frame known_uid resumed path member).0
  call_named_keeps c m frame known_uid resumed none member h =
      send_error_keeps host srv Inv law c m _ _ h
  call_named_keeps c m frame known_uid resumed (some path) none h =
      send_error_keeps host srv Inv law c m _ _ h
  call_named_keeps c m frame known_uid resumed (some path) (some member) h =
      let o = find_object srv.objects path in
      or_else (handle_builtin host c m) (call_object host srv c m frame known_uid resumed member o)
        (handle_builtin_keeps c m h) (call_object_keeps c m frame known_uid resumed member o h)

  dispatch_call_keeps :
      (c : Connection) (m : Msg) (frame : List ℕ) (known_uid : Option ℕ) (resumed : Bool)
      → Inv c
      → Inv (dispatch_call host srv c m frame known_uid resumed).0
  unfolding dispatch_call
  dispatch_call_keeps c m frame known_uid resumed h =
      call_named_keeps c m frame known_uid resumed m.path m.member h

  pub redispatch_keeps :
      (c : Connection) (uid : ℕ) (resumed : Bool) (p : Parsed)
      → Inv c
      → Inv (redispatch host srv c uid resumed p)
  redispatch_keeps c uid resumed need_more h = h
  redispatch_keeps c uid resumed bad h = h
  redispatch_keeps c uid resumed (message m n) h = dispatch_call_keeps c m [] (some uid) resumed h

  resume_slot_keeps :
      (c : Connection) (tok : ℕ) (uid : Option ℕ) (resumed : Bool) (p : Option Parked)
      → Inv c
      → Inv (resume_slot host srv c tok uid resumed p)
  resume_slot_keeps c tok uid resumed none h = h
  resume_slot_keeps c tok uid resumed (some p) h =
      redispatch_keeps (map_slots (unpark tok) c) (uid_or uid p.uid) resumed (msg_parse p.buf)
        (law.frees c tok h)

  pub resume_parked_keeps :
      (c : Connection) (tok : ℕ) (uid : Option ℕ) (resumed : Bool)
      → Inv c
      → Inv (resume_parked host srv c tok uid resumed)
  unfolding resume_parked
  resume_parked_keeps c tok uid resumed h =
      on_if Inv (tok == 0) h
        (resume_slot_keeps c tok uid resumed (find_slot tok (slots_of c.bus)) h)

  run_cb_keeps : (cb : Option ℕ) (a : Option Msg) (c : Connection) → Inv c → Inv (run_cb cb a c)
  run_cb_keeps none a c h = h
  run_cb_keeps (some cb) a c h =
      law.delivers c (c.delivered ++ record { cb = cb; answer = a } ∷ []) h

  pub run_all_keeps : (cbs : List ℕ) (c : Connection) → Inv c → Inv (run_all cbs c)
  run_all_keeps [] c h = h
  run_all_keeps (cb ∷ cbs) c h =
      run_all_keeps cbs (run_cb (some cb) none c) (run_cb_keeps (some cb) none c h)

  delivered_keeps :
      (c : Connection) (m : Msg) (r : Option (Option ℕ × List Pending))
      → Inv c
      → Inv (give_reply c m r)
  delivered_keeps c m none h = h
  delivered_keeps c m (some (cb, left)) h =
      run_cb_keeps cb (some m) (with_pending (bus_of c.bus) left c) (law.pends c left h)

  deliver_reply_keeps : (c : Connection) (m : Msg) → Inv c → Inv (deliver_reply c m)
  unfolding deliver_reply
  deliver_reply_keeps c m h = delivered_keeps c m (reply_slot m.reply_serial c.bus) h

  pub dispatch_message_keeps :
      (c : Connection) (m : Msg) (frame : List ℕ)
      → Inv c
      → Inv (dispatch_message host srv c m frame).0
  unfolding dispatch_message
  dispatch_message_keeps c m frame h =
      on_if (λ (r : Connection × Bool). Inv r.0) (m.type == 2 || m.type == 3)
        (deliver_reply_keeps c m h)
        (on_if (λ (r : Connection × Bool). Inv r.0) (m.type == 1)
          (dispatch_call_keeps c m frame none false h) h)
