-- ===== src/Ink/Dispatch/Handlers.antt =====
-- What a call of a method keeps.
use finit.Prelude.{
  ℕ, Bool, true, false, not, ◌&&◌, leb, ◌≡◌, inl, inr, refl, List, length, Option, none, some,
}
use finit.Ink.Match.{str_same}
use finit.Ink.Proto.{Msg}
use finit.Ink.Dispatch.{
  Script, done, reply, reply_error, park_call, Method, Resolution, known, later, unknown, busy,
  Server, Connection,
}
use finit.Ink.Dispatch.Send.{Host, Answer, answer_error, answer_return, overflow}
use finit.Ink.Dispatch.Park.{uid_unknown, park}
use finit.Ink.Dispatch.Call.{
  caller_may, groups_of, Call, parked_call, call_reply, call_reply_error, call_park, run_script,
  finish_reply, finish_call, begun, ask_parked, run_handler, resolved, ask_resolver, resolve_caller,
  authorise, identified, caller, call_method, text_of, is_none, sender_max, call_found,
}
use finit.Ink.Dispatch.Message.{send_answer}
use finit.Ink.Dispatch.Laws.{
  on_if, on_test, not-true, on_option, Allowed, Law, send_error_keeps, send_method_return_keeps,
}

module _ (host : Host) (srv : Server) (Inv : Connection → Type 0) (law : Law srv Inv) where
  call_reply_keeps : (w : Option (List ℕ)) (c : Call) → Inv c.conn → Inv (call_reply w c).0.conn
  unfolding call_reply
  call_reply_keeps w c h =
      on_if (λ (r : Call × Bool). Inv r.0.conn) c.error_sent h
        (on_option (λ (r : Call × Bool). Inv r.0.conn) c.body h (λ b. h))

  call_reply_error_keeps :
      (name : List ℕ) (text : Option (List ℕ)) (c : Call)
      → Inv c.conn
      → Inv (call_reply_error host name text c).0.conn
  unfolding call_reply_error
  call_reply_error_keeps name text c h =
      on_if (λ (r : Call × Bool). Inv r.0.conn) c.error_sent h
        (send_error_keeps host srv Inv law c.conn c.incoming name text h)

  park_result :
      (c : Call) (r : Option (ℕ × Connection))
      → ((tok : ℕ) (d : Connection) → r ≡ some (tok, d) → Inv d)
      → Inv c.conn
      → Inv (parked_call c r).0.conn
  park_result c none k h = h
  park_result c (some (tok, d)) k h = k tok d refl

  call_park_keeps : (c : Call) → Inv c.conn → Inv (call_park c).0.conn
  unfolding call_park
  call_park_keeps c h =
      on_if (λ (r : Call × Bool). Inv r.0.conn) c.resumed h
        (park_result c (park c.conn c.frame c.uid)
          (λ tok d e. law.parks c.conn d c.frame c.uid tok e h) h)

  run_script_keeps : (s : Script) (c : Call) → Inv c.conn → Inv (run_script host s c).0.conn
  unfolding run_script
  run_script_keeps (done failed) c h = h
  run_script_keeps (reply w next) c h =
      let r = call_reply w c in run_script_keeps (next r.1) r.0 (call_reply_keeps w c h)
  run_script_keeps (reply_error name text next) c h =
      let r = call_reply_error host name text c in
      run_script_keeps (next r.1) r.0 (call_reply_error_keeps name text c h)
  run_script_keeps (park_call next) c h =
      let r = call_park c in run_script_keeps (next r.1) r.0 (call_park_keeps c h)

  finish_reply_keeps :
      (m : Msg) (meth : Method) (failed : Bool) (b : Option (Option (List ℕ))) (c : Connection)
      → Inv c
      → Inv (finish_reply host m meth failed b c).0
  finish_reply_keeps m meth failed (some none) c h = send_error_keeps host srv Inv law c m _ _ h
  finish_reply_keeps m meth failed (some (some body)) c h =
      send_method_return_keeps host srv Inv law c m _ _ h
  finish_reply_keeps m meth true none c h = send_error_keeps host srv Inv law c m _ _ h
  finish_reply_keeps m meth false none c h = send_method_return_keeps host srv Inv law c m _ _ h

  finish_call_keeps :
      (meth : Method) (r : Call × Bool) → Inv r.0.conn → Inv (finish_call host meth r).0
  finish_call_keeps meth (c, failed) h =
      on_if (λ (r : Connection × Bool). Inv r.0) c.parked h
        (on_if (λ (r : Connection × Bool). Inv r.0) c.error_sent h
          (finish_reply_keeps c.incoming meth failed c.body c.conn h))

  pub run_handler_keeps :
      (meth : Method) (m : Msg) (frame : List ℕ) (uid : ℕ) (resumed : Bool) (c : Connection)
      → Allowed srv (groups_of c) (record { uid = uid; privileged = meth.privileged })
      → Inv c
      → Inv (run_handler host meth m frame uid resumed c).0
  unfolding run_handler
  run_handler_keeps meth m frame uid resumed c a h =
      let s = meth.handler (record { uid = uid; incoming = m; resumed = resumed }) in
      let started = begun meth m frame uid resumed c in
      finish_call_keeps meth (run_script host s started) (
        run_script_keeps s started
          (law.runs c (record { uid = uid; privileged = meth.privileged }) a h))

  authorise_keeps :
      (meth : Method) (m : Msg) (frame : List ℕ) (uid : ℕ) (resumed : Bool) (c : Connection)
      → Inv c
      → Inv (authorise host srv meth m frame uid resumed c).0
  authorise_keeps meth m frame uid resumed c h =
      on_test (λ (r : Connection × Bool). Inv r.0) (caller_may srv uid (groups_of c))
        (λ y. run_handler_keeps meth m frame uid resumed c (inr y) h)
        (λ n. send_error_keeps host srv Inv law c m _ _ h)

  resolved_keeps : (tok : ℕ) (c : Connection) (r : Resolution) → Inv c → Inv (resolved tok c r).1
  resolved_keeps tok c later h = h
  resolved_keeps tok c (known uid) h = law.frees c tok h
  resolved_keeps tok c unknown h = law.frees c tok h
  resolved_keeps tok c busy h = law.frees c tok h

  ask_parked_keeps :
      (ask : List ℕ → ℕ → Resolution) (sender : List ℕ) (c : Connection)
      (r : Option (ℕ × Connection))
      → ((tok : ℕ) (d : Connection) → r ≡ some (tok, d) → Inv d)
      → Inv c
      → Inv (ask_parked ask sender c r).1
  ask_parked_keeps ask sender c none k h = h
  ask_parked_keeps ask sender c (some (tok, d)) k h =
      resolved_keeps tok d (ask sender tok) (k tok d refl)

  ask_resolver_keeps :
      (ask : List ℕ → ℕ → Resolution) (c : Connection) (sender frame : List ℕ)
      → Inv c
      → Inv (ask_resolver ask c sender frame).1
  unfolding ask_resolver
  ask_resolver_keeps ask c sender frame h =
      on_if (λ (r : Resolution × Connection). Inv r.1) (leb sender_max (length sender)) h
        (ask_parked_keeps ask sender c (park c frame uid_unknown)
          (λ tok d e. law.parks c d frame uid_unknown tok e h) h)

  resolve_caller_keeps :
      (c : Connection) (sender : Option (List ℕ)) (frame : List ℕ)
      → Inv c
      → Inv (resolve_caller srv c sender frame).1
  unfolding resolve_caller
  resolve_caller_keeps c none frame h = h
  resolve_caller_keeps c (some sender) frame h =
      on_option (λ (r : Resolution × Connection). Inv r.1) srv.uid_resolver h
        (λ ask. ask_resolver_keeps ask c sender frame h)

  identified_keeps :
      (meth : Method) (m : Msg) (frame : List ℕ) (resumed : Bool) (r : Resolution × Connection)
      → Inv r.1
      → Inv (identified host srv meth m frame resumed r).0
  identified_keeps meth m frame resumed (later, c) h = h
  identified_keeps meth m frame resumed (busy, c) h = send_error_keeps host srv Inv law c m _ _ h
  identified_keeps meth m frame resumed (unknown, c) h =
      authorise_keeps meth m frame uid_unknown resumed c h
  identified_keeps meth m frame resumed (known uid, c) h =
      authorise_keeps meth m frame uid resumed c h

  call_method_keeps :
      (c : Connection) (m : Msg) (frame : List ℕ) (known_uid : Option ℕ) (resumed : Bool)
      (meth : Method)
      → Inv c
      → Inv (call_method host srv c m frame known_uid resumed meth).0
  unfolding call_method
  call_method_keeps c m frame known_uid resumed meth h =
      on_test (λ (r : Connection × Bool). Inv r.0) (not meth.privileged)
        (λ n.
          run_handler_keeps meth m frame (caller c known_uid) resumed c
            (inl (not-true meth.privileged n)) h)
        (λ y.
          on_if (λ (r : Connection × Bool). Inv r.0) (c.broker && is_none known_uid)
            (identified_keeps meth m frame resumed (resolve_caller srv c m.sender frame)
              (resolve_caller_keeps c m.sender frame h))
            (authorise_keeps meth m frame (caller c known_uid) resumed c h))

  pub call_found_keeps :
      (c : Connection) (m : Msg) (frame : List ℕ) (known_uid : Option ℕ) (resumed : Bool)
      (meth : Option Method)
      → Inv c
      → Inv (call_found host srv c m frame known_uid resumed meth).0
  call_found_keeps c m frame known_uid resumed none h = send_error_keeps host srv Inv law c m _ _ h
  call_found_keeps c m frame known_uid resumed (some meth) h =
      on_if (λ (r : Connection × Bool). Inv r.0)
        (str_same (text_of m.signature) (text_of meth.in_sig))
        (call_method_keeps c m frame known_uid resumed meth h)
        (send_error_keeps host srv Inv law c m _ _ h)

  pub send_answer_keeps :
      (c : Connection) (m : Msg) (a : Answer) → Inv c → Inv (send_answer host c m a).0
  send_answer_keeps c m (answer_error name text) h =
      send_error_keeps host srv Inv law c m name text h
  send_answer_keeps c m (answer_return sig body) h =
      send_method_return_keeps host srv Inv law c m sig body h
  send_answer_keeps c m overflow h = h
