-- ===== src/Ink/Dispatch/Working.antt =====
-- A handler at work, and how its call ends.
use finit.Prelude.{
  ℕ, ◌+◌, ◌≤◌, ◌<◌, arith, Bool, true, false, ◌≡◌, ◌⊎◌, inl, inr, refl, sym, subst, ◌∙◌, List, [],
  Option, none, some,
}
use finit.Ink.Proto.{Msg}
use finit.Ink.Dispatch.{Script, done, reply, reply_error, park_call, Method, Connection}
use finit.Ink.Dispatch.Send.{Host, serial_after}
use finit.Ink.Dispatch.Park.{park}
use finit.Ink.Dispatch.Slots.{park_lem}
use finit.Ink.Dispatch.Call.{
  Call, begun, call_reply, call_reply_error, parked_call, call_park, run_script, finish_reply,
  finish_call, run_handler,
}
use finit.Ink.Dispatch.Laws.{on_if, on_test, on_option}
use finit.Ink.Dispatch.Serials.{AtSerial, send_method_return_once, send_error_once}

-- A handler at work, on a call that began at serial n when k calls had been parked: it has sent one
-- error or none, and it has parked the call if it says so.
abbrev Turn : ℕ → ℕ → Call → Type 0
Turn n k c =
    (c.error_sent ≡ false) × (c.conn.next_serial ≡ n)
    ⊎ (c.error_sent ≡ true) × (c.conn.next_serial ≡ serial_after n)

abbrev Held : ℕ → Call → Type 0
Held k c = (k ≤ c.conn.parks) × (c.parked ≡ true → k < c.conn.parks)

abbrev Working : ℕ → ℕ → Call → Type 0
Working n k c = Turn n k c × Held k c

call_reply_works :
    (n k : ℕ) (w : Option (List ℕ)) (c : Call) → Working n k c → Working n k (call_reply w c).0
unfolding call_reply
call_reply_works n k w c h =
    on_if (λ (r : Call × Bool). Working n k r.0) c.error_sent h
      (on_option (λ (r : Call × Bool). Working n k r.0) c.body h (λ b. h))

call_reply_error_works :
    (host : Host) (n k : ℕ) (name : List ℕ) (text : Option (List ℕ)) (c : Call)
    → Working n k c
    → Working n k (call_reply_error host name text c).0
unfolding call_reply_error
call_reply_error_works host n k name text c (inl (quiet, s), (le, held)) =
    let sent = send_error_once host n c.conn.parks c.conn c.incoming name text (s, refl) in
    on_test (λ (r : Call × Bool). Working n k r.0) c.error_sent (λ y. absurd (cc (y, quiet)))
      (λ y. (inr (refl, sent.0), (omega (arith, sent.1), λ p. omega (arith, sent.1, held p))))
call_reply_error_works host n k name text c (inr (spoken, s), held) =
    on_test (λ (r : Call × Bool). Working n k r.0) c.error_sent (λ y. (inr (spoken, s), held))
      (λ y. absurd (cc (y, spoken)))

park_works :
    (n k : ℕ) (c : Call) (r : Option (ℕ × Connection))
    → ((tok : ℕ) (d : Connection)
        → r ≡ some (tok, d)
        → AtSerial c.conn.next_serial (c.conn.parks + 1) d)
    → Working n k c
    → Working n k (parked_call c r).0
park_works n k c none more h = h
park_works n k c (some (tok, d)) more (inl (quiet, s), (le, held)) =
    let (serial, parks) = more tok d refl in
    (inl (quiet, serial ∙ s), (omega (arith, parks), λ p. omega (arith, parks)))
park_works n k c (some (tok, d)) more (inr (spoken, s), (le, held)) =
    let (serial, parks) = more tok d refl in
    (inr (spoken, serial ∙ s), (omega (arith, parks), λ p. omega (arith, parks)))

pub park_counts :
    (c d : Connection) (frame : List ℕ) (uid tok : ℕ)
    → park c frame uid ≡ some (tok, d)
    → AtSerial c.next_serial (c.parks + 1) d
park_counts c d frame uid tok e =
    let (slots, taken, same, left) = park_lem c d frame uid tok e in
    subst (AtSerial c.next_serial (c.parks + 1)) (sym left) (refl, refl)

call_park_works : (n k : ℕ) (c : Call) → Working n k c → Working n k (call_park c).0
unfolding call_park
call_park_works n k c h =
    on_if (λ (r : Call × Bool). Working n k r.0) c.resumed h
      (park_works n k c (park c.conn c.frame c.uid)
        (λ tok d e. park_counts c.conn d c.frame c.uid tok e) h)

run_script_works :
    (host : Host) (n k : ℕ) (s : Script) (c : Call)
    → Working n k c
    → Working n k (run_script host s c).0
unfolding run_script
run_script_works host n k (done failed) c h = h
run_script_works host n k (reply w next) c h =
    let r = call_reply w c in run_script_works host n k (next r.1) r.0 (call_reply_works n k w c h)
run_script_works host n k (reply_error name text next) c h =
    let r = call_reply_error host name text c in
    run_script_works host n k (next r.1) r.0 (call_reply_error_works host n k name text c h)
run_script_works host n k (park_call next) c h =
    let r = call_park c in run_script_works host n k (next r.1) r.0 (call_park_works n k c h)

-- How a call ends: one serial has been used for an answer, or none and the call has been parked, or
-- none and the status is -1.
abbrev pub Ends : ℕ → ℕ → Connection × Bool → Type 0
Ends n k r =
    (r.0.next_serial ≡ serial_after n)
    ⊎ (((r.0.next_serial ≡ n) × (k < r.0.parks) × (r.1 ≡ true))
        ⊎ ((r.0.next_serial ≡ n) × (r.1 ≡ false)))

finish_reply-Ends :
    (host : Host) (n k : ℕ) (m : Msg) (meth : Method) (failed : Bool) (b : Option (Option (List ℕ)))
    (c : Connection)
    → c.next_serial ≡ n
    → Ends n k (finish_reply host m meth failed b c)
finish_reply-Ends host n k m meth failed (some none) c s =
    inl (send_error_once host n c.parks c m _ _ (s, refl)).0
finish_reply-Ends host n k m meth failed (some (some body)) c s =
    inl (send_method_return_once host n c.parks c m meth.out_sig body (s, refl)).0
finish_reply-Ends host n k m meth true none c s =
    inl (send_error_once host n c.parks c m _ _ (s, refl)).0
finish_reply-Ends host n k m meth false none c s =
    inl (send_method_return_once host n c.parks c m none [] (s, refl)).0

finish_call-Ends :
    (host : Host) (n k : ℕ) (meth : Method) (r : Call × Bool)
    → Working n k r.0
    → Ends n k (finish_call host meth r)
finish_call-Ends host n k meth (c, failed) (inl (quiet, s), (le, held)) =
    on_test (Ends n k) c.parked (λ y. inr (inl (s, held y, refl)))
      (λ y.
        on_test (Ends n k) c.error_sent (λ z. absurd (cc (z, quiet)))
          (λ z. finish_reply-Ends host n k c.incoming meth failed c.body c.conn s))
finish_call-Ends host n k meth (c, failed) (inr (spoken, s), held) =
    on_test (Ends n k) c.parked (λ y. inl s)
      (λ y. on_test (Ends n k) c.error_sent (λ z. inl s) (λ z. absurd (cc (z, spoken))))

pub run_handler-Ends :
    (host : Host) (meth : Method) (m : Msg) (frame : List ℕ) (uid : ℕ) (resumed : Bool)
    (c : Connection)
    → Ends c.next_serial c.parks (run_handler host meth m frame uid resumed c)
unfolding run_handler
run_handler-Ends host meth m frame uid resumed c =
    let s = meth.handler (record { uid = uid; incoming = m; resumed = resumed }) in
    let started = begun meth m frame uid resumed c in
    finish_call-Ends host c.next_serial c.parks meth (run_script host s started) (
      run_script_works host c.next_serial c.parks s started
        (inl (refl, refl), (omega arith, λ p. absurd (cc p))))
