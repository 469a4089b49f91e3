-- ===== src/Ink/Dispatch/Lives.antt =====
-- What every event of a connection keeps.
use finit.Prelude.{
  ℕ, zero, suc, ◌+◌, ◌-◌, Bool, true, false, ltb, leb, ◌==◌, List, [], ◌∷◌, ◌++◌, length, take,
  drop, Option, none, some,
}
use finit.Ink.Proto.{Msg, Parsed, need_more, bad, message, msg_parse}
use finit.Ink.Dispatch.{Bus, Server, Parked, Connection}
use finit.Ink.Dispatch.Send.{Host}
use finit.Ink.Dispatch.Park.{bus_of, unpark, map_slots}
use finit.Ink.Dispatch.Outbound.{with_pending}
use finit.Ink.Dispatch.Laws.{Law, on_if, on_option, kept_Sent, send_error_keeps}
use finit.Ink.Dispatch.Park.{told, expire_slots, dispatch_expire_parked}
use finit.Ink.Dispatch.Send.{send_frame, serial_after}
use finit.Ink.Dispatch.Sent.{send_frame-Sent}
use finit.Ink.Proto.Build.{msg_build_method_call}
use finit.Ink.Dispatch.Message.{uid_resolved, call_resume, dispatch_message}
use finit.Ink.Dispatch.Outbound.{
  take_pending, called, all_used, connection_call, expire_pending, expire_bus, run_all,
  connection_expire,
}
use finit.Ink.Dispatch.Events.{
  Event, arrived, answered, resume, calls, sweep, tick, process_binary, Link, read_more, happens,
  rx_buf_size, step, run,
}
use finit.Ink.Dispatch.Kept.{
  on_parsed, on_status, resume_parked_keeps, run_all_keeps, dispatch_message_keeps,
}

module _ (host : Host) (srv : Server) (Inv : Connection → Type 0) (law : Law srv Inv) where
  process_binary_keeps :
      (f : ℕ) (buf : List ℕ) (c : Connection) → Inv c → Inv (process_binary f host srv buf c).1.0
  unfolding process_binary
  process_binary_keeps zero buf c h = h
  process_binary_keeps (suc f) [] c h = h
  process_binary_keeps (suc f) (x ∷ buf) c h =
      let after =
        λ (m : Msg) (n : ℕ). dispatch_message_keeps host srv Inv law c m (take n (x ∷ buf)) h in
      on_parsed (λ (r : List ℕ × (Connection × Bool)). Inv r.1.0) (msg_parse (x ∷ buf)) h h
        (λ m n.
          on_status (λ (r : List ℕ × (Connection × Bool)). Inv r.1.0)
            (dispatch_message host srv c m (take n (x ∷ buf))).1 (after m n)
            (process_binary_keeps f (drop n (x ∷ buf))
              (dispatch_message host srv c m (take n (x ∷ buf))).0 (after m n)))

  read_more_keeps : (bytes : List ℕ) (l : Link) → Inv l.conn → Inv (read_more host srv bytes l).conn
  unfolding read_more
  read_more_keeps bytes l h =
      let buf = l.rxbuf ++ take (rx_buf_size - length l.rxbuf) bytes in
      on_if (λ (k : Link). Inv k.conn) (leb rx_buf_size (length l.rxbuf)) h
        (process_binary_keeps (length buf) buf l.conn h)

  told_keeps : (c : Connection) (p : Parsed) → Inv c → Inv (told host c p)
  told_keeps c need_more h = h
  told_keeps c bad h = h
  told_keeps c (message m n) h = send_error_keeps host srv Inv law c m _ _ h

  expire_slots_keeps :
      (age : ℕ) (ps : List Parked) (c : Connection) → Inv c → Inv (expire_slots host age ps c).0
  unfolding expire_slots
  expire_slots_keeps age [] c h = h
  expire_slots_keeps age (p ∷ ps) c h =
      let freed = told host (map_slots (unpark p.tok) c) (msg_parse p.buf) in
      let stays = expire_slots_keeps age ps c h in
      on_if (λ (r : Connection × ℕ). Inv r.0) (p.tok == 0) stays
        (on_if (λ (r : Connection × ℕ). Inv r.0) (ltb (c.now - p.stamp) age) stays
          (expire_slots_keeps age ps freed
            (told_keeps (map_slots (unpark p.tok) c) (msg_parse p.buf) (law.frees c p.tok h))))

  expire_parked_keeps :
      (age : ℕ) (c : Connection) → Inv c → Inv (dispatch_expire_parked host age c).0
  unfolding dispatch_expire_parked
  expire_parked_keeps age c h =
      on_option (λ (r : Connection × ℕ). Inv r.0) c.bus h (λ b. expire_slots_keeps age b.parked c h)

  expire_bus_keeps :
      (age : ℕ) (c : Connection) (o : Option Bus) → Inv c → Inv (expire_bus host age c o).0
  expire_bus_keeps age c none h = h
  expire_bus_keeps age c (some b) h =
      let left = (expire_pending c.now age b.pending).0 in
      let cbs = (expire_pending c.now age b.pending).1.1 in
      let expired = with_pending (bus_of c.bus) left c in
      expire_parked_keeps age (run_all cbs expired)
        (run_all_keeps host srv Inv law cbs expired (law.pends c left h))

  connection_expire_keeps :
      (age : ℕ) (c : Connection) → Inv c → Inv (connection_expire host age c).0
  unfolding connection_expire
  connection_expire_keeps age c h = expire_bus_keeps age c c.bus h

  called_keeps :
      (serial : ℕ) (cb : Option ℕ) (r : Connection × Bool) → Inv r.0 → Inv (called serial cb r).0
  called_keeps serial cb (c, false) h = h
  called_keeps serial cb (c, true) h =
      on_option (λ (r : Connection × Bool). Inv r.0)
        (take_pending (record { used = true; serial = serial; stamp = c.now; cb = cb })
          (bus_of c.bus).pending)
        h (λ left. law.pends c left h)

  connection_call_keeps :
      (c : Connection) (destination : Option (List ℕ)) (path : List ℕ) (interface : Option (List ℕ))
      (member : List ℕ) (cb : Option ℕ) (signature body : Option (List ℕ))
      → Inv c
      → Inv (connection_call host c destination path interface member cb signature body).0
  unfolding connection_call
  connection_call_keeps c destination path interface member cb signature none h =
      law.pends c (bus_of c.bus).pending h
  connection_call_keeps c destination path interface member cb signature (some body) h =
      let n = serial_after c.next_serial in
      let hdr =
        msg_build_method_call 1024 n path interface member destination signature (length body) in
      let d = with_pending (bus_of c.bus) (bus_of c.bus).pending c in
      let next = record d { next_serial = n } in
      let ready = law.pends c (bus_of c.bus).pending h in
      on_if (λ (r : Connection × Bool). Inv r.0) (all_used (bus_of c.bus).pending) ready
        (called_keeps n cb (send_frame host n hdr body next) (
          kept_Sent host srv Inv law next (send_frame host n hdr body next).0
            (send_frame-Sent host n hdr body next) (law.sends d n d.wire ready)))

  happens_keeps : (e : Event) (l : Link) → Inv l.conn → Inv (happens host srv e l).conn
  unfolding uid_resolved call_resume
  happens_keeps (arrived bytes) l h = read_more_keeps bytes l h
  happens_keeps (answered tok uid) l h =
      resume_parked_keeps host srv Inv law l.conn tok (some uid) false h
  happens_keeps (resume tok) l h = resume_parked_keeps host srv Inv law l.conn tok none true h
  happens_keeps (calls destination path interface member cb signature body) l h =
      connection_call_keeps l.conn destination path interface member cb signature body h
  happens_keeps (sweep age) l h = connection_expire_keeps age l.conn h
  happens_keeps (tick n) l h = law.ticks l.conn (l.conn.now + n) h

  pub run_keeps : (es : List Event) (l : Link) → Inv l.conn → Inv (run host srv es l).conn
  unfolding run step
  run_keeps [] l h = h
  run_keeps (e ∷ es) l h =
      run_keeps es (step host srv e l)
        (on_if (λ (k : Link). Inv k.conn) l.alive (happens_keeps e l h) h)
