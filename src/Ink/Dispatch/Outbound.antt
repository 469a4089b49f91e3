-- ===== src/Ink/Dispatch/Outbound.antt =====
-- libink: the calls that libink makes itself.
use finit.Prelude.{
  ℕ, ◌+◌, ◌-◌, Bool, true, false, not, ◌&&◌, ltb, ◌==◌, List, [], ◌∷◌, ◌++◌, length, Option, none,
  some, if◌then◌else◌,
}
use finit.Ink.Proto.{Msg}
use finit.Ink.Proto.Build.{msg_build_method_call}
use finit.Ink.Dispatch.{Pending, Bus, Connection}
use finit.Ink.Dispatch.Send.{Host, send_frame, serial_after}
use finit.Ink.Dispatch.Park.{bus_of, dispatch_expire_parked}

-- The first slot with the serial is freed; its callback.
abbrev pub behind_slot :
    Pending → Option (Option ℕ × List Pending) → Option (Option ℕ × List Pending)
behind_slot p none = none
behind_slot p (some (cb, left)) = some (cb, p ∷ left)

unfoldable pub free_pending : ℕ → List Pending → Option (Option ℕ × List Pending)
free_pending serial [] = none
free_pending serial (p ∷ ps) =
    let rest = free_pending serial ps in
    if p.used && p.serial == serial
    then some (p.cb, record p { used = false } ∷ ps)
    else behind_slot p rest

abbrev pub run_cb : Option ℕ → Option Msg → Connection → Connection
run_cb none answer c = c
run_cb (some cb) answer c = record c {
  delivered = c.delivered ++ record { cb = cb; answer = answer } ∷ [];
}

abbrev pub with_pending : Bus → List Pending → Connection → Connection
with_pending b ps c = record c { bus = some (record b { pending = ps }) }

-- `deliver_reply`
abbrev pub give_reply : Connection → Msg → Option (Option ℕ × List Pending) → Connection
give_reply c m none = c
give_reply c m (some (cb, left)) = run_cb cb (some m) (with_pending (bus_of c.bus) left c)

abbrev pub reply_slot : ℕ → Option Bus → Option (Option ℕ × List Pending)
reply_slot serial none = none
reply_slot serial (some b) = free_pending serial b.pending

unfoldable pub deliver_reply : Connection → Msg → Connection
deliver_reply c m = give_reply c m (reply_slot m.reply_serial c.bus)

-- The first slot that is not used is taken; `none` if there is none.
unfoldable pub take_pending : Pending → List Pending → Option (List Pending)
take_pending p [] = none
take_pending p (q ∷ qs) =
    let rest = take_pending p qs in
    if not q.used then some (p ∷ qs) else elim rest [ none ↦ none | some left ↦ some (q ∷ left) ]

-- `link_connection_call`, with the body that has been marshalled, on a connection that is open; -1 is
-- `false`. The slot is filled in once the message has been written.
abbrev pub called : ℕ → Option ℕ → Connection × Bool → Connection × Bool
called serial cb (c, false) = (c, false)
called serial cb (c, true) =
    elim (take_pending (record { used = true; serial = serial; stamp = c.now; cb = cb })
      (bus_of c.bus).pending) [
        | none ↦ (c, false)
        | some left ↦ (with_pending (bus_of c.bus) left c, true)
      ]

abbrev pub all_used : List Pending → Bool
all_used [] = true
all_used (p ∷ ps) = p.used && all_used ps

unfoldable pub connection_call :
    Host
    → Connection
    → (destination : Option (List ℕ)) → (path : List ℕ) → (interface : Option (List ℕ))
    → (member : List ℕ) → (cb : Option ℕ) → (signature : Option (List ℕ)) → (body : Option (List ℕ))
    → Connection × Bool
connection_call host c destination path interface member cb signature none =
    (record c { bus = some (bus_of c.bus) }, false)
connection_call host c destination path interface member cb signature (some body) =
    let b = bus_of c.bus in
    let serial = serial_after c.next_serial in
    let next = record c { bus = some b; next_serial = serial } in
    if all_used b.pending
    then (record c { bus = some b }, false)
    else called serial cb (
        send_frame host serial
          (msg_build_method_call 1024 serial path interface member destination signature
            (length body))
          body next)

abbrev pub with_cb : Option ℕ → List ℕ → List ℕ
with_cb none cbs = cbs
with_cb (some cb) cbs = cb ∷ cbs

-- The calls that are old enough are given up, each with NULL for its callback.
unfoldable pub expire_pending : ℕ → ℕ → List Pending → List Pending × (ℕ × List ℕ)
expire_pending now age [] = ([], (0, []))
expire_pending now age (p ∷ ps) =
    let (left, (live, cbs)) = expire_pending now age ps in
    if not p.used
    then (p ∷ left, (live, cbs))
    else if ltb (now - p.stamp) age
    then (p ∷ left, (live + 1, cbs))
    else (record p { used = false } ∷ left, (live, with_cb p.cb cbs))

abbrev pub run_all : List ℕ → Connection → Connection
run_all [] c = c
run_all (cb ∷ cbs) c = run_all cbs (run_cb (some cb) none c)

-- `link_connection_expire`: first those calls, then the calls that are parked.
abbrev pub expire_bus : Host → ℕ → Connection → Option Bus → Connection × ℕ
expire_bus host age c none = (c, 0)
expire_bus host age c (some b) =
    let (left, (live, cbs)) = expire_pending c.now age b.pending in
    let (c1, parked) =
      dispatch_expire_parked host age (run_all cbs (with_pending (bus_of c.bus) left c)) in
    (c1, live + parked)

unfoldable pub connection_expire : Host → ℕ → Connection → Connection × ℕ
connection_expire host age c = expire_bus host age c c.bus

-- `__dispatch_forget_conn`
abbrev pub callbacks : List Pending → List ℕ
callbacks [] = []
callbacks (p ∷ ps) = if p.used then with_cb p.cb (callbacks ps) else callbacks ps

abbrev pub forget_bus : Connection → Option Bus → Connection
forget_bus c none = c
forget_bus c (some b) = record (run_all (callbacks b.pending) c) { bus = none }

unfoldable pub forget_conn : Connection → Connection
forget_conn c = forget_bus c c.bus
