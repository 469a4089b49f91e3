-- ===== src/Ink/Dispatch/Callbacks.antt =====
-- The callbacks of the calls that libink makes itself.
use finit.Prelude.{
  ℕ, ◌+◌, ◌-◌, arith, Bool, true, false, ◌&&◌, ltb, ◌==◌, ◌≡◌, refl, ap, ◌∙◌, List, [], ◌∷◌, ◌++◌,
  Option, none, some, if◌then◌else◌,
}
use finit.Ink.Proto.{Msg, Parsed, need_more, bad, message, msg_parse}
use finit.Ink.Dispatch.{Parked, Pending, Bus, Delivered, Connection}
use finit.Ink.Dispatch.Send.{Host}
use finit.Ink.Dispatch.Park.{
  bus_of, unpark, map_bus, map_slots, told, expire_slots, dispatch_expire_parked,
}
use finit.Ink.Dispatch.Sent.{Sent, send_error-Sent}
use finit.Ink.Dispatch.Laws.{on_if, on_option}
use finit.Ink.Dispatch.Outbound.{
  free_pending, behind_slot, with_cb, run_cb, with_pending, give_reply, reply_slot, deliver_reply,
  expire_pending, run_all, expire_bus, connection_expire, callbacks, forget_bus, forget_conn,
}

-- How often a callback stands in a slot, and how often it has been run.
abbrev pub is_cb : ℕ → Option ℕ → ℕ
is_cb cb none = 0
is_cb cb (some k) = if k == cb then 1 else 0

abbrev pub still_owed : ℕ → List Pending → ℕ
still_owed cb [] = 0
still_owed cb (p ∷ ps) = (if p.used then is_cb cb p.cb else 0) + still_owed cb ps

abbrev pub times_run : ℕ → List Delivered → ℕ
times_run cb [] = 0
times_run cb (d ∷ ds) = is_cb cb (some d.cb) + times_run cb ds

abbrev pub owed_and_run : ℕ → Connection → ℕ
owed_and_run cb c = times_run cb c.delivered + still_owed cb (bus_of c.bus).pending

times_run-append :
    (cb : ℕ) (ds es : List Delivered) → times_run cb (ds ++ es) ≡ times_run cb ds + times_run cb es
times_run-append cb [] es = omega arith
times_run-append cb (d ∷ ds) es = omega (arith, times_run-append cb ds es)

run_cb-counts :
    (cb : ℕ) (o : Option ℕ) (a : Option Msg) (c : Connection)
    → owed_and_run cb (run_cb o a c) ≡ is_cb cb o + owed_and_run cb c
run_cb-counts cb none a c = omega arith
run_cb-counts cb (some k) a c =
    omega (arith, times_run-append cb c.delivered (record { cb = k; answer = a } ∷ []))

-- How often a callback is in a list.
abbrev count_cb : ℕ → List ℕ → ℕ
count_cb k [] = 0
count_cb k (cb ∷ cbs) = is_cb k (some cb) + count_cb k cbs

count-with_cb :
    (k : ℕ) (o : Option ℕ) (cbs : List ℕ) → count_cb k (with_cb o cbs) ≡ is_cb k o + count_cb k cbs
count-with_cb k none cbs = omega arith
count-with_cb k (some cb) cbs = refl

-- A slot that is freed has been still_owed.
free_case :
    (k : ℕ) (p : Pending) (ps : List Pending) (o : Option (Option ℕ × List Pending)) (b : Bool)
    (cb : Option ℕ) (left : List Pending)
    → (b ≡ true → p.used ≡ true)
    → ((c : Option ℕ) (l : List Pending)
        → o ≡ some (c, l)
        → still_owed k ps ≡ is_cb k c + still_owed k l)
    → (if b then some (p.cb, record p { used = false } ∷ ps) else behind_slot p o) ≡ some (cb, left)
    → still_owed k (p ∷ ps) ≡ is_cb k cb + still_owed k left
free_case k p ps o true cb left used rest h =
    let e : p.cb ≡ cb = cc in
    let l : record p { used = false } ∷ ps ≡ left = cc in
    let now : is_cb k p.cb ≡ is_cb k cb = ap (is_cb k) e in
    let after : 0 + still_owed k ps ≡ still_owed k left = ap (still_owed k) l in
    ground (arith, used refl, now, after)
free_case k p ps none false cb left used rest h = absurd (cc h)
free_case k p ps (some (c, l)) false cb left used rest h =
    let e : c ≡ cb = cc in
    let l' : p ∷ l ≡ left = cc in
    let now : is_cb k c ≡ is_cb k cb = ap (is_cb k) e in
    let after : still_owed k (p ∷ l) ≡ still_owed k left = ap (still_owed k) l' in
    omega (arith, rest c l refl, now, after)

free_pending-counts :
    (k serial : ℕ) (ps left : List Pending) (cb : Option ℕ)
    → free_pending serial ps ≡ some (cb, left)
    → still_owed k ps ≡ is_cb k cb + still_owed k left
unfolding free_pending
free_pending-counts k serial [] left cb h = absurd (cc h)
free_pending-counts k serial (p ∷ ps) left cb h =
    free_case k p ps (free_pending serial ps) (p.used && p.serial == serial) cb left
      (λ b. ground (arith, b)) (λ c l e. free_pending-counts k serial ps l c e) h

expire_pending-counts :
    (k now age : ℕ) (ps : List Pending)
    → still_owed k ps
      ≡ still_owed k (expire_pending now age ps).0 + count_cb k (expire_pending now age ps).1.1
unfolding expire_pending
expire_pending-counts k now age [] = refl
expire_pending-counts k now age (p ∷ ps) =
    let cbs = (expire_pending now age ps).1.1 in
    ground (arith, expire_pending-counts k now age ps, count-with_cb k p.cb cbs)

callbacks-counts : (k : ℕ) (ps : List Pending) → count_cb k (callbacks ps) ≡ still_owed k ps
callbacks-counts k [] = refl
callbacks-counts k (p ∷ ps) =
    ground (arith, callbacks-counts k ps, count-with_cb k p.cb (callbacks ps))

run_all-counts :
    (k : ℕ) (cbs : List ℕ) (c : Connection)
    → owed_and_run k (run_all cbs c) ≡ count_cb k cbs + owed_and_run k c
run_all-counts k [] c = omega arith
run_all-counts k (cb ∷ cbs) c =
    omega (arith, run_all-counts k cbs (run_cb (some cb) none c), run_cb-counts k (some cb) none c)

give_reply-counts :
    (k serial : ℕ) (c : Connection) (m : Msg) (o : Option (Option ℕ × List Pending))
    → ((cb : Option ℕ) (left : List Pending)
        → o ≡ some (cb, left)
        → still_owed k (bus_of c.bus).pending ≡ is_cb k cb + still_owed k left)
    → owed_and_run k (give_reply c m o) ≡ owed_and_run k c
give_reply-counts k serial c m none h = refl
give_reply-counts k serial c m (some (cb, left)) h =
    omega (arith, h cb left refl, run_cb-counts k cb (some m) (with_pending (bus_of c.bus) left c))

reply_slot-counts :
    (k serial : ℕ) (o : Option Bus) (cb : Option ℕ) (left : List Pending)
    → reply_slot serial o ≡ some (cb, left)
    → still_owed k (bus_of o).pending ≡ is_cb k cb + still_owed k left
reply_slot-counts k serial none cb left h = absurd (cc h)
reply_slot-counts k serial (some b) cb left h = free_pending-counts k serial b.pending left cb h

-- Parked calls have nothing to do with it.
Sent-counts : (k : ℕ) (c d : Connection) → Sent c d → owed_and_run k d ≡ owed_and_run k c
Sent-counts k c d (n, w, e) = ap (owed_and_run k) e

told-counts :
    (k : ℕ) (host : Host) (c : Connection) (p : Parsed)
    → owed_and_run k (told host c p) ≡ owed_and_run k c
told-counts k host c need_more = refl
told-counts k host c bad = refl
told-counts k host c (message m n) =
    Sent-counts k c (told host c (message m n)) (send_error-Sent host c m _ _)

map_bus_pending :
    (f : List Parked → List Parked) (o : Option Bus)
    → (bus_of (map_bus f o)).pending ≡ (bus_of o).pending
map_bus_pending f none = refl
map_bus_pending f (some b) = refl

expire_slots-counts :
    (k : ℕ) (host : Host) (age : ℕ) (ps : List Parked) (c : Connection)
    → owed_and_run k (expire_slots host age ps c).0 ≡ owed_and_run k c
unfolding expire_slots
expire_slots-counts k host age [] c = refl
expire_slots-counts k host age (p ∷ ps) c =
    let P = λ (r : Connection × ℕ). owed_and_run k r.0 ≡ owed_and_run k c in
    let freed = map_slots (unpark p.tok) c in
    let stays = expire_slots-counts k host age ps c in
    on_if P (p.tok == 0) stays (
      on_if P (ltb (c.now - p.stamp) age) stays (
        expire_slots-counts k host age ps (told host freed (msg_parse p.buf))
        ∙ (told-counts k host freed (msg_parse p.buf)
            ∙ ap (λ x. times_run k c.delivered + still_owed k x)
                (map_bus_pending (unpark p.tok) c.bus))))

expire_parked-counts :
    (k : ℕ) (host : Host) (age : ℕ) (c : Connection)
    → owed_and_run k (dispatch_expire_parked host age c).0 ≡ owed_and_run k c
unfolding dispatch_expire_parked
expire_parked-counts k host age c =
    on_option (λ (r : Connection × ℕ). owed_and_run k r.0 ≡ owed_and_run k c) c.bus refl
      (λ b. expire_slots-counts k host age b.parked c)

expire_bus-counts :
    (k : ℕ) (host : Host) (age : ℕ) (c : Connection) (o : Option Bus)
    → c.bus ≡ o
    → owed_and_run k (expire_bus host age c o).0 ≡ owed_and_run k c
expire_bus-counts k host age c none e = refl
expire_bus-counts k host age c (some b) e =
    let left = (expire_pending c.now age b.pending).0 in
    let cbs = (expire_pending c.now age b.pending).1.1 in
    let expired = with_pending (bus_of c.bus) left c in
    let here : still_owed k (bus_of c.bus).pending ≡ still_owed k b.pending =
      ap (λ x. still_owed k (bus_of x).pending) e in
    omega (
      arith,
      expire_parked-counts k host age (run_all cbs expired),
      run_all-counts k cbs expired,
      expire_pending-counts k c.now age b.pending,
      here,
    )

run_all-times :
    (k : ℕ) (cbs : List ℕ) (c : Connection)
    → times_run k (run_all cbs c).delivered ≡ count_cb k cbs + times_run k c.delivered
run_all-times k [] c = omega arith
run_all-times k (cb ∷ cbs) c = omega (
  arith,
  run_all-times k cbs (run_cb (some cb) none c),
  times_run-append k c.delivered (record { cb = cb; answer = none } ∷ []),
)

forget_bus-counts :
    (k : ℕ) (c : Connection) (o : Option Bus)
    → c.bus ≡ o
    → times_run k (forget_bus c o).delivered ≡ owed_and_run k c
forget_bus-counts k c none e =
    let here : still_owed k (bus_of c.bus).pending ≡ 0 =
      ap (λ x. still_owed k (bus_of x).pending) e in
    omega (arith, here)
forget_bus-counts k c (some b) e =
    let here : still_owed k (bus_of c.bus).pending ≡ still_owed k b.pending =
      ap (λ x. still_owed k (bus_of x).pending) e in
    omega (arith, run_all-times k (callbacks b.pending) c, callbacks-counts k b.pending, here)

-- No callback of a call of libink's own is lost and none is run twice: a reply (to whichever call, or to
-- none), the sweep and the end of a connection each keep the number of times that a callback has been
-- run or is still waited for, and at the end of the connection all of them have been run.
pub callbacks-once :
    (k : ℕ) (host : Host) (age : ℕ) (c : Connection) (m : Msg)
    → (owed_and_run k (deliver_reply c m) ≡ owed_and_run k c)
      × (owed_and_run k (connection_expire host age c).0 ≡ owed_and_run k c)
      × (times_run k (forget_conn c).delivered ≡ owed_and_run k c)
unfolding deliver_reply connection_expire forget_conn
callbacks-once k host age c m = (
  give_reply-counts k m.reply_serial c m (reply_slot m.reply_serial c.bus)
      (λ cb left e. reply_slot-counts k m.reply_serial c.bus cb left e),
  expire_bus-counts k host age c c.bus refl,
  forget_bus-counts k c c.bus refl,
)
