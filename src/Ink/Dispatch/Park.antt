-- ===== src/Ink/Dispatch/Park.antt =====
-- libink/dispatch.c: calls that are parked.
use finit.Prelude.{
  ℕ, ◌+◌, ◌-◌, ◌%◌, ◌^◌, false, ◌||◌, ltb, ◌==◌, List, [], ◌∷◌, length, codes, Option, none, some,
  if◌then◌else◌,
}
use finit.Ink.Proto.{Parsed, need_more, bad, message, msg_parse}
use finit.Ink.Dispatch.{Parked, Pending, Bus, Connection}
use finit.Ink.Dispatch.Send.{Host, send_error}

-- LINK_UID_UNKNOWN, LINK_PARKED_CAP and LINK_PARKED_MSG_MAX
abbrev pub uid_unknown : ℕ
uid_unknown = 4294967295

abbrev pub parked_msg_max : ℕ
parked_msg_max = 1024

abbrev pub free_slot : Parked
free_slot = record { tok = 0; stamp = 0; uid = 0; buf = [] }

abbrev pub no_call : Pending
no_call = record { used = false; serial = 0; stamp = 0; cb = none }

-- `__bus_get`
abbrev pub empty_bus : Bus
empty_bus = record {
  parked = free_slot ∷ free_slot ∷ free_slot ∷ free_slot ∷ [];
  next_tok = 0;
  pending = no_call ∷ no_call ∷ no_call ∷ no_call ∷ [];
}

abbrev pub bus_of : Option Bus → Bus
bus_of none = empty_bus
bus_of (some b) = b

-- The first slot that is free is taken; `none` if there is none.
abbrev pub slot_before : Parked → Option (List Parked) → Option (List Parked)
slot_before q none = none
slot_before q (some left) = some (q ∷ left)

unfoldable pub take_slot : Parked → List Parked → Option (List Parked)
take_slot p [] = none
take_slot p (q ∷ qs) =
    let rest = take_slot p qs in if q.tok == 0 then some (p ∷ qs) else slot_before q rest

abbrev pub token_after : ℕ → ℕ
token_after n = (n + 1) % 2 ^ 64

-- `park`: the token and the connection; NULL is `none`. A slot keeps a copy of the frame.
abbrev pub put_in_slot : Connection → ℕ → Option (List Parked) → Option (ℕ × Connection)
put_in_slot c tok none = none
put_in_slot c tok (some slots) = some (
  tok,
  record c {
    bus = some (record (bus_of c.bus) { parked = slots; next_tok = tok });
    parks = c.parks + 1;
  },
)

unfoldable pub park : Connection → List ℕ → ℕ → Option (ℕ × Connection)
park c frame uid =
    let b = bus_of c.bus in
    let tok = token_after b.next_tok in
    if length frame == 0 || ltb parked_msg_max (length frame)
    then none
    else put_in_slot c tok
        (take_slot (record { tok = tok; stamp = c.now; uid = uid; buf = frame }) b.parked)

-- `unpark` of the slot with a token.
unfoldable pub unpark : ℕ → List Parked → List Parked
unpark tok [] = []
unpark tok (p ∷ ps) =
    let rest = unpark tok ps in if p.tok == tok then record p { tok = 0 } ∷ ps else p ∷ rest

abbrev pub map_bus : (List Parked → List Parked) → Option Bus → Option Bus
map_bus f none = none
map_bus f (some b) = some (record b { parked = f b.parked })

abbrev pub map_slots : (List Parked → List Parked) → Connection → Connection
map_slots f c = record c { bus = map_bus f c.bus }

-- The slot that a token stands for.
unfoldable pub find_slot : ℕ → List Parked → Option Parked
find_slot tok [] = none
find_slot tok (p ∷ ps) = let rest = find_slot tok ps in if p.tok == tok then some p else rest

-- `__dispatch_expire_parked`: the slots that are old enough are freed, each before its caller is
-- told; with the number of those that stay.
abbrev pub told : Host → Connection → Parsed → Connection
told host c need_more = c
told host c bad = c
told host c (message m n) =
    (send_error host c m (codes "org.freedesktop.DBus.Error.TimedOut")
      (some (codes "Timed out identifying the caller"))).0

unfoldable pub expire_slots : Host → ℕ → List Parked → Connection → Connection × ℕ
expire_slots host age [] c = (c, 0)
expire_slots host age (p ∷ ps) c =
    let freed = told host (map_slots (unpark p.tok) c) (msg_parse p.buf) in
    let free_next = expire_slots host age ps c in
    let live_next = expire_slots host age ps c in
    let old_next = expire_slots host age ps freed in
    if p.tok == 0
    then free_next
    else if ltb (c.now - p.stamp) age
    then (live_next.0, live_next.1 + 1)
    else old_next

unfoldable pub dispatch_expire_parked : Host → ℕ → Connection → Connection × ℕ
dispatch_expire_parked host age c = elim c.bus [
  | none ↦ (c, 0)
  | some b ↦ expire_slots host age b.parked c
]
