-- ===== src/Ink/Dispatch/Events.antt =====
-- What happens to a connection, one thing after another.
use finit.Prelude.{
  ℕ, zero, suc, ◌+◌, ◌-◌, Bool, true, false, leb, List, [], ◌∷◌, ◌++◌, length, take, drop, Option,
  if◌then◌else◌,
}
use finit.Ink.Proto.{need_more, bad, message, msg_parse}
use finit.Ink.Dispatch.{Server, Connection}
use finit.Ink.Dispatch.Send.{Host}
use finit.Ink.Dispatch.Message.{uid_resolved, call_resume, dispatch_message}
use finit.Ink.Dispatch.Outbound.{connection_call, connection_expire}

-- Bytes have come, the answer of a resolver, a handler's resume, a call of the embedder's own, the
-- sweep, and time that passes.
pub data Event : Type 0 where
  arrived : List ℕ → Event
  answered : (tok uid : ℕ) → Event
  resume : (tok : ℕ) → Event
  calls :
      (destination : Option (List ℕ)) (path : List ℕ) (interface : Option (List ℕ))
      (member : List ℕ) (cb : Option ℕ) (signature body : Option (List ℕ))
      → Event
  sweep : (age : ℕ) → Event
  tick : ℕ → Event

-- `process_binary`, with fuel: what it leaves in the buffer, and whether the connection is kept. A
-- message takes 16 bytes at least, so that the length of the buffer is enough.
unfoldable pub process_binary :
    ℕ → Host → Server → List ℕ → Connection → List ℕ × (Connection × Bool)
process_binary zero host srv buf c = (buf, (c, true))
process_binary (suc f) host srv [] c = ([], (c, true))
process_binary (suc f) host srv (x ∷ buf) c = elim (msg_parse (x ∷ buf)) [
  | need_more ↦ (x ∷ buf, (c, true))
  | bad ↦ (x ∷ buf, (c, false))
  | message m n ↦
      (let r = dispatch_message host srv c m (take n (x ∷ buf)) in
        elim r.1 [
          | false ↦ (x ∷ buf, (r.0, false))
          | true ↦ process_binary f host srv (drop n (x ∷ buf)) r.0
        ])
]

-- LINK_RX_BUF_SIZE
abbrev pub rx_buf_size : ℕ
rx_buf_size = 65536

-- A connection whose peer has been authenticated, with `rxbuf`; `alive` is false once it is to be
-- dropped.
pub record Link : Type 0 where
  pub rxbuf : List ℕ
  pub conn : Connection
  pub alive : Bool

abbrev pub with_conn : Link → Connection → Link
with_conn l c = record l { conn = c }

abbrev pub processed : List ℕ × (Connection × Bool) → Link
processed (buf, (c, kept)) = record { rxbuf = buf; conn = c; alive = kept }

-- One round of `link_connection_process`: a read into the room that is left, and what it makes.
unfoldable pub read_more : Host → Server → List ℕ → Link → Link
read_more host srv bytes l =
    let buf = l.rxbuf ++ take (rx_buf_size - length l.rxbuf) bytes in
    if leb rx_buf_size (length l.rxbuf)
    then record l { alive = false }
    else processed (process_binary (length buf) host srv buf l.conn)

abbrev pub happens : Host → Server → Event → Link → Link
happens host srv (arrived bytes) l = read_more host srv bytes l
happens host srv (answered tok uid) l = with_conn l (uid_resolved host srv l.conn tok uid)
happens host srv (resume tok) l = with_conn l (call_resume host srv l.conn tok)
happens host srv (calls destination path interface member cb signature body) l =
    with_conn l (connection_call host l.conn destination path interface member cb signature body).0
happens host srv (sweep age) l = with_conn l (connection_expire host age l.conn).0
happens host srv (tick n) l = with_conn l (record l.conn { now = l.conn.now + n })

-- Nothing more happens to a connection that is to be dropped.
unfoldable pub step : Host → Server → Event → Link → Link
step host srv e l = if l.alive then happens host srv e l else l

unfoldable pub run : Host → Server → List Event → Link → Link
run host srv [] l = l
run host srv (e ∷ es) l = run host srv es (step host srv e l)
