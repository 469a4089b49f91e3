-- ===== src/Ink/Auth.antt =====
-- libink/auth.c: the server's side of the handshake, and the client's lines.
pub mod Laws
mod Examples
use finit.Prelude.{
  ℕ, zero, suc, ◌+◌, ◌-◌, ◌*◌, ◌/◌, ◌%◌, ◌^◌, Bool, true, false, not, ◌&&◌, ◌||◌, leb, ltb, ◌==◌,
  List, [], ◌∷◌, ◌++◌, length, take, drop, codes, Option, none, some, if◌then◌else◌,
}
use finit.Ink.Reader.{before_nul}
use finit.Ink.Path.{hex}

-- `conn->auth`
pub data AuthState : Type 0 where
  nul line done failed : AuthState

-- The part of `link_connection_t` that the handshake uses, with the bytes that are held in `linebuf`
-- and `rxbuf`, the lines that were sent, and the uid of the peer,
-- which is `no_uid`, (uid_t)-1, where it is not known.
pub record Conn : Type 0 where
  pub auth : AuthState
  pub linebuf : List ℕ
  pub rxbuf : List ℕ
  pub peer_uid : ℕ
  pub guid : List ℕ
  pub sent : List (List ℕ)

abbrev pub no_uid : ℕ
no_uid = 4294967295

-- `LINK_AUTH_LINEBUF_SIZE`
abbrev pub linebuf_size : ℕ
linebuf_size = 256

-- `hexval`
unfoldable pub hexval : ℕ → Option ℕ
hexval c =
    if leb 48 c && leb c 57
    then some (c - 48)
    else if leb 97 c && leb c 102
    then some (c - 97 + 10)
    else if leb 65 c && leb c 70
    then some (c - 65 + 10)
    else none

abbrev joined : Option ℕ → Option ℕ → Option (List ℕ) → Option (List ℕ)
joined (some hi) (some lo) (some rest) = some ((hi * 16 + lo) ∷ rest)
joined hi lo rest = none

-- The loop of `parse_external_uid`, over pairs of digits.
unfoldable pub decode_hex : List ℕ → Option (List ℕ)
decode_hex [] = some []
decode_hex (a ∷ []) = none
decode_hex (a ∷ b ∷ s) = joined (hexval a) (hexval b) (decode_hex s)

-- What follows a prefix (`memcmp`).
unfoldable pub strip_prefix : List ℕ → List ℕ → Option (List ℕ)
strip_prefix [] s = some s
strip_prefix (p ∷ ps) [] = none
strip_prefix (p ∷ ps) (c ∷ s) = let rest = strip_prefix ps s in if p == c then rest else none

unfoldable pub is_line : List ℕ → List ℕ → Bool
is_line p s = elim (strip_prefix p s) [ some [] ↦ true | _ ↦ false ]

-- The first line that ends in CR and LF, and what follows it.
abbrev pub found : ℕ → Option (List ℕ × List ℕ) → Option (List ℕ × List ℕ)
found a none = none
found a (some (text, rest)) = some (a ∷ text, rest)

unfoldable pub split_line : List ℕ → Option (List ℕ × List ℕ)
split_line [] = none
split_line (a ∷ []) = none
split_line (a ∷ b ∷ s) =
    let rest = split_line (b ∷ s) in if a == 13 && b == 10 then some ([], s) else found a rest

abbrev pub taken : Conn → Option (List ℕ × List ℕ) → List ℕ × Conn
taken c none = ([], c)
taken c (some (text, rest)) = (take (linebuf_size - 1) text, record c { linebuf = rest })

-- `take_line`: the empty list stands for 0, that no line is complete or that it is empty. A
-- line that is complete is consumed.
unfoldable pub take_line : Conn → List ℕ × Conn
take_line c = taken c (split_line c.linebuf)

abbrev pub is_line_state : AuthState → Bool
is_line_state line = true
is_line_state _ = false

-- Behind BEGIN the rest of the buffer is the start of the message stream; `rxbuf_size` is larger
-- than the line buffer.
abbrev is_done : AuthState → Bool
is_done done = true
is_done _ = false

unfoldable pub hand_over : ℕ → Conn × Bool → Conn × Bool
hand_over rxbuf_size (c, false) = (c, false)
hand_over rxbuf_size (c, true) =
    if is_done c.auth && ltb 0 (length c.linebuf)
    then (if ltb rxbuf_size (length c.linebuf)
        then (c, false)
        else (record c { rxbuf = c.linebuf; linebuf = [] }, true))
    else (c, true)

-- `strtoul` gives the number of a whole text, and `none` on an error or with something behind the
-- number; `write_ok` says whether a line can be sent.
module _ (strtoul : List ℕ → Option ℕ) (write_ok : Bool) where
  in_range : Option ℕ → Option ℕ
  in_range none = none
  in_range (some v) = if ltb v (2 ^ 32) then some v else none

  number_of : Option (List ℕ) → Option ℕ
  unfolding in_range
  number_of none = none
  number_of (some decoded) = in_range (strtoul (before_nul decoded))

  unfoldable pub parse_external_uid : List ℕ → Option ℕ
  unfolding number_of
  parse_external_uid arg =
      if length arg == 0 || length arg % 2 == 1 || leb 24 (length arg / 2)
      then none
      else number_of (decode_hex arg)

  -- `reply` and `reject`; the flag is false for -1.
  abbrev pub reply : List ℕ → Conn → Conn × Bool
  reply text c = if write_ok then (record c { sent = c.sent ++ text ∷ [] }, true) else (c, false)

  abbrev pub reject : Conn → Conn × Bool
  reject c = reply (codes "REJECTED EXTERNAL\r\n") c

  -- A claim that can be read is refused if the peer is not known or another.
  abbrev same_uid : Option ℕ → ℕ → Bool
  same_uid (some claimed) peer = not (peer == no_uid) && claimed == peer
  same_uid none peer = false

  unfoldable pub handle_line : List ℕ → Conn → Conn × Bool
  handle_line text c = elim (strip_prefix (codes "AUTH EXTERNAL ") text) [
    | some arg ↦
        if same_uid (parse_external_uid arg) c.peer_uid
        then reply (codes "OK " ++ (c.guid ++ codes "\r\n")) c
        else reject c
    | none ↦
        if is_line (codes "AUTH") text
        then reject c
        else if is_line (codes "NEGOTIATE_UNIX_FD") text
        then reply (codes "ERROR fd-passing not supported\r\n") c
        else if is_line (codes "BEGIN") text
        then (record c { auth = done }, true)
        else if is_line (codes "CANCEL") text
        then reject c
        else elim (strip_prefix (codes "ERROR") text) [
          | some _ ↦ reject c
          | none ↦ reply (codes "ERROR Unknown command\r\n") c
        ]
  ]

  -- The loop over the lines; each takes two bytes of the buffer at least.
  unfoldable pub handle_lines : ℕ → Conn → Conn × Bool
  handle_lines zero c = (c, true)
  handle_lines (suc f) c =
      let (text, c1) = take_line c in
      let (c2, ok) = handle_line text c1 in
      let more = handle_lines f c2 in
      if length text == 0
      then (c1, true)
      else if not ok
      then (c2, false)
      else if not (is_line_state c2.auth)
      then (c2, true)
      else more

  -- The part of `__auth_process` in LINK_AUTH_LINE.
  unfoldable pub take_bytes : ℕ → List ℕ → Conn → Conn × Bool
  take_bytes rxbuf_size bytes c =
      if ltb linebuf_size (length c.linebuf + length bytes)
      then (record c { auth = failed }, false)
      else (let c1 = record c { linebuf = c.linebuf ++ bytes } in
          hand_over rxbuf_size (handle_lines (length c1.linebuf) c1))

  -- `__auth_process` on the bytes that were read, of which there is at least one.
  abbrev pub received : ℕ → List ℕ → AuthState → Conn → Conn × Bool
  received rxbuf_size [] state c = (c, false)
  received rxbuf_size (b ∷ bytes) nul c =
      if b == 0
      then take_bytes rxbuf_size bytes (record c { auth = line })
      else (record c { auth = failed }, false)
  received rxbuf_size bytes line c = take_bytes rxbuf_size bytes c
  received rxbuf_size bytes _ c = (c, true)

  unfoldable pub auth_process : ℕ → List ℕ → Conn → Conn × Bool
  auth_process rxbuf_size bytes c = received rxbuf_size bytes c.auth c

-- The client's claim: the decimal uid in hexadecimal digits (`__auth_client`).
unfoldable pub encode_hex : List ℕ → List ℕ
encode_hex [] = []
encode_hex (c ∷ s) = hex (c / 16) ∷ hex (c % 16) ∷ encode_hex s

unfoldable pub auth_line : List ℕ → List ℕ
auth_line digits = codes "AUTH EXTERNAL " ++ encode_hex digits
