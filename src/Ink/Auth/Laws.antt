-- ===== src/Ink/Auth/Laws.antt =====
-- What the handshake promises, and what it does not check.
use finit.Prelude.{
  ℕ, zero, suc, ◌+◌, ◌*◌, ◌/◌, ◌%◌, ◌^◌, ◌≤◌, ◌<◌, arith, Bool, true, false, not, ◌&&◌, ◌==◌, ◌≡◌,
  refl, ap, List, [], ◌∷◌, ◌++◌, length, length-append, codes, Option, none, some, Bool-cases, inl,
  inr, if◌then◌else◌,
}
use finit.Ink.Reader.{before_nul}
use finit.Ink.Path.{hex}
use finit.Ink.Auth.{
  AuthState, nul, line, done, failed, Conn, no_uid, linebuf_size, hexval, decode_hex, strip_prefix,
  is_line, in_range, number_of, parse_external_uid, reply, reject, handle_line, split_line, taken,
  found, take_line, handle_lines, hand_over, take_bytes, received, auth_process, encode_hex,
  auth_line,
}

hexval-hex : (d : ℕ) → d < 16 → hexval (hex d) ≡ some d
unfolding hexval hex
hexval-hex d h = ground arith

abbrev pub AllDigits : List ℕ → Type 0
AllDigits [] = 0 ≤ 0
AllDigits (c ∷ s) = (48 ≤ c) × (c ≤ 57) × AllDigits s

decode-encode_hex : (s : List ℕ) → AllDigits s → decode_hex (encode_hex s) ≡ some s
unfolding decode_hex encode_hex
decode-encode_hex [] h = refl
decode-encode_hex (c ∷ s) (a, b, hs) = rw (hexval-hex (c / 16) (omega arith)) (
    rw (hexval-hex (c % 16) (omega arith))
      (rw (decode-encode_hex s hs) (ap (λ k. some (k ∷ s)) (omega arith))))

length-encode_hex : (s : List ℕ) → length (encode_hex s) ≡ length s * 2
unfolding encode_hex
length-encode_hex [] = refl
length-encode_hex (c ∷ s) = omega (arith, length-encode_hex s)

before_nul-digits : (s : List ℕ) → AllDigits s → before_nul s ≡ s
before_nul-digits [] h = refl
before_nul-digits (zero ∷ s) (a, b, hs) = absurd (omega arith)
before_nul-digits (suc c ∷ s) (a, b, hs) = ap (λ t. suc c ∷ t) (before_nul-digits s hs)

-- A line that was found and what follows it are two bytes shorter than the buffer.
abbrev Within : ℕ → Option (List ℕ × List ℕ) → Type 0
Within n none = 0 ≤ n
Within n (some (text, rest)) = length text + length rest + 2 ≤ n

found-Within : (a n : ℕ) (o : Option (List ℕ × List ℕ)) → Within n o → Within (suc n) (found a o)
found-Within a n none h = omega arith
found-Within a n (some (text, rest)) h = omega arith

split_line-Within : (s : List ℕ) → Within (length s) (split_line s)
unfolding split_line
split_line-Within [] = omega arith
split_line-Within (a ∷ []) = omega arith
split_line-Within (a ∷ b ∷ s) = elim (Bool-cases (a == 13 && b == 10)) [
  | inl y ↦ rw y (omega arith)
  | inr other ↦
      rw other (found-Within a (suc (length s)) (split_line (b ∷ s)) (split_line-Within (b ∷ s)))
]

taken-le :
    (c : Conn) (o : Option (List ℕ × List ℕ))
    → Within (length c.linebuf) o
    → length (taken c o).1.linebuf ≤ length c.linebuf
taken-le c none h = omega arith
taken-le c (some (text, rest)) h = omega arith

take_line-le : (c : Conn) → length (take_line c).1.linebuf ≤ length c.linebuf
unfolding take_line
take_line-le c = taken-le c (split_line c.linebuf) (split_line-Within c.linebuf)

hand_over-le :
    (size : ℕ) (r : Conn × Bool) → length (hand_over size r).0.linebuf ≤ length r.0.linebuf
unfolding hand_over
hand_over-le size (c, false) = omega arith
hand_over-le size (c, true) = ground arith

module _ (strtoul : List ℕ → Option ℕ) (write_ok : Bool) where
  parse_auth_line :
      (digits : List ℕ) (uid : ℕ)
      → strtoul digits ≡ some uid
      → uid < 2 ^ 32
      → AllDigits digits
      → 1 ≤ length digits
      → length digits ≤ 10
      → parse_external_uid strtoul write_ok (encode_hex digits) ≡ some uid
  unfolding parse_external_uid number_of in_range
  parse_auth_line digits uid e r d l u =
      rw (decode-encode_hex digits d)
        (rw (before_nul-digits digits d) (rw e (ground (arith, length-encode_hex digits))))

  -- The line that the client composes for its uid is answered by OK and the server's guid if the peer's
  -- uid is known, that is not (uid_t)-1, and is the same one, and else by REJECTED. strtoul() reads the client's decimal
  -- digits, of which there are 1 to 10, as that uid, which is below 2^32.
  pub handle-auth_line :
      (digits : List ℕ) (uid peer : ℕ) (c : Conn)
      → strtoul digits ≡ some uid
      → uid < 2 ^ 32
      → AllDigits digits
      → 1 ≤ length digits
      → length digits ≤ 10
      → handle_line strtoul write_ok (auth_line digits) (record c { peer_uid = peer }) ≡ (
          if not (peer == no_uid) && uid == peer
          then reply strtoul write_ok
              (codes "OK " ++ (c.guid ++ codes "\r\n"))
              (record c { peer_uid = peer })
          else reject strtoul write_ok (record c { peer_uid = peer }))
  unfolding handle_line auth_line strip_prefix
  handle-auth_line digits uid peer c e r d l u = rw (parse_auth_line digits uid e r d l u) refl

  -- A peer that has shown nothing but the leading NUL is let in by BEGIN alone, whatever its uid,
  -- even an unknown one: nothing is sent to it, the connection is authenticated, and what it sends
  -- behind that, as far as the buffers hold it, becomes the start of its messages.
  pub begin_unchecked :
      (rxbuf_size : ℕ) (rest : List ℕ) (c : Conn)
      → 7 + length rest ≤ linebuf_size
      → linebuf_size ≤ rxbuf_size
      → auth_process strtoul write_ok rxbuf_size
          (0 ∷ (codes "BEGIN\r\n" ++ rest))
          (record c { auth = nul; linebuf = []; rxbuf = [] })
        ≡ (record c { auth = done; linebuf = []; rxbuf = rest }, true)
  unfolding auth_process take_bytes hand_over handle_lines handle_line take_line split_line is_line
      strip_prefix
  begin_unchecked rxbuf_size [] c h k = refl
  begin_unchecked rxbuf_size (b ∷ rest) c h k = ground (arith, h, k)

  -- Behind an empty line nothing that has arrived is handled: it is kept in the buffer, complete lines
  -- included, until the peer sends more.
  pub empty_line_stalls :
      (rxbuf_size : ℕ) (bytes : List ℕ) (c : Conn)
      → 2 + length bytes ≤ linebuf_size
      → auth_process strtoul write_ok rxbuf_size
          (13 ∷ 10 ∷ bytes)
          (record c { auth = line; linebuf = [] })
        ≡ (record c { auth = line; linebuf = bytes }, true)
  unfolding auth_process take_bytes hand_over handle_lines take_line split_line
  empty_line_stalls rxbuf_size bytes c h = ground arith

  handle_line_linebuf :
      (text : List ℕ) (c : Conn) → (handle_line strtoul write_ok text c).0.linebuf ≡ c.linebuf
  unfolding handle_line
  handle_line_linebuf text c = ground arith

  handle_lines-le :
      (f : ℕ) (c : Conn) → length (handle_lines strtoul write_ok f c).0.linebuf ≤ length c.linebuf
  unfolding handle_lines
  handle_lines-le zero c = omega arith
  handle_lines-le (suc f) c =
      let (text, c1) = take_line c in
      let c2 = (handle_line strtoul write_ok text c1).0 in
      ground (arith, take_line-le c, ap length (handle_line_linebuf text c1), handle_lines-le f c2)

  take_bytes-le :
      (rxbuf_size : ℕ) (bytes : List ℕ) (c : Conn)
      → length c.linebuf ≤ linebuf_size
      → length (take_bytes strtoul write_ok rxbuf_size bytes c).0.linebuf ≤ linebuf_size
  unfolding take_bytes
  take_bytes-le rxbuf_size bytes c h =
      let c1 = record c { linebuf = c.linebuf ++ bytes } in
      let n = length c1.linebuf in
      ground (
        arith,
        hand_over-le rxbuf_size (handle_lines strtoul write_ok n c1),
        handle_lines-le n c1,
        length-append c.linebuf bytes,
      )

  received-le :
      (rxbuf_size : ℕ) (bytes : List ℕ) (s : AuthState) (c : Conn)
      → length c.linebuf ≤ linebuf_size
      → length (received strtoul write_ok rxbuf_size bytes s c).0.linebuf ≤ linebuf_size
  received-le rxbuf_size [] s c h = h
  received-le rxbuf_size (b ∷ bytes) nul c h =
      ground (arith, take_bytes-le rxbuf_size bytes (record c { auth = line }))
  received-le rxbuf_size (b ∷ bytes) line c h = take_bytes-le rxbuf_size (b ∷ bytes) c h
  received-le rxbuf_size (b ∷ bytes) done c h = h
  received-le rxbuf_size (b ∷ bytes) failed c h = h

  -- However many bytes arrive, the line buffer never holds more than its size.
  pub auth_process-le :
      (rxbuf_size : ℕ) (bytes : List ℕ) (c : Conn)
      → length c.linebuf ≤ linebuf_size
      → length (auth_process strtoul write_ok rxbuf_size bytes c).0.linebuf ≤ linebuf_size
  unfolding auth_process
  auth_process-le rxbuf_size bytes c h = received-le rxbuf_size bytes c.auth c h
