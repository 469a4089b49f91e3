-- ===== src/Ink/Proto.antt =====
-- libink/proto.c: the headers of D-Bus messages.
pub mod Build
pub mod Fields
pub mod Walk
pub mod Fuel
pub mod Framing
pub mod RoundTrip
pub mod Headers
mod Examples
use finit.Prelude.{
  ℕ, zero, suc, ◌+◌, ◌-◌, ◌*◌, Bool, true, false, not, ◌||◌, ◌==◌, ltb, leb, List, [], ◌∷◌, ◌++◌,
  length, take, drop, Option, none, some, if◌then◌else◌,
}
use finit.Ink.Writer.{padding}
use finit.Ink.Reader.{head, rd_u32, before_nul}

-- `struct link_msg`; a pointer to a string in the buffer is given as that string.
pub record Msg : Type 0 where
  pub type : ℕ
  pub flags : ℕ
  pub body_len : ℕ
  pub serial : ℕ
  pub reply_serial : ℕ
  pub path : Option (List ℕ)
  pub interface : Option (List ℕ)
  pub member : Option (List ℕ)
  pub error_name : Option (List ℕ)
  pub destination : Option (List ℕ)
  pub sender : Option (List ℕ)
  pub signature : Option (List ℕ)
  pub body : List ℕ

-- HDR_FIXED_SIZE and MAX_MSG_SIZE
abbrev pub hdr_fixed_size : ℕ
hdr_fixed_size = 16

abbrev pub max_msg_size : ℕ
max_msg_size = 131072

-- The values of the header fields that the parser knows, by their signatures: s and o, g, u.
pub data FieldValue : Type 0 where
  text : List ℕ → FieldValue
  sign : List ℕ → FieldValue
  number : ℕ → FieldValue

-- `parse_string` and `parse_signature` at a position, before `fend`: the string, and where what
-- follows it starts.
unfoldable pub parse_string : List ℕ → ℕ → ℕ → Option (List ℕ × ℕ)
parse_string buf fp fend =
    let len = rd_u32 (drop fp buf) in
    if ltb (fend - fp) 4
    then none
    else if leb (fend - fp - 4) len
    then none
    else if not (head (drop (fp + 4 + len) buf) == 0)
    then none
    else some (before_nul (drop (fp + 4) buf), fp + (4 + len + 1))

unfoldable pub parse_signature : List ℕ → ℕ → ℕ → Option (List ℕ × ℕ)
parse_signature buf fp fend =
    let len = head (drop fp buf) in
    if ltb (fend - fp) 1
    then none
    else if ltb (fend - fp) (len + 2)
    then none
    else if not (head (drop (fp + 1 + len) buf) == 0)
    then none
    else some (before_nul (drop (fp + 1) buf), fp + (1 + len + 1))

-- What one round of the walk finds: the end, a malformed field, or a field and where the next starts.
pub data Found : Type 0 where
  finished malformed : Found
  field : ℕ → FieldValue → ℕ → Found

abbrev pub text_field : ℕ → Option (List ℕ × ℕ) → Found
text_field code none = malformed
text_field code (some (s, next)) = field code (text s) next

abbrev pub sign_field : ℕ → Option (List ℕ × ℕ) → Found
sign_field code none = malformed
sign_field code (some (s, next)) = field code (sign s) next

abbrev pub aligned : ℕ → ℕ → ℕ
aligned p n = p + padding p n

-- The value behind its signature, by the first character of that (s, o, g or u).
unfoldable pub value_at : List ℕ → ℕ → ℕ → Option (List ℕ × ℕ) → Found
value_at buf fend code none = malformed
value_at buf fend code (some (vsig, fp)) =
    if head vsig == 115 || head vsig == 111
    then (if leb fend (aligned fp 4)
        then malformed
        else text_field code (parse_string buf (aligned fp 4) fend))
    else if head vsig == 103
    then sign_field code (parse_signature buf fp fend)
    else if head vsig == 117
    then (if ltb fend (aligned fp 4 + 4)
        then malformed
        else field code (number (rd_u32 (drop (aligned fp 4) buf))) (aligned fp 4 + 4))
    else malformed

unfoldable pub round_at : List ℕ → ℕ → ℕ → Found
round_at buf fend fp =
    let p = aligned fp 8 in
    if leb fend fp || leb fend p
    then finished
    else value_at buf fend (head (drop p buf)) (parse_signature buf (p + 1) fend)

-- A field that is known is stored, by its code.
abbrev pub stored_text : ℕ → List ℕ → Msg → Msg
stored_text code s m =
    if code == 1
    then record m { path = some s }
    else if code == 2
    then record m { interface = some s }
    else if code == 3
    then record m { member = some s }
    else if code == 4
    then record m { error_name = some s }
    else if code == 6
    then record m { destination = some s }
    else if code == 7
    then record m { sender = some s }
    else m

unfoldable pub store_field : ℕ → FieldValue → Msg → Msg
store_field code (text s) m = stored_text code s m
store_field code (sign s) m = if code == 8 then record m { signature = some s } else m
store_field code (number v) m = if code == 5 then record m { reply_serial = v } else m

-- The walk over the array of fields, with fuel; -1 is `none`.
unfoldable pub walk : ℕ → List ℕ → ℕ → ℕ → Msg → Option Msg
walk zero buf fend fp m = none
walk (suc f) buf fend fp m = elim (round_at buf fend fp) [
  | finished ↦ some m
  | malformed ↦ none
  | field code v next ↦ walk f buf fend next (store_field code v m)
]

-- What `__msg_parse` returns: 0, -1, or the message with the number of its bytes.
pub data Parsed : Type 0 where
  need_more bad : Parsed
  message : Msg → ℕ → Parsed

abbrev pub with_body : List ℕ → ℕ → Option Msg → Parsed
with_body buf body_off none = bad
with_body buf body_off (some m) =
    message (record m { body = take m.body_len (drop body_off buf) }) (body_off + m.body_len)

-- The fixed part of a header.
abbrev pub fixed_part : List ℕ → Msg
fixed_part buf = record {
  type = head (drop 1 buf);
  flags = head (drop 2 buf);
  body_len = rd_u32 (drop 4 buf);
  serial = rd_u32 (drop 8 buf);
  reply_serial = 0;
  path = none;
  interface = none;
  member = none;
  error_name = none;
  destination = none;
  sender = none;
  signature = none;
  body = [];
}

abbrev pub parse_rest : List ℕ → Msg → ℕ → Parsed
parse_rest buf m fields_len =
    let fend = hdr_fixed_size + fields_len in
    if ltb max_msg_size fields_len || ltb max_msg_size m.body_len
    then bad
    else if ltb (length buf) (aligned fend 8 + m.body_len)
    then need_more
    else with_body buf (aligned fend 8) (walk (suc fields_len) buf fend hdr_fixed_size m)

-- `__msg_parse`; each round of the walk takes three bytes at least, so that the fuel is enough.
unfoldable pub msg_parse : List ℕ → Parsed
msg_parse buf =
    if ltb (length buf) hdr_fixed_size
    then need_more
    else if not (head buf == 108)
    then bad
    else if not (head (drop 3 buf) == 1)
    then bad
    else parse_rest buf (fixed_part buf) (rd_u32 (drop 12 buf))
