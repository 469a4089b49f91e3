-- ===== src/Ink/Proto/Headers.antt =====
-- The four kinds of messages that libink builds, and what stands in their headers.
pub mod Stored
pub mod Built
use finit.Prelude.{
  ℕ, zero, suc, ◌+◌, ◌-◌, ◌^◌, ◌≤◌, ◌<◌, arith, Bool, true, false, not, ◌||◌, ◌==◌, ltb, leb, ◌≡◌,
  inl, inr, refl, ap, sym, ◌∙◌, List, [], ◌∷◌, ◌++◌, length, length-append, length-replicate,
  replicate, Option, none, some,
}
use finit.Ink.Writer.{padding, u32_bytes}
use finit.Ink.Fields.{CString}
use finit.Ink.Proto.{
  Msg, text, sign, number, store_field, hdr_fixed_size, max_msg_size, aligned, Parsed, message,
  msg_parse,
}
use finit.Ink.Proto.Build.{
  ◌>>=◌, fixed_fits, put_optional, put_field_text, put_field_u32, put_signature, finalize_header,
  msg_build_return, msg_build_error, msg_build_signal, msg_build_method_call,
}
use finit.Ink.Proto.Walk.{
  FieldEntry, entries_bytes, AllFit, store_all, Holds, optional, signed, text-Holds, number-Holds,
  optional-Holds, signature-Holds,
}
use finit.Ink.Proto.RoundTrip.{header_bytes, blank, msg_parse-header, finalize-Holds}

-- The messages, by the builders' arguments.
pub data Header : Type 0 where
  method_return : (reply_serial : ℕ) (destination signature : Option (List ℕ)) → Header
  error_reply :
      (reply_serial : ℕ) (destination : Option (List ℕ)) (error_name : List ℕ)
      (signature : Option (List ℕ))
      → Header
  signal : (path interface member : List ℕ) (signature : Option (List ℕ)) → Header
  method_call :
      (path : List ℕ) (interface : Option (List ℕ)) (member : List ℕ)
      (destination signature : Option (List ℕ))
      → Header

abbrev pub build : ℕ → ℕ → Header → ℕ → Option (List ℕ)
build cap serial (method_return r d g) n = msg_build_return cap serial r d g n
build cap serial (error_reply r d e g) n = msg_build_error cap serial r d e g n
build cap serial (signal p i m g) n = msg_build_signal cap serial p i m g n
build cap serial (method_call p i m d g) n = msg_build_method_call cap serial p i m d g n

-- The message that a header stands for; an empty signature is left out.
abbrev pub not_empty : Option (List ℕ) → Option (List ℕ)
not_empty none = none
not_empty (some []) = none
not_empty (some (c ∷ s)) = some (c ∷ s)

abbrev pub msg_of : ℕ → Header → List ℕ → Msg
msg_of serial (method_return r d g) body = record (blank 2 1 (length body) serial) {
  reply_serial = r;
  destination = d;
  signature = not_empty g;
  body = body;
}
msg_of serial (error_reply r d e g) body = record (blank 3 1 (length body) serial) {
  reply_serial = r;
  error_name = some e;
  destination = d;
  signature = not_empty g;
  body = body;
}
msg_of serial (signal p i m g) body = record (blank 4 1 (length body) serial) {
  path = some p;
  interface = some i;
  member = some m;
  signature = not_empty g;
  body = body;
}
msg_of serial (method_call p i m d g) body = record (blank 1 0 (length body) serial) {
  path = some p;
  interface = i;
  member = some m;
  destination = d;
  signature = not_empty g;
  body = body;
}

-- The type, the flags and the fields.
abbrev pub type_of : Header → ℕ
type_of (method_return r d g) = 2
type_of (error_reply r d e g) = 3
type_of (signal p i m g) = 4
type_of (method_call p i m d g) = 1

abbrev pub flags_of : Header → ℕ
flags_of (method_return r d g) = 1
flags_of (error_reply r d e g) = 1
flags_of (signal p i m g) = 1
flags_of (method_call p i m d g) = 0

abbrev pub one : ℕ → ℕ → List ℕ → List FieldEntry
one code vsig s = (code, vsig, text s) ∷ []

abbrev pub sig_of : Header → Option (List ℕ)
sig_of (method_return r d g) = g
sig_of (error_reply r d e g) = g
sig_of (signal p i m g) = g
sig_of (method_call p i m d g) = g

-- What is in front of the signature, and all fields.
abbrev pub leading : Header → List FieldEntry
leading (method_return r d g) = ((5, 117, number r) ∷ []) ++ optional 6 d
leading (error_reply r d e g) = (((5, 117, number r) ∷ []) ++ one 4 115 e) ++ optional 6 d
leading (signal p i m g) = (one 1 111 p ++ one 2 115 i) ++ one 3 115 m
leading (method_call p i m d g) = ((one 1 111 p ++ optional 2 i) ++ one 3 115 m) ++ optional 6 d

abbrev pub fields_of : Header → List FieldEntry
fields_of h = leading h ++ signed (sig_of h)

-- The arguments that are written as they are.
abbrev pub TextFits : List ℕ → Type 0
TextFits s = CString s × (length s < 2 ^ 32)

abbrev pub OptionFits : Option (List ℕ) → Type 0
OptionFits none = 0 ≤ 0
OptionFits (some s) = TextFits s

abbrev pub SignatureFits : Option (List ℕ) → Type 0
SignatureFits none = 0 ≤ 0
SignatureFits (some s) = CString s × (length s < 256)

abbrev pub HeaderFits : Header → Type 0
HeaderFits (method_return r d g) = (r < 2 ^ 32) × OptionFits d × SignatureFits g
HeaderFits (error_reply r d e g) = (r < 2 ^ 32) × TextFits e × OptionFits d × SignatureFits g
HeaderFits (signal p i m g) = TextFits p × TextFits i × TextFits m × SignatureFits g
HeaderFits (method_call p i m d g) =
    TextFits p × OptionFits i × TextFits m × OptionFits d × SignatureFits g
