-- ===== src/Ink/Proto/Build.antt =====
-- libink/proto.c: the builders of headers.
use finit.Prelude.{
  ℕ, ◌+◌, ◌%◌, ltb, List, [], ◌∷◌, ◌++◌, length, replicate, Option, none, some, if◌then◌else◌,
}
use finit.Ink.Writer.{padding, u32_bytes}
use finit.Ink.Proto.{hdr_fixed_size}

infixl 5 ◌>>=◌
abbrev pub ◌>>=◌ : {A B : Type 0} → Option A → (A → Option B) → Option B
none >>= k = none
some a >>= k = k a

-- `*offset` for what has been written so far, from the first byte of the header on; the fixed part is
-- filled in at the end.
abbrev pub offset : List ℕ → ℕ
offset out = hdr_fixed_size + length out

-- Zeros up to the next multiple, as far as they fit.
unfoldable pub put_padding : ℕ → ℕ → List ℕ → Option (List ℕ)
put_padding cap n out = if ltb cap (offset out + n) then none else some (out ++ replicate n 0)

-- Bytes, as far as they fit.
unfoldable pub put_bytes : ℕ → List ℕ → List ℕ → Option (List ℕ)
put_bytes cap bytes out = if ltb cap (offset out + length bytes) then none else some (out ++ bytes)

-- `put_field_string` with the signatures s and o, and with g
unfoldable pub put_field_text : ℕ → ℕ → ℕ → List ℕ → List ℕ → Option (List ℕ)
put_field_text cap code vsig_char value out = do
  padded ← put_padding cap (padding (offset out) 8) out
  started ← put_bytes cap (code ∷ 1 ∷ vsig_char ∷ 0 ∷ []) padded
  ready ← put_padding cap (padding (offset started) 4) started
  put_bytes cap (u32_bytes (length value) ++ (value ++ 0 ∷ [])) ready

unfoldable pub put_field_sign : ℕ → ℕ → List ℕ → List ℕ → Option (List ℕ)
put_field_sign cap code value out = do
  padded ← put_padding cap (padding (offset out) 8) out
  started ← put_bytes cap (code ∷ 1 ∷ 103 ∷ 0 ∷ []) padded
  put_bytes cap (length value % 256 ∷ (value ++ 0 ∷ [])) started

-- `put_field_u32`, which asks for eight bytes at the code.
unfoldable pub put_field_u32 : ℕ → ℕ → ℕ → List ℕ → Option (List ℕ)
put_field_u32 cap code value out = do
  padded ← put_padding cap (padding (offset out) 8) out
  started ← (if ltb cap (offset padded + 8) then none else some (padded ++ code ∷ 1 ∷ 117 ∷ 0 ∷ []))
  ready ← put_padding cap (padding (offset started) 4) started
  put_bytes cap (u32_bytes value) ready

-- A field that is left out where the argument is NULL, and the signature, which is left out where
-- it is empty.
abbrev pub put_optional : ℕ → ℕ → Option (List ℕ) → List ℕ → Option (List ℕ)
put_optional cap code none out = some out
put_optional cap code (some s) out = put_field_text cap code 115 s out

abbrev pub put_signature : ℕ → Option (List ℕ) → List ℕ → Option (List ℕ)
put_signature cap none out = some out
put_signature cap (some []) out = some out
put_signature cap (some (c ∷ s)) out = put_field_sign cap 8 (c ∷ s) out

-- `finalize_header`: the fixed part, the fields and the padding behind them.
unfoldable pub finalize_header : ℕ → ℕ → ℕ → ℕ → ℕ → List ℕ → Option (List ℕ)
finalize_header cap type flags body_len serial out = do
  padded ← put_padding cap (padding (offset out) 8) out
  some (
      108
      ∷ type
      ∷ flags
      ∷ 1
      ∷ (u32_bytes body_len ++ (u32_bytes serial ++ (u32_bytes (length out) ++ padded))))

abbrev pub fixed_fits : ℕ → Option (List ℕ)
fixed_fits cap = if ltb cap hdr_fixed_size then none else some []

-- `__msg_build_return`
unfoldable pub msg_build_return :
    ℕ → ℕ → ℕ → Option (List ℕ) → Option (List ℕ) → ℕ → Option (List ℕ)
msg_build_return cap serial reply_serial destination signature body_len = do
  start ← fixed_fits cap
  f1 ← put_field_u32 cap 5 reply_serial start
  f2 ← put_optional cap 6 destination f1
  f3 ← put_signature cap signature f2
  finalize_header cap 2 1 body_len serial f3

-- `__msg_build_error`
unfoldable pub msg_build_error :
    ℕ → ℕ → ℕ → Option (List ℕ) → List ℕ → Option (List ℕ) → ℕ → Option (List ℕ)
msg_build_error cap serial reply_serial destination error_name signature body_len = do
  start ← fixed_fits cap
  f1 ← put_field_u32 cap 5 reply_serial start
  f2 ← put_field_text cap 4 115 error_name f1
  f3 ← put_optional cap 6 destination f2
  f4 ← put_signature cap signature f3
  finalize_header cap 3 1 body_len serial f4

-- `__msg_build_signal`
unfoldable pub msg_build_signal :
    ℕ → ℕ → List ℕ → List ℕ → List ℕ → Option (List ℕ) → ℕ → Option (List ℕ)
msg_build_signal cap serial path interface member signature body_len = do
  start ← fixed_fits cap
  f1 ← put_field_text cap 1 111 path start
  f2 ← put_field_text cap 2 115 interface f1
  f3 ← put_field_text cap 3 115 member f2
  f4 ← put_signature cap signature f3
  finalize_header cap 4 1 body_len serial f4

-- `__msg_build_method_call`
unfoldable pub msg_build_method_call :
    ℕ
    → ℕ
    → List ℕ
    → Option (List ℕ)
    → List ℕ
    → Option (List ℕ)
    → Option (List ℕ)
    → ℕ
    → Option (List ℕ)
msg_build_method_call cap serial path interface member destination signature body_len = do
  start ← fixed_fits cap
  f1 ← put_field_text cap 1 111 path start
  f2 ← put_optional cap 2 interface f1
  f3 ← put_field_text cap 3 115 member f2
  f4 ← put_optional cap 6 destination f3
  f5 ← put_signature cap signature f4
  finalize_header cap 1 0 body_len serial f5
