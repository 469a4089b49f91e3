-- ===== src/Ink/Proto/Examples.antt =====
-- Messages at concrete bytes.
use finit.Prelude.{
  ◌<◌, ◌≤◌, ℕ, ◌+◌, arith, ◌≡◌, refl, List, [], ◌∷◌, ◌++◌, length, Option, none, some,
}
use finit.Ink.Proto.{
  need_more, bad, message, field, text, fixed_part, parse_string, parse_signature, value_at,
  round_at, store_field, walk, msg_parse,
}
use finit.Ink.Writer.{padding, u32_bytes}
use finit.Ink.Reader.{rd_u32}
use finit.Ink.Proto.Build.{
  msg_build_method_call, put_field_text, put_padding, put_bytes, put_field_sign, finalize_header,
}
use finit.Ink.Proto.Headers.{Header, method_call, build, msg_of}
use finit.Ink.Proto.Headers.Built.{msg_parse-build}
use finit.Ink.Proto.Fuel.{Walked, round_at-advances, walk-Walked}
use finit.Ink.Proto.Framing.{msg_parse-short}

-- A call of "M" at "/a".
abbrev call : Header
call = method_call (47 ∷ 97 ∷ []) none (77 ∷ []) none (some (121 ∷ []))

abbrev header_of : Option (List ℕ) → List ℕ
header_of none = []
header_of (some h) = h

abbrev call_bytes : List ℕ
call_bytes = header_of (build 512 7 call 1)

call_bytes_test : length call_bytes ≡ 56
unfolding msg_build_method_call put_field_text put_padding padding put_bytes u32_bytes
    put_field_sign finalize_header
call_bytes_test = refl

-- What stands in it once it has been parsed, and a message whose first byte is another.
call_test : msg_parse (call_bytes ++ 5 ∷ []) ≡ message (msg_of 7 call (5 ∷ [])) 57
unfolding msg_build_method_call put_field_text put_padding padding put_bytes u32_bytes
    put_field_sign finalize_header msg_parse rd_u32 walk round_at value_at parse_signature
    parse_string store_field
call_test = refl

bad_test : msg_parse (66 ∷ call_bytes) ≡ bad
unfolding msg_parse msg_build_method_call put_field_text put_padding padding put_bytes u32_bytes
    put_field_sign finalize_header
bad_test = refl

build_test : build 512 7 call 1 ≡ some call_bytes
unfolding msg_build_method_call put_field_text put_padding padding put_bytes u32_bytes
    put_field_sign finalize_header
build_test = refl

msg_parse-build_example :
    msg_parse (call_bytes ++ (5 ∷ [] ++ 9 ∷ []))
    ≡ message (msg_of 7 call (5 ∷ [])) (length call_bytes + 1)
msg_parse-build_example =
    msg_parse-build 512 7 call call_bytes (5 ∷ []) (9 ∷ []) build_test
      (
        (omega arith, omega arith),
        omega arith,
        (omega arith, omega arith),
        omega arith,
        (omega arith, omega arith),
      )
      (omega arith) (omega (arith, call_bytes_test)) (omega arith)

-- The first field: the path, in 11 bytes from 16 on.
round_test : round_at call_bytes 49 16 ≡ field 1 (text (47 ∷ 97 ∷ [])) 27
unfolding msg_build_method_call put_field_text put_padding padding put_bytes u32_bytes
    put_field_sign finalize_header rd_u32 round_at value_at parse_signature parse_string
round_test = refl

round_at-advances_example : (16 < 27) × (27 ≤ 49)
round_at-advances_example = round_at-advances call_bytes 49 16 1 (text (47 ∷ 97 ∷ [])) 27 round_test

walk-Walked_example :
    Walked call_bytes 49 16
      (fixed_part call_bytes)
      (walk 34 call_bytes 49 16 (fixed_part call_bytes))
walk-Walked_example =
    walk-Walked 34 call_bytes 49 16 (fixed_part call_bytes) (omega arith) (omega arith)

msg_parse-short_example : msg_parse call_bytes ≡ need_more
unfolding msg_build_method_call put_field_text put_padding padding put_bytes u32_bytes
    put_field_sign finalize_header
msg_parse-short_example =
    msg_parse-short call_bytes (5 ∷ []) (msg_of 7 call (5 ∷ [])) 57 call_test (omega arith)
