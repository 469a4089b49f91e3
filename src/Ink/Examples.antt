-- ===== src/Ink/Examples.antt =====
-- Message bodies, and the theorems at them.
use finit.Prelude.{ℕ, true, ◌≡◌, ◌≤◌, refl, arith, some, none, List, [], ◌∷◌, map, length}
use finit.Ink.Writer.{
  w_init, w_finish, reserve, padding, put, off, w_byte, w_u32, w_string, write_lenprefixed,
  u32_bytes,
}
use finit.Ink.Ops
use finit.Ink.Ops.{Op, run}
use finit.Ink.Bounds.{Safe, run-Safe}
use finit.Ink.Reader.{r_init, r_done}
use finit.Ink.Within
use finit.Ink.Within.{read_all, read_all_stays}
use finit.Ink.Values.{Value, byte, u32, string, code, w_value, w_values, marshal_va, r_values}
use finit.Ink.Written.{encode_all}
use finit.Ink.Fields.{reading}
use finit.Ink.RoundTrip.{marshal_va_round_trip}

-- The byte 7, the number 1000 and the string hi.
abbrev values : List Value
values = byte 7 ∷ u32 1000 ∷ string (104 ∷ 105 ∷ []) ∷ []

abbrev body : List ℕ
body = 7 ∷ 0 ∷ 0 ∷ 0 ∷ 232 ∷ 3 ∷ 0 ∷ 0 ∷ 2 ∷ 0 ∷ 0 ∷ 0 ∷ 104 ∷ 105 ∷ 0 ∷ []

body_written : marshal_va 64 values ≡ (some 15, body)
unfolding marshal_va w_values w_value w_init w_finish w_byte w_u32 w_string write_lenprefixed
    u32_bytes reserve padding put
body_written = refl

too_long : (marshal_va 14 values).0 ≡ none
unfolding marshal_va w_values w_value w_init w_finish w_byte w_u32 w_string write_lenprefixed
    u32_bytes reserve padding put
too_long = refl

values_encoded : length (encode_all 0 values) ≡ 15
unfolding padding u32_bytes
values_encoded = refl

marshal_va_round_trip_example :
    (r_values (map code values) (r_init body) ≡ (values, reading body 15))
    × (r_done (reading body 15) ≡ true)
marshal_va_round_trip_example =
    marshal_va_round_trip 64 15 values body
      (
        omega arith,
        (omega arith, ((omega arith, (omega arith, (omega arith, omega arith))), omega arith)),
      )
      body_written

-- An array of one string, and then more than fits.
abbrev ops : List Op
ops = Ops.array_begin 115 ∷ Ops.string (104 ∷ 105 ∷ []) ∷ Ops.array_end ∷ Ops.u64 1 ∷ []

run-Safe_example : (off (run ops (w_init 16)) ≤ 16) × Safe (run ops (w_init 16))
run-Safe_example = run-Safe ops 16

-- A string length that points far beyond the body's end.
abbrev lying : List ℕ
lying = 255 ∷ 255 ∷ 255 ∷ 255 ∷ 104 ∷ []

read_all_stays_example :
    ((read_all (Within.string ∷ Within.u32 ∷ []) (r_init lying)).pos ≤ 5)
    × ((read_all (Within.string ∷ Within.u32 ∷ []) (r_init lying)).base ≡ lying)
read_all_stays_example = read_all_stays (Within.string ∷ Within.u32 ∷ []) lying
