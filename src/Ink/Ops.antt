-- ===== src/Ink/Ops.antt =====
-- The operations on a writer, and sequences of them.
use finit.Prelude.{
  ℕ, ◌+◌, ◌/◌, ◌%◌, ◌^◌, arith, Bool, true, false, ◌≡◌, refl, ◌∙◌, List, [], ◌∷◌, ◌++◌, length,
  if◌then◌else◌,
}
use finit.Ink.Writer.{
  Writer, Frame, off, reserve, put, put_reserved, put_u32_at, u32_bytes, w_byte, w_bool, w_u32,
  w_u64, write_lenprefixed, w_string, w_sig, w_variant_string, w_array_begin, w_array_end, close,
  w_struct_begin, element_align, open_at, open_array,
}

-- The operations on a writer, with their arguments.
pub data Op : Type 0 where
  byte u32 u64 array_begin : ℕ → Op
  bool : Bool → Op
  string sig variant_string : List ℕ → Op
  array_end struct_begin : Op

unfoldable pub perform : Op → Writer → Writer
perform (byte v) w = w_byte v w
perform (u32 v) w = w_u32 v w
perform (u64 v) w = w_u64 v w
perform (array_begin c) w = w_array_begin c w
perform (bool v) w = w_bool v w
perform (string s) w = w_string s w
perform (sig s) w = w_sig s w
perform (variant_string s) w = w_variant_string s w
perform array_end w = w_array_end w
perform struct_begin w = w_struct_begin w

unfoldable pub run : List Op → Writer → Writer
run [] w = w
run (op ∷ ops) w = run ops (perform op w)

close-cap : (fs : List Frame) (w : Writer) → (close fs w).cap ≡ w.cap
unfolding close put_u32_at
close-cap [] w = refl
close-cap (a ∷ fs) w = refl

put_reserved-cap :
    (bs : List ℕ) (align n : ℕ) (w : Writer) → (put_reserved bs (reserve align n w)).cap ≡ w.cap
unfolding reserve put
put_reserved-cap bs align n w = ground arith

reserve-cap : (align n : ℕ) (w : Writer) → (reserve align n w).0.cap ≡ w.cap
unfolding reserve
reserve-cap align n w = ground arith

open_at-cap : (lenpos : ℕ) (w : Writer) (ok : Bool) → (open_at lenpos (w, ok)).cap ≡ w.cap
open_at-cap lenpos w ok = ground arith

open_array-cap : (c : ℕ) (w : Writer) (ok : Bool) → (open_array c (w, ok)).cap ≡ w.cap
unfolding put
open_array-cap c w true =
    let w1 = put (u32_bytes 0) w in
    let r = reserve (element_align c) 0 w1 in
    open_at-cap (off w) r.0 r.1 ∙ reserve-cap (element_align c) 0 w1
open_array-cap c w false = refl

w_array_begin-cap : (c : ℕ) (w : Writer) → (w_array_begin c w).cap ≡ w.cap
unfolding w_array_begin
w_array_begin-cap c w =
    let r = reserve 4 4 w in ground (arith, open_array-cap c r.0 r.1, reserve-cap 4 4 w)

write_lenprefixed-cap :
    (s : List ℕ) (one : Bool) (w : Writer) → (write_lenprefixed s one w).cap ≡ w.cap
unfolding write_lenprefixed
write_lenprefixed-cap s true w =
    put_reserved-cap (length s % 256 ∷ (s ++ 0 ∷ [])) 1 (1 + length s + 1) w
write_lenprefixed-cap s false w =
    put_reserved-cap (u32_bytes (length s % 2 ^ 32) ++ (s ++ 0 ∷ [])) 4 (4 + length s + 1) w

perform-cap : (op : Op) (w : Writer) → (perform op w).cap ≡ w.cap
unfolding perform w_byte w_bool w_u32 w_u64 w_string w_sig w_variant_string w_array_end
    w_struct_begin
perform-cap (byte v) w = put_reserved-cap (v ∷ []) 1 1 w
perform-cap (u32 v) w = put_reserved-cap (u32_bytes v) 4 4 w
perform-cap (u64 v) w = put_reserved-cap (u32_bytes (v % 2 ^ 32) ++ u32_bytes (v / 2 ^ 32)) 8 8 w
perform-cap (array_begin c) w = w_array_begin-cap c w
perform-cap (bool v) w = put_reserved-cap (u32_bytes (if v then 1 else 0)) 4 4 w
perform-cap (string s) w = write_lenprefixed-cap s false w
perform-cap (sig s) w = write_lenprefixed-cap s true w
perform-cap (variant_string s) w =
    write_lenprefixed-cap s false (w_sig (115 ∷ []) w) ∙ write_lenprefixed-cap (115 ∷ []) true w
perform-cap array_end w = ground (arith, close-cap w.arrays w)
perform-cap struct_begin w = reserve-cap 8 0 w

-- No operation changes the buffer's size.
pub run-cap : (ops : List Op) (w : Writer) → (run ops w).cap ≡ w.cap
unfolding run
run-cap [] w = refl
run-cap (op ∷ ops) w = run-cap ops (perform op w) ∙ perform-cap op w
