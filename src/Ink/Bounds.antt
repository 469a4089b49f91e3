-- ===== src/Ink/Bounds.antt =====
-- The writer stays within its buffer.
use finit.Prelude.{
  ℕ, zero, suc, ◌+◌, ◌-◌, ◌/◌, ◌%◌, ◌^◌, ◌≤◌, ◌<◌, arith, Bool, true, false, leb, ◌≡◌, refl, List,
  [], ◌∷◌, ◌++◌, length, take, drop, replicate, length-append, length-replicate, if◌then◌else◌,
  Bool-cases, inl, inr,
}
use finit.Ink.Writer.{
  w_init, Writer, Frame, off, array_depth, max_nesting, padding, reserve, put, put_reserved,
  put_u32_at, overwrite, u32_bytes, w_byte, w_bool, w_u32, w_u64, write_lenprefixed, w_string,
  w_sig, w_variant_string, w_array_begin, w_array_end, close, w_struct_begin, element_align,
  open_at, open_array,
}
use finit.Ink.Ops.{
  Op, byte, u32, u64, array_begin, bool, string, sig, variant_string, array_end, struct_begin,
  perform, run, run-cap,
}

-- Every open array has its length in front of its first element, and both below `n`.
abbrev pub Frames : ℕ → List Frame → Type 0
Frames n [] = 0 ≤ n
Frames n (a ∷ fs) = (a.lenpos + 4 ≤ a.elemstart) × (a.elemstart ≤ n) × Frames n fs

-- Nothing is written beyond the buffer's end, no more arrays are open than there are slots, and each
-- of these is in order.
abbrev pub Safe : Writer → Type 0
Safe w = (off w ≤ w.cap) × (array_depth w ≤ max_nesting) × Frames (off w) w.arrays

Frames-up : (n k : ℕ) (fs : List Frame) → n ≤ k → Frames n fs → Frames k fs
Frames-up n k [] le h = omega arith
Frames-up n k (a ∷ fs) le (p, q, h) = (p, omega arith, Frames-up n k fs le h)

-- What an operation that opens and closes no array does.
abbrev Grows : Writer → Writer → Type 0
Grows w w' = (w'.cap ≡ w.cap) × (w'.arrays ≡ w.arrays) × (off w ≤ off w') × (off w' ≤ w.cap)

Grows-put :
    (bs : List ℕ) (align n : ℕ) (w : Writer)
    → length bs ≤ n
    → off w ≤ w.cap
    → Grows w (put_reserved bs (reserve align n w))
unfolding reserve put
Grows-put bs align n w b h =
    let pad = padding (off w) align in
    ground (
      arith,
      length-append w.buf (replicate pad 0),
      length-replicate pad zero,
      length-append (w.buf ++ replicate pad 0) bs,
    )

Grows-Safe : (w w' : Writer) → Grows w w' → Safe w → Safe w'
Grows-Safe w w' (c, a, l, u) (p, q, f) =
    (rw c u, rw a q, rw a (Frames-up (off w) (off w') w.arrays l f))

length-take : (n : ℕ) (xs : List ℕ) → n ≤ length xs → length (take n xs) ≡ n
length-take zero xs h = refl
length-take (suc n) [] h = absurd (omega arith)
length-take (suc n) (x ∷ xs) h = omega (arith, length-take n xs (omega arith))

length-drop : (n : ℕ) (xs : List ℕ) → n ≤ length xs → n + length (drop n xs) ≡ length xs
length-drop zero xs h = omega arith
length-drop (suc n) [] h = absurd (omega arith)
length-drop (suc n) (x ∷ xs) h = omega (arith, length-drop n xs (omega arith))

length-overwrite :
    (pos : ℕ) (bs buf : List ℕ)
    → pos + length bs ≤ length buf
    → length (overwrite pos bs buf) ≡ length buf
unfolding overwrite
length-overwrite pos bs buf h = omega (
  arith,
  length-append (take pos buf) (bs ++ drop (pos + length bs) buf),
  length-append bs (drop (pos + length bs) buf),
  length-take pos buf (omega arith),
  length-drop (pos + length bs) buf h,
)

put_reserved-Safe :
    (bs : List ℕ) (align n : ℕ) (w : Writer)
    → length bs ≤ n
    → Safe w
    → Safe (put_reserved bs (reserve align n w))
put_reserved-Safe bs align n w b h =
    Grows-Safe w (put_reserved bs (reserve align n w)) (Grows-put bs align n w b h.0) h

write_lenprefixed-Safe :
    (s : List ℕ) (one : Bool) (w : Writer) → Safe w → Safe (write_lenprefixed s one w)
unfolding write_lenprefixed u32_bytes
write_lenprefixed-Safe s true w h =
    put_reserved-Safe (length s % 256 ∷ (s ++ 0 ∷ [])) 1 (1 + length s + 1) w
      (omega (arith, length-append s (zero ∷ []))) h
write_lenprefixed-Safe s false w h =
    put_reserved-Safe (u32_bytes (length s % 2 ^ 32) ++ (s ++ 0 ∷ [])) 4 (4 + length s + 1) w
      (omega (arith, length-append s (zero ∷ []))) h

if-Safe : (b : Bool) (v w : Writer) → Safe v → Safe w → Safe (if b then v else w)
if-Safe true v w p q = p
if-Safe false v w p q = q

close-Safe :
    (fs : List Frame) (w : Writer)
    → length fs ≤ max_nesting
    → Frames (off w) fs
    → Safe w
    → Safe (close fs w)
unfolding close put_u32_at u32_bytes
close-Safe [] w n f h = h
close-Safe (a ∷ fs) w n (p, q, f) (u, d, g) =
    let e =
      length-overwrite a.lenpos (u32_bytes ((off w - a.elemstart) % 2 ^ 32)) w.buf (omega arith) in
    (omega (arith, e), omega arith, Frames-up (off w) _ fs (omega (arith, e)) f)

w_array_end-Safe : (w : Writer) → Safe w → Safe (w_array_end w)
unfolding w_array_end
w_array_end-Safe w h =
    if-Safe w.err (record w { err = true }) (close w.arrays w) h (close-Safe w.arrays w h.1 h.2 h)

reserve-Grows : (align n : ℕ) (w : Writer) → off w ≤ w.cap → Grows w (reserve align n w).0
unfolding reserve
reserve-Grows align n w h =
    let pad = padding (off w) align in
    ground (arith, length-append w.buf (replicate pad 0), length-replicate pad zero)

reserve_fits :
    (align n : ℕ) (w : Writer)
    → (reserve align n w).1 ≡ true
    → off (reserve align n w).0 + n ≤ w.cap
unfolding reserve
reserve_fits align n w h =
    let pad = padding (off w) align in
    ground (arith, length-append w.buf (replicate pad 0), length-replicate pad zero)

reserve-Safe : (align n : ℕ) (w : Writer) → Safe w → Safe (reserve align n w).0
reserve-Safe align n w h = Grows-Safe w (reserve align n w).0 (reserve-Grows align n w h.0) h

put-Safe : (bs : List ℕ) (w : Writer) → off w + length bs ≤ w.cap → Safe w → Safe (put bs w)
unfolding put
put-Safe bs w b (u, d, f) =
    let e = length-append w.buf bs in
    (omega (arith, e), d, Frames-up (off w) (length (w.buf ++ bs)) w.arrays (omega (arith, e)) f)

open_at-Safe :
    (lenpos : ℕ) (w : Writer) (ok : Bool)
    → Safe w
    → array_depth w < max_nesting
    → lenpos + 4 ≤ off w
    → Safe (open_at lenpos (w, ok))
open_at-Safe lenpos w true (u, d, f) n l = (u, omega arith, (l, omega arith, f))
open_at-Safe lenpos w false h n l = h

open_array-Safe :
    (c : ℕ) (w : Writer) (ok : Bool)
    → Safe w
    → array_depth w < max_nesting
    → (ok ≡ true → off w + 4 ≤ w.cap)
    → Safe (open_array c (w, ok))
unfolding put u32_bytes
open_array-Safe c w false h n b = h
open_array-Safe c w true h n b =
    let w1 = put (u32_bytes 0) w in
    let s = put-Safe (u32_bytes 0) w (b refl) h in
    let a = element_align c in
    let (e, d, l, u) = reserve-Grows a 0 w1 s.0 in
    open_at-Safe (off w) (reserve a 0 w1).0 (reserve a 0 w1).1 (reserve-Safe a 0 w1 s) (rw d n)
      (omega (arith, length-append w.buf (u32_bytes 0)))

w_array_begin-Safe : (c : ℕ) (w : Writer) → Safe w → Safe (w_array_begin c w)
unfolding w_array_begin
w_array_begin-Safe c w h =
    let (e, d, l, u) = reserve-Grows 4 4 w h.0 in
    let r = reserve 4 4 w in
    if-Safe w.err w _ h (elim (Bool-cases (leb max_nesting (array_depth w))) [
      | inl y ↦ rw y h
      | inr n ↦ rw n (
          open_array-Safe c r.0 r.1 (reserve-Safe 4 4 w h) (rw d (ground arith))
            (λ y. rw e (reserve_fits 4 4 w y)))
    ])

w_struct_begin-Safe : (w : Writer) → Safe w → Safe (w_struct_begin w)
unfolding w_struct_begin
w_struct_begin-Safe w h = reserve-Safe 8 0 w h

perform-Safe : (op : Op) (w : Writer) → Safe w → Safe (perform op w)
unfolding perform w_byte w_bool w_u32 w_u64 w_string w_sig w_variant_string u32_bytes
perform-Safe (byte v) w h = put_reserved-Safe (v ∷ []) 1 1 w (omega arith) h
perform-Safe (u32 v) w h = put_reserved-Safe (u32_bytes v) 4 4 w (omega arith) h
perform-Safe (u64 v) w h =
    put_reserved-Safe (u32_bytes (v % 2 ^ 32) ++ u32_bytes (v / 2 ^ 32)) 8 8 w (omega arith) h
perform-Safe (array_begin c) w h = w_array_begin-Safe c w h
perform-Safe (bool v) w h = put_reserved-Safe (u32_bytes (if v then 1 else 0)) 4 4 w (omega arith) h
perform-Safe (string s) w h = write_lenprefixed-Safe s false w h
perform-Safe (sig s) w h = write_lenprefixed-Safe s true w h
perform-Safe (variant_string s) w h =
    write_lenprefixed-Safe s false (w_sig (115 ∷ []) w) (write_lenprefixed-Safe (115 ∷ []) true w h)
perform-Safe array_end w h = w_array_end-Safe w h
perform-Safe struct_begin w h = w_struct_begin-Safe w h

run-Safe_from : (ops : List Op) (w : Writer) → Safe w → Safe (run ops w)
unfolding run
run-Safe_from [] w h = h
run-Safe_from (op ∷ ops) w h = run-Safe_from ops (perform op w) (perform-Safe op w h)

-- Whatever is written into a buffer of any size, in any order and with any errors, nothing is ever
-- written beyond its end, no more arrays are open than there are slots for, and each open array's
-- length stands in front of its elements, within what was written.
pub run-Safe :
    (ops : List Op) (size : ℕ) → (off (run ops (w_init size)) ≤ size) × Safe (run ops (w_init size))
unfolding w_init
run-Safe ops size =
    let s = run-Safe_from ops (w_init size) (omega arith, omega arith, omega arith) in
    (omega (arith, s.0, run-cap ops (w_init size)), s)
