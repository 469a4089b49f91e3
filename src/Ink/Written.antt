-- ===== src/Ink/Written.antt =====
-- What the writer leaves in its buffer.
use finit.Prelude.{
  ℕ, zero, ◌+◌, ◌%◌, ◌^◌, ◌≤◌, arith, Bool, true, false, ◌≡◌, refl, ap, sym, ◌∙◌, List, [], ◌∷◌,
  ◌++◌, length, replicate, length-append, length-replicate, some, if◌then◌else◌,
}
use finit.Ink.Writer.{
  Writer, w_init, w_finish, off, padding, u32_bytes, reserve, put, put_reserved, w_byte, w_bool,
  w_u32, w_u64, w_string, write_lenprefixed,
}
use finit.Ink.Fields.{append_assoc, u64_bytes}
use finit.Ink.Values.{
  Value, byte, u32, u64, bool, string, w_value, w_values, marshal_va, Fits, alignment, payload,
  encoded,
}

reserve_ok :
    (align n : ℕ) (w : Writer)
    → (reserve align n w).1 ≡ true
    → ((reserve align n w).0.err ≡ w.err)
      × ((reserve align n w).0.buf ≡ w.buf ++ replicate (padding (off w) align) 0)
unfolding reserve
reserve_ok align n w h = ground arith

reserve_refuses :
    (align n : ℕ) (w : Writer) → (reserve align n w).1 ≡ false → (reserve align n w).0.err ≡ true
unfolding reserve
reserve_refuses align n w h = ground arith

put_after :
    (bs : List ℕ) (r : Writer × Bool)
    → (r.1 ≡ false → r.0.err ≡ true)
    → (put_reserved bs r).err ≡ false
    → (r.1 ≡ true) × ((put_reserved bs r).buf ≡ r.0.buf ++ bs) × (r.0.err ≡ false)
unfolding put
put_after bs (w, true) refuse h = (refl, refl, h)
put_after bs (w, false) refuse h = absurd (cc (refuse refl, h))

put_reserved_ok :
    (bs : List ℕ) (align n : ℕ) (w : Writer)
    → (put_reserved bs (reserve align n w)).err ≡ false
    → (w.err ≡ false)
      × ((put_reserved bs (reserve align n w)).buf
          ≡ w.buf ++ (replicate (padding (off w) align) 0 ++ bs))
put_reserved_ok bs align n w h =
    let (ok, e, f) = put_after bs (reserve align n w) (reserve_refuses align n w) h in
    let (e1, b1) = reserve_ok align n w ok in
    (
      sym e1 ∙ f,
      e ∙ (ap (λ l. l ++ bs) b1 ∙ append_assoc w.buf (replicate (padding (off w) align) 0) bs),
    )

pub w_value_ok :
    (v : Value) (w : Writer)
    → (w_value v w).err ≡ false
    → (w.err ≡ false) × ((w_value v w).buf ≡ w.buf ++ encoded (off w) v)
unfolding w_value w_byte w_u32 w_u64 w_bool w_string write_lenprefixed
w_value_ok (byte v) w h = put_reserved_ok (v ∷ []) 1 1 w h
w_value_ok (u32 v) w h = put_reserved_ok (u32_bytes v) 4 4 w h
w_value_ok (u64 v) w h = put_reserved_ok (u64_bytes v) 8 8 w h
w_value_ok (bool v) w h = put_reserved_ok (u32_bytes (if v then 1 else 0)) 4 4 w h
w_value_ok (string v) w h =
    put_reserved_ok (u32_bytes (length v % 2 ^ 32) ++ (v ++ 0 ∷ [])) 4 (4 + length v + 1) w h

abbrev pub encode_all : ℕ → List Value → List ℕ
encode_all p [] = []
encode_all p (v ∷ vs) = encoded p v ++ encode_all (p + length (encoded p v)) vs

pub append_nil : (xs : List ℕ) → xs ++ [] ≡ xs
append_nil [] = refl
append_nil (x ∷ xs) = ap (λ l. x ∷ l) (append_nil xs)

pub w_values_ok :
    (vs : List Value) (w : Writer)
    → (w_values vs w).err ≡ false
    → (w.err ≡ false) × ((w_values vs w).buf ≡ w.buf ++ encode_all (off w) vs)
unfolding w_values
w_values_ok [] w h = (h, sym (append_nil w.buf))
w_values_ok (v ∷ vs) w h =
    let (h1, e1) = w_values_ok vs (w_value v w) h in
    let (h2, e2) = w_value_ok v w h1 in
    let l : off (w_value v w) ≡ off w + length (encoded (off w) v) =
      ap length e2 ∙ length-append w.buf (encoded (off w) v) in
    (
      h2,
      e1
          ∙ (ap (λ k. (w_value v w).buf ++ encode_all k vs) l
              ∙ (ap (λ front. front ++ encode_all (off w + length (encoded (off w) v)) vs) e2
                  ∙ append_assoc w.buf (encoded (off w) v)
                      (encode_all (off w + length (encoded (off w) v)) vs))),
    )

abbrev pub AllFit : List Value → Type 0
AllFit [] = 0 ≤ 0
AllFit (v ∷ vs) = Fits v × AllFit vs

put_reserved_fits :
    (bs : List ℕ) (align n : ℕ) (w : Writer)
    → w.err ≡ false
    → off w + padding (off w) align + n ≤ w.cap
    → ((put_reserved bs (reserve align n w)).err ≡ false)
      × ((put_reserved bs (reserve align n w)).cap ≡ w.cap)
      × ((put_reserved bs (reserve align n w)).arrays ≡ w.arrays)
unfolding reserve put
put_reserved_fits bs align n w e h = ground arith

length-encoded :
    (p : ℕ) (v : Value) → length (encoded p v) ≡ padding p (alignment v) + length (payload v)
length-encoded p v = omega (
  arith,
  length-append (replicate (padding p (alignment v)) 0) (payload v),
  length-replicate (padding p (alignment v)) zero,
)

w_value_fits :
    (v : Value) (w : Writer)
    → w.err ≡ false
    → off w + length (encoded (off w) v) ≤ w.cap
    → ((w_value v w).err ≡ false) × ((w_value v w).cap ≡ w.cap) × ((w_value v w).arrays ≡ w.arrays)
unfolding w_value w_byte w_u32 w_u64 w_bool w_string write_lenprefixed u32_bytes
w_value_fits (byte v) w e h =
    put_reserved_fits (v ∷ []) 1 1 w e (omega (arith, length-encoded (off w) (byte v)))
w_value_fits (u32 v) w e h =
    put_reserved_fits (u32_bytes v) 4 4 w e (omega (arith, length-encoded (off w) (u32 v)))
w_value_fits (u64 v) w e h =
    put_reserved_fits (u64_bytes v) 8 8 w e (omega (arith, length-encoded (off w) (u64 v)))
w_value_fits (bool v) w e h =
    put_reserved_fits (u32_bytes (if v then 1 else 0)) 4 4 w e
      (omega (arith, length-encoded (off w) (bool v)))
w_value_fits (string v) w e h =
    put_reserved_fits (u32_bytes (length v % 2 ^ 32) ++ (v ++ 0 ∷ [])) 4 (4 + length v + 1) w e
      (omega (arith, length-encoded (off w) (string v), length-append v (zero ∷ [])))

w_values_fits :
    (vs : List Value) (w : Writer)
    → w.err ≡ false
    → off w + length (encode_all (off w) vs) ≤ w.cap
    → ((w_values vs w).err ≡ false) × ((w_values vs w).arrays ≡ w.arrays)
unfolding w_values
w_values_fits [] w e h = (e, refl)
w_values_fits (v ∷ vs) w e h =
    let p = off w in
    let q = p + length (encoded p v) in
    let sum = length-append (encoded p v) (encode_all q vs) in
    let (e1, c1, a1) = w_value_fits v w e (omega (arith, sum)) in
    let (_, b1) = w_value_ok v w e1 in
    let l : off (w_value v w) ≡ q = ap length b1 ∙ length-append w.buf (encoded p v) in
    let (e2, a2) = w_values_fits vs (w_value v w) e1 (rw l (rw c1 (omega (arith, sum)))) in
    (e2, a2 ∙ a1)

-- `__marshal_va` succeeds on all values whose encoding, each padded to its alignment, is no longer
-- than the buffer, and then leaves that encoding and returns its length.
pub marshal_va_fits :
    (size : ℕ) (vs : List Value)
    → length (encode_all 0 vs) ≤ size
    → marshal_va size vs ≡ (some (length (encode_all 0 vs)), encode_all 0 vs)
unfolding marshal_va w_init w_finish
marshal_va_fits size vs h =
    let (e, a) = w_values_fits vs (w_init size) refl (omega arith) in
    let (_, wrote) = w_values_ok vs (w_init size) e in ground (arith, e, a, wrote)
