-- ===== src/Ink/RoundTrip.antt =====
-- What `__marshal_va` wrote is read back.
use finit.Prelude.{
  ℕ, zero, ◌+◌, ◌%◌, ◌^◌, arith, true, false, ◌≡◌, refl, ap, sym, subst, ◌∙◌, List, [], ◌∷◌, ◌++◌,
  length, replicate, length-append, length-replicate, map, some,
}
use finit.Ink.Writer.{Writer, w_init, w_finish, off, padding, u32_bytes}
use finit.Ink.Reader.{
  Reader, Read, r_init, r_done, r_byte, r_u32, r_u64, r_bool, r_string, c_string, before_nul,
}
use finit.Ink.Fields.{
  append_assoc, At, At-append, drop-At, reading, r_byte-At, r_u32-At, r_u64-At, r_bool-At,
  r_string-At, before_nul-CString,
}
use finit.Ink.Values.{
  Value, byte, u32, u64, bool, string, code, w_values, marshal_va, as_value, cons_value, r_value,
  r_values, Fits, alignment, payload, encoded,
}
use finit.Ink.Written.{encode_all, append_nil, w_values_ok, AllFit}

as_value_at :
    {A : Type 0} (f : A → Reader → Value) (x : Read A) (v : A) (body : List ℕ) (k k' : ℕ)
    → x ≡ (some v, reading body k)
    → k ≡ k'
    → as_value f x ≡ (some (f v (reading body k)), reading body k')
as_value_at f x v body k k' e q =
    ap (as_value f) e ∙ ap (λ j. (some (f v (reading body k)), reading body j)) q

length-encoded :
    (p : ℕ) (v : Value) → length (encoded p v) ≡ padding p (alignment v) + length (payload v)
length-encoded p v = omega (
  arith,
  length-append (replicate (padding p (alignment v)) 0) (payload v),
  length-replicate (padding p (alignment v)) zero,
)

encoded-At :
    (v : Value) (p : ℕ) (body rest : List ℕ)
    → At p body (encoded p v ++ rest)
    → At p body (replicate (padding p (alignment v)) 0 ++ (payload v ++ rest))
encoded-At v p body rest h =
    subst (λ l. At p body l) (append_assoc (replicate (padding p (alignment v)) 0) (payload v) rest)
      h

r_value-At :
    (v : Value) (p : ℕ) (body rest : List ℕ)
    → Fits v
    → At p body (encoded p v ++ rest)
    → r_value (code v) (reading body p) ≡ (some v, reading body (p + length (encoded p v)))
unfolding r_value u32_bytes
r_value-At (byte v) p body rest f h =
    as_value_at (λ n _. byte n) (r_byte (reading body p)) v body (p + padding p 1 + 1) _
      (r_byte-At p v body rest (encoded-At (byte v) p body rest h))
      (omega (arith, length-encoded p (byte v)))
r_value-At (u32 v) p body rest f h =
    as_value_at (λ n _. u32 n) (r_u32 (reading body p)) v body (p + padding p 4 + 4) _
      (r_u32-At p v body rest f (encoded-At (u32 v) p body rest h))
      (omega (arith, length-encoded p (u32 v)))
r_value-At (u64 v) p body rest f h =
    as_value_at (λ n _. u64 n) (r_u64 (reading body p)) v body (p + padding p 8 + 8) _
      (r_u64-At p v body rest f (encoded-At (u64 v) p body rest h))
      (omega (arith, length-encoded p (u64 v)))
r_value-At (bool v) p body rest f h =
    as_value_at (λ n _. bool n) (r_bool (reading body p)) v body (p + padding p 4 + 4) _
      (r_bool-At p v body rest (encoded-At (bool v) p body rest h))
      (omega (arith, length-encoded p (bool v)))
r_value-At (string v) p body rest f h =
    let start = p + padding p 4 + 4 in
    let (e, at) = r_string-At p v body rest f.0 (
      subst (λ l. At p body (replicate (padding p 4) 0 ++ (u32_bytes (length v % 2 ^ 32) ++ l)))
        (append_assoc v (0 ∷ []) rest) (encoded-At (string v) p body rest h)) in
    as_value_at (λ q r1. string (c_string r1 q)) (r_string (reading body p)) start body
      (start + length v + 1) _ e
      (omega (arith, length-encoded p (string v), length-append v (zero ∷ [])))
    ∙ ap (λ l. (some (string l), reading body (p + length (encoded p (string v)))))
        (ap before_nul (drop-At start body (v ++ 0 ∷ rest) at) ∙ before_nul-CString v rest f.1)

r_values-At :
    (vs : List Value) (p : ℕ) (body rest : List ℕ)
    → AllFit vs
    → At p body (encode_all p vs ++ rest)
    → r_values (map code vs) (reading body p) ≡ (vs, reading body (p + length (encode_all p vs)))
unfolding r_values
r_values-At [] p body rest f h = ap (λ k. ([], reading body k)) (omega arith)
r_values-At (v ∷ vs) p body rest (f, fs) h =
    let q = p + length (encoded p v) in
    let h1 = subst (λ l. At p body l) (append_assoc (encoded p v) (encode_all q vs) rest) h in
    let e = r_value-At v p body (encode_all q vs ++ rest) f h1 in
    let rec =
      r_values-At vs q body rest fs (At-append p body (encoded p v) (encode_all q vs ++ rest) h1) in
    ap (λ x. cons_value x (λ r1. r_values (map code vs) r1)) e
    ∙ (ap (λ x. (v ∷ x.0, x.1)) rec
        ∙ ap (λ k. (v ∷ vs, reading body k))
            (omega (arith, length-append (encoded p v) (encode_all q vs))))

finish_ok : (w : Writer) (n : ℕ) → w_finish w ≡ some n → (w.err ≡ false) × (off w ≡ n)
unfolding w_finish
finish_ok w n e = ground arith

-- Whatever values `__marshal_va` writes without an error are read back unchanged, one after the
-- other, by the reader's operations for their codes, and nothing of the body is left; the result is
-- the body's length. The values are within their C types, and the strings shorter than 4 GiB.
pub marshal_va_round_trip :
    (size n : ℕ) (vs : List Value) (body : List ℕ)
    → AllFit vs
    → marshal_va size vs ≡ (some n, body)
    → (r_values (map code vs) (r_init body) ≡ (vs, reading body n))
      × (r_done (reading body n) ≡ true)
unfolding marshal_va r_init r_done w_init
marshal_va_round_trip size n vs body f e =
    let w = w_values vs (w_init size) in
    let (ok, l) = finish_ok w n (ap (λ x. x.0) e) in
    let wrote = (w_values_ok vs (w_init size) ok).1 in
    let whole : encode_all 0 vs ≡ body = sym wrote ∙ ap (λ x. x.1) e in
    let at : At 0 body (encode_all 0 vs ++ []) = ([], refl, append_nil (encode_all 0 vs) ∙ whole) in
    let count : length body ≡ n = ap length (sym (ap (λ x. x.1) e)) ∙ l in
    (
      r_values-At vs 0 body [] f at
          ∙ ap (λ k. (vs, reading body k)) (omega (arith, ap length whole, count)),
      ground (arith, count),
    )
