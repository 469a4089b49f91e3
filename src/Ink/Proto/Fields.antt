-- ===== src/Ink/Proto/Fields.antt =====
-- The fields of a header: what the builders write, and what the parser makes of it.
use finit.Prelude.{
  ℕ, zero, ◌+◌, ◌%◌, ◌^◌, ◌≤◌, ◌<◌, arith, ◌||◌, leb, ◌≡◌, ◌⊎◌, inl, inr, ap, subst, ◌∙◌, List, [],
  ◌∷◌, ◌++◌, length, length-append, length-replicate, replicate, some, if◌then◌else◌,
}
use finit.Ink.Writer.{padding, u32_bytes}
use finit.Ink.Fields.{
  append_assoc, At, At-append, drop-At, past, rd_u32-u32_bytes, CString, before_nul-CString,
}
use finit.Ink.Proto.{
  FieldValue, text, sign, number, parse_string, parse_signature, Found, field, aligned, value_at,
  round_at,
}

-- The bytes of a value, and those of a field that starts at a position.
abbrev pub value_bytes : FieldValue → List ℕ
value_bytes (text s) = u32_bytes (length s) ++ (s ++ 0 ∷ [])
value_bytes (sign s) = length s % 256 ∷ (s ++ 0 ∷ [])
value_bytes (number v) = u32_bytes v

abbrev pub field_bytes : ℕ → ℕ → ℕ → FieldValue → List ℕ
field_bytes o code vsig v = replicate (padding o 8) 0 ++ (code ∷ 1 ∷ vsig ∷ 0 ∷ value_bytes v)

-- The values that are written as they are.
abbrev pub Fits : ℕ → FieldValue → Type 0
Fits vsig (text s) = ((vsig ≡ 115) ⊎ (vsig ≡ 111)) × CString s × (length s < 2 ^ 32)
Fits vsig (sign s) = (vsig ≡ 103) × CString s × (length s < 256)
Fits vsig (number v) = (vsig ≡ 117) × (v < 2 ^ 32)

parse_signature-At :
    (b : List ℕ) (fp fend : ℕ) (s rest : List ℕ)
    → At fp b (length s ∷ (s ++ 0 ∷ rest))
    → fp + (length s + 2) ≤ fend
    → CString s
    → parse_signature b fp fend ≡ some (s, fp + (1 + length s + 1))
unfolding parse_signature
parse_signature-At b fp fend s rest h l c =
    let h1 = At-append fp b (length s ∷ []) (s ++ 0 ∷ rest) h in
    let h2 = At-append (fp + 1) b s (0 ∷ rest) h1 in
    rw (drop-At fp b (length s ∷ (s ++ 0 ∷ rest)) h) (
      rw (drop-At (fp + 1 + length s) b (0 ∷ rest) h2) (
        rw (drop-At (fp + 1) b (s ++ 0 ∷ rest) h1)
          (rw (before_nul-CString s rest c) (ground arith))))

parse_string-At :
    (b : List ℕ) (fp fend : ℕ) (s rest : List ℕ)
    → At fp b (u32_bytes (length s) ++ (s ++ 0 ∷ rest))
    → fp + (length s + 5) ≤ fend
    → CString s
    → length s < 2 ^ 32
    → parse_string b fp fend ≡ some (s, fp + (4 + length s + 1))
unfolding parse_string u32_bytes
parse_string-At b fp fend s rest h l c n =
    let h1 = At-append fp b (u32_bytes (length s)) (s ++ 0 ∷ rest) h in
    let h2 = At-append (fp + 4) b s (0 ∷ rest) h1 in
    rw (drop-At fp b (u32_bytes (length s) ++ (s ++ 0 ∷ rest)) h) (
      rw (rd_u32-u32_bytes (length s) (s ++ 0 ∷ rest) n) (
        rw (drop-At (fp + 4 + length s) b (0 ∷ rest) h2) (
          rw (drop-At (fp + 4) b (s ++ 0 ∷ rest) h1)
            (rw (before_nul-CString s rest c) (ground arith)))))

-- How a string, its NUL and what follows are bracketed.
regroup : (pre s rest : List ℕ) → (pre ++ (s ++ 0 ∷ [])) ++ rest ≡ pre ++ (s ++ 0 ∷ rest)
regroup pre s rest =
    append_assoc pre (s ++ 0 ∷ []) rest ∙ ap (λ t. pre ++ t) (append_assoc s (0 ∷ []) rest)

value_at-At :
    (b : List ℕ) (fend code vsig fp : ℕ) (v : FieldValue) (rest : List ℕ)
    → Fits vsig v
    → padding fp 4 ≡ 0
    → At fp b (value_bytes v ++ rest)
    → fp + length (value_bytes v) ≤ fend
    → value_at b fend code (some (vsig ∷ [], fp)) ≡ field code v (fp + length (value_bytes v))
unfolding value_at u32_bytes
value_at-At b fend code vsig fp (text s) rest (k, c, n) p h l =
    let e = regroup (u32_bytes (length s)) s rest in
    let read =
      parse_string-At b fp fend s rest (subst (At fp b) e h)
        (omega (arith, length-append s (0 ∷ []))) c n in
    let a : aligned fp 4 ≡ fp = omega (arith, p) in
    rw (a, read) (ground (arith, k, length-append s (0 ∷ []), l))
value_at-At b fend code vsig fp (sign s) rest (k, c, n) p h l =
    let e = regroup (length s ∷ []) s rest in
    let m : length s % 256 ≡ length s = omega arith in
    let read =
      parse_signature-At b fp fend s rest (subst (At fp b) e (rw m at h))
        (omega (arith, length-append s (0 ∷ []))) c in
    rw read (ground (arith, k, length-append s (0 ∷ []), l))
value_at-At b fend code vsig fp (number v) rest (k, n) p h l =
    let a : aligned fp 4 ≡ fp = omega (arith, p) in
    rw (a, drop-At fp b (u32_bytes v ++ rest) h, rd_u32-u32_bytes v rest n) (ground (arith, k, l))

pub start_aligned : (o : ℕ) → padding (o + padding o 8 + 4) 4 ≡ 0
unfolding padding
start_aligned o = omega arith

Fits-pos : (vsig : ℕ) (v : FieldValue) → Fits vsig v → 1 ≤ vsig
Fits-pos vsig (text s) (inl e, c, n) = omega arith
Fits-pos vsig (text s) (inr e, c, n) = omega arith
Fits-pos vsig (sign s) (e, c, n) = omega arith
Fits-pos vsig (number v) (e, n) = omega arith

pub length-field_bytes :
    (o code vsig : ℕ) (v : FieldValue)
    → length (field_bytes o code vsig v) ≡ padding o 8 + 4 + length (value_bytes v)
length-field_bytes o code vsig v = omega (
  arith,
  length-append (replicate (padding o 8) 0) (code ∷ 1 ∷ vsig ∷ 0 ∷ value_bytes v),
  length-replicate (padding o 8) zero,
)

-- The parser finds a field where the builder has put it.
pub round_at-At :
    (b : List ℕ) (fend o code vsig : ℕ) (v : FieldValue) (rest : List ℕ)
    → Fits vsig v
    → At o b (field_bytes o code vsig v ++ rest)
    → o + length (field_bytes o code vsig v) ≤ fend
    → round_at b fend o ≡ field code v (o + length (field_bytes o code vsig v))
unfolding round_at
round_at-At b fend o code vsig v rest k h l =
    let p = aligned o 8 in
    let x = value_bytes v ++ rest in
    let n = length-field_bytes o code vsig v in
    let h0 =
      subst (At o b)
        (append_assoc (replicate (padding o 8) 0) (code ∷ 1 ∷ vsig ∷ 0 ∷ value_bytes v) rest) h in
    let h1 = past o 8 b (code ∷ 1 ∷ vsig ∷ 0 ∷ x) h0 in
    let h2 = At-append p b (code ∷ []) (1 ∷ vsig ∷ 0 ∷ x) h1 in
    let h3 = At-append p b (code ∷ 1 ∷ vsig ∷ 0 ∷ []) x h1 in
    let sig =
      parse_signature-At b (p + 1) fend (vsig ∷ []) x h2 (omega (arith, n))
        (Fits-pos vsig v k, omega arith) in
    let value =
      value_at-At b fend code vsig (p + 4) v rest k (start_aligned o) h3 (omega (arith, n)) in
    let e : p + 1 + (1 + 1 + 1) ≡ p + 4 = omega arith in
    rw (drop-At p b (code ∷ 1 ∷ vsig ∷ 0 ∷ x) h1) (
      rw sig (
        ap
          (λ q.
            if leb fend o || leb fend p
            then Found.finished
            else value_at b fend code (some (vsig ∷ [], q)))
          e
        ∙ ground (arith, value, n, l)))
