-- ===== src/Ink/Fields.antt =====
-- Each of the reader's operations, on the bytes that the writer's operation leaves.
use finit.Prelude.{
  ℕ, zero, suc, ◌+◌, ◌*◌, ◌/◌, ◌%◌, ◌^◌, ◌≤◌, ◌<◌, arith, Bool, true, false, ◌≡◌, refl, ap, subst,
  ◌∙◌, List, [], ◌∷◌, ◌++◌, length, drop, replicate, length-append, length-replicate, some,
  if◌then◌else◌,
}
use finit.Ink.Writer.{padding, u32_bytes}
use finit.Ink.Reader.{
  Reader, r_skip_align, head, rd_u32, read_at, r_byte, r_u32, r_u64, r_bool, r_string,
  read_string_body, before_nul,
}

pub append_assoc : (xs ys zs : List ℕ) → (xs ++ ys) ++ zs ≡ xs ++ (ys ++ zs)
append_assoc [] ys zs = refl
append_assoc (x ∷ xs) ys zs = ap (λ t. x ∷ t) (append_assoc xs ys zs)

-- `rest` stands in the body `b` from the position `p` on.
abbrev pub At : ℕ → List ℕ → List ℕ → Type 0
At p b rest = (pre : List ℕ) × (length pre ≡ p) × (pre ++ rest ≡ b)

pub At-append : (p : ℕ) (b xs rest : List ℕ) → At p b (xs ++ rest) → At (p + length xs) b rest
At-append p b xs rest (pre, l, e) =
    (pre ++ xs, omega (arith, length-append pre xs), append_assoc pre xs rest ∙ e)

drop-append : (xs ys : List ℕ) → drop (length xs) (xs ++ ys) ≡ ys
drop-append [] ys = refl
drop-append (x ∷ xs) ys = drop-append xs ys

pub drop-At : (p : ℕ) (b rest : List ℕ) → At p b rest → drop p b ≡ rest
drop-At p b rest (pre, l, e) = rw⁻¹ e (rw⁻¹ l (drop-append pre rest))

pub length-At : (p : ℕ) (b rest : List ℕ) → At p b rest → p + length rest ≡ length b
length-At p b rest (pre, l, e) = rw⁻¹ e (omega (arith, length-append pre rest))

pub rd_u32-u32_bytes : (v : ℕ) (rest : List ℕ) → v < 2 ^ 32 → rd_u32 (u32_bytes v ++ rest) ≡ v
unfolding rd_u32 u32_bytes
rd_u32-u32_bytes v rest h = omega arith

-- A reader without an error.
abbrev pub reading : List ℕ → ℕ → Reader
reading b p = record { base = b; pos = p; err = false }

-- The bytes of a value that is written at `p`, behind its padding.
abbrev padded : ℕ → ℕ → List ℕ → List ℕ
padded p align bs = replicate (padding p align) 0 ++ bs

r_skip_align-At :
    (p align : ℕ) (b rest : List ℕ)
    → At p b (replicate (padding p align) 0 ++ rest)
    → r_skip_align align (reading b p) ≡ (true, reading b (p + padding p align))
unfolding r_skip_align
r_skip_align-At p align b rest h = ground (
  arith,
  length-At p b (replicate (padding p align) 0 ++ rest) h,
  length-append (replicate (padding p align) 0) rest,
  length-replicate (padding p align) zero,
)

pub past :
    (p align : ℕ) (b rest : List ℕ)
    → At p b (replicate (padding p align) 0 ++ rest)
    → At (p + padding p align) b rest
past p align b rest h =
    subst (λ k. At (p + k) b rest) (length-replicate (padding p align) zero)
      (At-append p b (replicate (padding p align) 0) rest h)

read_at-At :
    {A : Type 0} (p n : ℕ) (f : List ℕ → A) (b rest : List ℕ)
    → n ≤ length rest
    → At p b rest
    → read_at n f (true, reading b p) ≡ (some (f rest), reading b (p + n))
read_at-At p n f b rest le h = rw (drop-At p b rest h) (ground (arith, length-At p b rest h))

-- A value is read behind its padding.
padded-At :
    {A : Type 0} (p align n : ℕ) (f : List ℕ → A) (b rest : List ℕ)
    → n ≤ length rest
    → At p b (replicate (padding p align) 0 ++ rest)
    → read_at n f (r_skip_align align (reading b p))
      ≡ (some (f rest), reading b (p + padding p align + n))
padded-At p align n f b rest le h =
    rw (r_skip_align-At p align b rest h)
      (read_at-At (p + padding p align) n f b rest le (past p align b rest h))

pub r_u32-At :
    (p v : ℕ) (b rest : List ℕ)
    → v < 2 ^ 32
    → At p b (replicate (padding p 4) 0 ++ (u32_bytes v ++ rest))
    → r_u32 (reading b p) ≡ (some v, reading b (p + padding p 4 + 4))
unfolding r_u32 u32_bytes
r_u32-At p v b rest n h =
    padded-At p 4 4 rd_u32 b (u32_bytes v ++ rest) (omega arith) h
    ∙ ap (λ k. (some k, reading b (p + padding p 4 + 4))) (rd_u32-u32_bytes v rest n)

pub r_byte-At :
    (p v : ℕ) (b rest : List ℕ)
    → At p b (replicate (padding p 1) 0 ++ (v ∷ rest))
    → r_byte (reading b p) ≡ (some v, reading b (p + padding p 1 + 1))
unfolding r_byte
r_byte-At p v b rest h = padded-At p 1 1 head b (v ∷ rest) (omega arith) h

-- The bytes of a uint64_t.
abbrev pub u64_bytes : ℕ → List ℕ
u64_bytes v = u32_bytes (v % 2 ^ 32) ++ u32_bytes (v / 2 ^ 32)

rd_u64-u64_bytes :
    (v : ℕ) (rest : List ℕ)
    → v < 2 ^ 64
    → rd_u32 (u64_bytes v ++ rest) + rd_u32 (drop 4 (u64_bytes v ++ rest)) * 2 ^ 32 ≡ v
unfolding u32_bytes
rd_u64-u64_bytes v rest h =
    let lo = rd_u32-u32_bytes (v % 2 ^ 32) (u32_bytes (v / 2 ^ 32) ++ rest) (omega arith) in
    let hi = rd_u32-u32_bytes (v / 2 ^ 32) rest (omega arith) in omega (arith, lo, hi)

pub r_u64-At :
    (p v : ℕ) (b rest : List ℕ)
    → v < 2 ^ 64
    → At p b (replicate (padding p 8) 0 ++ (u64_bytes v ++ rest))
    → r_u64 (reading b p) ≡ (some v, reading b (p + padding p 8 + 8))
unfolding r_u64 u32_bytes
r_u64-At p v b rest n h =
    padded-At p 8 8 (λ bs. rd_u32 bs + rd_u32 (drop 4 bs) * 2 ^ 32) b (u64_bytes v ++ rest)
      (omega arith) h
    ∙ ap (λ k. (some k, reading b (p + padding p 8 + 8))) (rd_u64-u64_bytes v rest n)

pub r_bool-At :
    (p : ℕ) (v : Bool) (b rest : List ℕ)
    → At p b (replicate (padding p 4) 0 ++ (u32_bytes (if v then 1 else 0) ++ rest))
    → r_bool (reading b p) ≡ (some v, reading b (p + padding p 4 + 4))
unfolding r_bool
r_bool-At p true b rest h = rw (r_u32-At p 1 b rest (omega arith) h) refl
r_bool-At p false b rest h = rw (r_u32-At p 0 b rest (omega arith) h) refl

-- The bytes of a C string, which has no NUL.
abbrev pub CString : List ℕ → Type 0
CString [] = 0 ≤ 0
CString (c ∷ s) = (1 ≤ c) × CString s

pub before_nul-CString : (s rest : List ℕ) → CString s → before_nul (s ++ 0 ∷ rest) ≡ s
before_nul-CString [] rest h = refl
before_nul-CString (zero ∷ s) rest (h, hs) = absurd (omega arith)
before_nul-CString (suc c ∷ s) rest (h, hs) = ap (λ t. suc c ∷ t) (before_nul-CString s rest hs)

read_string_body-At :
    (p : ℕ) (s b rest : List ℕ)
    → At p b (s ++ 0 ∷ rest)
    → read_string_body (some (length s), reading b p) ≡ (some p, reading b (p + length s + 1))
read_string_body-At p s b rest h =
    let e = drop-At (p + length s) b (0 ∷ rest) (At-append p b s (0 ∷ rest) h) in
    let l = length-At (p + length s) b (0 ∷ rest) (At-append p b s (0 ∷ rest) h) in
    rw e (ground (arith, l))

pub r_string-At :
    (p : ℕ) (s b rest : List ℕ)
    → length s < 2 ^ 32
    → At p b (replicate (padding p 4) 0 ++ (u32_bytes (length s % 2 ^ 32) ++ (s ++ 0 ∷ rest)))
    → (r_string (reading b p)
        ≡ (some (p + padding p 4 + 4), reading b (p + padding p 4 + 4 + length s + 1)))
      × At (p + padding p 4 + 4) b (s ++ 0 ∷ rest)
unfolding r_string u32_bytes
r_string-At p s b rest n h =
    let h1 = past p 4 b (u32_bytes (length s % 2 ^ 32) ++ (s ++ 0 ∷ rest)) h in
    let h2 = At-append (p + padding p 4) b (u32_bytes (length s % 2 ^ 32)) (s ++ 0 ∷ rest) h1 in
    let e : length s % 2 ^ 32 ≡ length s = omega arith in
    (
      ap read_string_body (r_u32-At p (length s % 2 ^ 32) b (s ++ 0 ∷ rest) (omega arith) h)
          ∙ (ap (λ k. read_string_body (some k, reading b (p + padding p 4 + 4))) e
              ∙ read_string_body-At (p + padding p 4 + 4) s b rest h2),
      h2,
    )
