-- ===== src/Ink/Within.antt =====
-- The reader stays within the body.
use finit.Prelude.{
  ℕ, ◌+◌, ◌≤◌, arith, Bool, true, false, not, ◌==◌, ◌≡◌, refl, ap, Bool-cases, inl, inr, ◌^◌, ◌*◌,
  ◌∙◌, List, [], ◌∷◌, length, drop, Option, some, none,
}
use finit.Ink.Reader.{
  rd_u32, head, Reader, Read, cap, r_init, r_skip_align, read_at, r_byte, r_u32, r_u64, r_bool,
  r_string, read_string_body, as_bool, variant_length, expect, array_bounds, r_variant_begin,
  r_variant_string, r_variant_u32, r_array_begin,
}

-- The reader's operations, and a sequence of them, whatever they return.
pub data Op : Type 0 where
  byte u32 u64 bool string variant_string variant_u32 array_begin : Op

unfoldable pub step : Op → Reader → Reader
step byte r = (r_byte r).1
step u32 r = (r_u32 r).1
step u64 r = (r_u64 r).1
step bool r = (r_bool r).1
step string r = (r_string r).1
step variant_string r = (r_variant_string r).1
step variant_u32 r = (r_variant_u32 r).1
step array_begin r = (r_array_begin r).1

unfoldable pub read_all : List Op → Reader → Reader
read_all [] r = r
read_all (op ∷ ops) r = read_all ops (step op r)

-- The cursor is within the body, the body is as it was, and an error stays.
abbrev Kept : Reader → Reader → Type 0
Kept r r' = (r'.base ≡ r.base) × (r'.pos ≤ cap r) × (r.err ≡ true → r'.err ≡ true)

skip-Kept : (n : ℕ) (r : Reader) → r.pos ≤ cap r → Kept r (r_skip_align n r).1
unfolding r_skip_align
skip-Kept n r h = (ground arith, ground arith, λ e. ground arith)

read_at-Kept :
    {A : Type 0} (n : ℕ) (f : List ℕ → A) (ok : Bool) (r : Reader)
    → r.pos ≤ cap r
    → Kept r (read_at n f (ok, r)).1
read_at-Kept n f true r h = (ground arith, ground arith, λ e. ground arith)
read_at-Kept n f false r h = (ground arith, ground arith, λ e. ground arith)

string_body-Kept : (x : Option ℕ) (r : Reader) → r.pos ≤ cap r → Kept r (read_string_body (x, r)).1
string_body-Kept none r h = (refl, h, λ e. e)
string_body-Kept (some n) r h = (ground arith, ground arith, λ e. ground arith)

Kept-trans : (q r s : Reader) → Kept q r → Kept r s → Kept q s
Kept-trans q r s (b, p, e) (b1, p1, e1) = (b1 ∙ b, omega (arith, p1, ap length b), λ h. e1 (e h))

-- An operation that reads behind another.
behind : (q r s : Reader) → Kept q r → (r.pos ≤ cap r → Kept r s) → Kept q s
behind q r s (b, p, e) next = Kept-trans q r s (b, p, e) (next (omega (arith, p, ap length b)))

aligned-Kept :
    {A : Type 0} (align n : ℕ) (f : List ℕ → A) (r : Reader)
    → r.pos ≤ cap r
    → Kept r (read_at n f (r_skip_align align r)).1
aligned-Kept align n f r h =
    let k = r_skip_align align r in
    behind r k.1 (read_at n f k).1 (skip-Kept align r h) (λ h1. read_at-Kept n f k.0 k.1 h1)

r_u32-Kept : (r : Reader) → r.pos ≤ cap r → Kept r (r_u32 r).1
unfolding r_u32
r_u32-Kept r h = aligned-Kept 4 4 rd_u32 r h

r_string-Kept : (r : Reader) → r.pos ≤ cap r → Kept r (r_string r).1
unfolding r_string
r_string-Kept r h =
    let x = r_u32 r in
    behind r x.1 (read_string_body x).1 (r_u32-Kept r h) (λ h1. string_body-Kept x.0 x.1 h1)

bounds-Kept : (x : Option ℕ) (r : Reader) → r.pos ≤ cap r → Kept r (array_bounds (x, r)).1
bounds-Kept none r h = (refl, h, λ e. e)
bounds-Kept (some n) r h = (ground arith, ground arith, λ e. ground arith)

variant_length-Kept : (ok : Bool) (r : Reader) → r.pos ≤ cap r → Kept r (variant_length (ok, r)).1
variant_length-Kept true r h = (ground arith, ground arith, λ e. ground arith)
variant_length-Kept false r h = (ground arith, ground arith, λ e. ground arith)

variant-Kept : (r : Reader) → r.pos ≤ cap r → Kept r (r_variant_begin r).1
unfolding r_variant_begin
variant-Kept r h =
    let k = r_skip_align 1 r in
    behind r k.1 (variant_length k).1 (skip-Kept 1 r h) (λ h1. variant_length-Kept k.0 k.1 h1)

expect-Kept :
    (c : ℕ) (read : Reader → Read ℕ) (x : Option ℕ) (r : Reader)
    → ((q : Reader) → q.pos ≤ cap q → Kept q (read q).1)
    → r.pos ≤ cap r
    → Kept r (expect c read (x, r)).1
expect-Kept c read none r k h = (refl, h, λ e. e)
expect-Kept c read (some d) r k h = elim (Bool-cases (not (d == c))) [
  | inl y ↦ rw y (refl, h, λ e. refl)
  | inr n ↦ rw n (k r h)
]

as_bool-Kept : (r : Reader) (x : Read ℕ) → Kept r x.1 → Kept r (as_bool x).1
as_bool-Kept r (none, q) h = h
as_bool-Kept r (some n, q) h = h

step-Kept : (op : Op) (r : Reader) → r.pos ≤ cap r → Kept r (step op r)
unfolding step r_byte r_u64 r_bool r_variant_string r_variant_u32 r_array_begin
step-Kept byte r h = aligned-Kept 1 1 head r h
step-Kept u32 r h = r_u32-Kept r h
step-Kept u64 r h = aligned-Kept 8 8 (λ bs. rd_u32 bs + rd_u32 (drop 4 bs) * 2 ^ 32) r h
step-Kept bool r h = as_bool-Kept r (r_u32 r) (r_u32-Kept r h)
step-Kept string r h = r_string-Kept r h
step-Kept variant_string r h =
    let x = r_variant_begin r in
    behind r x.1 (expect 115 r_string x).1 (variant-Kept r h)
      (λ h1. expect-Kept 115 r_string x.0 x.1 r_string-Kept h1)
step-Kept variant_u32 r h =
    let x = r_variant_begin r in
    behind r x.1 (expect 117 r_u32 x).1 (variant-Kept r h)
      (λ h1. expect-Kept 117 r_u32 x.0 x.1 r_u32-Kept h1)
step-Kept array_begin r h =
    let x = r_u32 r in
    behind r x.1 (array_bounds x).1 (r_u32-Kept r h) (λ h1. bounds-Kept x.0 x.1 h1)

read_all-Kept : (ops : List Op) (r : Reader) → r.pos ≤ cap r → Kept r (read_all ops r)
unfolding read_all
read_all-Kept [] r h = (refl, h, λ e. e)
read_all-Kept (op ∷ ops) r h =
    behind r (step op r) (read_all ops (step op r)) (step-Kept op r h)
      (λ h1. read_all-Kept ops (step op r) h1)

-- Whatever is read from a body, in any order and with any outcome, and whatever the body holds, the
-- cursor stays within it, and the body is unchanged.
pub read_all_stays :
    (ops : List Op) (body : List ℕ)
    → ((read_all ops (r_init body)).pos ≤ length body) × ((read_all ops (r_init body)).base ≡ body)
unfolding r_init
read_all_stays ops body = let (b, p, _) = read_all-Kept ops (r_init body) (omega arith) in (p, b)
