-- ===== src/Ink/Reader.antt =====
-- libink/marshal.c: the reader of message bodies.
use finit.Prelude.{
  ℕ, zero, suc, ◌+◌, ◌-◌, ◌*◌, ◌^◌, Bool, true, false, not, ◌||◌, ◌&&◌, ◌==◌, ltb, leb, List, [],
  ◌∷◌, length, drop, Option, none, some, if◌then◌else◌,
}
use finit.Ink.Writer.{padding}

-- `struct link_reader`; `cap` is the number of the bytes of `base`.
pub record Reader : Type 0 where
  pub base : List ℕ
  pub pos : ℕ
  pub err : Bool

abbrev pub cap : Reader → ℕ
cap r = length r.base

-- What an operation returns: the value, or `none` for -1, and the reader.
abbrev pub Read : Type 0 → Type 0
Read A = Option A × Reader

abbrev pub fail : {A : Type 0} → Reader → Read A
fail r = (none, record r { err = true })

-- `__r_init`
unfoldable pub r_init : List ℕ → Reader
r_init body = record { base = body; pos = 0; err = false }

-- `r_skip_align`, true on success.
unfoldable pub r_skip_align : ℕ → Reader → Bool × Reader
r_skip_align align r =
    let pad = padding r.pos align in
    if r.err
    then (false, r)
    else if ltb (cap r) (r.pos + pad)
    then (false, record r { err = true })
    else (true, record r { pos = r.pos + pad })

-- The first bytes of what is left.
abbrev pub head : List ℕ → ℕ
head [] = 0
head (b ∷ bs) = b

-- `rd_u32`, which its callers guard against fewer than four bytes.
unfoldable pub rd_u32 : List ℕ → ℕ
rd_u32 (a ∷ b ∷ c ∷ d ∷ bs) = a + b * 256 + c * 65536 + d * 16777216
rd_u32 _ = 0

-- A value of `n` bytes, as `f` reads it, behind the alignment.
abbrev pub read_at : {A : Type 0} → ℕ → (List ℕ → A) → Bool × Reader → Read A
read_at n f (ok, r) =
    if not ok || ltb (cap r) (r.pos + n)
    then fail r
    else (some (f (drop r.pos r.base)), record r { pos = r.pos + n })

-- `__r_byte`
unfoldable pub r_byte : Reader → Read ℕ
r_byte r = read_at 1 head (r_skip_align 1 r)

-- `__r_u32`
unfoldable pub r_u32 : Reader → Read ℕ
r_u32 r = read_at 4 rd_u32 (r_skip_align 4 r)

-- `__r_u64`
unfoldable pub r_u64 : Reader → Read ℕ
r_u64 r = read_at 8 (λ bs. rd_u32 bs + rd_u32 (drop 4 bs) * 2 ^ 32) (r_skip_align 8 r)

abbrev pub as_bool : Read ℕ → Read Bool
as_bool (none, r) = (none, r)
as_bool (some n, r) = (some (not (n == 0)), r)

-- `__r_bool`
unfoldable pub r_bool : Reader → Read Bool
r_bool r = as_bool (r_u32 r)

-- The string behind the length: the pointer is given as the position that it points to.
abbrev pub read_string_body : Read ℕ → Read ℕ
read_string_body (none, r) = (none, r)
read_string_body (some len, r) =
    if leb (cap r - r.pos) len
    then fail r
    else if not (head (drop (r.pos + len) r.base) == 0)
    then fail r
    else (some r.pos, record r { pos = r.pos + len + 1 })

-- `read_string_like`, `__r_string` and `__r_path`
unfoldable pub r_string : Reader → Read ℕ
r_string r = read_string_body (r_u32 r)

-- The C string that a pointer into the body points to: the bytes before the first NUL.
abbrev pub before_nul : List ℕ → List ℕ
before_nul [] = []
before_nul (zero ∷ bs) = []
before_nul (suc b ∷ bs) = suc b ∷ before_nul bs

abbrev pub c_string : Reader → ℕ → List ℕ
c_string r p = before_nul (drop p r.base)

-- `__r_variant_begin` behind the alignment and from the signature's length on.
abbrev pub variant_type : Reader → Read ℕ
variant_type r =
    if ltb (cap r) (r.pos + 2)
    then fail r
    else if not (head (drop (r.pos + 1) r.base) == 0)
    then fail r
    else (some (head (drop r.pos r.base)), record r { pos = r.pos + 2 })

abbrev pub variant_length : Bool × Reader → Read ℕ
variant_length (ok, r) =
    if not ok || ltb (cap r) (r.pos + 1)
    then fail r
    else if not (head (drop r.pos r.base) == 1)
    then fail (record r { pos = r.pos + 1 })
    else variant_type (record r { pos = r.pos + 1 })

unfoldable pub r_variant_begin : Reader → Read ℕ
r_variant_begin r = variant_length (r_skip_align 1 r)

-- A value of the type `c` alone.
abbrev pub expect : ℕ → (Reader → Read ℕ) → Read ℕ → Read ℕ
expect c read (none, r1) = (none, r1)
expect c read (some type, r1) = if not (type == c) then fail r1 else read r1

-- `__r_variant_string`, for the character s
unfoldable pub r_variant_string : Reader → Read ℕ
r_variant_string r = expect 115 r_string (r_variant_begin r)

-- `__r_variant_u32`, for the character u
unfoldable pub r_variant_u32 : Reader → Read ℕ
r_variant_u32 r = expect 117 r_u32 (r_variant_begin r)

-- `__r_done`
unfoldable pub r_done : Reader → Bool
r_done r = not r.err && r.pos == cap r

abbrev pub array_bounds : Read ℕ → Read ℕ
array_bounds (none, r1) = (none, r1)
array_bounds (some array_bytes, r1) =
    if ltb (cap r1 - r1.pos) array_bytes then fail r1 else (some (r1.pos + array_bytes), r1)

-- `__r_array_begin`: where the array ends.
unfoldable pub r_array_begin : Reader → Read ℕ
r_array_begin r = array_bounds (r_u32 r)
