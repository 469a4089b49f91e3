-- ===== src/Ink/Writer.antt =====
-- libink/marshal.c: the writer of message bodies.
use finit.Prelude.{
  ℕ, ◌+◌, ◌-◌, ◌*◌, ◌/◌, ◌%◌, ◌^◌, Bool, true, false, not, ◌||◌, ◌==◌, ltb, leb, List, [], ◌∷◌,
  ◌++◌, length, take, drop, replicate, Option, none, some, if◌then◌else◌,
}

-- A slot of `arrays`: where the length and the first element of an open array stand.
pub record Frame : Type 0 where
  pub lenpos : ℕ
  pub elemstart : ℕ

-- `struct link_writer`, with the bytes of `buf` below `off` (so that `off` is their number) and the
-- slots of `arrays` below `array_depth`, innermost first.
pub record Writer : Type 0 where
  pub buf : List ℕ
  pub cap : ℕ
  pub err : Bool
  pub arrays : List Frame

abbrev pub off : Writer → ℕ
off w = length w.buf

abbrev pub array_depth : Writer → ℕ
array_depth w = length w.arrays

-- `LINK_WRITER_MAX_NESTING`
abbrev pub max_nesting : ℕ
max_nesting = 8

-- `ALIGN_UP(x, n)` for the powers of two that it is called with, less x.
unfoldable pub padding : ℕ → ℕ → ℕ
padding x n = (x + n - 1) / n * n - x

-- `__w_init`
unfoldable pub w_init : ℕ → Writer
w_init cap = record { buf = []; cap = cap; err = false; arrays = [] }

-- `__w_finish`; `none` stands for -1.
unfoldable pub w_finish : Writer → Option ℕ
w_finish w = if w.err || not (array_depth w == 0) then none else some (off w)

-- `reserve`, true on success.
unfoldable pub reserve : ℕ → ℕ → Writer → Writer × Bool
reserve align bytes w =
    let pad = padding (off w) align in
    if w.err
    then (w, false)
    else if ltb w.cap (off w + pad + bytes)
    then (record w { err = true }, false)
    else (record w { buf = w.buf ++ replicate pad 0 }, true)

-- The bytes of a uint32_t, the low one first.
unfoldable pub u32_bytes : ℕ → List ℕ
u32_bytes v = v % 256 ∷ v / 256 % 256 ∷ v / 65536 % 256 ∷ v / 16777216 % 256 ∷ []

-- The bytes `bs` at the position `pos`, in place of those that stand there.
unfoldable pub overwrite : ℕ → List ℕ → List ℕ → List ℕ
overwrite pos bs buf = take pos buf ++ (bs ++ drop (pos + length bs) buf)

-- `put_u32_at`, `put_u32`, and a byte at the end.
unfoldable pub put_u32_at : ℕ → ℕ → Writer → Writer
put_u32_at pos v w = record w { buf = overwrite pos (u32_bytes v) w.buf }

unfoldable pub put : List ℕ → Writer → Writer
put bs w = record w { buf = w.buf ++ bs }

-- An operation that writes `bs` behind what `reserve` makes room for.
abbrev pub put_reserved : List ℕ → Writer × Bool → Writer
put_reserved bs (w, ok) = if ok then put bs w else w

unfoldable pub w_byte : ℕ → Writer → Writer
w_byte v w = put_reserved (v ∷ []) (reserve 1 1 w)

unfoldable pub w_bool : Bool → Writer → Writer
w_bool v w = put_reserved (u32_bytes (if v then 1 else 0)) (reserve 4 4 w)

unfoldable pub w_u32 : ℕ → Writer → Writer
w_u32 v w = put_reserved (u32_bytes v) (reserve 4 4 w)

unfoldable pub w_u64 : ℕ → Writer → Writer
w_u64 v w = put_reserved (u32_bytes (v % 2 ^ 32) ++ u32_bytes (v / 2 ^ 32)) (reserve 8 8 w)

-- `write_lenprefixed` with a C string, given by its bytes before the NUL; NULL counts as the empty
-- string.
unfoldable pub write_lenprefixed : List ℕ → Bool → Writer → Writer
write_lenprefixed s onebyte_len w =
    if onebyte_len
    then put_reserved (length s % 256 ∷ (s ++ 0 ∷ [])) (reserve 1 (1 + length s + 1) w)
    else put_reserved (u32_bytes (length s % 2 ^ 32) ++ (s ++ 0 ∷ []))
        (reserve 4 (4 + length s + 1) w)

-- `__w_string` and `__w_path`
unfoldable pub w_string : List ℕ → Writer → Writer
w_string s w = write_lenprefixed s false w

unfoldable pub w_sig : List ℕ → Writer → Writer
w_sig s w = write_lenprefixed s true w

-- The character s is 115.
unfoldable pub w_variant_string : List ℕ → Writer → Writer
w_variant_string s w = w_string s (w_sig (115 ∷ []) w)

-- `element_align`, by the character's code.
unfoldable pub element_align : ℕ → ℕ
element_align c =
    if c == 121 || c == 103 || c == 118
    then 1
    else if c == 110 || c == 113
    then 2
    else if c == 98 || c == 105 || c == 117 || c == 115 || c == 111 || c == 104 || c == 97
    then 4
    else if c == 120 || c == 116 || c == 100 || c == 40 || c == 123
    then 8
    else 1

abbrev pub open_at : ℕ → Writer × Bool → Writer
open_at lenpos (w, ok) =
    if ok then record w { arrays = record { lenpos = lenpos; elemstart = off w } ∷ w.arrays } else w

abbrev pub open_array : ℕ → Writer × Bool → Writer
open_array c (w, ok) =
    if ok then open_at (off w) (reserve (element_align c) 0 (put (u32_bytes 0) w)) else w

-- `__w_array_begin`
unfoldable pub w_array_begin : ℕ → Writer → Writer
w_array_begin c w =
    if w.err
    then w
    else if leb max_nesting (array_depth w)
    then record w { err = true }
    else open_array c (reserve 4 4 w)

-- The part of `__w_array_end` behind the tests, by the arrays that are open.
unfoldable pub close : List Frame → Writer → Writer
close [] w = record w { err = true }
close (a ∷ rest) w =
    put_u32_at (a.lenpos) ((off w - a.elemstart) % 2 ^ 32) (record w { arrays = rest })

-- `__w_array_end`
unfoldable pub w_array_end : Writer → Writer
w_array_end w = if w.err then record w { err = true } else close (w.arrays) w

-- `__w_struct_begin`
unfoldable pub w_struct_begin : Writer → Writer
w_struct_begin w = (reserve 8 0 w).0
