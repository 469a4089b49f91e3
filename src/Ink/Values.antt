-- ===== src/Ink/Values.antt =====
-- libink/marshal.c: `__marshal_va` for values with their type codes, and their way back.
use finit.Prelude.{
  ℕ, ◌%◌, ◌^◌, ◌≤◌, ◌<◌, Bool, List, [], ◌∷◌, ◌++◌, length, replicate, Option, some, none,
  if◌then◌else◌,
}
use finit.Ink.Writer.{
  Writer, w_init, w_finish, padding, u32_bytes, w_byte, w_bool, w_u32, w_u64, w_string,
}
use finit.Ink.Reader.{Reader, Read, r_byte, r_u32, r_u64, r_bool, r_string, c_string}
use finit.Ink.Fields.{u64_bytes, CString}

-- An argument of `__marshal_va`, by the codes y, b, u, t and s (o is written like s).
pub data Value : Type 0 where
  byte u32 u64 : ℕ → Value
  bool : Bool → Value
  string : List ℕ → Value

-- The type codes alone.
pub data Code : Type 0 where
  y u t b s : Code

abbrev pub code : Value → Code
code (byte v) = y
code (u32 v) = u
code (u64 v) = t
code (bool v) = b
code (string v) = s

unfoldable pub w_value : Value → Writer → Writer
w_value (byte v) w = w_byte v w
w_value (u32 v) w = w_u32 v w
w_value (u64 v) w = w_u64 v w
w_value (bool v) w = w_bool v w
w_value (string v) w = w_string v w

unfoldable pub w_values : List Value → Writer → Writer
w_values [] w = w
w_values (v ∷ vs) w = w_values vs (w_value v w)

-- `__marshal_va` into a body of the size: its result, and what it wrote.
unfoldable pub marshal_va : ℕ → List Value → Option ℕ × List ℕ
marshal_va size vs = let w = w_values vs (w_init size) in (w_finish w, w.buf)

abbrev pub as_value : {A : Type 0} → (A → Reader → Value) → Read A → Read Value
as_value f (none, r) = (none, r)
as_value f (some v, r) = (some (f v r), r)

-- A value read by the operation for its code, a string through the pointer that it gives.
unfoldable pub r_value : Code → Reader → Read Value
r_value y r = as_value (λ v _. byte v) (r_byte r)
r_value u r = as_value (λ v _. u32 v) (r_u32 r)
r_value t r = as_value (λ v _. u64 v) (r_u64 r)
r_value b r = as_value (λ v _. bool v) (r_bool r)
r_value s r = as_value (λ p r1. string (c_string r1 p)) (r_string r)

abbrev pub cons_value : Read Value → (Reader → List Value × Reader) → List Value × Reader
cons_value (none, r1) rest = ([], r1)
cons_value (some v, r1) rest = (v ∷ (rest r1).0, (rest r1).1)

-- The values of the codes, up to the first error.
unfoldable pub r_values : List Code → Reader → List Value × Reader
r_values [] r = ([], r)
r_values (c ∷ cs) r = cons_value (r_value c r) (λ r1. r_values cs r1)

-- The C types' ranges; a string is shorter than 4 GiB and has no NUL.
abbrev pub Fits : Value → Type 0
Fits (byte v) = v < 2 ^ 8
Fits (u32 v) = v < 2 ^ 32
Fits (u64 v) = v < 2 ^ 64
Fits (bool v) = 0 ≤ 0
Fits (string v) = (length v < 2 ^ 32) × CString v

abbrev pub alignment : Value → ℕ
alignment (byte v) = 1
alignment (u32 v) = 4
alignment (u64 v) = 8
alignment (bool v) = 4
alignment (string v) = 4

abbrev pub payload : Value → List ℕ
payload (byte v) = v ∷ []
payload (u32 v) = u32_bytes v
payload (u64 v) = u64_bytes v
payload (bool v) = u32_bytes (if v then 1 else 0)
payload (string v) = u32_bytes (length v % 2 ^ 32) ++ (v ++ 0 ∷ [])

abbrev pub encoded : ℕ → Value → List ℕ
encoded p v = replicate (padding p (alignment v)) 0 ++ payload v
