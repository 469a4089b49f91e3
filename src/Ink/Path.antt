-- ===== src/Ink/Path.antt =====
-- libink/path.c: identifiers as elements of an object path.
pub mod Decode
mod Examples
use finit.Prelude.{
  ℕ, ◌+◌, ◌-◌, ◌/◌, ◌%◌, Bool, ◌&&◌, ◌||◌, leb, ltb, ◌==◌, List, [], ◌∷◌, ◌++◌, length, Option,
  none, some, if◌then◌else◌,
}

-- `is_safe`: A to Z, a to z, 0 to 9
unfoldable pub is_safe : ℕ → Bool
is_safe c = (leb 65 c && leb c 90) || (leb 97 c && leb c 122) || (leb 48 c && leb c 57)

-- The string `hex`
unfoldable pub hex : ℕ → ℕ
hex d = if ltb d 10 then 48 + d else 87 + d

-- The loop, with what is in `out` so far; -1 is `none`.
unfoldable pub encode_from : List ℕ → List ℕ → ℕ → Option (List ℕ)
encode_from [] out outsz = some out
encode_from (c ∷ s) out outsz =
    let safe = encode_from s (out ++ c ∷ []) outsz in
    let escaped = encode_from s (out ++ 95 ∷ hex (c / 16) ∷ hex (c % 16) ∷ []) outsz in
    if is_safe c
    then (if leb outsz (length out + 1) then none else safe)
    else if leb outsz (length out + 3)
    then none
    else escaped

-- `link_path_encode`, of the bytes of a C string; the result is what stands in `out` before the NUL.
unfoldable pub link_path_encode : List ℕ → ℕ → Option (List ℕ)
link_path_encode s outsz = if outsz == 0 then none else encode_from s [] outsz
