-- ===== src/Conf/Template.antt =====
-- conf.c: templates, whose %i are replaced by the name of the instance.
pub mod Instance
use finit.Prelude.{
  ℕ, zero, suc, ◌+◌, ◌-◌, ◌≤◌, Bool, true, false, not, ◌&&◌, ◌||◌, leb, ltb, ◌==◌, ◌≡◌, List, [],
  ◌∷◌, ◌++◌, length, take, drop, codes, Option, none, some, if◌then◌else◌,
}

-- `strchr(pos, '%')`: the bytes before the first percent sign, and those behind it.
abbrev pub before : ℕ → Option (List ℕ × List ℕ) → Option (List ℕ × List ℕ)
before c none = none
before c (some (text, rest)) = some (c ∷ text, rest)

unfoldable pub find_percent : List ℕ → Option (List ℕ × List ℕ)
find_percent [] = none
find_percent (c ∷ s) = let more = find_percent s in if c == 37 then some ([], s) else before c more

-- What follows the %i, if it is one.
abbrev pub behind_i : List ℕ → Option (List ℕ)
behind_i [] = none
behind_i (c ∷ s) = if c == 105 then some s else none

-- A line is what lies before `pos`, and what `pos` points to. The percent sign is replaced, and `pos`
-- moves on by the length of the name; or it is not a %i, and `pos` moves on by one.
unfoldable pub advance : ℕ → List ℕ × List ℕ → List ℕ × List ℕ
advance n (done, rest) = (done ++ take n rest, drop n rest)

abbrev pub replaced : List ℕ → List ℕ → List ℕ → List ℕ → Option (List ℕ) → List ℕ × List ℕ
replaced name done text rest none = advance 1 (done, text ++ 37 ∷ rest)
replaced name done text rest (some tail) = advance (length name) (done, text ++ (name ++ tail))

-- The second loop of `conf_instantiate`, with fuel.
unfoldable pub replace_all : ℕ → List ℕ → List ℕ × List ℕ → Option (List ℕ)
replace_all zero name (done, rest) = none
replace_all (suc f) name (done, rest) = elim (find_percent rest) [
  | none ↦ some (done ++ rest)
  | some (text, more) ↦ replace_all f name (replaced name done text more (behind_i more))
]

-- `conf_instantiate`; each round takes one byte at least of what is ahead.
unfoldable pub conf_instantiate : List ℕ → List ℕ → Option (List ℕ)
conf_instantiate line [] = some line
conf_instantiate line (c ∷ name) = replace_all (suc (length line)) (c ∷ name) ([], line)
