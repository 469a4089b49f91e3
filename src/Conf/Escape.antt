-- ===== src/Conf/Escape.antt =====
-- conf.c: texts between double quotes.
use finit.Prelude.{
  ℕ, suc, ◌+◌, ◌*◌, ◌≤◌, ◌<◌, arith, Bool, false, ◌||◌, ltb, ◌==◌, ◌≡◌, refl, ap, ◌∙◌, List, [],
  ◌∷◌, length, take, Bool-cases, inl, inr, if◌then◌else◌,
}

abbrev is_special : ℕ → Bool
is_special c = c == 34 || c == 92

-- The loop of `conf_escape`, with `i` bytes in a buffer of `len`.
unfoldable pub escape_from : ℕ → ℕ → List ℕ → List ℕ
escape_from i len [] = []
escape_from i len (c ∷ s) =
    let quoted = escape_from (i + 2) len s in
    let plain = escape_from (i + 1) len s in
    if ltb (i + 2) len then (if is_special c then 92 ∷ c ∷ quoted else c ∷ plain) else []

-- `conf_escape`; the result is what stands in front of the NUL.
unfoldable pub conf_escape : List ℕ → ℕ → List ℕ
conf_escape str len = escape_from 0 len str

-- What a double-quoted text says: a backslash stands for the byte behind it.
pub unescape : List ℕ → List ℕ
unescape [] = []
unescape (c ∷ []) = c ∷ []
unescape (c ∷ d ∷ s) =
    let quoted = unescape s in
    let plain = unescape (d ∷ s) in if c == 92 then d ∷ quoted else c ∷ plain

-- How much of a text is taken.
abbrev count_from : ℕ → ℕ → List ℕ → ℕ
count_from i len [] = 0
count_from i len (c ∷ s) =
    let quoted = count_from (i + 2) len s in
    let plain = count_from (i + 1) len s in
    if ltb (i + 2) len then suc (if is_special c then quoted else plain) else 0

unescape_plain : (c : ℕ) (s : List ℕ) → is_special c ≡ false → unescape (c ∷ s) ≡ c ∷ unescape s
unfolding unescape
unescape_plain c [] h = refl
unescape_plain c (d ∷ s) h = ground arith

unescape-escape_from :
    (i len : ℕ) (s : List ℕ) → unescape (escape_from i len s) ≡ take (count_from i len s) s
unfolding unescape escape_from
unescape-escape_from i len [] = refl
unescape-escape_from i len (c ∷ s) = elim (Bool-cases (ltb (i + 2) len)) [
  | inr n ↦ rw n refl
  | inl y ↦ elim (Bool-cases (is_special c)) [
    | inl q ↦ rw (y, q) (ap (λ x. c ∷ x) (unescape-escape_from (i + 2) len s))
    | inr p ↦
        rw (y, p)
          (unescape_plain c (escape_from (i + 1) len s) p
            ∙ ap (λ x. c ∷ x) (unescape-escape_from (i + 1) len s))
  ]
]

length-escape_from : (i len : ℕ) (s : List ℕ) → i < len → i + length (escape_from i len s) < len
unfolding escape_from
length-escape_from i len [] h = omega arith
length-escape_from i len (c ∷ s) h =
    ground (arith, length-escape_from (i + 2) len s, length-escape_from (i + 1) len s)

count_from_all : (i len : ℕ) (s : List ℕ) → i + 2 * length s < len → count_from i len s ≡ length s
count_from_all i len [] h = refl
count_from_all i len (c ∷ s) h =
    ground (arith, count_from_all (i + 2) len s, count_from_all (i + 1) len s)

-- What conf_escape() writes fits with its NUL into any buffer that is not empty, and read back it is
-- the start of the text, the whole of it if the buffer is longer than twice the text.
pub conf_escape_lem :
    (str : List ℕ) (len : ℕ)
    → 1 ≤ len
    → (length (conf_escape str len) < len)
      × ((n : ℕ) × (unescape (conf_escape str len) ≡ take n str)
          × (2 * length str < len → n ≡ length str))
unfolding conf_escape
conf_escape_lem str len h = (
  omega (arith, length-escape_from 0 len str (omega arith)),
  (
    count_from 0 len str,
    unescape-escape_from 0 len str,
    λ k. count_from_all 0 len str (omega arith),
  ),
)
