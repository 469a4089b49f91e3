-- ===== src/Cond/Files.antt =====
-- The files below the directory of conditions, by their path: what the program uses of the file
-- system. A file holds a number, or is a symbolic link to the file `reconf`.
use finit.Prelude.{
  ◌≡◌, Option, none, some, List, [], ◌∷◌, ℕ, arith, String, str_eq, str_eq_iff, if◌then◌else◌,
}

pub data File : Type 0 where
  number : ℕ → File
  link : File

abbrev pub Files : Type 0
Files = List (String × File)

unfoldable pub lookup : String → Files → Option File
lookup p [] = none
lookup p ((q, f) ∷ fs) = if str_eq q p then some f else lookup p fs

unfoldable pub remove : String → Files → Files
remove p [] = []
remove p ((q, f) ∷ fs) = let rest = remove p fs in if str_eq q p then rest else (q, f) ∷ rest

unfoldable pub put : String → File → Files → Files
put p f fs = (p, f) ∷ remove p fs

pub lookup-remove :
    (p q : String) (fs : Files)
    → lookup q (remove p fs) ≡ (if str_eq p q then none else lookup q fs)
unfolding lookup remove
lookup-remove p q [] = ground arith
lookup-remove p q ((r, f) ∷ fs) =
    ground (arith, lookup-remove p q fs, str_eq_iff r p, str_eq_iff r q, str_eq_iff p q)

pub lookup-put :
    (p q : String) (f : File) (fs : Files)
    → lookup q (put p f fs) ≡ (if str_eq p q then some f else lookup q fs)
unfolding lookup put
lookup-put p q f fs = ground (arith, lookup-remove p q fs)
