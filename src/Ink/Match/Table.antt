-- ===== src/Ink/Match/Table.antt =====
-- The rules of a peer, as a bag of texts.
use finit.Prelude.{
  ℕ, suc, ◌+◌, ◌≤◌, arith, true, ◌&&◌, ltb, ◌≡◌, refl, ap, List, [], ◌∷◌, ◌++◌, length,
  length-append, Option-cases, Bool-cases, inl, inr, if◌then◌else◌,
}
use finit.Ink.Match.{
  Rule, str_same, match_parse, match_add, match_remove, last_of, take_place, peer_cap,
}

same_eq : (a b : List ℕ) → str_same a b ≡ true → a ≡ b
same_eq [] [] h = refl
same_eq [] (d ∷ t) h = cc
same_eq (c ∷ s) [] h = cc
same_eq (c ∷ s) (d ∷ t) h = ground (arith, same_eq s t)

same_other : (a b r : List ℕ) → str_same a b ≡ true → str_same a r ≡ str_same b r
same_other a b r h = ap (λ x. str_same x r) (same_eq a b h)

-- How many rules have the text.
abbrev pub count : List ℕ → List Rule → ℕ
count r [] = 0
count r (m ∷ ms) = (if str_same m.raw r then 1 else 0) + count r ms

count-append : (r : List ℕ) (ms ns : List Rule) → count r (ms ++ ns) ≡ count r ms + count r ns
count-append r [] ns = omega arith
count-append r (m ∷ ms) ns = ground (arith, count-append r ms ns)

count-last_of :
    (r : List ℕ) (m : Rule) (ms : List Rule)
    → count r (last_of m ms).0 + count r ((last_of m ms).1 ∷ []) ≡ count r (m ∷ ms)
count-last_of r m [] = omega arith
count-last_of r m (n ∷ ms) = ground (arith, count-last_of r n ms)

count-take_place : (r : List ℕ) (ms : List Rule) → count r (take_place ms) ≡ count r ms
count-take_place r [] = refl
count-take_place r (m ∷ ms) = ground (arith, count-last_of r m ms)

-- `__match_remove` succeeds exactly if there is a rule with the text, and then takes away one such
-- rule and no other; else it changes nothing.
pub count-match_remove :
    (rule : List ℕ) (ms : List Rule) (r : List ℕ)
    → ((match_remove rule ms).1 ≡ ltb 0 (count rule ms))
      × (count r (match_remove rule ms).0
            + (if (match_remove rule ms).1 && str_same rule r then 1 else 0)
          ≡ count r ms)
unfolding match_remove
count-match_remove rule [] r = (refl, refl)
count-match_remove rule (m ∷ ms) r = elim (Bool-cases (str_same m.raw rule)) [
  | inl y ↦ rw y (ground arith, ground (arith, count-take_place r ms, same_other m.raw rule r y))
  | inr n ↦
      let (found, counts) = count-match_remove rule ms r in
      rw n (ground (arith, found), ground (arith, counts))
]

length-last_of : (m : Rule) (ms : List Rule) → length (last_of m ms).0 ≡ length ms
length-last_of m [] = refl
length-last_of m (n ∷ ms) = ap suc (length-last_of n ms)

length-take_place : (ms : List Rule) → length (take_place ms) ≡ length ms
length-take_place [] = refl
length-take_place (m ∷ ms) = ap suc (length-last_of m ms)

match_remove-le : (rule : List ℕ) (ms : List Rule) → length (match_remove rule ms).0 ≤ length ms
unfolding match_remove
match_remove-le rule [] = omega arith
match_remove-le rule (m ∷ ms) = ground (arith, match_remove-le rule ms, length-take_place ms)

-- What a peer asks for.
pub data Request : Type 0 where
  add remove : List ℕ → Request

pub serve : List Request → List Rule → List Rule
serve [] ms = ms
serve (add rule ∷ rs) ms = serve rs (match_add rule ms).0
serve (remove rule ∷ rs) ms = serve rs (match_remove rule ms).0

match_add-le :
    (rule : List ℕ) (ms : List Rule)
    → length ms ≤ peer_cap
    → length (match_add rule ms).0 ≤ peer_cap
unfolding match_add
match_add-le rule ms h = elim (Option-cases (match_parse rule)) [
  | inl e ↦ rw e (ground arith)
  | inr (m, e) ↦ rw e (ground (arith, length-append ms (m ∷ [])))
]

-- Whatever a peer adds and removes, it never has more than 16 rules.
pub serve-le :
    (rs : List Request) (ms : List Rule) → length ms ≤ peer_cap → length (serve rs ms) ≤ peer_cap
unfolding serve
serve-le [] ms h = h
serve-le (add rule ∷ rs) ms h = serve-le rs (match_add rule ms).0 (match_add-le rule ms h)
serve-le (remove rule ∷ rs) ms h =
    serve-le rs (match_remove rule ms).0 (omega (arith, match_remove-le rule ms))
