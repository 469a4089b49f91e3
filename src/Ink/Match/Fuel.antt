-- ===== src/Ink/Match/Fuel.antt =====
-- The loop over a rule ends.
use finit.Prelude.{
  ℕ, zero, suc, ◌≤◌, ◌<◌, arith, Bool, not, ◌||◌, ◌==◌, ◌≡◌, refl, subst, List, [], ◌∷◌, length,
  Option, none, some, Option-cases, Bool-cases, inl, inr,
}
use finit.Ink.Match.{
  Rule, is_blank, is_key, span, closed, opened, keyed, parse_kv, store, parse_entries,
}

span-le : (p : ℕ → Bool) (s : List ℕ) → length (span p s).1 ≤ length s
span-le p [] = omega arith
span-le p (c ∷ s) = ground (arith, span-le p s)

-- A result leaves less than `n` bytes.
abbrev Leaves : ℕ → Option (List ℕ × List ℕ × List ℕ) → Type 0
Leaves n none = 0 ≤ n
Leaves n (some (key, value, rest)) = length rest < n

closed-Leaves :
    (key : List ℕ) (x : List ℕ × List ℕ) (n : ℕ) → length x.1 ≤ n → Leaves n (closed key x)
closed-Leaves key (value, []) n h = omega arith
closed-Leaves key (value, q ∷ rest) n h = omega (arith, span-le (λ c. is_blank c || c == 44) rest)

opened-Leaves : (key s : List ℕ) (n : ℕ) → length s ≤ n → Leaves n (opened key s)
opened-Leaves key [] n h = omega arith
opened-Leaves key (q ∷ s) n h = elim (Bool-cases (q == 39)) [
  | inl y ↦ rw y (
      closed-Leaves key (span (λ c. not (c == 39)) s) n
        (omega (arith, span-le (λ c. not (c == 39)) s)))
  | inr no_quote ↦ rw no_quote (omega arith)
]

keyed-Leaves : (x : List ℕ × List ℕ) (n : ℕ) → length x.1 ≤ n → Leaves n (keyed x)
keyed-Leaves ([], rest) n h = omega arith
keyed-Leaves (k ∷ key, []) n h = omega arith
keyed-Leaves (k ∷ key, e ∷ s) n h = elim (Bool-cases (e == 61)) [
  | inl y ↦ rw y (opened-Leaves (k ∷ key) s n (omega arith))
  | inr other ↦ rw other (omega arith)
]

parse_kv-Leaves : (s : List ℕ) → Leaves (length s) (parse_kv s)
unfolding parse_kv
parse_kv-Leaves s =
    keyed-Leaves (span is_key (span is_blank s).1) (length s)
      (omega (arith, span-le is_key (span is_blank s).1, span-le is_blank s))

left_over :
    (s : List ℕ) (r : List ℕ × List ℕ × List ℕ) → parse_kv s ≡ some r → length r.2 < length s
left_over s r e = subst (Leaves (length s)) e (parse_kv-Leaves s)

-- Fuel for the length of what is left of a rule is enough: more makes no difference, so that the
-- loop is never cut short.
pub parse_entries_fuel :
    (f : ℕ) (s : List ℕ) (m : Rule) → length s ≤ f → parse_entries f s m ≡ parse_entries (suc f) s m
unfolding parse_entries
parse_entries_fuel zero [] m h = refl
parse_entries_fuel zero (c ∷ s) m h = absurd (omega arith)
parse_entries_fuel (suc f) [] m h = refl
parse_entries_fuel (suc f) (c ∷ s) m h = elim (Option-cases (parse_kv (c ∷ s))) [
  | inl e ↦ rw e refl
  | inr (r, e) ↦ rw e (elim (Option-cases (store r.0 r.1 m)) [
    | inl e1 ↦ rw e1 refl
    | inr (m1, e1) ↦ rw e1 (parse_entries_fuel f r.2 m1 (omega (arith, left_over (c ∷ s) r e)))
  ])
]
