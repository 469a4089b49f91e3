-- ===== src/Ink/Dispatch/Tokens.antt =====
-- The tokens of parked calls.
use finit.Prelude.{
  ℕ, ◌≤◌, ◌<◌, arith, ◌==◌, ◌≡◌, ◌⊎◌, inl, inr, refl, sym, subst, List, [], ◌∷◌, none, some,
}
use finit.Ink.Dispatch.{Parked}
use finit.Ink.Dispatch.Park.{take_slot, unpark, find_slot}
use finit.Ink.Dispatch.Slots.{
  take_slot-none, take_slot_lem, find_slot-none, find_slot-take_slot, find_slot-unpark,
}
use finit.Ink.Dispatch.Laws.{on_if, on_test}

-- The tokens are at most the last one, and no two slots that are taken have the same.
abbrev pub AllIssued : ℕ → List Parked → Type 0
AllIssued n [] = 0 ≤ 0
AllIssued n (p ∷ ps) = (p.tok ≤ n) × AllIssued n ps

abbrev pub Unique : List Parked → Type 0
Unique [] = 0 ≤ 0
Unique (p ∷ ps) = ((p.tok ≡ 0) ⊎ (find_slot p.tok ps ≡ none)) × Unique ps

pub AllIssued-more : (n k : ℕ) (ps : List Parked) → n ≤ k → AllIssued n ps → AllIssued k ps
AllIssued-more n k [] le h = h
AllIssued-more n k (p ∷ ps) le (a, h) = (omega arith, AllIssued-more n k ps le h)

pub not_issued : (n t : ℕ) (ps : List Parked) → n < t → AllIssued n ps → find_slot t ps ≡ none
unfolding find_slot
not_issued n t [] lt h = refl
not_issued n t (p ∷ ps) lt (a, h) = find_slot-none t p ps (omega arith) (not_issued n t ps lt h)

pub AllIssued-take_slot :
    (n : ℕ) (p : Parked) (qs slots : List Parked)
    → take_slot p qs ≡ some slots
    → p.tok ≤ n
    → AllIssued n qs
    → AllIssued n slots
AllIssued-take_slot n p [] slots e a h = absurd (cc (take_slot-none p slots e))
AllIssued-take_slot n p (q ∷ qs) slots e a (b, h) = elim (take_slot_lem p q qs slots e) [
  | inl (free, same) ↦ subst (AllIssued n) (sym same) (a, h)
  | inr (left, taken, same) ↦
      subst (AllIssued n) (sym same) (b, AllIssued-take_slot n p qs left taken a h)
]

still_unique :
    (t : ℕ) (ps qs : List Parked)
    → (t ≡ 0) ⊎ (find_slot t ps ≡ none)
    → (find_slot t ps ≡ none → find_slot t qs ≡ none)
    → (t ≡ 0) ⊎ (find_slot t qs ≡ none)
still_unique t ps qs (inl z) k = inl z
still_unique t ps qs (inr g) k = inr (k g)

zero_or : (t : ℕ) → (t ≡ 0) ⊎ (1 ≤ t)
zero_or t = ground arith

still_unpark :
    (t k : ℕ) (ps : List Parked)
    → (t ≡ 0) ⊎ (find_slot t ps ≡ none)
    → (t ≡ 0) ⊎ (find_slot t (unpark k ps) ≡ none)
still_unpark t k ps u = elim (zero_or t) [
  | inl z ↦ inl z
  | inr n ↦ still_unique t ps (unpark k ps) u (find_slot-unpark t k ps n)
]

pub Unique-take_slot :
    (n : ℕ) (p : Parked) (qs slots : List Parked)
    → take_slot p qs ≡ some slots
    → n < p.tok
    → AllIssued n qs
    → Unique qs
    → Unique slots
Unique-take_slot n p [] slots e a i h = absurd (cc (take_slot-none p slots e))
Unique-take_slot n p (q ∷ qs) slots e a (b, i) (u, h) = elim (take_slot_lem p q qs slots e) [
  | inl (free, same) ↦ subst Unique (sym same) (inr (not_issued n p.tok qs a i), h)
  | inr (left, taken, same) ↦
      (subst Unique (sym same) (
        still_unique q.tok qs left u (find_slot-take_slot q.tok p qs left taken (omega arith)),
        Unique-take_slot n p qs left taken a i h,
      ))
]

pub AllIssued-unpark : (n k : ℕ) (ps : List Parked) → AllIssued n ps → AllIssued n (unpark k ps)
unfolding unpark
AllIssued-unpark n k [] h = h
AllIssued-unpark n k (p ∷ ps) (a, h) =
    on_if (AllIssued n) (p.tok == k) (omega arith, h) (a, AllIssued-unpark n k ps h)

pub Unique-unpark : (k : ℕ) (ps : List Parked) → Unique ps → Unique (unpark k ps)
unfolding unpark
Unique-unpark k [] h = h
Unique-unpark k (p ∷ ps) (u, h) =
    on_if Unique (p.tok == k) (inl refl, h) (still_unpark p.tok k ps u, Unique-unpark k ps h)

-- A token that is answered is in no slot any more.
pub unpark-gone : (t : ℕ) (ps : List Parked) → 1 ≤ t → Unique ps → find_slot t (unpark t ps) ≡ none
unfolding unpark find_slot
unpark-gone t [] n h = refl
unpark-gone t (p ∷ ps) n (inl z, h) = ground (arith, z, n, unpark-gone t ps n h)
unpark-gone t (p ∷ ps) n (inr g, h) =
    on_test (λ x. find_slot t x ≡ none) (p.tok == t)
      (λ y.
        let e : p.tok ≡ t = ground (arith, y) in
        find_slot-none t (record p { tok = 0 }) ps (λ z. omega (arith, z))
          (subst (λ k. find_slot k ps ≡ none) e g))
      (λ y. find_slot-none t p (unpark t ps) (λ z. ground (arith, y, z)) (unpark-gone t ps n h))
