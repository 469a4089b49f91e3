-- ===== src/Conf/Template/Instance.antt =====
-- What `conf_instantiate` makes of a template.
use finit.Prelude.{
  ℕ, zero, suc, ◌+◌, ◌≤◌, ◌<◌, arith, ◌&&◌, ◌==◌, ◌≡◌, ◌≢◌, refl, ap, sym, subst, ◌∙◌, List, [],
  ◌∷◌, ◌++◌, length, length-append, take, drop, Option, none, some, Option-cases, Bool-cases, inl,
  inr, if◌then◌else◌,
}
use finit.Ink.Fields.{append_assoc}
use finit.Ink.Written.{append_nil}
use finit.Conf.Template.{
  before, find_percent, behind_i, advance, replaced, replace_all, conf_instantiate,
}

-- Every %i replaced, in one pass from the left.
pub instance_of : List ℕ → List ℕ → List ℕ
instance_of name [] = []
instance_of name (c ∷ []) = c ∷ []
instance_of name (c ∷ d ∷ s) =
    let behind = instance_of name s in
    let next = instance_of name (d ∷ s) in if c == 37 && d == 105 then name ++ behind else c ∷ next

abbrev pub NoPercent : List ℕ → Type 0
NoPercent [] = 0 ≤ 0
NoPercent (c ∷ s) = (c ≢ 37) × NoPercent s

NoPercent-append : (s t : List ℕ) → NoPercent s → NoPercent t → NoPercent (s ++ t)
NoPercent-append [] t h k = k
NoPercent-append (c ∷ s) t (h, hs) k = (h, NoPercent-append s t hs k)

instance_of_other :
    (name : List ℕ) (c : ℕ) (s : List ℕ)
    → c ≢ 37
    → instance_of name (c ∷ s) ≡ c ∷ instance_of name s
unfolding instance_of
instance_of_other name c [] h = refl
instance_of_other name c (d ∷ s) h = ground arith

instance_of-append :
    (name p s : List ℕ) → NoPercent p → instance_of name (p ++ s) ≡ p ++ instance_of name s
instance_of-append name [] s h = refl
instance_of-append name (c ∷ p) s (h, hs) =
    instance_of_other name c (p ++ s) h ∙ ap (λ x. c ∷ x) (instance_of-append name p s hs)

-- Moving on within bytes that are no percent signs.
instance_of_ahead :
    (name : List ℕ) (n : ℕ) (p s : List ℕ)
    → NoPercent p
    → n ≤ length p
    → take n (p ++ s) ++ instance_of name (drop n (p ++ s)) ≡ p ++ instance_of name s
instance_of_ahead name zero p s h l = instance_of-append name p s h
instance_of_ahead name (suc n) [] s h l = absurd (omega arith)
instance_of_ahead name (suc n) (c ∷ p) s (h, hs) l =
    ap (λ x. c ∷ x) (instance_of_ahead name n p s hs (omega arith))

instance_of_kept :
    (name more : List ℕ)
    → behind_i more ≡ none
    → instance_of name (37 ∷ more) ≡ 37 ∷ instance_of name more
unfolding instance_of
instance_of_kept name [] h = refl
instance_of_kept name (d ∷ s) h = ground arith

instance_of_replaced :
    (name more tail : List ℕ)
    → behind_i more ≡ some tail
    → instance_of name (37 ∷ more) ≡ name ++ instance_of name tail
unfolding instance_of
instance_of_replaced name [] tail h = cc
instance_of_replaced name (d ∷ s) tail h = ground arith

-- What the search finds.
Found : List ℕ → Option (List ℕ × List ℕ) → Type 0
Found rest none = NoPercent rest
Found rest (some (text, more)) = (rest ≡ text ++ 37 ∷ more) × NoPercent text

Found-before :
    (c : ℕ) (s : List ℕ) (o : Option (List ℕ × List ℕ))
    → c ≢ 37
    → Found s o
    → Found (c ∷ s) (before c o)
unfolding Found
Found-before c s none h k = (h, k)
Found-before c s (some (text, more)) h (e, k) = (ap (λ x. c ∷ x) e, (h, k))

find_percent-Found : (s : List ℕ) → Found s (find_percent s)
unfolding find_percent Found
find_percent-Found [] = omega arith
find_percent-Found (c ∷ s) = elim (Bool-cases (c == 37)) [
  | inl y ↦ rw y (ap (λ k. k ∷ s) (ground arith), omega arith)
  | inr n ↦ rw n (Found-before c s (find_percent s) (ground arith) (find_percent-Found s))
]

kept_ahead :
    (name text more : List ℕ)
    → NoPercent text
    → behind_i more ≡ none
    → take 1 (text ++ 37 ∷ more) ++ instance_of name (drop 1 (text ++ 37 ∷ more))
      ≡ instance_of name (text ++ 37 ∷ more)
kept_ahead name [] more h b = sym (instance_of_kept name more b)
kept_ahead name (c ∷ text) more h b =
    instance_of_ahead name 1 (c ∷ text) (37 ∷ more) h (omega arith)
    ∙ sym (instance_of-append name (c ∷ text) (37 ∷ more) h)

replaced_ahead :
    (name text more tail : List ℕ)
    → NoPercent name
    → NoPercent text
    → behind_i more ≡ some tail
    → take (length name) (text ++ (name ++ tail))
        ++ instance_of name (drop (length name) (text ++ (name ++ tail)))
      ≡ instance_of name (text ++ 37 ∷ more)
replaced_ahead name text more tail k h b =
    let n = length name in
    ap (λ x. take n x ++ instance_of name (drop n x)) (sym (append_assoc text name tail))
    ∙ (instance_of_ahead name n (text ++ name) tail (NoPercent-append text name h k)
          (omega (arith, length-append text name))
        ∙ (append_assoc text name (instance_of name tail)
            ∙ (ap (λ x. text ++ x) (sym (instance_of_replaced name more tail b))
                ∙ sym (instance_of-append name text (37 ∷ more) h))))

length-drop : (n : ℕ) (s : List ℕ) → n ≤ length s → length (drop n s) + n ≡ length s
length-drop zero s h = omega arith
length-drop (suc n) [] h = absurd (omega arith)
length-drop (suc n) (c ∷ s) h = omega (arith, length-drop n s (omega arith))

length-behind_i : (more tail : List ℕ) → behind_i more ≡ some tail → length more ≡ suc (length tail)
length-behind_i [] tail h = cc
length-behind_i (c ∷ s) tail h = ground (arith, h)

-- What one round of the loop keeps, and that it makes what is ahead shorter.
Round : List ℕ → List ℕ → List ℕ → List ℕ × List ℕ → Type 0
Round name done rest (done2, rest2) =
    (done2 ++ instance_of name rest2 ≡ done ++ instance_of name rest) × (length rest2 < length rest)

replaced-Round :
    (name done text more : List ℕ) (o : Option (List ℕ))
    → NoPercent name
    → NoPercent text
    → behind_i more ≡ o
    → Round name done (text ++ 37 ∷ more) (replaced name done text more o)
unfolding advance Round
replaced-Round name done text more none k h b = (
  append_assoc done (take 1 (text ++ 37 ∷ more)) _
      ∙ ap (λ x. done ++ x) (kept_ahead name text more h b),
  omega (arith, length-drop 1 (text ++ 37 ∷ more), length-append text (37 ∷ more)),
)
replaced-Round name done text more (some tail) k h b = (
  append_assoc done (take (length name) (text ++ (name ++ tail))) _
      ∙ ap (λ x. done ++ x) (replaced_ahead name text more tail k h b),
  omega (
    arith,
    length-drop (length name) (text ++ (name ++ tail)),
    length-append text (name ++ tail),
    length-append name tail,
    length-append text (37 ∷ more),
    length-behind_i more tail b,
  ),
)

no_percent : (name s : List ℕ) → NoPercent s → instance_of name s ≡ s
unfolding instance_of
no_percent name s h =
    ap (instance_of name) (sym (append_nil s)) ∙ (instance_of-append name s [] h ∙ append_nil s)

replace_all_lem :
    (f : ℕ) (name done rest : List ℕ)
    → NoPercent name
    → length rest < f
    → replace_all f name (done, rest) ≡ some (done ++ instance_of name rest)
unfolding replace_all Found Round
replace_all_lem zero name done rest k l = absurd (omega arith)
replace_all_lem (suc f) name done rest k l = elim (Option-cases (find_percent rest)) [
  | inl e ↦
      let h : NoPercent rest = subst (Found rest) e (find_percent-Found rest) in
      rw (replace_all, e) (ap (λ x. some (done ++ x)) (sym (no_percent name rest h)))
  | inr ((text, more), e) ↦
      let (same, h) : (rest ≡ text ++ 37 ∷ more) × NoPercent text =
        subst (Found rest) e (find_percent-Found rest) in
      let p = replaced name done text more (behind_i more) in
      let (keeps, shorter) : Round name done (text ++ 37 ∷ more) p =
        replaced-Round name done text more (behind_i more) k h refl in
      rw (replace_all, e)
        (replace_all_lem f name p.0 p.1 k (omega (arith, ap length same))
          ∙ ap some (keeps ∙ ap (λ x. done ++ instance_of name x) (sym same)))
]

abbrev pub instance_named : List ℕ → List ℕ → List ℕ
instance_named [] line = line
instance_named (c ∷ name) line = instance_of (c ∷ name) line

-- Where the name has no percent sign, conf_instantiate() ends, and its result is the text with every
-- %i replaced by the name, in one pass from the left; for an empty name it is the text.
pub conf_instantiate_lem :
    (line name : List ℕ)
    → NoPercent name
    → conf_instantiate line name ≡ some (instance_named name line)
unfolding conf_instantiate
conf_instantiate_lem line [] k = refl
conf_instantiate_lem line (c ∷ name) k =
    replace_all_lem (suc (length line)) (c ∷ name) [] line k (omega arith)
