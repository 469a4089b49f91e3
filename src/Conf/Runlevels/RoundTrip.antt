-- ===== src/Conf/Runlevels/RoundTrip.antt =====
-- A set of runlevels that is printed is parsed back.
use finit.Prelude.{
  ℕ, zero, suc, ◌+◌, ◌≤◌, ◌<◌, arith, Bool, true, false, ◌&&◌, ◌||◌, leb, ltb, ◌==◌, ◌≡◌, refl, ap,
  subst, ◌∙◌, List, [], ◌∷◌, ◌++◌, Option, none, some, Bool-cases, inl, inr, if◌then◌else◌,
}
use finit.Conf.Runlevels.{
  Bits, level_of, mark_level, parse_levels, conf_parse_runlevels, level_char, level_text,
  levels_from, runlevel_string,
}

level_of_digit : (i : ℕ) → i < 10 → level_of (48 + i) ≡ some i
unfolding level_of
level_of_digit i h = ground arith

level_of_s : level_of 83 ≡ some 10
unfolding level_of
level_of_s = refl

level_of_dash : level_of 45 ≡ none
unfolding level_of
level_of_dash = refl

same_bit : (p : ℕ → Bool) (b : Bool) (i j : ℕ) → p i ≡ b → ((i == j) && p j) ≡ ((i == j) && b)
same_bit p b i j e = elim (Bool-cases (i == j)) [
  | inl y ↦ let same : i ≡ j = ground arith in rw y (subst (λ k. p k ≡ b) same e)
  | inr n ↦ rw n refl
]

either :
    (a b : Bool) (i j : ℕ)
    → ((i == j) && b) ≡ ((i == j) && true)
    → ((i == j) || a) ≡ (a || ((i == j) && b))
either a b i j e = ground (arith, e)

neither :
    (a b : Bool) (i j : ℕ) → ((i == j) && b) ≡ ((i == j) && false) → a ≡ (a || ((i == j) && b))
neither a b i j e = ground (arith, e)

at_end : (a b : Bool) (i j : ℕ) → a ≡ (a || (leb i j && ltb j (i + 0) && b))
at_end a b i j = ground arith

one_more :
    (a b : Bool) (i j n : ℕ)
    → ((a || ((i == j) && b)) || (leb (suc i) j && ltb j (suc i + n) && b))
      ≡ (a || (leb i j && ltb j (i + suc n) && b))
one_more a b i j n = ground arith

whole :
    (z b : Bool) (j : ℕ)
    → j ≤ 10
    → z ≡ false
    → ((z || ((10 == j) && b)) || (leb 0 j && ltb j (0 + 10) && b)) ≡ b
whole z b j h e = ground (arith, h, e)

module _ {M : Type 0} (bits : Bits M) where
  level_text_plain :
      (currlevel : ℕ) (m : M) (i : ℕ)
      → level_text bits true currlevel m i ≡ level_char bits m i ∷ []
  unfolding level_text
  level_text_plain currlevel m i = ground arith

  parse_marked :
      (c : ℕ) (s : List ℕ) (a : M)
      → (c == 93 || c == 0 || c == 33) ≡ false
      → parse_levels bits (c ∷ s) false a
        ≡ parse_levels bits s false (mark_level bits false (level_of c) a)
  unfolding parse_levels
  parse_marked c s a h = ground arith

  parse_char :
      (c : ℕ) (o : Option ℕ) (p : M) (s : List ℕ) (a : M)
      → (c == 93 || c == 0 || c == 33) ≡ false
      → level_of c ≡ o
      → mark_level bits false o a ≡ p
      → parse_levels bits (c ∷ s) false a ≡ parse_levels bits s false p
  parse_char c o p s a h e q =
      parse_marked c s a h
      ∙ (ap (λ x. parse_levels bits s false (mark_level bits false x a)) e
          ∙ ap (parse_levels bits s false) q)

  with_level : M → ℕ → M → M
  with_level m i a = if bits.is_set m i then bits.set_bit a i else a

  -- A printed level is parsed.
  parse_level :
      (m a : M) (i : ℕ) (s : List ℕ)
      → i ≤ 10
      → parse_levels bits (level_char bits m i ∷ s) false a
        ≡ parse_levels bits s false (with_level m i a)
  unfolding level_char with_level
  parse_level m a i s h = elim (Bool-cases (bits.is_set m i)) [
    | inl y ↦ elim (Bool-cases (i == 10)) [
      | inl ten ↦
          rw (y, ten)
            (parse_char 83 (some 10) (bits.set_bit a i) s a refl level_of_s
              (ap (bits.set_bit a) (ground arith)))
      | inr low ↦
          rw (y, low)
            (parse_char (48 + i) (some i) (bits.set_bit a i) s a (ground arith)
              (level_of_digit i (ground arith)) refl)
    ]
    | inr n ↦ rw n (parse_char 45 none a s a refl level_of_dash refl)
  ]

  is_set-with_level :
      (m a : M) (i j : ℕ)
      → i ≤ 10
      → j ≤ 10
      → bits.is_set (with_level m i a) j ≡ (bits.is_set a j || ((i == j) && bits.is_set m j))
  unfolding with_level
  is_set-with_level m a i j h k = elim (Bool-cases (bits.is_set m i)) [
    | inl y ↦ rw y (
        rw (bits.is_set-set_bit a i j h k)
          (either (bits.is_set a j) (bits.is_set m j) i j (same_bit (bits.is_set m) true i j y)))
    | inr n ↦
        rw n
          (neither (bits.is_set a j) (bits.is_set m j) i j (same_bit (bits.is_set m) false i j n))
  ]

  parse_from :
      (currlevel : ℕ) (m a : M) (n i j : ℕ)
      → i + n ≤ 10
      → j ≤ 10
      → bits.is_set (parse_levels bits (levels_from bits true currlevel m n i ++ 93 ∷ []) false a) j
        ≡ (bits.is_set a j || (leb i j && ltb j (i + n) && bits.is_set m j))
  unfolding levels_from parse_levels
  parse_from currlevel m a zero i j h k = at_end (bits.is_set a j) (bits.is_set m j) i j
  parse_from currlevel m a (suc n) i j h k =
      let rest = levels_from bits true currlevel m n (suc i) ++ 93 ∷ [] in
      rw (level_text_plain currlevel m i) (
        ap (λ x. bits.is_set x j) (parse_level m a i rest (omega arith))
        ∙ (parse_from currlevel m (with_level m i a) n (suc i) j (omega arith) k
            ∙ (ap (λ x. x || (leb (suc i) j && ltb j (suc i + n) && bits.is_set m j))
                  (is_set-with_level m a i j (omega arith) k)
                ∙ one_more (bits.is_set a j) (bits.is_set m j) i j n)))

  conf_parse_runlevels_lem :
      (currlevel : ℕ) (m : M)
      → conf_parse_runlevels bits (some (runlevel_string bits true currlevel m))
        ≡ some (
            parse_levels bits
              (level_char bits m 10 ∷ (levels_from bits true currlevel m 10 0 ++ 93 ∷ []))
              false
              bits.nothing)
  unfolding conf_parse_runlevels runlevel_string
  conf_parse_runlevels_lem currlevel m = rw (level_text_plain currlevel m 10) refl

  -- The set of runlevels that a plain text stands for: `conf_parse_runlevels` makes of what
  -- `runlevel_string` prints a mask with the same bits 0 to 10, whatever the mask.
  pub conf_parse_runlevels-runlevel_string :
      (currlevel : ℕ) (m : M)
      → (p : M) × (conf_parse_runlevels bits (some (runlevel_string bits true currlevel m))
          ≡ some p)
        × ((j : ℕ) → j ≤ 10 → bits.is_set p j ≡ bits.is_set m j)
  conf_parse_runlevels-runlevel_string currlevel m = (
    _,
    conf_parse_runlevels_lem currlevel m,
    λ j k.
        let rest = levels_from bits true currlevel m 10 0 ++ 93 ∷ [] in
        ap (λ x. bits.is_set x j) (parse_level m bits.nothing 10 rest (omega arith))
        ∙ (parse_from currlevel m (with_level m 10 bits.nothing) 10 0 j (omega arith) k
            ∙ (ap (λ x. x || (leb 0 j && ltb j (0 + 10) && bits.is_set m j))
                  (is_set-with_level m bits.nothing 10 j (omega arith) k)
                ∙ whole (bits.is_set bits.nothing j) (bits.is_set m j) j k
                    (bits.is_set-nothing j))),
  )
