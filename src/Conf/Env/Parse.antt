-- ===== src/Conf/Env/Parse.antt =====
-- What `conf_parse_env` takes for the name of a variable.
use finit.Prelude.{
  ℕ, arith, Bool, true, false, not, ◌&&◌, ◌||◌, ◌==◌, ◌≡◌, refl, ap, ◌∙◌, List, [], ◌∷◌, ◌++◌, some,
}
use finit.Conf.Env.{
  is_space, trim_left, keep_char, trim_right, split_at_equals, unquote, skip_set, any_space,
  valid_key, both_parts, conf_parse_env,
}

-- A text without blanks, and one without equals signs.
abbrev pub no_equals : List ℕ → Bool
no_equals [] = true
no_equals (c ∷ s) = not (c == 61) && no_equals s

trim_left_same : (c : ℕ) (s : List ℕ) → is_space c ≡ false → trim_left (c ∷ s) ≡ c ∷ s
unfolding trim_left
trim_left_same c s h = ground arith

trim_right-append :
    (s : List ℕ) (c : ℕ) (t : List ℕ)
    → trim_right (c ∷ t) ≡ c ∷ t
    → trim_right (s ++ c ∷ t) ≡ s ++ c ∷ t
unfolding trim_right
trim_right-append [] c t h = h
trim_right-append (a ∷ []) c t h = ap (keep_char a) h
trim_right-append (a ∷ b ∷ s) c t h = ap (keep_char a) (trim_right-append (b ∷ s) c t h)

trim_right_words : (s : List ℕ) → any_space s ≡ false → trim_right s ≡ s
unfolding trim_right
trim_right_words [] h = refl
trim_right_words (c ∷ []) h = ground arith
trim_right_words (c ∷ d ∷ s) h = ap (keep_char c) (trim_right_words (d ∷ s) (ground arith))

split_key :
    (key val : List ℕ) → no_equals key ≡ true → split_at_equals (key ++ 61 ∷ val) ≡ some (key, val)
unfolding split_at_equals
split_key [] val h = refl
split_key (c ∷ key) val h = ground (arith, split_key key val)

any_space-skip_set : (s : List ℕ) → any_space s ≡ false → any_space (skip_set s) ≡ false
any_space-skip_set [] h = h
any_space-skip_set (a ∷ []) h = h
any_space-skip_set (a ∷ b ∷ []) h = h
any_space-skip_set (a ∷ b ∷ c ∷ s) h = ground (arith, h)

trim_left_words : (s : List ℕ) → any_space s ≡ false → trim_left s ≡ s
unfolding trim_left
trim_left_words [] h = refl
trim_left_words (c ∷ s) h = trim_left_same c s (ground (arith, h))

-- The value is not quoted.
abbrev pub no_quotes : List ℕ → Bool
no_quotes [] = true
no_quotes (c ∷ s) = not (c == 34 || c == 39)

unquote_same : (s : List ℕ) → no_quotes s ≡ true → unquote s ≡ s
unfolding unquote
unquote_same [] h = refl
unquote_same (c ∷ s) h = ground (arith, h)

valid_words : (key val : List ℕ) → any_space key ≡ false → valid_key key val ≡ some (key, val)
valid_words key val h = ground (arith, h)

both_words :
    (key val : List ℕ)
    → any_space key ≡ false
    → any_space val ≡ false
    → no_quotes val ≡ true
    → both_parts (some (key, val)) ≡ some (skip_set key, val)
both_words key val h k q =
    let set_key = any_space-skip_set key h in
    ap (λ x. valid_key (trim_left (skip_set x)) (unquote (trim_left val))) (trim_right_words key h)
    ∙ (ap (λ x. valid_key x (unquote (trim_left val))) (trim_left_words (skip_set key) set_key)
        ∙ (ap (λ x. valid_key (skip_set key) (unquote x)) (trim_left_words val k)
            ∙ (ap (valid_key (skip_set key)) (unquote_same val q)
                ∙ valid_words (skip_set key) val set_key)))

-- A line of a name, which is not empty, an equals sign and a value, none of them with a blank, the
-- name without an equals sign and the value without a quote at its start: the value is taken as it
-- is, and so is the name, but that a name which begins with `set` loses these letters.
pub conf_parse_env_lem :
    (c : ℕ) (key val : List ℕ)
    → any_space (c ∷ key) ≡ false
    → no_equals (c ∷ key) ≡ true
    → any_space val ≡ false
    → no_quotes val ≡ true
    → conf_parse_env ((c ∷ key) ++ 61 ∷ val) ≡ some (skip_set (c ∷ key), val)
unfolding conf_parse_env
conf_parse_env_lem c key val h e k q =
    ap (λ x. both_parts (split_at_equals (trim_right x)))
      (trim_left_same c (key ++ 61 ∷ val) (ground (arith, h)))
    ∙ (ap (λ x. both_parts (split_at_equals x))
          (trim_right-append (c ∷ key) 61 val (trim_right_words (61 ∷ val) k))
        ∙ (ap both_parts (split_key (c ∷ key) val e) ∙ both_words (c ∷ key) val h k q))
