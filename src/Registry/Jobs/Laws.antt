-- ===== src/Registry/Jobs/Laws.antt =====
-- The loop of `svc_parse_jobstr`: when it ends, and what it has done by then.
use finit.Prelude.{
  ℕ, zero, suc, ◌<◌, Bool, true, false, ◌&&◌, ◌||◌, String, ℤ, pos, ◌≡◌, refl, arith, List, [], ◌∷◌,
  length, Option, none, some, Bool-cases, inl, inr,
}
use finit.Registry.Entries.{Entry}
use finit.Registry.Jobs.{
  starts_number, tokstr, Called, Turn, next, again, with_job, parse_token, parse_tokens,
  svc_parse_jobstr,
}

module _ {S : Type 0} (strtol : String → Option ℕ) (regexec : String → Bool)
    (found : Option (Option Entry → S → ℤ × S))
    (not_found : Option (Option String → Option String → S → ℤ × S)) (es : List Entry) where
  -- A job number that strtol() refuses.
  abbrev pub is_bad : String → Bool
  is_bad t = regexec t && (starts_number t && elim (strtol t) [ some n ↦ false | none ↦ true ])

  abbrev pub any_bad : List String → Bool
  any_bad [] = false
  any_bad (t ∷ ts) = is_bad t || any_bad ts

  abbrev taken_to : Turn S → Called S
  taken_to (next d) = d
  taken_to (again d) = d

  -- Every token once, in order.
  abbrev pub each_once : List String → Called S → Called S
  each_once [] c = c
  each_once (t ∷ ts) c = each_once ts (taken_to (parse_token strtol regexec found not_found es t c))

  parse_token_fine :
      (t : String) (c : Called S)
      → is_bad t ≡ false
      → parse_token strtol regexec found not_found es t c
        ≡ next (taken_to (parse_token strtol regexec found not_found es t c))
  unfolding parse_token with_job
  parse_token_fine t c h = ground (arith, h)

  parse_token_bad :
      (t : String) (c : Called S)
      → is_bad t ≡ true
      → parse_token strtol regexec found not_found es t c
        ≡ again (taken_to (parse_token strtol regexec found not_found es t c))
  unfolding parse_token with_job
  parse_token_bad t c h = ground (arith, h)

  parse_tokens_fine :
      (fuel : ℕ) (ts : List String) (c : Called S)
      → any_bad ts ≡ false
      → length ts < fuel
      → parse_tokens strtol regexec found not_found es fuel ts c ≡ some (each_once ts c)
  unfolding parse_tokens
  parse_tokens_fine zero ts c h l = ground arith
  parse_tokens_fine (suc n) [] c h l = refl
  parse_tokens_fine (suc n) (t ∷ ts) c h l =
      rw (parse_tokens, parse_token_fine t c (ground arith))
        (parse_tokens_fine n ts (taken_to (parse_token strtol regexec found not_found es t c))
          (ground arith) (omega arith))

  parse_tokens_bad :
      (fuel : ℕ) (ts : List String) (c : Called S)
      → any_bad ts ≡ true
      → parse_tokens strtol regexec found not_found es fuel ts c ≡ none
  unfolding parse_tokens
  parse_tokens_bad zero ts c h = refl
  parse_tokens_bad (suc n) [] c h = cc
  parse_tokens_bad (suc n) (t ∷ ts) c h =
      let d = taken_to (parse_token strtol regexec found not_found es t c) in
      elim (Bool-cases (is_bad t)) [
        | inl bad ↦ rw (parse_tokens, parse_token_bad t c bad) (parse_tokens_bad n (t ∷ ts) d h)
        | inr fine ↦
            rw (parse_tokens, parse_token_fine t c fine) (parse_tokens_bad n ts d (ground arith))
      ]

  -- A buffer that is broken up into tokens none of which is a job number that strtol() refuses is
  -- worked off, with more fuel than it has tokens: each token once, in order.
  pub svc_parse_jobstr_each :
      (fuel : ℕ) (str : String) (s : S)
      → any_bad (tokstr str) ≡ false
      → length (tokstr str) < fuel
      → svc_parse_jobstr strtol regexec found not_found es fuel str s
        ≡ some (each_once (tokstr str) (record { result = pos 0; data_ = s }))
  unfolding svc_parse_jobstr
  svc_parse_jobstr_each fuel str s h l =
      parse_tokens_fine fuel (tokstr str) (record { result = pos 0; data_ = s }) h l

  -- Where a token is a job number that strtol() refuses, the loop does not end, with any fuel.
  pub svc_parse_jobstr_hangs :
      (str : String)
      → any_bad (tokstr str) ≡ true
      → (fuel : ℕ) (s : S) → svc_parse_jobstr strtol regexec found not_found es fuel str s ≡ none
  unfolding svc_parse_jobstr
  svc_parse_jobstr_hangs str h fuel s =
      parse_tokens_bad fuel (tokstr str) (record { result = pos 0; data_ = s }) h
