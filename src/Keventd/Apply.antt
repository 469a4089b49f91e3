-- ===== src/Keventd/Apply.antt =====
-- keventd/rules.c: all rules, in order, on one event.
use finit.Prelude.{
  Bool, true, false, not, String, str_eq, ◌≡◌, refl, List, [], ◌∷◌, Option, none, some, Bool-cases,
  inl, inr, if◌then◌else◌,
}
use finit.Keventd.Keys.{Operator, assign, Class, key_label, key_goto, RuleKey}
use finit.Keventd.Match.{Uevent, System, rule_matches}

abbrev is_label : Class → Operator → Bool
is_label key_label assign = true
is_label _ _ = false

abbrev is_goto : Class → Operator → Bool
is_goto key_goto assign = true
is_goto _ _ = false

-- The last label of a rule, and its first goto.
abbrev pub last_label : List RuleKey → Option String → Option String
last_label [] lbl = lbl
last_label (k ∷ ks) lbl = last_label ks (if is_label k.cls k.op then some k.value else lbl)

abbrev pub first_goto : List RuleKey → Option String
first_goto [] = none
first_goto (k ∷ ks) = let rest = first_goto ks in if is_goto k.cls k.op then some k.value else rest

-- The rule has the label.
abbrev same_label : Option String → String → Bool
same_label none label = false
same_label (some lbl) label = str_eq lbl label

abbrev pub is_target : String → List RuleKey → Bool
is_target label ks = same_label (last_label ks none) label

-- With what `exec_rule` does to an event.
module _ (sys : System) (exec_rule : List RuleKey → Uevent → Uevent) where
  -- The loop of `rules_apply`, with `goto_label`.
  abbrev pub is_skipped : Option String → List RuleKey → Bool
  is_skipped none ks = false
  is_skipped (some label) ks = not (is_target label ks)

  unfoldable pub apply_from : Option String → List (List RuleKey) → Uevent → Uevent
  apply_from goto_label [] ev = ev
  apply_from goto_label (ks ∷ rules) ev =
      let passed = apply_from goto_label rules ev in
      let (ok, ev1) = rule_matches sys ks ev in
      let unmatched = apply_from none rules ev1 in
      let executed = apply_from (first_goto ks) rules (exec_rule ks ev1) in
      if is_skipped goto_label ks then passed else if ok then executed else unmatched

  unfoldable pub rules_apply : List (List RuleKey) → Uevent → Uevent
  rules_apply rules ev = apply_from none rules ev

  -- The rules from the first one with the label on.
  abbrev pub rules_from : String → List (List RuleKey) → List (List RuleKey)
  rules_from label [] = []
  rules_from label (ks ∷ rules) =
      let rest = rules_from label rules in if is_target label ks then ks ∷ rules else rest

  abbrev goto : Option String → List (List RuleKey) → List (List RuleKey)
  goto none rules = rules
  goto (some label) rules = rules_from label rules

  apply_from-rules_from :
      (label : String) (rules : List (List RuleKey)) (ev : Uevent)
      → apply_from (some label) rules ev ≡ apply_from none (rules_from label rules) ev
  unfolding apply_from
  apply_from-rules_from label [] ev = refl
  apply_from-rules_from label (ks ∷ rules) ev = elim (Bool-cases (is_target label ks)) [
    | inl y ↦ rw y refl
    | inr n ↦ rw n (apply_from-rules_from label rules ev)
  ]

  apply_from-goto :
      (o : Option String) (rules : List (List RuleKey)) (ev : Uevent)
      → apply_from o rules ev ≡ apply_from none (goto o rules) ev
  apply_from-goto none rules ev = refl
  apply_from-goto (some label) rules ev = apply_from-rules_from label rules ev

  -- The first rule, then the rest: where it matches, it is executed, and the rules behind it are
  -- applied from its goto's label on, which is nowhere if no later rule has that label; where it does
  -- not match, the next rule is tried, with what matching has done to the event.
  pub rules_apply_lem :
      (ks : List RuleKey) (rules : List (List RuleKey)) (ev : Uevent)
      → rules_apply (ks ∷ rules) ev ≡ (
          if (rule_matches sys ks ev).0
          then rules_apply (goto (first_goto ks) rules) (exec_rule ks (rule_matches sys ks ev).1)
          else rules_apply rules (rule_matches sys ks ev).1)
  unfolding rules_apply apply_from
  rules_apply_lem ks rules ev = elim (Bool-cases (rule_matches sys ks ev).0) [
    | inl y ↦ rw y (apply_from-goto (first_goto ks) rules (exec_rule ks (rule_matches sys ks ev).1))
    | inr n ↦ rw n refl
  ]
