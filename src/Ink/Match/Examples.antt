-- ===== src/Ink/Match/Examples.antt =====
-- Rules of a peer, and the theorems at them.
use finit.Prelude.{true, false, ◌≡◌, refl, arith, [], codes, none, some}
use finit.Ink.Match.{Rule, match_parse, match_matches}
use finit.Ink.Match.Parse.{print_rule, match_parse_print}

abbrev changed : Rule
changed = record {
  raw = [];
  type = some (codes "signal");
  interface = none;
  member = some (codes "Changed");
  path = none;
}

match_parse_print_example :
    match_parse (print_rule changed) ≡ some (record changed { raw = print_rule changed })
match_parse_print_example =
    match_parse_print changed (omega arith) (omega arith) (omega arith) (omega arith) (omega arith)

selects : match_matches changed none none (some (codes "Changed")) ≡ true
unfolding match_matches
selects = refl

passes_by : match_matches changed none none (some (codes "Removed")) ≡ false
unfolding match_matches
passes_by = refl
