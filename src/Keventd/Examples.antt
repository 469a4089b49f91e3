-- ===== src/Keventd/Examples.antt =====
-- A disk and some rules, and the theorems at them.
use finit.Prelude.{true, false, String, str_eq, ◌≡◌, refl, List, [], ◌∷◌, none, some, if◌then◌else◌}
use finit.Keventd.Keys.{
  match_eq, match_ne, assign, key_kernel, key_label, key_goto, key_tags, key_symlink, RuleKey,
  plain, split, pattern_match, pieces_of,
}
use finit.Keventd.Match.{Uevent, System, match_key, match_class, rule_matches}
use finit.Keventd.Apply.{rules_apply, apply_from, rules_apply_lem}
use finit.Keventd.Tags.{match_key_tags}

-- Nothing but names that are compared.
abbrev bare : System
bare = record {
  fnmatch = λ pat subject. str_eq pat subject;
  parents = λ devpath. [];
  read_attr = λ devpath attr. none;
  read_sysctl = λ attr. none;
  machine = "x86_64";
  in_container = false;
  test = λ path mode. false;
  run_program = λ cmd. (false, "");
}

abbrev disk : Uevent
disk = record {
  action = "add";
  devpath = some "/devices/virtual/block/sda";
  sysname = some "sda";
  devname = some "sda";
  subsystem = some "block";
  driver = none;
  env = λ key. none;
  result = none;
  tags = "seat" ∷ [];
}

abbrev kernel_is : String → RuleKey
kernel_is name = record {
  cls = key_kernel;
  op = match_eq;
  attr = none;
  value = name;
  pat_type = split;
}

abbrev goto_end : List RuleKey
goto_end =
    kernel_is "sda|sdb"
    ∷ record (kernel_is "end") { cls = key_goto; op = assign; pat_type = plain }
    ∷ []

abbrev label_end : List RuleKey
label_end = record (kernel_is "end") { cls = key_label; op = assign; pat_type = plain } ∷ []

abbrev symlink : List RuleKey
symlink = record (kernel_is "disk") { cls = key_symlink; op = assign; pat_type = plain } ∷ []

-- What executing a rule does here: it counts.
abbrev execute : List RuleKey → Uevent → Uevent
execute ks ev = record ev { tags = "rule" ∷ ev.tags }

-- The symlink is jumped over.
jumps :
    (rules_apply bare execute (goto_end ∷ symlink ∷ label_end ∷ []) disk).tags
    ≡ "rule" ∷ "rule" ∷ "seat" ∷ []
unfolding rules_apply apply_from rule_matches match_key match_class pattern_match pieces_of
jumps = refl

rules_apply_lem_example : rules_apply bare execute (goto_end ∷ symlink ∷ label_end ∷ []) disk ≡ (
    if (rule_matches bare goto_end disk).0
    then rules_apply bare execute
        (label_end ∷ [])
        (execute goto_end (rule_matches bare goto_end disk).1)
    else rules_apply bare execute (symlink ∷ label_end ∷ []) (rule_matches bare goto_end disk).1)
rules_apply_lem_example = rules_apply_lem bare execute goto_end (symlink ∷ label_end ∷ []) disk

match_key_tags_example :
    ((match_key bare (record (kernel_is "seat") { cls = key_tags; op = match_eq }) disk).0 ≡ false)
    × ((match_key bare (record (kernel_is "seat") { cls = key_tags; op = match_ne }) disk).0 ≡ true)
match_key_tags_example = match_key_tags bare (kernel_is "seat") disk
