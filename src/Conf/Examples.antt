-- ===== src/Conf/Examples.antt =====
-- Pieces of configuration, and the theorems at them.
use finit.Prelude.{
  ℕ, ◌≤◌, arith, Bool, true, false, not, ◌&&◌, ◌||◌, leb, ◌==◌, String, str_eq, ◌≡◌, ◌↔◌, refl,
  List, [], ◌∷◌, ◌++◌, codes, Option, none, some, if◌then◌else◌,
}
use finit.Ink.Match.{str_same}
use finit.Conf.Runlevels.{
  Bits, conf_parse_runlevels, runlevel_string, level_text, level_char, levels_from,
}
use finit.Conf.Runlevels.RoundTrip.{conf_parse_runlevels-runlevel_string}
use finit.Conf.Template.{conf_instantiate}
use finit.Conf.Template.Instance.{instance_named, conf_instantiate_lem}
use finit.Conf.Env.{getenv, conf_parse_env, conf_reset_env}
use finit.Conf.Env.Parse.{conf_parse_env_lem}
use finit.Conf.Env.Reset.{set_all, any_sets, conf_reset_env-set_all}
use finit.Conf.Changes.{
  Resolved, at_path, conf_changed, path_of, conf_is_template, behind_at, event_path,
}
use finit.Conf.Changes.Laws.{changes, NoTwins, conf_changed-changes}
use finit.Conf.Cmdline.{
  Settings, standard, parse_args, in_1_9, value, last_level, parse_args-cmdlevel,
}

low_levels : (j : ℕ) → j ≤ 10 → (leb 1 j && leb j 10) ≡ leb 1 j
low_levels j h = ground arith

-- Masks as tests of levels.
abbrev tests : Bits (ℕ → Bool)
tests = record {
  nothing = λ j. false;
  all_but_0 = λ j. leb 1 j && leb j 10;
  set_bit = λ m i j. (i == j) || m j;
  clr_bit = λ m i j. not (i == j) && m j;
  is_set = λ m j. m j;
  is_set-nothing = λ j. refl;
  is_set-all_but_0 = low_levels;
  is_set-set_bit = λ m i j h k. refl;
  is_set-clr_bit = λ m i j h k. refl;
}

abbrev levels_2_and_s : ℕ → Bool
levels_2_and_s j = (j == 2) || (j == 10)

printed : runlevel_string tests true 2 levels_2_and_s ≡ codes "[S--2-------]"
unfolding runlevel_string level_text level_char levels_from
printed = refl

conf_parse_runlevels-runlevel_string_example :
    (p : ℕ → Bool) × (conf_parse_runlevels tests
        (some (runlevel_string tests true 2 levels_2_and_s))
      ≡ some p)
    × ((j : ℕ) → j ≤ 10 → p j ≡ levels_2_and_s j)
conf_parse_runlevels-runlevel_string_example =
    conf_parse_runlevels-runlevel_string tests 2 levels_2_and_s

conf_instantiate_lem_example :
    conf_instantiate (codes "getty -L %i 100%") (codes "ttyS0")
    ≡ some (instance_named (codes "ttyS0") (codes "getty -L %i 100%"))
conf_instantiate_lem_example =
    conf_instantiate_lem (codes "getty -L %i 100%") (codes "ttyS0") (omega arith)

same_iff : (a b : List ℕ) → (str_same a b ≡ true) ↔ (a ≡ b)
same_iff [] [] = ((λ h. refl), (λ h. refl))
same_iff [] (d ∷ t) = ((λ h. cc), (λ h. cc))
same_iff (c ∷ s) [] = ((λ h. cc), (λ h. cc))
same_iff (c ∷ s) (d ∷ t) = ground (arith, same_iff s t)

-- No links, and one directory.
abbrev as_it_is : List ℕ → Resolved
as_it_is path = at_path path

abbrev in_finit_d : List ℕ → List ℕ → List ℕ
in_finit_d dir name = dir ++ 47 ∷ name

abbrev events : List (List ℕ × List ℕ)
events =
    (codes "/etc", codes "a.conf")
    ∷ (codes "/etc", codes "a.conf")
    ∷ (codes "/etc", codes "b.conf")
    ∷ []

conf_changed-changes_example :
    (conf_changed
        (λ p. p)
        in_finit_d
        str_same
        as_it_is
        (some (codes "/etc/a.conf"))
        (changes (λ p. p) in_finit_d str_same as_it_is events [])
      ≡ true)
    × NoTwins
        (λ p. p)
        in_finit_d
        str_same
        as_it_is
        (changes (λ p. p) in_finit_d str_same as_it_is events [])
unfolding path_of conf_is_template behind_at event_path
conf_changed-changes_example =
    conf_changed-changes (λ p. p) in_finit_d str_same as_it_is same_iff (codes "/etc/a.conf") events

abbrev defaults : Settings
defaults = record {
  boot_conds = [];
  finit_conf = "/etc/finit.conf";
  debug = false;
  fstab = "/etc/fstab";
  progress = standard;
  fsck_mode = none;
  fsck_repair = none;
  rescue = false;
  single = false;
  cmdlevel = 0;
}

-- strtonum() with the bounds 1 and 9, on texts of digits.
abbrev level_number : String → Option ℕ
level_number s = in_1_9 (value s)

-- The word behind the runlevel 3 takes it back.
parse_args-cmdlevel_example :
    (parse_args str_eq level_number false ("3" ∷ "splash" ∷ []) defaults).cmdlevel
    ≡ last_level str_eq level_number false ("3" ∷ "splash" ∷ []) 0
parse_args-cmdlevel_example =
    parse_args-cmdlevel str_eq level_number false (λ s h. refl) ("3" ∷ "splash" ∷ []) defaults

-- The variable settings becomes tings.
conf_parse_env_lem_example : conf_parse_env (codes "settings=on") ≡ some (codes "tings", codes "on")
conf_parse_env_lem_example =
    conf_parse_env_lem 115 (codes "ettings") (codes "on") refl refl refl refl

conf_reset_env-set_all_example :
    getenv
      (codes "TERM")
      (conf_reset_env (codes "/bin") (codes "/bin/sh") (
        set_all
          (codes "TERM=linux" ∷ [])
          (record { vars = (codes "TERM", codes "vt100") ∷ []; noted = [] }))).vars
    ≡ (if any_sets (codes "TERM") (codes "TERM=linux" ∷ [])
        then none
        else getenv (codes "TERM") ((codes "TERM", codes "vt100") ∷ []))
conf_reset_env-set_all_example =
    conf_reset_env-set_all (codes "TERM") (codes "/bin") (codes "/bin/sh") (codes "TERM=linux" ∷ [])
      ((codes "TERM", codes "vt100") ∷ []) refl
