-- ===== src/Keventd/Match.antt =====
-- keventd/rules.c: does a key of a rule match an event?
use finit.Prelude.{
  Bool, true, false, not, ◌&&◌, ◌||◌, String, str_eq, List, [], ◌∷◌, Option, none, some,
  if◌then◌else◌,
}
use finit.Keventd.Keys.{
  Operator, match_eq, match_ne, Class, key_action, key_devpath, key_kernel, key_name, key_subsystem,
  key_driver, key_attr, key_sysctl, key_env, key_const, key_tag, key_test, key_program, key_result,
  key_kernels, key_subsystems, key_drivers, key_attrs, key_tags, RuleKey, pattern_match,
}

-- A level of the device tree above an event: sysfs_read_subsystem(), sysfs_read_driver() and the
-- attributes' first lines.
pub record Parent : Type 0 where
  pub parent_name : String
  pub parent_subsystem : Option String
  pub parent_driver : Option String
  pub parent_attr : String → Option String

-- `struct uevent`, as far as matching uses it, with its name from the path and its variables.
pub record Uevent : Type 0 where
  pub action : String
  pub devpath : Option String
  pub sysname : Option String
  pub devname : Option String
  pub subsystem : Option String
  pub driver : Option String
  pub env : String → Option String
  pub result : Option String
  pub tags : List String

-- What files and programs answer: the value of a key is substituted before it names one.
pub record System : Type 0 where
  pub fnmatch : String → String → Bool
  pub parents : String → List Parent
  pub read_attr : String → String → Option String
  pub read_sysctl : String → Option String
  pub machine : String
  pub in_container : Bool
  pub test : String → Option String → Bool
  pub run_program : String → Bool × String

-- `(k->op == OP_MATCH_EQ) ? matched : !matched`, and the answer without a subject
abbrev pub answer : Operator → Bool → Bool
answer match_eq matched = matched
answer _ matched = not matched

abbrev pub missing : Operator → Bool
missing match_ne = true
missing _ = false

module _ (sys : System) where
  abbrev with_subject : RuleKey → Option String → Bool
  with_subject k none = missing k.op
  with_subject k (some subject) = answer k.op (pattern_match sys.fnmatch k.value subject k.pat_type)

  -- `parent_cb`: what is compared at one level, if anything.
  abbrev pub parent_subject : RuleKey → Parent → Class → Option String
  parent_subject k p key_kernels = some p.parent_name
  parent_subject k p key_subsystems = p.parent_subsystem
  parent_subject k p key_drivers = p.parent_driver
  parent_subject k p key_attrs = p.parent_attr (elim k.attr [ some a ↦ a | none ↦ "" ])
  parent_subject k p _ = none

  abbrev matches_at : RuleKey → Option String → Bool
  matches_at k none = false
  matches_at k (some subject) = pattern_match sys.fnmatch k.value subject k.pat_type

  -- The walk ends at the first level that matches.
  unfoldable pub any_parent : RuleKey → List Parent → Bool
  any_parent k [] = false
  any_parent k (p ∷ ps) = matches_at k (parent_subject k p k.cls) || any_parent k ps

  -- `match_parent_chain`
  abbrev pub parent_chain : RuleKey → Option String → Bool
  parent_chain k none = missing k.op
  parent_chain k (some devpath) = answer k.op (any_parent k (sys.parents devpath))

  unfoldable pub match_parent_chain : RuleKey → Uevent → Bool
  match_parent_chain k ev = parent_chain k ev.devpath

  unfoldable pub any_tag : RuleKey → List String → Bool
  any_tag k [] = false
  any_tag k (tag ∷ tags) = pattern_match sys.fnmatch k.value tag k.pat_type || any_tag k tags

  abbrev attr_subject : Option String → Option String → Option String
  attr_subject (some attr) (some devpath) = sys.read_attr devpath attr
  attr_subject _ _ = none

  abbrev const_subject : Option String → String
  const_subject none = ""
  const_subject (some attr) =
      if str_eq attr "arch"
      then sys.machine
      else if str_eq attr "virt" && sys.in_container
      then "container"
      else ""

  abbrev and_then : Option String → (String → Option String) → Option String
  and_then none f = none
  and_then (some a) f = f a

  -- `match_key`, by the class of the key; PROGRAM keeps the output for RESULT.
  unfoldable pub match_class : Class → RuleKey → Uevent → Bool × Uevent
  match_class key_kernels k ev = (match_parent_chain k ev, ev)
  match_class key_subsystems k ev = (match_parent_chain k ev, ev)
  match_class key_drivers k ev = (match_parent_chain k ev, ev)
  match_class key_attrs k ev = (match_parent_chain k ev, ev)
  match_class key_tags k ev = (match_parent_chain k ev, ev)
  match_class key_program k ev =
      let (ok, out) = sys.run_program k.value in (answer k.op ok, record ev { result = some out })
  match_class key_test k ev = (answer k.op (sys.test k.value k.attr), ev)
  match_class key_action k ev = (with_subject k (some ev.action), ev)
  match_class key_devpath k ev = (with_subject k ev.devpath, ev)
  match_class key_kernel k ev = (with_subject k ev.sysname, ev)
  match_class key_name k ev = (with_subject k ev.devname, ev)
  match_class key_subsystem k ev = (with_subject k ev.subsystem, ev)
  match_class key_driver k ev = (with_subject k ev.driver, ev)
  match_class key_attr k ev = (with_subject k (attr_subject k.attr ev.devpath), ev)
  match_class key_sysctl k ev = (with_subject k (and_then k.attr sys.read_sysctl), ev)
  match_class key_env k ev = (with_subject k (and_then k.attr ev.env), ev)
  match_class key_const k ev = (with_subject k (some (const_subject k.attr)), ev)
  match_class key_tag k ev = (answer k.op (any_tag k ev.tags), ev)
  match_class key_result k ev = (with_subject k ev.result, ev)
  match_class _ k ev = (true, ev)

  unfoldable pub match_key : RuleKey → Uevent → Bool × Uevent
  match_key k ev = match_class k.cls k ev

  abbrev is_match_op : Operator → Bool
  is_match_op match_eq = true
  is_match_op match_ne = true
  is_match_op _ = false

  -- `rule_matches`, which ends at the first key that does not match.
  unfoldable pub rule_matches : List RuleKey → Uevent → Bool × Uevent
  rule_matches [] ev = (true, ev)
  rule_matches (k ∷ ks) ev =
      let (ok, ev1) = match_key k ev in
      let later = rule_matches ks ev1 in
      let skipped = rule_matches ks ev in
      if not (is_match_op k.op) then skipped else if ok then later else (false, ev1)
