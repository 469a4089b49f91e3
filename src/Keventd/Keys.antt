-- ===== src/Keventd/Keys.antt =====
-- keventd/rules.c, rules.h: the keys of rules, and patterns.
use Prim.Native.Char.{code}
use finit.Prelude.{
  ℕ, Bool, false, ◌||◌, ◌==◌, String, str_eq, List, [], ◌∷◌, Option, none, some, if◌then◌else◌,
}

-- `rule_op_t`
pub data Operator : Type 0 where
  match_eq match_ne assign assign_add assign_del assign_final : Operator

-- `rule_key_class_t`
pub data Class : Type 0 where
  key_action key_devpath key_kernel key_name key_subsystem key_driver : Class
  key_attr key_sysctl key_env key_const key_tag key_test key_program key_result : Class
  key_kernels key_subsystems key_drivers key_attrs key_tags : Class
  key_symlink key_owner key_group key_mode key_seclabel key_run : Class
  key_label key_goto key_import key_options : Class

-- `pat_type_t`
pub data Pattern : Type 0 where
  plain glob split : Pattern

-- `struct rule_key`, as far as matching uses it.
pub record RuleKey : Type 0 where
  pub cls : Class
  pub op : Operator
  pub attr : Option String
  pub value : String
  pub pat_type : Pattern

-- `lookup_key`
unfoldable pub lookup_key : String → Option Class
lookup_key name =
    if str_eq name "ACTION"
    then some key_action
    else if str_eq name "DEVPATH"
    then some key_devpath
    else if str_eq name "KERNEL"
    then some key_kernel
    else if str_eq name "KERNELS"
    then some key_kernels
    else if str_eq name "NAME"
    then some key_name
    else if str_eq name "SUBSYSTEM"
    then some key_subsystem
    else if str_eq name "SUBSYSTEMS"
    then some key_subsystems
    else if str_eq name "DRIVER"
    then some key_driver
    else if str_eq name "DRIVERS"
    then some key_drivers
    else if str_eq name "ATTR"
    then some key_attr
    else if str_eq name "ATTRS"
    then some key_attrs
    else if str_eq name "SYSCTL"
    then some key_sysctl
    else if str_eq name "ENV"
    then some key_env
    else if str_eq name "CONST"
    then some key_const
    else if str_eq name "TAG"
    then some key_tag
    else if str_eq name "TAGS"
    then some key_tags
    else if str_eq name "TEST"
    then some key_test
    else if str_eq name "PROGRAM"
    then some key_program
    else if str_eq name "RESULT"
    then some key_result
    else if str_eq name "SYMLINK"
    then some key_symlink
    else if str_eq name "OWNER"
    then some key_owner
    else if str_eq name "GROUP"
    then some key_group
    else if str_eq name "MODE"
    then some key_mode
    else if str_eq name "SECLABEL"
    then some key_seclabel
    else if str_eq name "RUN"
    then some key_run
    else if str_eq name "LABEL"
    then some key_label
    else if str_eq name "GOTO"
    then some key_goto
    else if str_eq name "IMPORT"
    then some key_import
    else if str_eq name "OPTIONS"
    then some key_options
    else none

-- One of some characters stands in a text (`strchr`, `strpbrk`).
unfoldable pub has_char : (ℕ → Bool) → String → Bool
has_char p String.[] = false
has_char p (String.◌∷◌ c s) = p (code c) || has_char p s

-- `detect_pat_type`
unfoldable pub detect_pat_type : String → Pattern
detect_pat_type val =
    if has_char (λ c. c == 124) val
    then split
    else if has_char (λ c. c == 42 || c == 63 || c == 91) val
    then glob
    else plain

-- The pieces between the bars (`strsep`); there is always one.
unfoldable pub pieces_of : String → String × List String
pieces_of String.[] = ("", [])
pieces_of (String.◌∷◌ c s) =
    let rest = pieces_of s in
    if code c == 124 then ("", rest.0 ∷ rest.1) else (String.◌∷◌ c rest.0, rest.1)

abbrev any_piece : (String → Bool) → List String → Bool
any_piece p [] = false
any_piece p (piece ∷ pieces) = p piece || any_piece p pieces

-- `pattern_match`, with fnmatch(); the pattern is shorter than the buffer of 1024 bytes.
unfoldable pub pattern_match : (String → String → Bool) → String → String → Pattern → Bool
pattern_match fnmatch pat subject plain = str_eq pat subject
pattern_match fnmatch pat subject split =
    let (piece, pieces) = pieces_of pat in any_piece (λ tok. fnmatch tok subject) (piece ∷ pieces)
pattern_match fnmatch pat subject glob = fnmatch pat subject
