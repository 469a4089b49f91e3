-- ===== src/Conf/Cmdline.antt =====
-- conf.c: the arguments that the kernel passes to init.
use Prim.Native.Char.{code}
use finit.Prelude.{
  ℕ, ◌+◌, ◌-◌, ◌*◌, Bool, Bool-cases, inl, inr, true, false, not, ◌&&◌, ◌||◌, leb, ◌==◌, String,
  str_eq, ◌≡◌, refl, ap, ◌∙◌, arith, List, [], ◌∷◌, ◌++◌, Option, none, some, if◌then◌else◌,
}

-- `fsck_mode` and `show_progress`
pub data Style : Type 0 where
  standard silent classic modern : Style

-- The variables that arguments set, with the conditions that are handed to `cond_boot_parse`.
pub record Settings : Type 0 where
  pub boot_conds : List String
  pub finit_conf : String
  pub debug : Bool
  pub fstab : String
  pub progress : Style
  pub fsck_mode : Option String
  pub fsck_repair : Option String
  pub rescue : Bool
  pub single : Bool
  pub cmdlevel : ℕ

-- What follows a prefix (`strncmp`), and a text before and behind its first equals sign.
unfoldable pub strip_text : String → String → Option String
strip_text String.[] s = some s
strip_text (String.◌∷◌ p ps) String.[] = none
strip_text (String.◌∷◌ p ps) (String.◌∷◌ c s) =
    let rest = strip_text ps s in if code p == code c then rest else none

unfoldable pub split_equals : String → String × Option String
split_equals String.[] = ("", none)
split_equals (String.◌∷◌ c s) =
    let rest = split_equals s in
    if code c == 61 then ("", some s) else (String.◌∷◌ c rest.0, rest.1)

-- Only digits
unfoldable pub all_digits : String → Bool
all_digits String.[] = true
all_digits (String.◌∷◌ c s) = (leb 48 (code c) && leb (code c) 57) && all_digits s

-- The decimal value of a text of digits, and what strtonum() gives for it with the bounds 1 and 9.
abbrev value_from : ℕ → String → ℕ
value_from n String.[] = n
value_from n (String.◌∷◌ c s) = value_from (10 * n + (code c - 48)) s

abbrev pub value : String → ℕ
value s = value_from 0 s

abbrev pub in_1_9 : ℕ → Option ℕ
in_1_9 v = if leb 1 v && leb v 9 then some v else none

-- The runlevel that a word names: 1 to 9 in decimal digits, but not 6; else zero.
abbrev pub level_said : String → ℕ
level_said arg =
    if all_digits arg && leb 1 (value arg) && leb (value arg) 9 && not (value arg == 6)
    then value arg
    else 0

-- `string_compare` of libite, `strtonum` with the bounds 1 and 9, and whether RESCUE_MODE is set.
module _ (string_compare : String → String → Bool) (strtonum : String → Option ℕ)
    (rescue_mode : Bool) where
  -- `istrue`
  unfoldable pub istrue : Option String → Bool → Bool
  istrue none defval = defval
  istrue (some arg) defval =
      if string_compare arg "true" || string_compare arg "on" || string_compare arg "1"
      then true
      else if string_compare arg "false" || string_compare arg "off" || string_compare arg "0"
      then false
      else defval

  -- A setting that needs an argument (`validate_arg`).
  abbrev with_arg : Option String → (String → Settings) → Settings → Settings
  with_arg none set c = c
  with_arg (some arg) set c = set arg

  unfoldable pub parse_finit_opts : String × Option String → Settings → Settings
  parse_finit_opts (opt, arg) c =
      if string_compare opt "cond"
      then with_arg arg (λ a. record c { boot_conds = c.boot_conds ++ a ∷ [] }) c
      else if string_compare opt "config"
      then with_arg arg (λ a. record c { finit_conf = a }) c
      else if string_compare opt "debug"
      then record c { debug = istrue arg true }
      else if string_compare opt "fstab"
      then with_arg arg (λ a. record c { fstab = a }) c
      else if string_compare opt "status_style"
      then with_arg arg
          (λ a. record c {
            progress =
                if string_compare a "old" || string_compare a "classic" then classic else modern;
          })
          c
      else if string_compare opt "status" || string_compare opt "show_status"
      then record c { progress = if istrue arg true then standard else silent }
      else c

  -- A value that is not known leaves the setting as it is.
  unfoldable pub mode_of : String → Option String → Option String
  mode_of arg old =
      if str_eq arg "skip"
      then none
      else if str_eq arg "auto"
      then some ""
      else if str_eq arg "force"
      then some "-f"
      else old

  unfoldable pub repair_of : String → Option String → Option String
  repair_of arg old =
      if str_eq arg "no"
      then some "-n"
      else if str_eq arg "preen"
      then some "-p"
      else if str_eq arg "yes"
      then some "-y"
      else old

  unfoldable pub parse_fsck_opts : String × Option String → Settings → Settings
  parse_fsck_opts (opt, arg) c =
      if string_compare opt "mode"
      then with_arg arg (λ a. record c { fsck_mode = mode_of a c.fsck_mode }) c
      else if string_compare opt "repair"
      then with_arg arg (λ a. record c { fsck_repair = repair_of a c.fsck_repair }) c
      else c

  unfoldable pub valid_level : Option ℕ → ℕ
  valid_level none = 0
  valid_level (some num) = if num == 6 then 0 else num

  unfoldable pub parse_runlevel : String → ℕ
  parse_runlevel arg = if all_digits arg then valid_level (strtonum arg) else 0

  abbrev parse_word : String → Settings → Settings
  parse_word arg c =
      if rescue_mode && (string_compare arg "rescue" || string_compare arg "recover")
      then record c { rescue = true }
      else if string_compare arg "single" || string_compare arg "S"
      then record c { single = true }
      else record c { cmdlevel = parse_runlevel arg }

  -- What follows finit. and fsck., if the argument starts with that.
  abbrev by_prefix : Option String → Option String → String → Settings → Settings
  by_prefix (some opt) fsck arg c = parse_finit_opts (split_equals opt) c
  by_prefix none (some opt) arg c = parse_fsck_opts (split_equals opt) c
  by_prefix none none arg c = parse_word arg c

  unfoldable pub parse_arg : String → Settings → Settings
  parse_arg arg c = by_prefix (strip_text "finit." arg) (strip_text "fsck." arg) arg c

  -- The loop of `conf_parse_cmdline`
  unfoldable pub parse_args : List String → Settings → Settings
  parse_args [] c = c
  parse_args (arg ∷ args) c = parse_args args (parse_arg arg c)

  -- An argument that sets something else than the runlevel.
  abbrev has_prefix : Option String → Option String → Bool → Bool
  has_prefix (some opt) fsck word = true
  has_prefix none (some opt) word = true
  has_prefix none none word = word

  abbrev pub is_option : String → Bool
  is_option arg = has_prefix (strip_text "finit." arg) (strip_text "fsck." arg) (
      (rescue_mode && (string_compare arg "rescue" || string_compare arg "recover"))
      || string_compare arg "single"
      || string_compare arg "S")

  -- What the last argument that is no option says, a runlevel or not.
  abbrev pub last_level : List String → ℕ → ℕ
  last_level [] level = level
  last_level (arg ∷ args) level = last_level args (if is_option arg then level else level_said arg)

  parse_finit_opts-cmdlevel :
      (o : String × Option String) (c : Settings) → (parse_finit_opts o c).cmdlevel ≡ c.cmdlevel
  unfolding parse_finit_opts
  parse_finit_opts-cmdlevel (opt, none) c = ground arith
  parse_finit_opts-cmdlevel (opt, some arg) c = ground arith

  parse_fsck_opts-cmdlevel :
      (o : String × Option String) (c : Settings) → (parse_fsck_opts o c).cmdlevel ≡ c.cmdlevel
  unfolding parse_fsck_opts
  parse_fsck_opts-cmdlevel (opt, none) c = ground arith
  parse_fsck_opts-cmdlevel (opt, some arg) c = ground arith

  parse_word-cmdlevel :
      (arg : String) (c : Settings)
      → (parse_word arg c).cmdlevel ≡ (
          if (rescue_mode && (string_compare arg "rescue" || string_compare arg "recover"))
            || string_compare arg "single"
            || string_compare arg "S"
          then c.cmdlevel
          else parse_runlevel arg)
  parse_word-cmdlevel arg c = ground arith

  by_prefix-cmdlevel :
      (finit fsck : Option String) (arg : String) (c : Settings)
      → (by_prefix finit fsck arg c).cmdlevel ≡ (
          if has_prefix finit fsck (
            (rescue_mode && (string_compare arg "rescue" || string_compare arg "recover"))
            || string_compare arg "single"
            || string_compare arg "S")
          then c.cmdlevel
          else parse_runlevel arg)
  by_prefix-cmdlevel (some opt) fsck arg c = parse_finit_opts-cmdlevel (split_equals opt) c
  by_prefix-cmdlevel none (some opt) arg c = parse_fsck_opts-cmdlevel (split_equals opt) c
  by_prefix-cmdlevel none none arg c = parse_word-cmdlevel arg c

  parse_arg-cmdlevel :
      (arg : String) (c : Settings)
      → (parse_arg arg c).cmdlevel ≡ (if is_option arg then c.cmdlevel else parse_runlevel arg)
  unfolding parse_arg
  parse_arg-cmdlevel arg c =
      by_prefix-cmdlevel (strip_text "finit." arg) (strip_text "fsck." arg) arg c

  level_or_old :
      (arg : String) (c : Settings)
      → parse_runlevel arg ≡ level_said arg
      → (if is_option arg then c.cmdlevel else parse_runlevel arg)
        ≡ (if is_option arg then c.cmdlevel else level_said arg)
  level_or_old arg c e = rw e refl

  level_read :
      (arg : String)
      → (all_digits arg ≡ true → strtonum arg ≡ in_1_9 (value arg))
      → parse_runlevel arg ≡ level_said arg
  unfolding parse_runlevel valid_level
  level_read arg h = elim (Bool-cases (all_digits arg)) [
    | inl y ↦ rw y (rw (h y) (ground arith))
    | inr n ↦ rw n refl
  ]

  -- The runlevel of the command line is what its last argument that is no option says: its value, if
  -- it is 1 to 9 in decimal digits but not 6, and zero, which is none, for any other word, also where
  -- an argument before it is a runlevel. On a text of digits strtonum() gives their value within its
  -- bounds, 1 and 9, and an error outside them.
  pub parse_args-cmdlevel :
      ((arg : String) → all_digits arg ≡ true → strtonum arg ≡ in_1_9 (value arg))
      → (args : List String) (c : Settings)
      → (parse_args args c).cmdlevel ≡ last_level args c.cmdlevel
  unfolding parse_args
  parse_args-cmdlevel h [] c = refl
  parse_args-cmdlevel h (arg ∷ args) c =
      parse_args-cmdlevel h args (parse_arg arg c)
      ∙ ap (last_level args)
          (parse_arg-cmdlevel arg c ∙ level_or_old arg c (level_read arg (h arg)))
