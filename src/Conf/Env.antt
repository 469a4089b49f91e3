-- ===== src/Conf/Env.antt =====
-- conf.c: environment variables that .conf files set.
pub mod Parse
pub mod Reset
use finit.Prelude.{
  ℕ, suc, ◌+◌, Bool, true, false, not, ◌&&◌, ◌||◌, leb, ◌==◌, List, [], ◌∷◌, ◌++◌, codes, Option,
  none, some, if◌then◌else◌,
}
use finit.Ink.Match.{str_same}

-- `isspace` in the C locale
abbrev pub is_space : ℕ → Bool
is_space c = c == 32 || (leb 9 c && leb c 13)

unfoldable pub trim_left : List ℕ → List ℕ
trim_left [] = []
trim_left (c ∷ s) = if is_space c then trim_left s else c ∷ s

abbrev pub keep_char : ℕ → List ℕ → List ℕ
keep_char c [] = if is_space c then [] else c ∷ []
keep_char c (d ∷ s) = c ∷ d ∷ s

unfoldable pub trim_right : List ℕ → List ℕ
trim_right [] = []
trim_right (c ∷ s) = keep_char c (trim_right s)

-- `strchr(key, '=')`
abbrev pub cons_key : ℕ → Option (List ℕ × List ℕ) → Option (List ℕ × List ℕ)
cons_key c none = none
cons_key c (some (key, val)) = some (c ∷ key, val)

unfoldable pub split_at_equals : List ℕ → Option (List ℕ × List ℕ)
split_at_equals [] = none
split_at_equals (c ∷ s) =
    let rest = split_at_equals s in if c == 61 then some ([], s) else cons_key c rest

-- `unquote`, whose `end` is the last byte of the line, which is that of the value too.
abbrev pub drop_last : ℕ → List ℕ → Option (List ℕ)
drop_last q [] = none
drop_last q (c ∷ []) = if c == q then some [] else none
drop_last q (c ∷ d ∷ s) = elim (drop_last q (d ∷ s)) [ some t ↦ some (c ∷ t) | none ↦ none ]

abbrev quoted_by : ℕ → List ℕ → List ℕ
quoted_by q [] = []
quoted_by q (c ∷ s) = elim (drop_last q (c ∷ s)) [ some t ↦ t | none ↦ q ∷ c ∷ s ]

unfoldable pub unquote : List ℕ → List ℕ
unquote [] = []
unquote (c ∷ s) = if c == 34 || c == 39 then quoted_by c s else c ∷ s

-- A leading `set` and the blanks behind it are skipped.
abbrev pub skip_set : List ℕ → List ℕ
skip_set (a ∷ b ∷ c ∷ s) = if a == 115 && b == 101 && c == 116 then s else a ∷ b ∷ c ∷ s
skip_set s = s

abbrev pub any_space : List ℕ → Bool
any_space [] = false
any_space (c ∷ s) = is_space c || any_space s

abbrev pub valid_key : List ℕ → List ℕ → Option (List ℕ × List ℕ)
valid_key key val = if any_space key then none else some (key, val)

abbrev pub both_parts : Option (List ℕ × List ℕ) → Option (List ℕ × List ℕ)
both_parts none = none
both_parts (some (key, val)) =
    valid_key (trim_left (skip_set (trim_right key))) (unquote (trim_left val))

-- `conf_parse_env`: key and value.
unfoldable pub conf_parse_env : List ℕ → Option (List ℕ × List ℕ)
conf_parse_env line = both_parts (split_at_equals (trim_right (trim_left line)))

-- The environment, and `env_list`
pub record Environ : Type 0 where
  pub vars : List (List ℕ × List ℕ)
  pub noted : List (List ℕ)

-- `getenv`, `unsetenv` and `setenv` of the C library, which refuses an empty name.
unfoldable pub getenv : List ℕ → List (List ℕ × List ℕ) → Option (List ℕ)
getenv key [] = none
getenv key ((k, v) ∷ vars) = if str_same k key then some v else getenv key vars

unfoldable pub unsetenv : List ℕ → List (List ℕ × List ℕ) → List (List ℕ × List ℕ)
unsetenv key [] = []
unsetenv key ((k, v) ∷ vars) =
    let rest = unsetenv key vars in if str_same k key then rest else (k, v) ∷ rest

unfoldable pub setenv : List ℕ → List ℕ → List (List ℕ × List ℕ) → List (List ℕ × List ℕ)
setenv [] val vars = vars
setenv (c ∷ key) val vars = (c ∷ key, val) ∷ unsetenv (c ∷ key) vars

-- `conf_set_env`
abbrev pub noted_env : Option (List ℕ × List ℕ) → Environ → Environ
noted_env none e = e
noted_env (some (key, val)) e = record { vars = setenv key val e.vars; noted = key ∷ e.noted }

unfoldable pub conf_set_env : List ℕ → Environ → Environ
conf_set_env line e = noted_env (conf_parse_env line) e

-- `conf_reset_env`, with _PATH_STDPATH and _PATH_BSHELL
abbrev pub unset_all : List (List ℕ) → List (List ℕ × List ℕ) → List (List ℕ × List ℕ)
unset_all [] vars = vars
unset_all (key ∷ keys) vars = unset_all keys (unsetenv key vars)

abbrev pub set_missing : List ℕ → List ℕ → List (List ℕ × List ℕ) → List (List ℕ × List ℕ)
set_missing key val vars = elim (getenv key vars) [ some v ↦ vars | none ↦ setenv key val vars ]

unfoldable pub conf_reset_env : List ℕ → List ℕ → Environ → Environ
conf_reset_env stdpath bshell e =
    let vars =
      set_missing (codes "SHELL") bshell
        (set_missing (codes "PATH") stdpath (unset_all e.noted e.vars)) in
    record {
      vars = setenv (codes "USER") (codes "root") (setenv (codes "LOGNAME") (codes "root") vars);
      noted = [];
    }
