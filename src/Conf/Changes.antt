-- ===== src/Conf/Changes.antt =====
-- conf.c: the .conf files that have changed since the last reload.
pub mod Laws
use finit.Prelude.{
  ℕ, Bool, true, false, not, ◌&&◌, ◌||◌, leb, ◌==◌, List, [], ◌∷◌, ◌++◌, ◌-◌, take, codes, Option,
  none, some, if◌then◌else◌,
}
use finit.Ink.Match.{str_same}

-- `strchr(s, '@')`: what follows the first at sign.
unfoldable pub behind_at : List ℕ → Option (List ℕ)
behind_at [] = none
behind_at (c ∷ s) = if c == 64 then some s else behind_at s

abbrev starts_with : List ℕ → List ℕ → Bool
starts_with [] s = true
starts_with (p ∷ ps) [] = false
starts_with (p ∷ ps) (c ∷ s) = (p == c) && starts_with ps s

-- `strstr(s, ".conf")`: what lies before the first .conf.
abbrev cons_some : ℕ → Option (List ℕ) → Option (List ℕ)
cons_some c none = none
cons_some c (some s) = some (c ∷ s)

unfoldable pub before_conf : List ℕ → Option (List ℕ)
before_conf [] = none
before_conf (c ∷ s) =
    let rest = before_conf s in
    if starts_with (codes ".conf") (c ∷ s) then some [] else cons_some c rest

-- How realpath() answers.
pub data Resolved : Type 0 where
  at_path : List ℕ → Resolved
  enoent failed : Resolved

-- `basenm`, `paste` and `string_compare` of libite, and realpath().
module _ (basenm : List ℕ → List ℕ) (paste : List ℕ → List ℕ → List ℕ)
    (string_compare : List ℕ → List ℕ → Bool) (realpath : List ℕ → Resolved) where
  -- `conf_is_template`
  unfoldable pub conf_is_template : List ℕ → Bool
  conf_is_template file = elim (behind_at (basenm file)) [ some nm ↦ true | none ↦ false ]

  -- What it writes to `name`, of `len` bytes: nothing for the template itself, else what lies between
  -- the at sign and .conf.
  abbrev instance_in : ℕ → List ℕ → Option (List ℕ) → Option (List ℕ)
  instance_in len nm none = none
  instance_in len nm (some name) =
      if str_same nm (codes ".conf") then none else some (take (len - 1) name)

  unfoldable pub template_name : ℕ → List ℕ → Option (List ℕ)
  template_name len file = elim (behind_at (basenm file)) [
    | some nm ↦ instance_in len nm (before_conf nm)
    | none ↦ none
  ]

  -- The file of an event: below the directory, if the name is printable (char is signed).
  abbrev file_of : List ℕ → List ℕ → List ℕ
  file_of dir [] = dir
  file_of dir (c ∷ name) = if leb 32 c && leb c 127 then paste dir (c ∷ name) else dir

  abbrev resolved : List ℕ → Resolved → Option (List ℕ)
  resolved fn (at_path path) = some path
  resolved fn enoent = some fn
  resolved fn failed = none

  unfoldable pub event_path : List ℕ → List ℕ → Option (List ℕ)
  event_path dir name =
      if conf_is_template name
      then some (file_of dir name)
      else resolved (file_of dir name) (realpath (file_of dir name))

  -- `conf_find` on `conf_change_list`
  unfoldable pub conf_find : List ℕ → List (List ℕ) → Bool
  conf_find file [] = false
  conf_find file (node ∷ list) = string_compare node file || conf_find file list

  -- `conf_change_act`, whose flag is true for 0.
  abbrev pub registered : Option (List ℕ) → List (List ℕ) → List (List ℕ) × Bool
  registered none list = (list, false)
  registered (some path) list = (if conf_find path list then list else path ∷ list, true)

  unfoldable pub conf_change_act : List ℕ → List ℕ → List (List ℕ) → List (List ℕ) × Bool
  conf_change_act dir name list = registered (event_path dir name) list

  -- `conf_any_change`, and `conf_changed` of a file
  unfoldable pub conf_any_change : List (List ℕ) → Bool
  conf_any_change [] = false
  conf_any_change (node ∷ list) = true

  abbrev real : Resolved → Option (List ℕ)
  real (at_path path) = some path
  real _ = none

  unfoldable pub path_of : List ℕ → Option (List ℕ)
  path_of file = if conf_is_template file then some file else real (realpath file)

  abbrev pub find_at : Option (List ℕ) → List (List ℕ) → Bool
  find_at none list = false
  find_at (some path) list = conf_find path list

  unfoldable pub conf_changed : Option (List ℕ) → List (List ℕ) → Bool
  conf_changed none list = false
  conf_changed (some file) list = find_at (path_of file) list
