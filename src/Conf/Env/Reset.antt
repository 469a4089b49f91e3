-- ===== src/Conf/Env/Reset.antt =====
-- What a reload leaves of the environment.
use finit.Prelude.{
  ℕ, arith, Bool, true, false, ◌||◌, ◌≡◌, refl, ap, ◌∙◌, List, [], ◌∷◌, codes, Option, none, some,
  if◌then◌else◌,
}
use finit.Ink.Match.{str_same}
use finit.Conf.Env.{
  Environ, getenv, unsetenv, setenv, noted_env, conf_parse_env, conf_set_env, unset_all,
  set_missing, conf_reset_env,
}

same_trans : (a b c : List ℕ) → str_same a b ≡ true → str_same a c ≡ str_same b c
same_trans [] [] c h = refl
same_trans [] (y ∷ b) c h = cc
same_trans (x ∷ a) [] c h = cc
same_trans (x ∷ a) (y ∷ b) [] h = refl
same_trans (x ∷ a) (y ∷ b) (z ∷ c) h = ground (arith, same_trans a b c)

same_join : (a b c : List ℕ) → str_same a c ≡ true → str_same b c ≡ true → str_same a b ≡ true
same_join [] [] c h k = refl
same_join [] (y ∷ b) [] h k = cc
same_join [] (y ∷ b) (z ∷ c) h k = cc
same_join (x ∷ a) b [] h k = cc
same_join (x ∷ a) [] (z ∷ c) h k = cc
same_join (x ∷ a) (y ∷ b) (z ∷ c) h k = ground (arith, same_join a b c, h, k)

getenv-unsetenv :
    (k key : List ℕ) (vars : List (List ℕ × List ℕ))
    → getenv k (unsetenv key vars) ≡ (if str_same key k then none else getenv k vars)
unfolding getenv unsetenv
getenv-unsetenv k key [] = ground arith
getenv-unsetenv k key ((j, v) ∷ vars) =
    ground (arith, getenv-unsetenv k key vars, same_trans j key k, same_join j key k)

getenv-setenv :
    (k : List ℕ) (c : ℕ) (key val : List ℕ) (vars : List (List ℕ × List ℕ))
    → getenv k (setenv (c ∷ key) val vars)
      ≡ (if str_same (c ∷ key) k then some val else getenv k vars)
unfolding getenv setenv
getenv-setenv k c key val vars = ground (arith, getenv-unsetenv k (c ∷ key) vars)

-- Among the names of a list.
abbrev pub is_among : List ℕ → List (List ℕ) → Bool
is_among k [] = false
is_among k (key ∷ keys) = str_same key k || is_among k keys

getenv-unset_all :
    (k : List ℕ) (keys : List (List ℕ)) (vars : List (List ℕ × List ℕ))
    → getenv k (unset_all keys vars) ≡ (if is_among k keys then none else getenv k vars)
getenv-unset_all k [] vars = refl
getenv-unset_all k (key ∷ keys) vars =
    getenv-unset_all k keys (unsetenv key vars) ∙ ground (arith, getenv-unsetenv k key vars)

-- The lines of .conf files that set variables.
pub set_all : List (List ℕ) → Environ → Environ
set_all [] e = e
set_all (line ∷ lines) e = set_all lines (conf_set_env line e)

abbrev sets : List ℕ → Option (List ℕ × List ℕ) → Bool
sets k none = false
sets k (some (key, val)) = str_same key k

-- Some line sets the variable.
abbrev pub any_sets : List ℕ → List (List ℕ) → Bool
any_sets k [] = false
any_sets k (line ∷ lines) = sets k (conf_parse_env line) || any_sets k lines

or_swap : (a b c : Bool) → (a || (b || c)) ≡ ((b || a) || c)
or_swap a b c = ground arith

among-noted_env :
    (k : List ℕ) (o : Option (List ℕ × List ℕ)) (e : Environ)
    → is_among k (noted_env o e).noted ≡ (sets k o || is_among k e.noted)
among-noted_env k none e = refl
among-noted_env k (some (key, val)) e = refl

among-set_all :
    (k : List ℕ) (lines : List (List ℕ)) (e : Environ)
    → is_among k (set_all lines e).noted ≡ (any_sets k lines || is_among k e.noted)
unfolding set_all conf_set_env
among-set_all k [] e = refl
among-set_all k (line ∷ lines) e =
    among-set_all k lines (noted_env (conf_parse_env line) e)
    ∙ (ap (λ x. any_sets k lines || x) (among-noted_env k (conf_parse_env line) e)
        ∙ or_swap (any_sets k lines) (sets k (conf_parse_env line)) (is_among k e.noted))

getenv-noted_env :
    (k : List ℕ) (o : Option (List ℕ × List ℕ)) (e : Environ)
    → sets k o ≡ false
    → getenv k (noted_env o e).vars ≡ getenv k e.vars
unfolding setenv
getenv-noted_env k none e h = refl
getenv-noted_env k (some ([], val)) e h = refl
getenv-noted_env k (some (c ∷ key, val)) e h = ground (arith, getenv-setenv k c key val e.vars, h)

getenv-set_all :
    (k : List ℕ) (lines : List (List ℕ)) (e : Environ)
    → any_sets k lines ≡ false
    → getenv k (set_all lines e).vars ≡ getenv k e.vars
unfolding set_all conf_set_env
getenv-set_all k [] e h = refl
getenv-set_all k (line ∷ lines) e h =
    getenv-set_all k lines (noted_env (conf_parse_env line) e) (ground arith)
    ∙ getenv-noted_env k (conf_parse_env line) e (ground arith)

-- The variables that a reload sets itself.
abbrev pub is_standard : List ℕ → Bool
is_standard k =
    str_same (codes "PATH") k
    || str_same (codes "SHELL") k
    || str_same (codes "LOGNAME") k
    || str_same (codes "USER") k

getenv-setenv_other :
    (k : List ℕ) (c : ℕ) (key val : List ℕ) (vars : List (List ℕ × List ℕ))
    → str_same (c ∷ key) k ≡ false
    → getenv k (setenv (c ∷ key) val vars) ≡ getenv k vars
getenv-setenv_other k c key val vars h = ground (arith, getenv-setenv k c key val vars, h)

standard_names :
    (a b c d : Bool)
    → (a || b || c || d) ≡ false
    → (a ≡ false) × (b ≡ false) × (c ≡ false) × (d ≡ false)
standard_names a b c d h = (ground arith, ground arith, ground arith, ground arith)

getenv-set_missing :
    (k : List ℕ) (c : ℕ) (key val : List ℕ) (vars : List (List ℕ × List ℕ))
    → str_same (c ∷ key) k ≡ false
    → getenv k (set_missing (c ∷ key) val vars) ≡ getenv k vars
getenv-set_missing k c key val vars h = ground (arith, getenv-setenv k c key val vars, h)

getenv-conf_reset_env :
    (k stdpath bshell : List ℕ) (e : Environ)
    → is_standard k ≡ false
    → getenv k (conf_reset_env stdpath bshell e).vars ≡ getenv k (unset_all e.noted e.vars)
unfolding conf_reset_env
getenv-conf_reset_env k stdpath bshell e h =
    let (path, shell, logname, user) =
      standard_names (str_same (codes "PATH") k) (str_same (codes "SHELL") k)
        (str_same (codes "LOGNAME") k) (str_same (codes "USER") k) h in
    let cleared = unset_all e.noted e.vars in
    let with_path = set_missing (codes "PATH") stdpath cleared in
    let with_shell = set_missing (codes "SHELL") bshell with_path in
    getenv-setenv_other k 85 (codes "SER") (codes "root")
      (setenv (codes "LOGNAME") (codes "root") with_shell) user
    ∙ (getenv-setenv_other k 76 (codes "OGNAME") (codes "root") with_shell logname
        ∙ (getenv-set_missing k 83 (codes "HELL") bshell with_path shell
            ∙ getenv-set_missing k 80 (codes "ATH") stdpath cleared path))

-- A reset takes back what lines have set since the last one: a variable that one of them sets is
-- unset, and any other is as it was, but for PATH, SHELL, LOGNAME and USER.
pub conf_reset_env-set_all :
    (k stdpath bshell : List ℕ) (lines : List (List ℕ)) (vars : List (List ℕ × List ℕ))
    → is_standard k ≡ false
    → getenv k
        (conf_reset_env stdpath bshell (set_all lines (record { vars = vars; noted = [] }))).vars
      ≡ (if any_sets k lines then none else getenv k vars)
conf_reset_env-set_all k stdpath bshell lines vars h =
    let e = set_all lines (record { vars = vars; noted = [] }) in
    getenv-conf_reset_env k stdpath bshell e h
    ∙ (getenv-unset_all k e.noted e.vars
        ∙ ground (
          arith,
          among-set_all k lines (record { vars = vars; noted = [] }),
          getenv-set_all k lines (record { vars = vars; noted = [] }),
        ))
