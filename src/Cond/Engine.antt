-- ===== src/Cond/Engine.antt =====
-- cond.c and cond-w.c: conditions as files with a generation.
pub mod Aggregate
use finit.Prelude.{
  ◌≡◌, refl, Option, none, some, List, [], ◌∷◌, ℕ, suc, zero, ◌+◌, ◌%◌, ◌^◌, Bool, true, false, not,
  ◌==◌, ltb, ◌||◌, ◌&&◌, String, str_eq, ℤ, pos, negsuc, is_zero, if◌then◌else◌,
}
use finit.Service.Types.{CondState, off, flux, on}
use finit.Cond.Files.{File, number, link, Files, lookup, remove, put}

-- `_PATH_RECONF`, below the directory of conditions
abbrev pub reconf : String
reconf = "reconf"

-- What the system calls answer: a directory can be made (`cond_checkpath`), a file opened for
-- writing, a link created.
pub record Io : Type 0 where
  pub checkpath : String → Bool
  pub writable : String → Bool
  pub linkable : String → Bool

abbrev number_in : Option File → ℕ
number_in (some (number g)) = g
number_in _ = 0

-- `cond_get_gen`: 0 if there is no number. A link is read through.
unfoldable pub cond_get_gen : Files → String → ℕ
cond_get_gen fs file = elim (lookup file fs) [
  | none ↦ 0
  | some f ↦ elim f [ number g ↦ g | link ↦ number_in (lookup reconf fs) ]
]

-- `cond_get_path`
unfoldable pub cond_get_path : Files → String → CondState
cond_get_path fs path =
    let cgen = cond_get_gen fs path in
    let rgen = cond_get_gen fs reconf in
    if cgen == 0 then off else if rgen == 0 then off else if cgen == rgen then on else flux

-- `min` on the numbers of the states
abbrev pub min_state : CondState → CondState → CondState
min_state off t = off
min_state flux off = off
min_state flux t = flux
min_state on t = t

-- `cond_get_agg` with the names that strtok() gives: it stops at the first one that is off.
agg_from : Files → (String → String) → CondState → List String → CondState
agg_from fs cond_path s [] = s
agg_from fs cond_path s (c ∷ cs) =
    let next = agg_from fs cond_path (min_state s (cond_get_path fs (cond_path c))) cs in
    elim s [ off ↦ off | flux ↦ next | on ↦ next ]

unfoldable pub cond_get_agg : Files → (String → String) → List String → CondState
unfolding agg_from
cond_get_agg fs cond_path names = agg_from fs cond_path on names

-- `cond_affects`
unfoldable pub cond_affects : String → List String → Bool
cond_affects name [] = false
cond_affects name (c ∷ cs) = str_eq c name || cond_affects name cs

-- `cond_set_gen`: writes through a link. A failure is not looked at by `cond_set_path`.
unfoldable pub cond_set_gen : Io → String → ℕ → Files → Files
cond_set_gen io file gen fs = if not (io.writable file) then fs else elim (lookup file fs) [
  | none ↦ put file (number gen) fs
  | some f ↦ elim f [ number g ↦ put file (number gen) fs | link ↦ put reconf (number gen) fs ]
]

-- `cond_bump_reconf`, with the wrap-around of an unsigned int
unfoldable pub cond_bump_reconf : Io → Files → Files
cond_bump_reconf io fs = cond_set_gen io reconf ((cond_get_gen fs reconf + 1) % 2 ^ 32) fs

abbrev pub same_cond : CondState → CondState → Bool
same_cond off off = true
same_cond flux flux = true
same_cond on on = true
same_cond _ _ = false

abbrev changed : CondState → CondState → ℤ
changed next prev = if same_cond next prev then pos 0 else pos 1

-- `cond_set_path`. A path that is a directory is left out.
unfoldable pub cond_set_path : Io → String → CondState → Files → Files × ℤ
cond_set_path io path on fs =
    if not (io.checkpath path)
    then (fs, pos 0)
    else if cond_get_gen fs reconf == 0
    then (fs, negsuc 0)
    else (cond_set_gen io path (cond_get_gen fs reconf) fs, changed on (cond_get_path fs path))
cond_set_path io path off fs = (remove path fs, changed off (cond_get_path fs path))
cond_set_path io path flux fs = (fs, pos 0)

-- `cond_set_noupdate`, `cond_clear_noupdate` and `cond_set_oneshot_noupdate`; the flag is set when
-- the callers go on to notify and to update. The condition nop is never touched.
unfoldable pub cond_set_noupdate : Io → (String → String) → String → Files → Files × Bool
cond_set_noupdate io cond_path name fs =
    if str_eq name "nop"
    then (fs, false)
    else (let (fs1, rc) = cond_set_path io (cond_path name) on fs in (fs1, not (is_zero rc)))

unfoldable pub cond_clear_noupdate : Io → (String → String) → String → Files → Files × Bool
cond_clear_noupdate io cond_path name fs =
    if str_eq name "nop"
    then (fs, false)
    else (let (fs1, rc) = cond_set_path io (cond_path name) off fs in (fs1, not (is_zero rc)))

-- symlink() leaves a file that exists alone, which is no error here.
unfoldable pub cond_set_oneshot_noupdate : Io → (String → String) → String → Files → Files × Bool
cond_set_oneshot_noupdate io cond_path name fs =
    let path = cond_path name in
    if str_eq name "nop"
    then (fs, false)
    else if not (io.checkpath path)
    then (fs, false)
    else elim (lookup path fs) [
      | some f ↦ (fs, true)
      | none ↦ if io.linkable path then (put path link fs, true) else (fs, false)
    ]

-- `cond_reload`
unfoldable pub cond_reload : Io → Files → Files
cond_reload io fs = cond_bump_reconf io fs
