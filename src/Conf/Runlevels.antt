-- ===== src/Conf/Runlevels.antt =====
-- conf.c, initctl.c: sets of runlevels and their text, such as [S12-4].
pub mod RoundTrip
use finit.Prelude.{
  ℕ, zero, suc, ◌+◌, ◌-◌, ◌≤◌, Bool, true, false, not, ◌&&◌, ◌||◌, leb, ltb, ◌==◌, ◌≡◌, List, [],
  ◌∷◌, ◌++◌, codes, Option, none, some, if◌then◌else◌,
}

-- The masks of libite: SETBIT, CLRBIT and ISSET on an `int`, 0 and 0x7FE, and what they do.
pub record Bits (M : Type 0) : Type 0 where
  pub nothing : M
  pub all_but_0 : M
  pub set_bit : M → ℕ → M
  pub clr_bit : M → ℕ → M
  pub is_set : M → ℕ → Bool
  pub is_set-nothing : (j : ℕ) → is_set nothing j ≡ false
  pub is_set-all_but_0 : (j : ℕ) → j ≤ 10 → is_set all_but_0 j ≡ leb 1 j
  pub is_set-set_bit :
      (m : M) (i j : ℕ) → i ≤ 10 → j ≤ 10 → is_set (set_bit m i) j ≡ ((i == j) || is_set m j)
  pub is_set-clr_bit :
      (m : M) (i j : ℕ) → i ≤ 10 → j ≤ 10 → is_set (clr_bit m i) j ≡ (not (i == j) && is_set m j)

-- `INIT_LEVEL`
abbrev pub init_level : ℕ
init_level = 10

-- The level that a byte stands for; others are skipped (bytes above 127 are negative).
unfoldable pub level_of : ℕ → Option ℕ
level_of c =
    if c == 115 || c == 83
    then some init_level
    else if leb 48 c && leb c 58
    then some (c - 48)
    else none

module _ {M : Type 0} (bits : Bits M) where
  abbrev pub mark_level : Bool → Option ℕ → M → M
  mark_level neg none m = m
  mark_level neg (some level) m = if neg then bits.clr_bit m level else bits.set_bit m level

  -- The loop of `conf_parse_runlevels`, up to the bracket or the end.
  unfoldable pub parse_levels : List ℕ → Bool → M → M
  parse_levels [] neg m = m
  parse_levels (c ∷ s) neg m =
      let all_but = parse_levels s true bits.all_but_0 in
      let marked = parse_levels s neg (mark_level neg (level_of c) m) in
      if c == 93 || c == 0 then m else if c == 33 then all_but else marked

  -- `conf_parse_runlevels`, without a text or on one; it begins behind the first byte, so that there is
  -- no result for an empty one.
  unfoldable pub conf_parse_runlevels : Option (List ℕ) → Option M
  conf_parse_runlevels none = some (parse_levels (codes "234]") false bits.nothing)
  conf_parse_runlevels (some []) = none
  conf_parse_runlevels (some (c ∷ s)) = some (parse_levels s false bits.nothing)

  -- One round of the loop in `runlevel_string`; unless the output is plain, the current level is bold.
  unfoldable pub level_char : M → ℕ → ℕ
  level_char levels i =
      if bits.is_set levels i then (if i == init_level then 83 else 48 + i) else 45

  unfoldable pub level_text : Bool → ℕ → M → ℕ → List ℕ
  level_text plain currlevel levels i =
      let c = level_char levels i ∷ [] in
      if bits.is_set levels i && not plain && currlevel == i
      then 27 ∷ 91 ∷ 49 ∷ 109 ∷ (c ++ 27 ∷ 91 ∷ 48 ∷ 109 ∷ [])
      else c

  -- The rounds from level `i` on.
  unfoldable pub levels_from : Bool → ℕ → M → ℕ → ℕ → List ℕ
  levels_from plain currlevel levels zero i = []
  levels_from plain currlevel levels (suc n) i =
      level_text plain currlevel levels i ++ levels_from plain currlevel levels n (suc i)

  -- `runlevel_string`: S first, then 0 to 9.
  unfoldable pub runlevel_string : Bool → ℕ → M → List ℕ
  runlevel_string plain currlevel levels =
      91
      ∷ (level_text plain currlevel levels init_level
          ++ (levels_from plain currlevel levels init_level 0 ++ 93 ∷ []))
