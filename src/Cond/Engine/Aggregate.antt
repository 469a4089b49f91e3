-- ===== src/Cond/Engine/Aggregate.antt =====
-- The condition of a service is the least of its conditions.
use finit.Prelude.{
  ◌≡◌, refl, List, [], ◌∷◌, Bool, true, false, ◌&&◌, ◌||◌, String, str_eq_iff, arith, if◌then◌else◌,
}
use finit.Service.Types.{CondState, off, flux, on}
use finit.Cond.Files.{Files}
use finit.Cond.Engine.{cond_get_path, cond_get_agg, agg_from, min_state, cond_affects, same_cond}

abbrev pub any_off : Files → (String → String) → List String → Bool
any_off fs cond_path [] = false
any_off fs cond_path (c ∷ cs) =
    same_cond (cond_get_path fs (cond_path c)) off || any_off fs cond_path cs

abbrev pub all_on : Files → (String → String) → List String → Bool
all_on fs cond_path [] = true
all_on fs cond_path (c ∷ cs) =
    same_cond (cond_get_path fs (cond_path c)) on && all_on fs cond_path cs

agg_from_lem :
    (fs : Files) (cond_path : String → String) (s : CondState) (cs : List String)
    → agg_from fs cond_path s cs
      ≡ min_state s
          (if any_off fs cond_path cs then off else if all_on fs cond_path cs then on else flux)
unfolding agg_from
agg_from_lem fs cond_path off [] = refl
agg_from_lem fs cond_path flux [] = refl
agg_from_lem fs cond_path on [] = refl
agg_from_lem fs cond_path off (c ∷ cs) = refl
agg_from_lem fs cond_path s (c ∷ cs) =
    ground (arith, agg_from_lem fs cond_path (min_state s (cond_get_path fs (cond_path c))) cs)

-- The aggregate of some conditions is off if one of them is off, else on if all are on, and in flux
-- otherwise.
pub cond_get_agg_lem :
    (fs : Files) (cond_path : String → String) (cs : List String)
    → cond_get_agg fs cond_path cs
      ≡ (if any_off fs cond_path cs then off else if all_on fs cond_path cs then on else flux)
unfolding cond_get_agg
cond_get_agg_lem fs cond_path cs = ground (arith, agg_from_lem fs cond_path on cs)

-- A condition that is off and that a service needs is enough.
pub any_off_affects :
    (fs : Files) (cond_path : String → String) (name : String) (cs : List String)
    → cond_get_path fs (cond_path name) ≡ off
    → cond_affects name cs ≡ true
    → any_off fs cond_path cs ≡ true
unfolding cond_affects
any_off_affects fs cond_path name [] e h = cc
any_off_affects fs cond_path name (c ∷ cs) e h =
    ground (arith, any_off_affects fs cond_path name cs e, str_eq_iff c name)
