-- ===== src/Cond/Update/Laws.antt =====
-- What services see of a change of a condition.
use finit.Prelude.{
  ◌≡◌, ◌⊎◌, refl, ap, sym, subst, ◌==◌, ◌∙◌, List, [], ◌∷◌, ℕ, Bool, true, false, not, ◌||◌, String,
  str_eq, str_eq_iff, arith, Bool-cases, inl, inr,
}
use Prim.Native.Char.{code}
use finit.Service.Step.Idle.{is_idle}
use finit.Cond.Files.{Files}
use finit.Cond.Engine.{Io, cond_affects, cond_set_noupdate}
use finit.Cond.Update.{
  Member, System, update_all, cond_update, cond_set, cond_reassert, slashed, update_if,
}

-- A service before and behind an update: it is as it was, or it names the condition, and still is
-- not started if it was not.
abbrev pub KeptIdle : String → Member → Member → Type 0
KeptIdle name m n =
    (n ≡ m)
    ⊎ ((cond_affects name m.conds ≡ true)
        × ((not (is_idle m.world.svc.state) || is_idle n.world.svc.state) ≡ true)
        × (n.conds ≡ m.conds))

abbrev pub AllKeptIdle : String → List Member → List Member → Type 0
AllKeptIdle name [] [] = true ≡ true
AllKeptIdle name (m ∷ ms) (n ∷ ns) = KeptIdle name m n × AllKeptIdle name ms ns
AllKeptIdle name [] (n ∷ ns) = true ≡ false
AllKeptIdle name (m ∷ ms) [] = true ≡ false

abbrev NoneNames : String → List Member → Type 0
NoneNames name [] = true ≡ true
NoneNames name (m ∷ ms) = (cond_affects name m.conds ≡ false) × NoneNames name ms

abbrev pub starts_with_slash : String → Bool
starts_with_slash String.[] = false
starts_with_slash (String.◌∷◌ c s) = code c == 47

abbrev NoSlash : List String → Type 0
NoSlash [] = true ≡ true
NoSlash (c ∷ cs) = (starts_with_slash c ≡ false) × NoSlash cs

abbrev pub NoSlashes : List Member → Type 0
NoSlashes [] = true ≡ true
NoSlashes (m ∷ ms) = NoSlash m.conds × NoSlashes ms

starts_contradiction : (c n : String) → c ≡ slashed n → starts_with_slash c ≡ false → ⊥
starts_contradiction c n e h = cc (sym (ap starts_with_slash e) ∙ h)

slash_differs : (c n : String) → starts_with_slash c ≡ false → str_eq c (slashed n) ≡ false
slash_differs c n h = elim (Bool-cases (str_eq c (slashed n))) [
  | inl y ↦ absurd (starts_contradiction c n ((str_eq_iff c (slashed n)).0 y) h)
  | inr no_match ↦ no_match
]

not_affected : (cs : List String) (n : String) → NoSlash cs → cond_affects (slashed n) cs ≡ false
unfolding cond_affects
not_affected [] n h = refl
not_affected (c ∷ cs) n (h, hs) = ground (arith, slash_differs c n h, not_affected cs n hs)

NoSlashes-NoneNames : (n : String) (ms : List Member) → NoSlashes ms → NoneNames (slashed n) ms
NoSlashes-NoneNames n [] h = refl
NoSlashes-NoneNames n (m ∷ ms) (h, hs) = (not_affected m.conds n h, NoSlashes-NoneNames n ms hs)

module _ (io : Io) (cond_path : String → String) (fuel : ℕ) where
  -- The loop of `cond_update` steps no service if none names the condition.
  update_none :
      (fs : Files) (name : String) (ms : List Member)
      → NoneNames name ms
      → update_all io cond_path fuel fs name ms ≡ (ms, 0)
  unfolding update_all
  update_none fs name [] h = refl
  update_none fs name (m ∷ ms) (h, hs) = ground (arith, update_none fs name ms hs)

  update_if-services :
      (name : String) (sys : System) (r : Files × Bool)
      → NoneNames name sys.services
      → (update_if io cond_path fuel name sys r).services ≡ sys.services
  unfolding cond_update
  update_if-services name sys (fs, true) h = ap (λ x. x.0) (update_none fs name sys.services h)
  update_if-services name sys (fs, false) h = refl

  set_slashed :
      (n : String) (sys : System)
      → NoSlashes sys.services
      → (cond_set io cond_path fuel (slashed n) sys).services ≡ sys.services
  unfolding cond_set
  set_slashed n sys h =
      update_if-services (slashed n) sys (cond_set_noupdate io cond_path (slashed n) sys.files)
        (NoSlashes-NoneNames n sys.services h)

  -- `cond_reassert` steps no service whatever it finds, as long as no service spells the name of a
  -- condition with a slash in front.
  pub reassert_steps_none :
      (names : List String) (sys : System)
      → NoSlashes sys.services
      → (cond_reassert io cond_path fuel names sys).services ≡ sys.services
  unfolding cond_reassert
  reassert_steps_none [] sys h = refl
  reassert_steps_none (n ∷ ns) sys h =
      let e = set_slashed n sys h in
      reassert_steps_none ns (cond_set io cond_path fuel (slashed n) sys)
        (subst NoSlashes (sym e) h)
      ∙ e
