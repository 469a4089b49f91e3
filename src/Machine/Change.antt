-- ===== src/Machine/Change.antt =====
-- A requested runlevel is reached, and the system goes down only at the end of a shutdown.
use finit.Prelude.{
  Bool, true, false, ◌&&◌, ◌≡◌, refl, ◌∙◌, ℕ, suc, ◌+◌, ◌≤◌, arith, some, List, [], ◌∷◌, ◌++◌, ℤ,
  pos, eq_ℤ, if◌then◌else◌,
}
use finit.Machine.Step.{
  SmState, bootstrapping, bootstrap_wait, running, runlevel_change, runlevel_wait, runlevel_clean,
  reload_change, reload_wait, reload_clean, Effect, do_shutdown, Machine, Answers, no_level,
  is_shutdown, pass, pass_in, step_bootstrap, step_bootstrap_wait, step_running,
  step_runlevel_change, step_runlevel_wait, step_runlevel_clean, step_reload_change,
  step_reload_wait, step_reload_clean, same_state, sm_step,
}

-- How often the system was told to go down.
abbrev pub shutdowns : List Effect → ℕ
shutdowns [] = 0
shutdowns (f ∷ fs) = elim f [ do_shutdown _ ↦ suc (shutdowns fs) | _ ↦ shutdowns fs ]

shutdowns-append : (xs ys : List Effect) → shutdowns (xs ++ ys) ≡ shutdowns xs + shutdowns ys
shutdowns-append [] ys = omega arith
shutdowns-append (x ∷ xs) ys = ground (arith, shutdowns-append xs ys)

abbrev is_clean : SmState → Bool
is_clean runlevel_clean = true
is_clean _ = false

shutdowns-pass_in :
    (s : SmState) (a : Answers) (m : Machine)
    → shutdowns (pass_in s a m).log
      ≡ shutdowns m.log
        + (if is_clean s && (a.clean_completed && is_shutdown m.runlevel) then 1 else 0)
unfolding pass_in step_bootstrap step_bootstrap_wait step_running step_runlevel_change
    step_runlevel_wait step_runlevel_clean step_reload_change step_reload_wait step_reload_clean
shutdowns-pass_in bootstrapping a m = grind (arith, shutdowns-append)
shutdowns-pass_in bootstrap_wait a m = grind (arith, shutdowns-append)
shutdowns-pass_in running a m = grind (arith, shutdowns-append)
shutdowns-pass_in runlevel_change a m = grind (arith, shutdowns-append)
shutdowns-pass_in runlevel_wait a m = grind (arith, shutdowns-append)
shutdowns-pass_in runlevel_clean a m = grind (arith, shutdowns-append)
shutdowns-pass_in reload_change a m = grind (arith, shutdowns-append)
shutdowns-pass_in reload_wait a m = grind (arith, shutdowns-append)
shutdowns-pass_in reload_clean a m = grind (arith, shutdowns-append)

-- A pass takes the system down at most once, and does so exactly at the end of a change to runlevel
-- 0 or 6, when all post: and cleanup: scripts are collected.
pub shutdowns-pass :
    (a : Answers) (m : Machine)
    → shutdowns (pass a m).log
      ≡ shutdowns m.log
        + (if is_clean m.state && (a.clean_completed && is_shutdown m.runlevel) then 1 else 0)
unfolding pass
shutdowns-pass a m = shutdowns-pass_in m.state a m

step_on :
    (answers : ℕ → Answers) (f : ℕ) (m : Machine)
    → same_state (pass (answers f) m).state m.state ≡ false
    → sm_step answers (suc f) m ≡ sm_step answers f (pass (answers f) m)
unfolding sm_step
step_on answers f m h = rw h refl

step_last :
    (answers : ℕ → Answers) (f : ℕ) (m : Machine)
    → same_state (pass (answers f) m).state m.state ≡ true
    → sm_step answers (suc f) m ≡ some (pass (answers f) m)
unfolding sm_step
step_last answers f m h = rw h refl

-- The state of a machine without a request, its runlevel and the one before.
abbrev pub Shape : SmState → Bool → ℤ → ℤ → Machine → Type 0
Shape s waiting level old m =
    (m.state ≡ s)
    × (m.in_reload ≡ waiting)
    × (m.runlevel ≡ level)
    × (m.prevlevel ≡ old)
    × (m.newlevel ≡ no_level)
    × (m.reload ≡ false)

-- All stopped services are collected at once, and so are their scripts.
abbrev pub AllCollected : (ℕ → Answers) → Type 0
AllCollected answers =
    (k : ℕ) → ((answers k).stop_completed ≡ true) × ((answers k).clean_completed ≡ true)

pass_running :
    (a : Answers) (m : Machine) (level old : ℤ)
    → Shape running false level old m
    → Shape running false level old (pass a m)
unfolding pass pass_in step_running
pass_running a m level old (s, w, l, o, n, r) = rw s (ground arith)

pass_clean :
    (a : Answers) (m : Machine) (level old : ℤ)
    → a.clean_completed ≡ true
    → Shape runlevel_clean false level old m
    → Shape running false level old (pass a m)
unfolding pass pass_in step_runlevel_clean
pass_clean a m level old c (s, w, l, o, n, r) = rw s (ground arith)

pass_wait :
    (a : Answers) (m : Machine) (level old : ℤ)
    → a.stop_completed ≡ true
    → Shape runlevel_wait true level old m
    → Shape runlevel_clean false level old (pass a m)
unfolding pass pass_in step_runlevel_wait
pass_wait a m level old c (s, w, l, o, n, r) = rw s (ground arith)

pass_change :
    (a : Answers) (m : Machine) (level old : ℤ)
    → m.runlevel ≡ old
    → m.state ≡ runlevel_change
    → m.newlevel ≡ level
    → m.reload ≡ false
    → Shape runlevel_wait true level old (pass a m)
unfolding pass pass_in step_runlevel_change
pass_change a m level old l s n r = rw s (ground arith)

pass_leave :
    (a : Answers) (m : Machine) (n : ℕ)
    → m.state ≡ running
    → m.newlevel ≡ pos n
    → n ≤ 9
    → eq_ℤ m.runlevel (pos n) ≡ false
    → ((pass a m).state ≡ runlevel_change)
      × ((pass a m).newlevel ≡ pos n)
      × ((pass a m).reload ≡ m.reload)
      × ((pass a m).runlevel ≡ m.runlevel)
unfolding pass pass_in step_running
pass_leave a m n s e b d = rw s (rw e (ground arith))

-- `sm_step` returns some machine with the property.
abbrev pub Returns : (ℕ → Answers) → ℕ → Machine → (Machine → Type 0) → Type 0
Returns answers f m P = (m' : Machine) × (sm_step answers f m ≡ some m') × P m'

pub Returns-step :
    (answers : ℕ → Answers) (f : ℕ) (m : Machine) (P : Machine → Type 0) (s t : SmState)
    → m.state ≡ s
    → (pass (answers f) m).state ≡ t
    → same_state t s ≡ false
    → Returns answers f (pass (answers f) m) P
    → Returns answers (suc f) m P
Returns-step answers f m P s t e e' d (m', r, p) = (m', step_on answers f m (rw e' (rw e d)) ∙ r, p)

reach_running :
    (answers : ℕ → Answers) (f : ℕ) (m : Machine) (level old : ℤ)
    → Shape running false level old m
    → Returns answers (suc f) m (Shape running false level old)
reach_running answers f m level old h =
    let h' = pass_running (answers f) m level old h in
    (pass (answers f) m, step_last answers f m (rw h'.0 (rw h.0 refl)), h')

reach_wait :
    (answers : ℕ → Answers) (f : ℕ) (m : Machine) (level old : ℤ)
    → AllCollected answers
    → Shape runlevel_wait true level old m
    → Returns answers (suc (suc (suc f))) m (Shape running false level old)
reach_wait answers f m level old c h =
    let h1 = pass_wait (answers (suc (suc f))) m level old (c (suc (suc f))).0 h in
    let m1 = pass (answers (suc (suc f))) m in
    let h2 = pass_clean (answers (suc f)) m1 level old (c (suc f)).1 h1 in
    Returns-step answers (suc (suc f)) m _ runlevel_wait runlevel_clean h.0 h1.0 refl (
      Returns-step answers (suc f) m1 _ runlevel_clean running h1.0 h2.0 refl
        (reach_running answers f (pass (answers (suc f)) m1) level old h2))

-- With no other request pending, a request for another of the runlevels 0 to 9 is carried out by one
-- `sm_step` of five passes if all services and their scripts are collected at once: the machine is
-- back in RUNNING, in that runlevel, with the old one remembered and no request left.
pub sm_step_reaches :
    (answers : ℕ → Answers) (f : ℕ) (m : Machine) (n : ℕ)
    → AllCollected answers
    → m.state ≡ running
    → m.newlevel ≡ pos n
    → n ≤ 9
    → eq_ℤ m.runlevel (pos n) ≡ false
    → m.reload ≡ false
    → Returns answers (suc (suc (suc (suc (suc f))))) m (Shape running false (pos n) m.runlevel)
sm_step_reaches answers f m n c s e b d r =
    let (s1, e1, r1, l1) = pass_leave (answers (suc (suc (suc (suc f))))) m n s e b d in
    let m1 = pass (answers (suc (suc (suc (suc f))))) m in
    let h2 = pass_change (answers (suc (suc (suc f)))) m1 (pos n) m.runlevel l1 s1 e1 (r1 ∙ r) in
    Returns-step answers (suc (suc (suc (suc f)))) m _ running runlevel_change s s1 refl (
      Returns-step answers (suc (suc (suc f))) m1 _ runlevel_change runlevel_wait s1 h2.0 refl
        (reach_wait answers f (pass (answers (suc (suc (suc f)))) m1) (pos n) m.runlevel c h2))
