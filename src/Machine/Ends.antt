-- ===== src/Machine/Ends.antt =====
-- The loop of `sm_step` ends.
use finit.Prelude.{
  true, ◌&&◌, ◌≡◌, refl, ◌⊎◌, ℕ, zero, suc, ◌+◌, ◌≤◌, ◌<◌, arith, some, Bool-cases, inl, inr, leb_ℤ,
  pos, if◌then◌else◌,
}
use finit.Machine.Step.{
  SmState, bootstrapping, bootstrap_wait, running, runlevel_change, runlevel_wait, runlevel_clean,
  reload_change, reload_wait, reload_clean, Machine, Answers, pass, pass_in, step_bootstrap,
  step_bootstrap_wait, step_running, step_runlevel_change, step_runlevel_wait, step_runlevel_clean,
  step_reload_change, step_reload_wait, step_reload_clean, same_state, sm_step,
}

abbrev pending : Machine → ℕ
pending m = if leb_ℤ (pos 0) m.newlevel && leb_ℤ m.newlevel (pos 9) then 4 else 0

abbrev asked : Machine → ℕ
asked m = if m.reload then 4 else 0

-- How many more passes can follow; a request for a runlevel or a reload costs four.
abbrev left_in : SmState → Machine → ℕ
left_in bootstrapping m = 2 + pending m + asked m
left_in bootstrap_wait m = 1 + pending m + asked m
left_in running m = pending m + asked m
left_in runlevel_change m = 3 + asked m
left_in runlevel_wait m = 2 + pending m + asked m
left_in runlevel_clean m = 1 + pending m + asked m
left_in reload_change m = 3 + pending m + asked m
left_in reload_wait m = 2 + pending m + asked m
left_in reload_clean m = 1 + pending m + asked m

pass_in_falls :
    (s : SmState) (a : Answers) (m : Machine)
    → m.state ≡ s
    → ((pass_in s a m).state ≡ s) ⊎ (left_in (pass_in s a m).state (pass_in s a m) < left_in s m)
unfolding pass_in step_bootstrap step_bootstrap_wait step_running step_runlevel_change
    step_runlevel_wait step_runlevel_clean step_reload_change step_reload_wait step_reload_clean
pass_in_falls bootstrapping a m e = ground arith
pass_in_falls _ a m e = ground arith

pass_falls :
    (a : Answers) (m : Machine)
    → ((pass a m).state ≡ m.state) ⊎ (left_in (pass a m).state (pass a m) < left_in m.state m)
unfolding pass
pass_falls a m = pass_in_falls m.state a m refl

same_state_refl : (s t : SmState) → s ≡ t → same_state s t ≡ true
same_state_refl s t e = ground arith

ends :
    (answers : ℕ → Answers) (f : ℕ) (m : Machine)
    → left_in m.state m < f
    → (m' : Machine) × (sm_step answers f m ≡ some m')
unfolding sm_step
ends answers zero m h = absurd (omega arith)
ends answers (suc f) m h = elim (pass_falls (answers f) m) [
  | inl same ↦ (pass (answers f) m, rw (same_state_refl _ _ same))
  | inr falls ↦ elim (Bool-cases (same_state (pass (answers f) m).state m.state)) [
    | inl y ↦ (pass (answers f) m, rw y)
    | inr n ↦ rw n (ends answers f (pass (answers f) m) (omega arith))
  ]
]

left_in_bound : (s : SmState) (m : Machine) → left_in s m ≤ 11
left_in_bound bootstrapping m = ground arith
left_in_bound _ m = ground arith

-- `sm_step` ends after at most twelve passes, from any state and whatever the rest of the system
-- answers.
pub sm_step_ends :
    (answers : ℕ → Answers) (f : ℕ) (m : Machine)
    → 12 ≤ f
    → (m' : Machine) × (sm_step answers f m ≡ some m')
sm_step_ends answers f m h = ends answers f m (omega (arith, left_in_bound m.state m))
