-- ===== src/Machine/Diagram.antt =====
-- Which states follow each other, and when a reload or runlevel change counts as going on.
use finit.Prelude.{Bool, true, false, ◌≡◌, refl, ◌⊎◌, arith}
use finit.Machine.Step.{
  SmState, bootstrapping, bootstrap_wait, running, runlevel_change, runlevel_wait, runlevel_clean,
  reload_change, reload_wait, reload_clean, Machine, Answers, pass, pass_in, step_bootstrap,
  step_bootstrap_wait, step_running, step_runlevel_change, step_runlevel_wait, step_runlevel_clean,
  step_reload_change, step_reload_wait, step_reload_clean,
}

abbrev pub is_waiting : SmState → Bool
is_waiting runlevel_wait = true
is_waiting reload_wait = true
is_waiting _ = false

-- `in_reload` is set exactly while stopped services are waited for.
abbrev pub Inv : Machine → Type 0
Inv m = m.in_reload ≡ is_waiting m.state

-- The edges of the diagram.
abbrev pub edge : SmState → SmState → Bool
edge bootstrapping bootstrap_wait = true
edge bootstrap_wait running = true
edge running runlevel_change = true
edge running reload_change = true
edge runlevel_change runlevel_wait = true
edge runlevel_wait runlevel_clean = true
edge runlevel_clean running = true
edge reload_change reload_wait = true
edge reload_wait reload_clean = true
edge reload_clean running = true
edge _ _ = false

pass_in-Inv : (s : SmState) (a : Answers) (m : Machine) → m.state ≡ s → Inv m → Inv (pass_in s a m)
unfolding pass_in step_bootstrap step_bootstrap_wait step_running step_runlevel_change
    step_runlevel_wait step_runlevel_clean step_reload_change step_reload_wait step_reload_clean
pass_in-Inv bootstrapping a m e h = ground arith
pass_in-Inv _ a m e h = ground arith

pass_in-edge :
    (s : SmState) (a : Answers) (m : Machine)
    → m.state ≡ s
    → ((pass_in s a m).state ≡ s) ⊎ (edge s (pass_in s a m).state ≡ true)
unfolding pass_in step_bootstrap step_bootstrap_wait step_running step_runlevel_change
    step_runlevel_wait step_runlevel_clean step_reload_change step_reload_wait step_reload_clean
pass_in-edge bootstrapping a m e = ground arith
pass_in-edge _ a m e = ground arith

pub pass-Inv : (a : Answers) (m : Machine) → Inv m → Inv (pass a m)
unfolding pass
pass-Inv a m h = pass_in-Inv m.state a m refl h

-- A pass of `sm_step` stays in its state or follows an edge of the diagram.
pub pass-edge :
    (a : Answers) (m : Machine)
    → ((pass a m).state ≡ m.state) ⊎ (edge m.state (pass a m).state ≡ true)
unfolding pass
pass-edge a m = pass_in-edge m.state a m refl
