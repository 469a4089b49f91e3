-- ===== src/Machine/Examples.antt =====
-- Runs of the runlevel machine, and its theorems at concrete machines.
use finit.Prelude.{true, false, ◌&&◌, ◌≡◌, refl, arith, some, none, [], ◌∷◌, pos}
use finit.Machine.Step.{
  bootstrap_wait, running, runlevel_clean, reload_change, reload_wait, shut_off, shut_reboot,
  Machine, Answers, no_level, pass, pass_in, step_running, step_reload_change, step_reload_wait,
  conf_reload, runtask_clean, service_step_all, any, cond_reload, sm_step,
}
use finit.Machine.Diagram.{is_waiting}
use finit.Machine.Ends.{sm_step_ends}
use finit.Machine.Change.{Shape, Returns, sm_step_reaches}

-- Runlevel 2, nothing to do.
abbrev calm : Machine
calm = record {
  state = running;
  newlevel = no_level;
  reload = false;
  in_reload = false;
  skip_bootstrap = false;
  runlevel = pos 2;
  prevlevel = pos 10;
  cfglevel = pos 2;
  cmdlevel = pos 0;
  bootstrap = false;
  rescue = false;
  halt = shut_off;
  log = [];
}

-- On the way from runlevel 2 to 3.
abbrev asked_for_3 : Machine
asked_for_3 = record calm { newlevel = pos 3 }

-- At the end of a reboot.
abbrev going_down : Machine
going_down = record calm {
  state = runlevel_clean;
  runlevel = pos 6;
  prevlevel = pos 2;
  halt = shut_reboot;
}

-- Waiting for the services of the runlevel S.
abbrev booting : Machine
booting = record calm {
  state = bootstrap_wait;
  runlevel = pos 10;
  prevlevel = pos 0;
  bootstrap = true;
}

abbrev all_done : Answers
all_done = record {
  stop_completed = true;
  clean_completed = true;
  conf_changed = false;
  has_rc_local = false;
}

abbrev some_left : Answers
some_left = record all_done { stop_completed = false }

-- A reload that must wait stays in RELOAD_WAIT, with the mark set.
reload_waits :
    elim (sm_step (λ _. some_left) 12 (record calm { reload = true })) [
      | none ↦ false
      | some m ↦ m.in_reload && is_waiting m.state
    ]
    ≡ true
unfolding sm_step pass pass_in step_running step_reload_change step_reload_wait
reload_waits = refl

-- A reload that has just begun, and the same with services left to collect.
abbrev reload_begins : Machine
reload_begins = record calm { state = reload_change }

abbrev reload_pending : Machine
reload_pending = record calm {
  state = reload_wait;
  in_reload = true;
  log = conf_reload ∷ runtask_clean ∷ service_step_all any ∷ cond_reload ∷ [];
}

sm_step_ends_example : (m' : Machine) × (sm_step (λ _. some_left) 12 asked_for_3 ≡ some m')
sm_step_ends_example = sm_step_ends (λ _. some_left) 12 asked_for_3 (omega arith)

sm_step_reaches_example :
    Returns (λ _. all_done) 5 asked_for_3 (Shape running false (pos 3) (pos 2))
sm_step_reaches_example =
    sm_step_reaches (λ _. all_done) 0 asked_for_3 3 (λ _. (refl, refl)) refl refl (omega arith) refl
      refl
