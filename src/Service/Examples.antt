-- ===== src/Service/Examples.antt =====
-- Runs of the state machine, and its theorems at concrete services.
use finit.Prelude.{true, false, ◌≡◌, refl, ◌⊎◌, ◌↔◌, pos}
use finit.Service.Types.{
  halted, waiting, starting, running, setup, restarting, systemd, Svc, Env, svc_enabled,
}
use finit.Service.Graph.{MovesTo}
use finit.Service.Action.{svc_set_state, arm_kill, service_start, service_ready}
use finit.Service.Step.Gate.{MayStart, pass_waiting_gate}
use finit.Service.Step.Kill.{KillArmed, service_step-KillArmed}
use finit.Service.Step.Pass.{pass-MovesTo}
use finit.Service.Step.{
  step_halted, step_waiting, step_starting, step_running, running_alive, running_on, apply_config,
  announce, pass_in, pass, finish_step, after_pass, service_step_from, service_step,
}
use finit.Service.Samples.{daemon, calm, at_svc, stopping_daemon}

daemon_boots : (service_step calm 5 (at_svc daemon)).svc.state ≡ running
unfolding service_step service_step_from after_pass finish_step pass pass_in step_halted
    step_waiting step_starting step_running running_alive running_on apply_config announce
    service_ready svc_set_state arm_kill service_start svc_enabled
daemon_boots = refl

daemon_started : (service_step calm 5 (at_svc daemon)).svc.pid ≡ pos 42
unfolding service_step service_step_from after_pass finish_step pass pass_in step_halted
    step_waiting step_starting step_running running_alive running_on apply_config announce
    service_ready svc_set_state arm_kill service_start svc_enabled
daemon_started = refl

pass-MovesTo_example :
    MovesTo waiting (pass calm (λ w. w) (at_svc (record daemon { state = waiting }))).0.svc.state
pass-MovesTo_example =
    pass-MovesTo calm (λ w. w) (at_svc (record daemon { state = waiting })) (λ h. cc h) (λ h. cc h)

pass_waiting_gate_example :
    (((pass calm (λ w. w) (at_svc (record daemon { state = waiting }))).0.svc.state ≡ setup)
      ⊎ ((pass calm (λ w. w) (at_svc (record daemon { state = waiting }))).0.svc.state ≡ starting))
    ↔ MayStart calm (record daemon { state = waiting })
pass_waiting_gate_example =
    pass_waiting_gate calm (λ w. w) (at_svc (record daemon { state = waiting })) refl

service_step-KillArmed_example : KillArmed (service_step calm 5 (at_svc stopping_daemon)).svc
service_step-KillArmed_example =
    service_step-KillArmed calm 5 (at_svc stopping_daemon) (record { armed = λ _ _ _. refl })

abbrev notifier : Svc
notifier = record daemon { state = starting; notify = systemd }

abbrev no_socket : Env
no_socket = record calm { notify_ok = false }

abbrev scripted : Svc
scripted = record daemon { state = running; pid = pos 42; stop_script = true }

abbrev crashing_daemon : Svc
crashing_daemon = record daemon {
  state = halted;
  block = restarting;
  restart_cnt = pos 10;
  restart_tmo = 5000;
}
