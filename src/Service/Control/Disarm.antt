-- ===== src/Service/Control/Disarm.antt =====
-- Requests that cancel the timer of a stopping service.
use finit.Prelude.{false, ◌≡◌, refl, ◌∙◌, ap, ℕ, suc, arith, ℤ, is_zero, none}
use finit.Service.Action.Timer.{service_timeout_cancel}
use finit.Service.Action.{set_block}
use finit.Service.Control.{service_stop_now, service_start_now, service_script_del}
use finit.Service.Step.Loop.{pass_at}
use finit.Service.Step.{
  step_stopping, pass_in, service_step, service_step_from, after_pass, finish_step,
}
use finit.Service.Types.{stopping, user, unblocked, Env, World}

-- While its process is not collected, stepping a stopping service does nothing to it.
pub service_step_stopping :
    (e : Env) (f : ℕ) (w : World)
    → w.svc.state ≡ stopping
    → is_zero w.svc.pid ≡ false
    → (service_step e (suc f) w).svc ≡ w.svc
unfolding service_step service_step_from after_pass finish_step pass_in step_stopping
service_step_stopping e f w h p = rw (pass_at e (service_step_from e f false) w h) (ground arith)

-- `initctl stop` or `initctl start` on a service that is stopping cancels the pending SIGKILL and
-- schedules no other, so that a process which ignores its stop signal is never killed.
pub service_stop_now_disarms :
    (e : Env) (f : ℕ) (w : World)
    → w.svc.state ≡ stopping
    → is_zero w.svc.pid ≡ false
    → ((service_stop_now e (suc f) w).svc.timer ≡ none)
      × ((service_stop_now e (suc f) w).svc.state ≡ stopping)
      × ((service_start_now e (suc f) w).svc.timer ≡ none)
      × ((service_start_now e (suc f) w).svc.state ≡ stopping)
unfolding service_stop_now service_start_now
service_stop_now_disarms e f w h p = ground (
  arith,
  service_step_stopping e f (record w { svc = set_block user (service_timeout_cancel w.svc) }) h p,
  service_step_stopping e f (record w { svc = set_block unblocked (service_timeout_cancel w.svc) })
      h p,
)

script_del_svc : (q : ℤ) (w : World) → (service_script_del q w).svc ≡ service_timeout_cancel w.svc
unfolding service_script_del
script_del_svc q w = refl

script_del_state : (q : ℤ) (w : World) → (service_script_del q w).svc.state ≡ w.svc.state
script_del_state q w = ap (λ s. s.state) (script_del_svc q w)

-- The end of a stop: script cancels the pending SIGKILL of the service that it was to stop, and a
-- further step schedules no other.
pub script_del_disarms :
    (e : Env) (f : ℕ) (script_pid : ℤ) (w : World)
    → w.svc.state ≡ stopping
    → is_zero w.svc.pid ≡ false
    → ((service_step e (suc f) (service_script_del script_pid w)).svc.timer ≡ none)
      × ((service_step e (suc f) (service_script_del script_pid w)).svc.state ≡ stopping)
script_del_disarms e f script_pid w h p = ground (
  arith,
  script_del_svc script_pid w,
  service_step_stopping e f (service_script_del script_pid w) (script_del_state script_pid w ∙ h)
      (unfold service_script_del in p),
)
