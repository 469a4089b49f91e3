-- ===== src/Service/Step/Idle.antt =====
-- A service whose condition does not hold is not started.
use finit.Prelude.{Bool, true, false, ◌≡◌, refl, arith, ℕ}
use finit.Service.Action.{svc_set_state}
use finit.Service.Step.Loop.{service_step-keeps}
use finit.Service.Step.{step_halted, step_waiting, pass_in, pass, service_step}
use finit.Service.Types.{SvcState, halted, dead, waiting, CondState, on, Env, World}

-- The states of a service that has not been started.
abbrev pub is_idle : SvcState → Bool
is_idle halted = true
is_idle dead = true
is_idle waiting = true
is_idle _ = false

abbrev pub is_on : CondState → Bool
is_on on = true
is_on _ = false

pass_in-idle :
    (e : Env) (step : World → World) (s : SvcState) (w : World)
    → is_on e.cond ≡ false
    → w.svc.state ≡ s
    → is_idle s ≡ true
    → is_idle (pass_in e step s w).0.svc.state ≡ true
unfolding pass_in step_halted step_waiting svc_set_state
pass_in-idle e step halted w c s h = ground arith
pass_in-idle e step dead w c s h = ground arith
pass_in-idle e step waiting w c s h = ground arith
pass_in-idle _ _ _ _ _ _ h = cc

pass-idle :
    (e : Env) (step : World → World) (w : World)
    → is_on e.cond ≡ false
    → is_idle w.svc.state ≡ true
    → is_idle (pass e step w).0.svc.state ≡ true
unfolding pass
pass-idle e step w c h = pass_in-idle e step w.svc.state w c refl h

-- A service that is halted, waiting or dead and whose condition is off or in flux is not started by
-- `service_step`, whatever else the environment says.
pub service_step-idle :
    (e : Env) (f : ℕ) (w : World)
    → is_on e.cond ≡ false
    → is_idle w.svc.state ≡ true
    → is_idle (service_step e f w).svc.state ≡ true
service_step-idle e f w c h =
    service_step-keeps (λ s. is_idle s.state ≡ true) e (λ step _ v k. pass-idle e step v c k) f w h
