-- ===== src/Service/Control/Restart.antt =====
-- The restarts of a crashing service.
use finit.Prelude.{true, false, ◌≡◌, ◌∙◌, ℕ, ◌≤◌, ◌<◌, arith, ℤ, pos, negsuc, suc}
use finit.Service.Action.{service_script}
use finit.Service.Control.{retry, give_up, exhausted, next_attempt, crash_action}
use finit.Service.Action.Timer.{service_timeout_cancel}
use finit.Service.Step.Loop.{pass_at}
use finit.Service.Step.{
  service_step, service_step_from, after_pass, finish_step, pass_in, step_halted,
}
use finit.Service.Types.{halted, restarting, crashing, Svc, Env, World, svc_enabled}

-- The values of a signed `char`.
abbrev pub IsChar : ℤ → Type 0
IsChar (pos n) = n ≤ 127
IsChar (negsuc n) = n ≤ 127

-- The restart counter stays a `char`, the delay never falls and is at least two seconds, and the
-- service may run again.
pub next_attempt_bounds :
    (s : Svc)
    → IsChar s.restart_cnt
    → IsChar (next_attempt s).restart_cnt
      × (s.restart_tmo ≤ (next_attempt s).restart_tmo)
      × (2000 ≤ (next_attempt s).restart_tmo)
unfolding next_attempt
next_attempt_bounds s h = ground arith

-- With a limit above 127 the restarts are never used up, since the counter is a `char`.
pub not-exhausted :
    (s : Svc) (m : ℕ) → IsChar s.restart_cnt → s.restart_max ≡ pos m → 127 < m → exhausted s ≡ false
unfolding exhausted
not-exhausted s m h e l = ground arith

-- A halted service that crashed for good is left alone by `service_step`.
service_step_crashed :
    (e : Env) (f : ℕ) (w : World)
    → w.svc.state ≡ halted
    → w.svc.block ≡ crashing
    → w.svc.removed ≡ false
    → (service_step e (suc f) w).svc ≡ w.svc
unfolding service_step service_step_from after_pass finish_step pass_in step_halted svc_enabled
service_step_crashed e f w h b r = rw (pass_at e (service_step_from e f false) w h) (ground arith)

crash_action_keeps :
    (e : Env) (w : World)
    → ((crash_action e w.svc.oncrash_action w).svc.state ≡ w.svc.state)
      × ((crash_action e w.svc.oncrash_action w).svc.block ≡ w.svc.block)
      × ((crash_action e w.svc.oncrash_action w).svc.removed ≡ w.svc.removed)
      × ((crash_action e w.svc.oncrash_action w).svc.restart_cnt ≡ w.svc.restart_cnt)
unfolding crash_action service_script
crash_action_keeps e w = ground arith

give_up_lem :
    (e : Env) (f : ℕ) (w : World)
    → w.svc.state ≡ halted
    → w.svc.removed ≡ false
    → ((give_up e (suc f) w).svc.state ≡ halted)
      × ((give_up e (suc f) w).svc.block ≡ crashing)
      × ((give_up e (suc f) w).svc.restart_cnt ≡ pos 0)
unfolding give_up
give_up_lem e f w0 h r =
    let w = record w0 {
      svc = record (w0.svc) {
        block = crashing;
        restart_cnt = pos 0;
        restart_tmo = w0.svc.restart_saved;
      };
    } in
    let k = crash_action_keeps e w in
    ground (
      arith,
      k,
      service_step_crashed e f (crash_action e w.svc.oncrash_action w) (k.0 ∙ h) (k.1) (k.2 ∙ r),
    )

-- The retry of a crashed service that has used up its restarts marks it as crashing, resets the
-- counter, and leaves it halted, whatever its crash action is.
pub retry_gives_up :
    (e : Env) (f : ℕ) (w : World)
    → e.norespawn ≡ false
    → w.svc.respawn ≡ false
    → w.svc.removed ≡ false
    → w.svc.state ≡ halted
    → w.svc.block ≡ restarting
    → exhausted w.svc ≡ true
    → ((retry e (suc f) w).svc.state ≡ halted)
      × ((retry e (suc f) w).svc.block ≡ crashing)
      × ((retry e (suc f) w).svc.restart_cnt ≡ pos 0)
unfolding retry exhausted
retry_gives_up e f w n p r h b x =
    ground (arith, give_up_lem e f (record w { svc = service_timeout_cancel w.svc }) h r)
