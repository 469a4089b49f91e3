-- ===== src/Service/Step/Gate.antt =====
-- When a service may be started.
use finit.Prelude.{
  if◌then◌else◌, Option-cases, inl, inr, true, false, ◌≡◌, ◌⊎◌, ◌↔◌, ◌∙◌, ℕ, arith, pos, is_zero,
  none, some, [], ◌∷◌, ◌++◌,
}
use finit.Service.Action.{svc_set_state, service_script, service_start}
use finit.Service.Step.Loop.{pass_at}
use finit.Service.Step.{step_waiting, step_starting, count_crash, pass_in, pass}
use finit.Service.Types.{
  waiting, setup, starting, on, systemd, service, Svc, Env, World, svc_enabled, start_process,
  create_pidfile,
}

-- All that has to hold for a waiting service to be started.
pub record MayStart (e : Env) (s : Svc) : Type 0 where
  pub enabled : svc_enabled e s ≡ true
  pub cond_on : e.cond ≡ on
  pub not_reloading : e.in_reload ≡ false
  pub respawning : e.norespawn ≡ false
  pub no_conflict : e.conflicts ≡ false

waiting_gate_only :
    (e : Env) (w : World)
    → ((step_waiting e w).svc.state ≡ setup) ⊎ ((step_waiting e w).svc.state ≡ starting)
    → w.svc.state ≡ waiting
    → MayStart e w.svc
unfolding step_waiting svc_set_state service_script
waiting_gate_only e w h s = ground arith

waiting_gate_opens :
    (e : Env) (w : World)
    → w.svc.state ≡ waiting
    → MayStart e w.svc
    → (step_waiting e w).svc.state ≡ (if w.svc.pre_script then setup else starting)
unfolding step_waiting svc_set_state service_script
waiting_gate_opens e w s h = ground arith

-- A pass takes a waiting service to its pre: script or to its start exactly when it is enabled, its
-- condition is on, no reload is going on, respawning is not turned off and nothing conflicts.
pub pass_waiting_gate :
    (e : Env) (step : World → World) (w : World)
    → w.svc.state ≡ waiting
    → (((pass e step w).0.svc.state ≡ setup) ⊎ ((pass e step w).0.svc.state ≡ starting))
      ↔ MayStart e w.svc
unfolding pass_in
pass_waiting_gate e step w h =
    rw (pass_at e step w h)
      ((λ m. waiting_gate_only e w m h), (λ m. ground (arith, waiting_gate_opens e w h m)))

start_no_fork : (e : Env) (w : World) → e.fork ≡ none → (service_start e w).1 ≡ false → ⊥
unfolding service_start
start_no_fork e w n h = ground arith

-- A start that succeeds is not forbidden: respawning is on, no run task is waited for, all checks
-- pass, and the service has the process id of the fork.
pub service_start_ok :
    (e : Env) (w : World)
    → (service_start e w).1 ≡ false
    → (p : ℕ) × (e.fork ≡ some p)
      × (e.norespawn ≡ false)
      × (is_zero w.run_block ≡ true)
      × (e.startable ≡ true)
      × ((service_start e w).0.svc.pid ≡ pos p)
unfolding service_start
service_start_ok e w h = elim (Option-cases e.fork) [
  | inl n ↦ absurd (start_no_fork e w n h)
  | inr (p, q) ↦ (p, q, ground arith, ground arith, ground arith, ground arith)
]

-- A daemon whose start is allowed in `e`, but whose readiness socket fails behind the fork.
pub record NotifyFails (e : Env) (s : Svc) : Type 0 where
  pub enabled : svc_enabled e s ≡ true
  pub respawning : e.norespawn ≡ false
  pub startable : e.startable ≡ true
  pub fails : e.notify_ok ≡ false

unready_start :
    (e : Env) (w : World) (p : ℕ)
    → w.svc.type ≡ service
    → w.svc.notify ≡ systemd
    → is_zero w.run_block ≡ true
    → e.fork ≡ some p
    → NotifyFails e w.svc
    → ((step_starting e w).svc.state ≡ w.svc.state)
      × ((step_starting e w).svc.pid ≡ pos p)
      × ((step_starting e w).log ≡ (w.log ++ start_process (pos p) ∷ []) ++ create_pidfile ∷ [])
unfolding step_starting service_start svc_enabled count_crash
unready_start e w p t n r f h = ground arith

-- If the readiness socket of a daemon fails behind the fork, the daemon stays in STARTING, with its
-- process running and no signal sent to it: the next pass forks again.
pub pass_unready :
    (e : Env) (step : World → World) (w : World) (p : ℕ)
    → w.svc.state ≡ starting
    → w.svc.type ≡ service
    → w.svc.notify ≡ systemd
    → is_zero w.run_block ≡ true
    → e.fork ≡ some p
    → NotifyFails e w.svc
    → ((pass e step w).0.svc.state ≡ starting)
      × ((pass e step w).0.svc.pid ≡ pos p)
      × ((pass e step w).0.log ≡ (w.log ++ start_process (pos p) ∷ []) ++ create_pidfile ∷ [])
unfolding pass_in
pass_unready e step w p s t n r f h =
    let (a, b, c) = unready_start e w p t n r f h in rw (pass_at e step w s) (a ∙ s, b, c)
