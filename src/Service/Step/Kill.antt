-- ===== src/Service/Step/Kill.antt =====
-- A stopping service whose process is not collected yet has its SIGKILL scheduled.
use finit.Prelude.{
  Bool, true, false, ◌≡◌, refl, inl, inr, ℕ, arith, ℤ, pos, is_zero, eq_ℤ, ◌<◌, some, Bool-cases,
  ◌&&◌,
}
use finit.Service.Action.Timer.{service_timeout_cancel}
use finit.Service.Action.{
  svc_set_state, arm_kill, service_script, service_run_script, service_ready, service_start,
  service_cleanup, svc_cond_clear, service_notify_stop,
}
use finit.Service.Monitor.{
  monitor_cont, monitor_done, monitor_script, monitor_main, dispatch_lost, service_monitor,
  reload_done, service_reload_apply, send_hup, svc_mark_clean, svc_clean_bootstrap, hup_rc, is_lost,
}
use finit.Service.Stop.{service_stop, stop_live, finish_stop, stop_action}
use finit.Service.Step.Loop.{service_step-keeps}
use finit.Service.Step.{
  block_as, count_crash, to_teardown, to_cleanup, stopped_as, step_halted, step_teardown,
  step_cleanup, step_done, step_stopping, step_setup, step_waiting, step_starting, apply_config,
  announce, running_on, running_alive, crashed, completed, resumed, step_running, paused_on,
  step_paused, pass_in, pass, service_step,
}
use finit.Service.Types.{
  SvcState, halted, done, dead, cleanup, teardown, stopping, setup, paused, waiting, starting,
  running, service_kill, Svc, Env, Script, WaitStatus, exit_ok, World, emit, kill_process, sigcont,
  sigstop, sighup, reload, own, cond_reassert,
}

pub record KillArmed (s : Svc) : Type 0 where
  pub armed :
      s.state ≡ stopping
      → is_zero s.pid ≡ false
      → 0 < s.killdelay
      → s.timer ≡ some (service_kill, s.killdelay)

pub svc_set_state-KillArmed :
    (e : Env) (a : SvcState) (w : World) → KillArmed (svc_set_state e a w).svc
unfolding svc_set_state arm_kill
svc_set_state-KillArmed e a w = ground arith

finish_stop-KillArmed : (e : Env) (p : World × ℤ) → KillArmed (finish_stop e p).0.svc
unfolding finish_stop
finish_stop-KillArmed e p = ground (
  arith,
  svc_set_state-KillArmed e halted (service_cleanup e p.0),
  svc_set_state-KillArmed e stopping p.0,
)

stop_live-KillArmed : (e : Env) (w : World) → KillArmed (stop_live e w).0.svc
unfolding stop_live
stop_live-KillArmed e w = ground (
  arith,
  finish_stop-KillArmed e
      (stop_action e (record w { svc = record (w.svc) { is_starting = false } })),
)

pub service_stop-KillArmed :
    (e : Env) (w : World) → KillArmed w.svc → KillArmed (service_stop e w).0.svc
unfolding service_stop
service_stop-KillArmed e w h =
    let w1 = record w { svc = service_timeout_cancel w.svc } in
    ground
      (arith, stop_live-KillArmed e w1, svc_set_state-KillArmed e halted (service_cleanup e w1))

service_ready-KillArmed :
    (e : Env) (b : Bool) (w : World) → KillArmed w.svc → KillArmed (service_ready e b w).svc
unfolding service_ready
service_ready-KillArmed e b w h = ground arith

step_halted-KillArmed : (e : Env) (w : World) → KillArmed w.svc → KillArmed (step_halted e w).svc
unfolding step_halted svc_set_state arm_kill
step_halted-KillArmed e w h = ground arith

step_teardown-KillArmed :
    (e : Env) (w : World) → w.svc.state ≡ teardown → KillArmed (step_teardown e w).svc
unfolding step_teardown to_cleanup svc_set_state service_script
step_teardown-KillArmed e w h = ground arith

step_cleanup-KillArmed : (e : Env) (w : World) → KillArmed w.svc → KillArmed (step_cleanup e w).svc
unfolding step_cleanup svc_set_state
step_cleanup-KillArmed e w h = ground arith

step_done-KillArmed : (e : Env) (w : World) → w.svc.state ≡ done → KillArmed (step_done e w).svc
unfolding step_done to_teardown svc_set_state service_script
step_done-KillArmed e w h = ground arith

step_stopping-KillArmed :
    (e : Env) (w : World)
    → w.svc.state ≡ stopping
    → KillArmed w.svc
    → KillArmed (step_stopping e w).svc
unfolding step_stopping stopped_as to_teardown to_cleanup svc_set_state service_script
    svc_cond_clear service_notify_stop
step_stopping-KillArmed e w h k = ground arith

step_setup-KillArmed : (e : Env) (w : World) → KillArmed w.svc → KillArmed (step_setup e w).svc
unfolding step_setup
step_setup-KillArmed e w h = ground (
  arith,
  service_stop-KillArmed e w h,
  svc_set_state-KillArmed e stopping w,
  svc_set_state-KillArmed e starting w,
)

step_waiting-KillArmed :
    (e : Env) (w : World) → w.svc.state ≡ waiting → KillArmed (step_waiting e w).svc
unfolding step_waiting svc_set_state service_script
step_waiting-KillArmed e w h = ground arith

service_start_state : (e : Env) (w : World) → (service_start e w).0.svc.state ≡ w.svc.state
unfolding service_start
service_start_state e w = ground arith

step_starting-KillArmed :
    (e : Env) (w : World) → w.svc.state ≡ starting → KillArmed (step_starting e w).svc
unfolding step_starting count_crash svc_set_state
step_starting-KillArmed e w h = ground (arith, service_start_state e w)

crashed-KillArmed : (e : Env) (w : World) → KillArmed (crashed e w).0.svc
unfolding crashed svc_set_state
crashed-KillArmed e w = ground arith

announce-KillArmed : (e : Env) (w : World) → KillArmed w.svc → KillArmed (announce e w).svc
unfolding announce
announce-KillArmed e w h = ground (arith, service_ready-KillArmed e true w h)

module _ (e : Env) (step : World → World)
    (keeps : (w : World) → KillArmed w.svc → KillArmed (step w).svc) where
  monitor_cont-KillArmed :
      (p : ℤ) (w : World) → KillArmed w.svc → KillArmed (monitor_cont e step p w).svc
  unfolding monitor_cont svc_clean_bootstrap
  monitor_cont-KillArmed p w h = elim (Bool-cases (eq_ℤ p w.run_block)) [
    | inl y ↦
        rw y (ground (arith, keeps (record w { svc = svc_mark_clean w.svc; run_block = pos 0 })))
    | inr n ↦ rw n (ground (arith, keeps w h))
  ]

  monitor_done-KillArmed : (p : ℤ) (w : World) → KillArmed (monitor_done e step p w).svc
  unfolding monitor_done
  monitor_done-KillArmed p w = monitor_cont-KillArmed p _ (ground arith)

  monitor_main-KillArmed :
      (p : ℤ) (st : WaitStatus) (w : World) → KillArmed (monitor_main e step p st w).svc
  unfolding monitor_main
  monitor_main-KillArmed p st w = elim (Bool-cases (w.svc.forking && w.svc.is_starting)) [
    | inl y ↦ rw y (monitor_cont-KillArmed p _ (ground arith))
    | inr n ↦ rw n (monitor_done-KillArmed p _)
  ]

  dispatch_lost-KillArmed :
      (s : SvcState) (p : ℤ) (st : WaitStatus) (w : World)
      → KillArmed (dispatch_lost e step s p st w).svc
  unfolding dispatch_lost monitor_script
  dispatch_lost-KillArmed setup p st w = monitor_done-KillArmed p _
  dispatch_lost-KillArmed teardown p st w = monitor_done-KillArmed p _
  dispatch_lost-KillArmed cleanup p st w = monitor_done-KillArmed p _
  dispatch_lost-KillArmed _ p st w = monitor_main-KillArmed p st w

  pub service_monitor-KillArmed :
      (p : ℤ) (st : WaitStatus) (w : World)
      → KillArmed w.svc
      → KillArmed (service_monitor e step p st w).svc
  unfolding service_monitor
  service_monitor-KillArmed p st w h = ground (arith, dispatch_lost-KillArmed w.svc.state p st w)

  reload_done-KillArmed :
      (rc : ℤ) (gone : Bool) (w : World)
      → KillArmed w.svc
      → KillArmed (reload_done e step rc gone w).svc
  unfolding reload_done
  reload_done-KillArmed rc true w h = service_monitor-KillArmed w.svc.pid exit_ok _ (ground arith)
  reload_done-KillArmed rc false w h = ground arith

  service_run_script-KillArmed :
      (sc : Script) (tmo : ℕ) (w : World)
      → KillArmed w.svc
      → KillArmed (service_run_script e sc tmo w).0.svc
  unfolding service_run_script
  service_run_script-KillArmed sc tmo w h = ground arith

  service_reload_apply-KillArmed :
      (w : World) → KillArmed w.svc → KillArmed (service_reload_apply e step w).svc
  unfolding service_reload_apply send_hup
  service_reload_apply-KillArmed w h = ground (
    arith,
    reload_done-KillArmed (service_run_script e reload w.svc.reload_tmo w).1 false
        (service_run_script e reload w.svc.reload_tmo w).0
        (service_run_script-KillArmed reload w.svc.reload_tmo w h),
    reload_done-KillArmed (hup_rc e.kill) (is_lost e.kill) (emit (kill_process w.svc.pid sighup) w)
        h,
  )

  apply_config-KillArmed : (w : World) → KillArmed w.svc → KillArmed (apply_config e step w).svc
  unfolding apply_config
  apply_config-KillArmed w h =
      ground (arith, service_stop-KillArmed e w h, service_reload_apply-KillArmed w h)

  running_on-KillArmed : (w : World) → KillArmed w.svc → KillArmed (running_on e step w).svc
  unfolding running_on
  running_on-KillArmed w h =
      ground (arith, announce-KillArmed e (apply_config e step w) (apply_config-KillArmed w h))

  resumed-KillArmed : (w : World) → KillArmed w.svc → KillArmed (resumed e step w).svc
  unfolding resumed
  resumed-KillArmed w h = ground (
    arith,
    service_stop-KillArmed e w h,
    service_reload_apply-KillArmed w h,
    service_ready-KillArmed e true w h,
    service_ready-KillArmed e true (emit (cond_reassert own) w) h,
  )

  running_alive-KillArmed :
      (w : World) → w.svc.state ≡ running → KillArmed (running_alive e step w).svc
  unfolding running_alive
  running_alive-KillArmed w h =
      let w1 = record w { svc = service_timeout_cancel w.svc } in
      let k : KillArmed w1.svc = ground arith in
      ground (
        arith,
        service_stop-KillArmed e w1 k,
        running_on-KillArmed w1 k,
        svc_set_state-KillArmed e paused (emit (kill_process w1.svc.pid sigstop) w1),
      )

  step_running-KillArmed :
      (w : World)
      → w.svc.state ≡ running
      → KillArmed w.svc
      → KillArmed (step_running e step w).0.svc
  unfolding step_running completed
  step_running-KillArmed w h k = ground (
    arith,
    service_stop-KillArmed e w k,
    crashed-KillArmed e w,
    running_alive-KillArmed w h,
    svc_set_state-KillArmed e stopping w,
  )

  step_paused-KillArmed : (w : World) → KillArmed w.svc → KillArmed (step_paused e step w).svc
  unfolding step_paused paused_on
  step_paused-KillArmed w k =
      let w1 = emit (kill_process w.svc.pid sigcont) w in
      ground (
        arith,
        service_stop-KillArmed e w1 k,
        svc_set_state-KillArmed e waiting (block_as count_crash w),
        resumed-KillArmed (svc_set_state e running w1) (svc_set_state-KillArmed e running w1),
      )

  pass_in-KillArmed :
      (s : SvcState) (w : World)
      → w.svc.state ≡ s
      → KillArmed w.svc
      → KillArmed (pass_in e step s w).0.svc
  unfolding pass_in
  pass_in-KillArmed halted w h k = step_halted-KillArmed e w k
  pass_in-KillArmed teardown w h k = step_teardown-KillArmed e w h
  pass_in-KillArmed cleanup w h k = step_cleanup-KillArmed e w k
  pass_in-KillArmed dead w h k = k
  pass_in-KillArmed done w h k = step_done-KillArmed e w h
  pass_in-KillArmed stopping w h k = step_stopping-KillArmed e w h k
  pass_in-KillArmed setup w h k = step_setup-KillArmed e w k
  pass_in-KillArmed waiting w h k = step_waiting-KillArmed e w h
  pass_in-KillArmed starting w h k = step_starting-KillArmed e w h
  pass_in-KillArmed running w h k = step_running-KillArmed w h k
  pass_in-KillArmed paused w h k = step_paused-KillArmed w k

  pub pass-KillArmed : (w : World) → KillArmed w.svc → KillArmed (pass e step w).0.svc
  unfolding pass
  pass-KillArmed w k = pass_in-KillArmed w.svc.state w refl k

-- `service_step` keeps the SIGKILL of a stopping service scheduled, whatever happens on the way.
pub service_step-KillArmed :
    (e : Env) (f : ℕ) (w : World) → KillArmed w.svc → KillArmed (service_step e f w).svc
service_step-KillArmed e = service_step-keeps KillArmed e (pass-KillArmed e)
