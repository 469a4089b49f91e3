-- ===== src/Service/Step/Pass.antt =====
-- Each pass of `service_step` follows the state diagram.
use finit.Prelude.{Bool, true, ◌≡◌, refl, ◌⊎◌, inl, inr, ℕ, arith}
use finit.Service.Action.{
  svc_set_state, service_script, service_ready, service_start, svc_cond_clear, service_notify_stop,
}
use finit.Service.Action.Timer.{service_timeout_cancel}
use finit.Service.Monitor.Path.{Leads-refl, service_reload_apply-Leads}
use finit.Service.Stop.{service_stop}
use finit.Service.Stop.Laws.{service_stop-StopsTo}
use finit.Service.Graph.{MovesTo, ◌⟶*◌, ⟶*_trans, MovesTo-path}
use finit.Service.Step.{
  count_crash, to_teardown, to_cleanup, stopped_as, step_halted, step_teardown, step_cleanup,
  step_done, step_stopping, step_setup, step_waiting, step_starting, apply_config, announce,
  running_on, running_alive, crashed, completed, resumed, step_running, paused_on, step_paused,
  pass_in, pass,
}
use finit.Service.Types.{
  SvcState, halted, done, dead, cleanup, teardown, stopping, setup, paused, waiting, starting,
  running, own, cond_reassert, kill_process, sigcont, Env, Script, World, emit,
}

service_script_state :
    (e : Env) (sc : Script) (tmo : ℕ) (w : World)
    → (service_script e sc tmo w).svc.state ≡ w.svc.state
unfolding service_script
service_script_state e sc tmo w = ground arith

service_start_state : (e : Env) (w : World) → (service_start e w).0.svc.state ≡ w.svc.state
unfolding service_start
service_start_state e w = ground arith

step_halted-MovesTo :
    (e : Env) (w : World) → w.svc.state ≡ halted → MovesTo halted (step_halted e w).svc.state
unfolding step_halted svc_set_state
step_halted-MovesTo e w h = ground arith

step_teardown-MovesTo :
    (e : Env) (w : World) → w.svc.state ≡ teardown → MovesTo teardown (step_teardown e w).svc.state
unfolding step_teardown to_cleanup svc_set_state service_script
step_teardown-MovesTo e w h = ground arith

step_cleanup-MovesTo :
    (e : Env) (w : World) → w.svc.state ≡ cleanup → MovesTo cleanup (step_cleanup e w).svc.state
unfolding step_cleanup svc_set_state
step_cleanup-MovesTo e w h = ground arith

step_done-MovesTo :
    (e : Env) (w : World) → w.svc.state ≡ done → MovesTo done (step_done e w).svc.state
unfolding step_done to_teardown svc_set_state service_script
step_done-MovesTo e w h = ground arith

step_stopping-MovesTo :
    (e : Env) (w : World) → w.svc.state ≡ stopping → MovesTo stopping (step_stopping e w).svc.state
unfolding step_stopping stopped_as to_teardown to_cleanup svc_set_state service_script
    svc_cond_clear service_notify_stop
step_stopping-MovesTo e w h = ground arith

step_setup-MovesTo :
    (e : Env) (w : World) → w.svc.state ≡ setup → MovesTo setup (step_setup e w).svc.state
unfolding step_setup svc_set_state
step_setup-MovesTo e w h = ground (arith, service_stop-StopsTo e w)

step_waiting-MovesTo :
    (e : Env) (w : World) → w.svc.state ≡ waiting → MovesTo waiting (step_waiting e w).svc.state
unfolding step_waiting svc_set_state service_script
step_waiting-MovesTo e w h = ground arith

step_starting-MovesTo :
    (e : Env) (w : World) → w.svc.state ≡ starting → MovesTo starting (step_starting e w).svc.state
unfolding step_starting count_crash svc_set_state
step_starting-MovesTo e w h = ground (arith, service_start_state e w)

service_ready_state :
    (e : Env) (b : Bool) (w : World) → (service_ready e b w).svc.state ≡ w.svc.state
unfolding service_ready
service_ready_state e b w = ground arith

announce_state : (e : Env) (w : World) → (announce e w).svc.state ≡ w.svc.state
unfolding announce
announce_state e w = ground (arith, service_ready_state e true w)

-- A stop leads along the diagram, from a state that it is called in.
service_stop-path :
    (e : Env) (w : World) (a : SvcState)
    → (a ≡ running) ⊎ (a ≡ paused)
    → w.svc.state ≡ a
    → a ⟶* (service_stop e w).0.svc.state
service_stop-path e w a ra h = MovesTo-path a _ (ground (arith, service_stop-StopsTo e w))

crashed-MovesTo :
    (e : Env) (w : World) → w.svc.state ≡ running → MovesTo running (crashed e w).0.svc.state
unfolding crashed svc_set_state
crashed-MovesTo e w h = ground arith

module _ (e : Env) (step : World → World)
    (steps : (w : World) → w.svc.state ⟶* (step w).svc.state) where
  apply_config-path :
      (w : World) → w.svc.state ≡ running → running ⟶* (apply_config e step w).svc.state
  unfolding apply_config
  apply_config-path w h = ground (
    arith,
    service_stop-path e w running (inl refl) h,
    service_reload_apply-Leads e step steps running w h,
    Leads-refl running w h,
  )

  running_on-path : (w : World) → w.svc.state ≡ running → running ⟶* (running_on e step w).svc.state
  unfolding running_on
  running_on-path w h = ground (
    arith,
    apply_config-path w h,
    announce_state e (apply_config e step w),
    Leads-refl running w h,
  )

  resumed-path : (w : World) → w.svc.state ≡ running → running ⟶* (resumed e step w).svc.state
  unfolding resumed
  resumed-path w h = ground (
    arith,
    service_stop-path e w running (inl refl) h,
    service_reload_apply-Leads e step steps running w h,
    Leads-refl running w h,
    service_ready_state e true w,
    service_ready_state e true (emit (cond_reassert own) w),
  )

  running_alive-path :
      (w : World) → w.svc.state ≡ running → running ⟶* (running_alive e step w).svc.state
  unfolding running_alive svc_set_state
  running_alive-path w h =
      let w1 = record w { svc = service_timeout_cancel w.svc } in
      ground (
        arith,
        service_stop-path e w1 running (inl refl) h,
        running_on-path w1 h,
        MovesTo-path running paused (inr refl),
      )

  step_running-path :
      (w : World) → w.svc.state ≡ running → running ⟶* (step_running e step w).0.svc.state
  unfolding step_running completed svc_set_state
  step_running-path w h = ground (
    arith,
    service_stop-path e w running (inl refl) h,
    MovesTo-path running (crashed e w).0.svc.state (crashed-MovesTo e w h),
    running_alive-path w h,
    MovesTo-path running stopping (inr refl),
  )

  paused_on-path : (w : World) → paused ⟶* (paused_on e step w).svc.state
  unfolding paused_on svc_set_state
  paused_on-path w = ⟶*_trans (MovesTo-path paused running (inr refl)) (resumed-path _ refl)

  step_paused-path : (w : World) → w.svc.state ≡ paused → paused ⟶* (step_paused e step w).svc.state
  unfolding step_paused svc_set_state
  step_paused-path w h = ground (
    arith,
    service_stop-path e (emit (kill_process w.svc.pid sigcont) w) paused (inr refl) h,
    MovesTo-path paused waiting (inr refl),
    paused_on-path w,
    Leads-refl paused w h,
  )

  pass_in-path :
      (s : SvcState) (w : World) → w.svc.state ≡ s → s ⟶* (pass_in e step s w).0.svc.state
  unfolding pass_in
  pass_in-path halted w h = MovesTo-path halted _ (step_halted-MovesTo e w h)
  pass_in-path teardown w h = MovesTo-path teardown _ (step_teardown-MovesTo e w h)
  pass_in-path cleanup w h = MovesTo-path cleanup _ (step_cleanup-MovesTo e w h)
  pass_in-path dead w h = Leads-refl dead w h
  pass_in-path done w h = MovesTo-path done _ (step_done-MovesTo e w h)
  pass_in-path stopping w h = MovesTo-path stopping _ (step_stopping-MovesTo e w h)
  pass_in-path setup w h = MovesTo-path setup _ (step_setup-MovesTo e w h)
  pass_in-path waiting w h = MovesTo-path waiting _ (step_waiting-MovesTo e w h)
  pass_in-path starting w h = MovesTo-path starting _ (step_starting-MovesTo e w h)
  pass_in-path running w h = step_running-path w h
  pass_in-path paused w h = step_paused-path w h

  -- One pass leads along the diagram if the nested step does.
  pub pass-path : (w : World) → w.svc.state ⟶* (pass e step w).0.svc.state
  unfolding pass
  pass-path w = pass_in-path w.svc.state w refl

module _ (e : Env) (step : World → World) where
  pass_in-MovesTo :
      (s : SvcState) (w : World)
      → w.svc.state ≡ s
      → ¬ (s ≡ running)
      → ¬ (s ≡ paused)
      → MovesTo s (pass_in e step s w).0.svc.state
  unfolding pass_in
  pass_in-MovesTo halted w h r p = step_halted-MovesTo e w h
  pass_in-MovesTo teardown w h r p = step_teardown-MovesTo e w h
  pass_in-MovesTo cleanup w h r p = step_cleanup-MovesTo e w h
  pass_in-MovesTo dead w h r p = inl h
  pass_in-MovesTo done w h r p = step_done-MovesTo e w h
  pass_in-MovesTo stopping w h r p = step_stopping-MovesTo e w h
  pass_in-MovesTo setup w h r p = step_setup-MovesTo e w h
  pass_in-MovesTo waiting w h r p = step_waiting-MovesTo e w h
  pass_in-MovesTo starting w h r p = step_starting-MovesTo e w h
  pass_in-MovesTo running w h r p = absurd (r refl)
  pass_in-MovesTo paused w h r p = absurd (p refl)

  -- One pass of `service_step` leaves a service that is neither running nor paused in its state, or
  -- takes it along one edge of the diagram, in any environment: a halted one to waiting or dead,
  -- a waiting one to halted, setup or starting, one in setup to halted, stopping or
  -- starting, a starting one to halted or running, a stopping one to teardown, cleanup, halted
  -- or done, one in teardown to cleanup or halted, one in cleanup to halted, one that is done to
  -- teardown, halted or waiting, and a dead one nowhere.
  pub pass-MovesTo :
      (w : World)
      → ¬ (w.svc.state ≡ running)
      → ¬ (w.svc.state ≡ paused)
      → MovesTo w.svc.state (pass e step w).0.svc.state
  unfolding pass
  pass-MovesTo w r p = pass_in-MovesTo w.svc.state w refl r p
