-- ===== src/Service/Monitor/Path.antt =====
-- Reloading or collecting a service changes its state only through the step that follows.
use finit.Prelude.{subst, ℕ, Bool, true, false, Bool-cases, inl, inr, ◌&&◌, ◌≡◌, ◌∙◌, arith, ℤ}
use finit.Service.Action.{service_cleanup, service_clean_pidfile, service_run_script}
use finit.Service.Monitor.{
  svc_clean_bootstrap, monitor_cont, monitor_done, monitor_script, monitor_main, dispatch_lost,
  service_monitor, reload_done, hup_rc, is_lost, service_reload_apply,
}
use finit.Service.Graph.{◌⟶*◌, here}
use finit.Service.Types.{
  SvcState, setup, teardown, cleanup, reload, sighup, kill_process, Env, Script, WaitStatus,
  exit_ok, sigkill, kill_group, World, emit, with_svc, is_process,
}

pub service_cleanup_state : (e : Env) (w : World) → (service_cleanup e w).svc.state ≡ w.svc.state
unfolding service_cleanup
service_cleanup_state e w = ground arith

pub service_run_script_state :
    (e : Env) (sc : Script) (tmo : ℕ) (w : World)
    → (service_run_script e sc tmo w).0.svc.state ≡ w.svc.state
unfolding service_run_script
service_run_script_state e sc tmo w = ground arith

svc_clean_bootstrap_state :
    (e : Env) (w : World) → (svc_clean_bootstrap e w).svc.state ≡ w.svc.state
unfolding svc_clean_bootstrap
svc_clean_bootstrap_state e w = ground arith

-- The world in which `service_monitor` cleans up a daemon.
abbrev monitored : ℤ → WaitStatus → World → World
monitored p st w0 =
    let w = with_svc w0 (record (w0.svc) { status = st }) in emit (kill_group w.svc.pid sigkill) w

-- The state that a call leaves behind is reached from `a`.
abbrev pub Leads : SvcState → World → Type 0
Leads a w = a ⟶* w.svc.state

pub Leads-refl : (a : SvcState) (w : World) → w.svc.state ≡ a → Leads a w
Leads-refl a w h = subst (λ x. x ⟶* w.svc.state) h here

module _ (e : Env) (step : World → World)
    (steps : (w : World) → w.svc.state ⟶* (step w).svc.state) where
  steps_from : (a : SvcState) (w : World) → w.svc.state ≡ a → Leads a (step w)
  steps_from a w h = subst (λ x. x ⟶* (step w).svc.state) h (steps w)

  monitor_cont-Leads :
      (a : SvcState) (p : ℤ) (w : World) → w.svc.state ≡ a → Leads a (monitor_cont e step p w)
  unfolding monitor_cont
  monitor_cont-Leads a p w h = rw svc_clean_bootstrap_state (steps_from a _ (ground arith))

  monitor_done-Leads :
      (a : SvcState) (p : ℤ) (w : World) → w.svc.state ≡ a → Leads a (monitor_done e step p w)
  unfolding monitor_done
  monitor_done-Leads a p w h = monitor_cont-Leads a p _ h

  monitor_script-Leads :
      (a : SvcState) (p : ℤ) (w : World) → w.svc.state ≡ a → Leads a (monitor_script e step p w)
  unfolding monitor_script
  monitor_script-Leads a p w h = monitor_done-Leads a p _ h

  monitor_main-Leads :
      (a : SvcState) (p : ℤ) (st : WaitStatus) (w : World)
      → w.svc.state ≡ a
      → Leads a (monitor_main e step p st w)
  unfolding monitor_main service_clean_pidfile
  monitor_main-Leads a p st w h = elim (Bool-cases (w.svc.forking && w.svc.is_starting)) [
    | inl y ↦ rw y (monitor_cont-Leads a p _ (ground arith))
    | inr n ↦
        rw n (monitor_done-Leads a p _ (ground (arith, service_cleanup_state e (monitored p st w))))
  ]

  dispatch_lost-Leads :
      (s a : SvcState) (p : ℤ) (st : WaitStatus) (w : World)
      → w.svc.state ≡ a
      → Leads a (dispatch_lost e step s p st w)
  unfolding dispatch_lost
  dispatch_lost-Leads setup a p st w h = monitor_script-Leads a p _ h
  dispatch_lost-Leads teardown a p st w h = monitor_script-Leads a p w h
  dispatch_lost-Leads cleanup a p st w h = monitor_script-Leads a p w h
  dispatch_lost-Leads _ a p st w h = monitor_main-Leads a p st w h

  pub service_monitor-Leads :
      (a : SvcState) (p : ℤ) (st : WaitStatus) (w : World)
      → w.svc.state ≡ a
      → Leads a (service_monitor e step p st w)
  unfolding service_monitor
  service_monitor-Leads a p st w h = elim (Bool-cases (is_process p)) [
    | inl y ↦ rw y (dispatch_lost-Leads w.svc.state a p st w h)
    | inr n ↦ rw n (subst (λ x. x ⟶* w.svc.state) h here)
  ]

  reload_done-Leads :
      (a : SvcState) (rc : ℤ) (gone : Bool) (w : World)
      → w.svc.state ≡ a
      → Leads a (reload_done e step rc gone w)
  unfolding reload_done
  reload_done-Leads a rc true w h = service_monitor-Leads a w.svc.pid exit_ok _ (ground arith)
  reload_done-Leads a rc false w h = Leads-refl a (reload_done e step rc false w) (ground arith)

  -- A reload leads from `a` to what the nested step makes of it.
  pub service_reload_apply-Leads :
      (a : SvcState) (w : World) → w.svc.state ≡ a → Leads a (service_reload_apply e step w)
  unfolding service_reload_apply
  service_reload_apply-Leads a w h = ground (
    arith,
    reload_done-Leads a (service_run_script e reload w.svc.reload_tmo w).1 false
        (service_run_script e reload w.svc.reload_tmo w).0
        (service_run_script_state e reload w.svc.reload_tmo w ∙ h),
    reload_done-Leads a (hup_rc e.kill) (is_lost e.kill) (emit (kill_process w.svc.pid sighup) w) h,
    Leads-refl a w h,
  )
