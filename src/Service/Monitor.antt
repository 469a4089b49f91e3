-- ===== src/Service/Monitor.antt =====
-- service.c: collecting a lost process and reloading a running one. Both go on with `service_step`,
-- which stands in Service/Step.antt and is a parameter here.
pub mod Path
use finit.Prelude.{Bool, true, false, not, ◌&&◌, ◌||◌, ℤ, pos, negsuc, is_zero, eq_ℤ, if◌then◌else◌}
use finit.Service.Action.Timer.{service_timeout_cancel}
use finit.Service.Action.{service_cleanup, service_clean_pidfile, service_run_script}
use finit.Service.Types.{
  WaitStatus, exit_ok, SvcState, setup, teardown, cleanup, reload, Svc, KillResult, delivered, lost,
  Env, sighup, sigkill, kill_process, kill_group, touch_pidfile, delete, step_machine, World, emit,
  with_svc, is_process, svc_is_daemon, svc_is_tty, svc_is_runtask, svc_has_pidfile,
}

abbrev pub svc_mark_clean : Svc → Svc
svc_mark_clean s = record s { dirty = false; args_dirty = false }

-- A service that is allowed in runlevel S alone is deleted.
unfoldable pub svc_clean_bootstrap : Env → World → World
svc_clean_bootstrap e w =
    if e.only_bootstrap then emit delete (with_svc w (record (w.svc) { pid = pos 0 })) else w

-- What `kill()` returns for SIGHUP, and whether the process turned out to be gone.
unfoldable pub hup_rc : KillResult → ℤ
hup_rc delivered = pos 0
hup_rc _ = negsuc 0

unfoldable pub is_lost : KillResult → Bool
is_lost lost = true
is_lost _ = false

module _ (e : Env) (step : World → World) where
  -- From `cont:` on.
  unfoldable pub monitor_cont : ℤ → World → World
  monitor_cont pid w =
      let w1 =
        if eq_ℤ pid w.run_block
        then record w { svc = svc_mark_clean w.svc; run_block = pos 0 }
        else w in
      emit step_machine (svc_clean_bootstrap e (step w1))

  -- From `done:` on.
  unfoldable pub monitor_done : ℤ → World → World
  monitor_done pid w = monitor_cont pid (with_svc w (record (w.svc) { pid = pos 0 }))

  -- The process of a script.
  unfoldable pub monitor_script : ℤ → World → World
  monitor_script pid w =
      monitor_done pid
        (emit (kill_group w.svc.pid sigkill) (with_svc w (service_timeout_cancel w.svc)))

  -- The main process.
  unfoldable pub monitor_main : ℤ → WaitStatus → World → World
  monitor_main pid status w0 =
      let w = with_svc w0 (record (w0.svc) { status = status }) in
      if w.svc.forking && w.svc.is_starting
      then (let w1 = service_clean_pidfile e pid w in
          monitor_cont pid (with_svc w1 (record (w1.svc) { oldpid = pid; pid = pos 0 })))
      else (let w1 = emit (kill_group w.svc.pid sigkill) w in
          monitor_done pid (
            if svc_is_daemon w1.svc || svc_is_tty w1.svc
            then service_cleanup e w1
            else if svc_is_runtask w1.svc
            then with_svc w1 (record (w1.svc) { started = status.exited })
            else w1))

  unfoldable pub dispatch_lost : SvcState → ℤ → WaitStatus → World → World
  dispatch_lost setup pid status w =
      monitor_script pid (with_svc w (record (w.svc) { status = status }))
  dispatch_lost teardown pid status w = monitor_script pid w
  dispatch_lost cleanup pid status w = monitor_script pid w
  dispatch_lost _ pid status w = monitor_main pid status w

  -- `service_monitor`, for a process of this service.
  unfoldable pub service_monitor : ℤ → WaitStatus → World → World
  service_monitor pid status w =
      if not (is_process pid) then w else dispatch_lost w.svc.state pid status w

  -- Behind the reload action: the service is starting anew, and a process found lost is collected.
  unfoldable pub reload_done : ℤ → Bool → World → World
  reload_done rc gone w =
      let w1 =
        if is_zero rc
        then (let w2 = with_svc w (record (w.svc) { is_starting = true }) in
            if svc_has_pidfile w2.svc then emit touch_pidfile w2 else w2)
        else w in
      if gone then service_monitor w.svc.pid exit_ok w1 else w1

  unfoldable pub send_hup : World → World
  send_hup w = reload_done (hup_rc e.kill) (is_lost e.kill) (emit (kill_process w.svc.pid sighup) w)

  unfoldable pub service_reload_apply : World → World
  unfolding send_hup
  service_reload_apply w =
      if e.norespawn
      then w
      else if w.svc.reload_script
      then (let p = service_run_script e reload w.svc.reload_tmo w in reload_done p.1 false p.0)
      else if w.svc.sighup
      then (if is_process w.svc.pid
          then send_hup w
          else with_svc w (record (w.svc) { pid = pos 0 }))
      else w
