-- ===== src/Service/Stop.antt =====
-- service.c: stopping a service.
pub mod Laws
use finit.Prelude.{
  Bool, true, false, not, ◌&&◌, ℤ, pos, negsuc, leb, eq_ℤ, if◌then◌else◌, none, some,
}
use finit.Service.Action.Timer.{service_timeout_cancel}
use finit.Service.Action.{service_cleanup, service_run_script, svc_set_state}
use finit.Service.Types.{
  halted, stopping, stop, Svc, KillResult, delivered, lost, denied, Env, sighalt, kill_process,
  sysv_stop, World, emit, with_svc, rank, is_process, svc_is_sysv,
}

-- What `kill()` returns, with 1 for a process that is gone.
kill_rc : KillResult → ℤ
kill_rc delivered = pos 0
kill_rc lost = pos 1
kill_rc denied = negsuc 0

-- `service_cleanup` and HALTED, or STOPPING, by the return code of the stop action.
unfoldable pub finish_stop : Env → World × ℤ → World × ℤ
finish_stop e (w, rc) = (
  if eq_ℤ rc (pos 1)
      then svc_set_state e halted (service_cleanup e w)
      else svc_set_state e stopping w,
  rc,
)

-- The stop: script, the signal, or `CMD stop`.
unfoldable pub stop_action : Env → World → World × ℤ
unfolding kill_rc
stop_action e w =
    if w.svc.stop_script
    then service_run_script e stop w.svc.stop_tmo w
    else if not (svc_is_sysv w.svc)
    then (if is_process w.svc.pid
        then (emit (kill_process w.svc.pid sighalt) w, kill_rc e.kill)
        else (svc_set_state e halted (service_cleanup e w), pos 0))
    else elim (e.fork) [ none ↦ (w, pos 1) | some _ ↦ (emit sysv_stop w, pos 0) ]

-- The part of `service_stop` behind the checks of the process.
unfoldable pub stop_live : Env → World → World × ℤ
stop_live e w0 =
    let w = with_svc w0 (record (w0.svc) { is_starting = false }) in
    if is_process w.svc.pid && not e.alive
    then (with_svc w (record (w.svc) { pid = pos 0 }), pos 0)
    else finish_stop e (stop_action e w)

unfoldable pub service_stop : Env → World → World × ℤ
service_stop e w0 =
    if leb (rank w0.svc.state) (rank stopping)
    then (w0, pos 0)
    else (let w = with_svc w0 (service_timeout_cancel w0.svc) in
        if not w.svc.stop_script && not (svc_is_sysv w.svc)
        then (if not (is_process w.svc.pid)
            then (w, pos 1)
            else if not e.has_name
            then (svc_set_state e halted (service_cleanup e w), pos 0)
            else stop_live e w)
        else stop_live e w)
