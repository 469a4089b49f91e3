-- ===== src/Service/Control.antt =====
-- service.c: what drives a service from outside of `service_step`: the user's requests, the timers,
-- the pidfile plugin, and the sweeps over all run/tasks and daemons. `fuel` is that of
-- `service_step`.
pub mod Restart
pub mod Disarm
use finit.Prelude.{
  ℕ, Bool, true, false, not, ◌&&◌, ◌||◌, ℤ, pos, negsuc, leb_ℤ, eq_ℤ, half, char_inc, char_dec, max,
  if◌then◌else◌,
}
use finit.Service.Action.Timer.{service_timeout_after, service_timeout_cancel}
use finit.Service.Action.{set_block, svc_cond_clear, svc_set_state, service_ready, service_script}
use finit.Service.Monitor.{service_monitor}
use finit.Service.Step.{service_step}
use finit.Service.Stop.{service_stop}
use finit.Service.Types.{
  halted, done, running, Block, unblocked, user, crashing, restarting, reboot, script, ignore,
  no_notify, by_pid, OnCrash, service_retry, post, Svc, Env, exit_ok, sigkill, kill_process,
  kill_group, request_reboot, World, emit, with_svc, same_state, is_process, svc_is_daemon,
  svc_is_runtask, svc_is_noreload, svc_is_blocked,
}

abbrev pub on_svc : (Svc → Svc) → World → World
on_svc f w = with_svc w (f w.svc)

abbrev pub is_restarting : Block → Bool
is_restarting b = elim b [ restarting ↦ true | _ ↦ false ]

-- The action of a service that keeps crashing.
unfoldable pub crash_action : Env → OnCrash → World → World
crash_action e reboot w = emit request_reboot w
crash_action e script w = if w.svc.post_script then service_script e post w.svc.post_tmo w else w
crash_action e ignore w = w

-- It has used up its restarts.
unfoldable pub give_up : Env → ℕ → World → World
give_up e fuel w0 =
    let w =
      on_svc
        (λ s. record s { block = crashing; restart_cnt = pos 0; restart_tmo = s.restart_saved })
        w0 in
    service_step e fuel (crash_action e w.svc.oncrash_action w)

-- The counter and the delay of the next attempt.
unfoldable pub next_attempt : Svc → Svc
next_attempt s =
    let n = char_inc s.restart_cnt in
    let saved = if eq_ℤ n (pos 1) then s.restart_tmo else s.restart_saved in
    let timeout : ℕ = if leb_ℤ n (half s.restart_max) then 2000 else 5000 in
    record s {
      block = unblocked;
      restart_cnt = n;
      restart_saved = saved;
      restart_tmo = max s.restart_tmo timeout;
    }

unfoldable pub try_again : Env → ℕ → World → World
try_again e fuel w0 =
    let w = service_step e fuel (on_svc next_attempt w0) in
    on_svc (service_timeout_after w.svc.restart_tmo service_retry) w

-- `restart_max` attempts are made, or any number if it is -1.
unfoldable pub exhausted : Svc → Bool
exhausted s = not (eq_ℤ s.restart_max (negsuc 0)) && leb_ℤ s.restart_max s.restart_cnt

unfoldable pub retry : Env → ℕ → World → World
retry e fuel w0 =
    let w = on_svc service_timeout_cancel w0 in
    if e.norespawn
    then w
    else if w.svc.respawn
    then service_step e fuel (on_svc (set_block unblocked) w)
    else if not (same_state w.svc.state halted) || not (is_restarting w.svc.block)
    then svc_set_state e running (on_svc (λ s. record s { restart_tmo = s.restart_saved }) w)
    else if exhausted w.svc
    then give_up e fuel w
    else try_again e fuel w

-- The kill timer of a stopping service.
unfoldable pub kill_now : Env → ℕ → World → World
kill_now e fuel w0 =
    let w = on_svc service_timeout_cancel w0 in
    if not (is_process w.svc.pid)
    then w
    else if not e.has_name
    then service_monitor e (service_step e fuel) w.svc.pid exit_ok w
    else emit (kill_process w.svc.pid sigkill) w

-- A stop:, reload: or ready: script is collected: `service_script_del` for a script of this service.
unfoldable pub service_script_del : ℤ → World → World
service_script_del pid w = emit (kill_group pid sigkill) (on_svc service_timeout_cancel w)

-- The pidfile plugin reports that a forking service is up.
unfoldable pub service_forked : Env → World → World
service_forked e w =
    svc_set_state e running (on_svc (λ s. set_block unblocked (service_timeout_cancel s)) w)

-- The user's requests, for the service itself; the sweep over all others is left out.
unfoldable pub service_stop_now : Env → ℕ → World → World
service_stop_now e fuel w =
    service_step e fuel (on_svc (λ s. set_block user (service_timeout_cancel s)) w)

unfoldable pub service_start_now : Env → ℕ → World → World
service_start_now e fuel w =
    service_step e fuel (on_svc (λ s. set_block unblocked (service_timeout_cancel s)) w)

unfoldable pub service_restart_now : Env → ℕ → World → World
unfolding service_start_now
service_restart_now e fuel w =
    if not (same_state w.svc.state running)
    then service_start_now e fuel w
    else service_step e fuel (service_stop e (on_svc service_timeout_cancel w)).0

-- A service that has to be stopped for the reload drops its conditions at once.
drop_conds : Env → World → World
drop_conds e w0 =
    let w = svc_cond_clear w0 in
    elim (w.svc.notify) [
      | by_pid ↦ service_ready e false w
      | no_notify ↦ service_ready e false w
      | _ ↦ w
    ]

unfoldable pub service_reload : Env → ℕ → World → World
unfolding drop_conds
service_reload e fuel w0 =
    let w =
      if svc_is_blocked w0.svc
      then on_svc (set_block unblocked) w0
      else on_svc service_timeout_cancel w0 in
    let w1 = if svc_is_noreload w.svc then drop_conds e w else w in
    service_step e fuel (on_svc (λ s. record s { dirty = true }) w1)

-- One round of `service_runtask_clean`.
unfoldable pub runtask_clean : Env → ℕ → World → World
runtask_clean e fuel w =
    if not (svc_is_runtask w.svc)
    then w
    else if w.svc.remain && same_state w.svc.state done
    then (if e.in_runlevel && not w.svc.dirty
        then w
        else service_step e fuel (on_svc (λ s. record s { once = 0; block = user }) w))
    else if e.in_reload
    then w
    else (let w1 = on_svc (λ s. record s { once = if s.sighup then 1 else 0 }) w in
        if same_state w1.svc.state done then svc_set_state e halted w1 else w1)

-- One round of `service_interval_cb`: a running daemon's instability index ages.
unfoldable pub age : Svc → Svc
age s =
    if svc_is_daemon s && same_state s.state running && not (leb_ℤ s.restart_cnt (pos 0))
    then record s { restart_cnt = char_dec s.restart_cnt }
    else s

-- `svc_mark`: a protected service is never removed.
unfoldable pub svc_mark : Svc → Svc
svc_mark s = if s.protect then s else record s { removed = true }
