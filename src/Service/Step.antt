-- ===== src/Service/Step.antt =====
-- service.c: `service_step`. One pass is the switch on the state; the source repeats it while the
-- state changes.
pub mod Loop
pub mod Idle
pub mod Gate
pub mod Pass
pub mod Kill
pub mod Path
use finit.Prelude.{
  ℕ, zero, suc, Bool, true, false, not, ◌&&◌, ◌||◌, ℤ, pos, is_zero, char_inc, ◌+◌, ◌%◌, ◌^◌,
  Option, none, some, if◌then◌else◌,
}
use finit.Service.Action.Timer.{service_timeout_after, service_timeout_cancel}
use finit.Service.Action.{
  set_block, svc_cond_clear, svc_set_state, service_ready, service_script, service_notify_stop,
  service_start,
}
use finit.Service.Monitor.{svc_mark_clean, service_reload_apply}
use finit.Service.Stop.{service_stop}
use finit.Service.Types.{
  SvcType, free, service, task, run, tty, sysv, SvcState, halted, done, dead, cleanup, teardown,
  stopping, setup, paused, waiting, starting, running, unblocked, user, crashing, restarting,
  conflict, no_notify, by_pid, off, flux, on, service_retry, pre, post, clean, Svc, Env, own,
  sigstop, sigcont, kill_process, cond_reassert, schedule_work, World, emit, with_svc, same_state,
  is_process, svc_is_daemon, svc_is_tty, svc_is_runtask, svc_is_noreload, svc_is_missing,
  svc_is_conflict, svc_is_stopped, svc_enabled,
}

abbrev pub block_as : (Svc → Svc) → World → World
block_as f w = with_svc w (f w.svc)

unfoldable pub count_crash : Svc → Svc
count_crash s = record s { restart_cnt = char_inc s.restart_cnt }

unfoldable pub to_teardown : Env → World → World
to_teardown e w = service_script e post w.svc.post_tmo (svc_set_state e teardown w)

unfoldable pub to_cleanup : Env → World → World
to_cleanup e w = service_script e clean w.svc.cleanup_tmo (svc_set_state e cleanup w)

unfoldable pub step_halted : Env → World → World
step_halted e w =
    if svc_enabled e w.svc
    then svc_set_state e waiting w
    else if w.svc.removed
    then svc_set_state e dead w
    else if svc_is_conflict w.svc && not e.conflicts
    then block_as (set_block unblocked) w
    else w

unfoldable pub step_teardown : Env → World → World
step_teardown e w0 =
    if not (is_zero w0.svc.pid)
    then w0
    else (let w = block_as service_timeout_cancel w0 in
        if w.svc.removed && w.svc.cleanup_script
        then to_cleanup e w
        else svc_set_state e halted (if w.svc.remain then block_as (set_block unblocked) w else w))

unfoldable pub step_cleanup : Env → World → World
step_cleanup e w = if is_zero w.svc.pid then svc_set_state e halted w else w

unfoldable pub step_done : Env → World → World
step_done e w =
    if svc_is_runtask w.svc && w.svc.remain && svc_is_stopped w.svc
    then (if w.svc.post_script then to_teardown e w else svc_set_state e halted w)
    else if w.svc.dirty
    then svc_set_state e halted w
    else if svc_is_runtask w.svc && w.svc.manual && svc_enabled e w.svc
    then svc_set_state e waiting w
    else w

-- The switch on the type in SVC_STOPPING_STATE.
unfoldable pub stopped_as : Env → SvcType → World → World
stopped_as e free w = w
stopped_as e task w = svc_set_state e done (if w.svc.manual then block_as (set_block user) w else w)
stopped_as e run w = svc_set_state e done (if w.svc.manual then block_as (set_block user) w else w)
stopped_as e _ w =
    if w.svc.post_script
    then to_teardown e w
    else if w.svc.removed && w.svc.cleanup_script
    then to_cleanup e w
    else svc_set_state e halted w

unfoldable pub step_stopping : Env → World → World
step_stopping e w =
    if is_zero w.svc.pid
    then stopped_as e w.svc.type
        (svc_cond_clear (block_as service_timeout_cancel (service_notify_stop w)))
    else w

unfoldable pub step_setup : Env → World → World
step_setup e w =
    if not (svc_enabled e w.svc)
    then (service_stop e w).0
    else if not (is_zero w.svc.pid)
    then w
    else if not w.svc.status.exited || not (is_zero (pos w.svc.status.code))
    then block_as (set_block crashing) (svc_set_state e stopping w)
    else svc_set_state e starting w

unfoldable pub step_waiting : Env → World → World
step_waiting e w = if not (svc_enabled e w.svc) then svc_set_state e halted w else elim (e.cond) [
  | on ↦
      if e.in_reload
      then w
      else if e.norespawn
      then w
      else if e.conflicts
      then svc_set_state e halted (block_as (set_block conflict) w)
      else if w.svc.pre_script
      then service_script e pre w.svc.pre_tmo (svc_set_state e setup w)
      else svc_set_state e starting w
  | _ ↦ w
]

unfoldable pub step_starting : Env → World → World
step_starting e w =
    if not (svc_enabled e w.svc)
    then svc_set_state e halted w
    else (let (w1, failed) = service_start e w in
        if failed
        then (if not (is_zero w1.run_block)
            then w1
            else if svc_is_missing w1.svc
            then svc_set_state e halted w1
            else block_as count_crash w1)
        else svc_set_state e running (block_as svc_mark_clean w1))

-- A daemon or terminal that was found dead. The flag is set for `goto done`.
unfoldable pub crashed : Env → World → World × Bool
unfolding service_timeout_after
crashed e w0 =
    let w = svc_set_state e halted (block_as (set_block restarting) w0) in
    if not w.svc.respawn || (w.svc.status.exited && not (is_zero (pos w.svc.status.code)))
    then (block_as (service_timeout_after w.svc.restart_tmo service_retry) w, true)
    else (block_as (set_block unblocked) w, false)

-- `once` is a char that is only tested for 0; `restart_tot` is an unsigned int.
unfoldable pub completed : Env → World → World
completed e w =
    block_as
      (λ s. record s { restart_tot = (s.restart_tot + 1) % 2 ^ 32; once = (s.once + 1) % 256 })
      (svc_set_state e stopping w)

-- It does not support SIGHUP, or its arguments were modified.
abbrev pub needs_restart : Svc → Bool
needs_restart s = svc_is_noreload s || s.args_dirty

-- A service that does not notify is ready once it runs.
unfoldable pub announce : Env → World → World
announce e w = elim (w.svc.notify) [ no_notify ↦ service_ready e true w | _ ↦ w ]

module _ (e : Env) (step : World → World) where
  -- A modified service is stopped, to be started anew, or reloaded.
  unfoldable pub apply_config : World → World
  apply_config w =
      if w.svc.dirty
      then block_as svc_mark_clean
          (if needs_restart w.svc then (service_stop e w).0 else service_reload_apply e step w)
      else w

  -- COND_ON in SVC_RUNNING_STATE.
  unfoldable pub running_on : World → World
  running_on w =
      if w.svc.dirty && not (needs_restart w.svc) && e.in_reload
      then w
      else announce e (apply_config w)

  unfoldable pub running_alive : World → World
  running_alive w0 =
      let w = block_as service_timeout_cancel w0 in
      elim (e.cond) [
        | off ↦ (service_stop e w).0
        | flux ↦ svc_set_state e paused (emit (kill_process w.svc.pid sigstop) w)
        | on ↦ running_on w
      ]

  unfoldable pub step_running : World → World × Bool
  step_running w =
      if not (svc_enabled e w.svc)
      then ((service_stop e w).0, false)
      else if is_zero w.svc.pid && (svc_is_daemon w.svc || svc_is_tty w.svc)
      then crashed e w
      else if is_zero w.svc.pid && svc_is_runtask w.svc
      then (completed e w, false)
      else (running_alive w, false)

  -- A service that is running again is reloaded with what it depends on, or is ready again.
  unfoldable pub resumed : World → World
  resumed w =
      if w.svc.flux_reload && not w.svc.dirty
      then (if svc_is_noreload w.svc then (service_stop e w).0 else service_reload_apply e step w)
      else if not w.svc.dirty
      then service_ready e true
          (elim (w.svc.notify) [ by_pid ↦ emit (cond_reassert own) w | _ ↦ w ])
      else w

  -- COND_ON in SVC_PAUSED_STATE.
  unfoldable pub paused_on : World → World
  paused_on w = resumed (svc_set_state e running (emit (kill_process w.svc.pid sigcont) w))

  unfoldable pub step_paused : World → World
  step_paused w =
      if not (svc_enabled e w.svc)
      then (service_stop e (emit (kill_process w.svc.pid sigcont) w)).0
      else if is_zero w.svc.pid
      then svc_set_state e waiting (block_as count_crash w)
      else elim (e.cond) [
        | on ↦ paused_on w
        | off ↦ (service_stop e (emit (kill_process w.svc.pid sigcont) w)).0
        | flux ↦ w
      ]

  unfoldable pub pass_in : SvcState → World → World × Bool
  pass_in halted w = (step_halted e w, false)
  pass_in teardown w = (step_teardown e w, false)
  pass_in cleanup w = (step_cleanup e w, false)
  pass_in dead w = (w, false)
  pass_in done w = (step_done e w, false)
  pass_in stopping w = (step_stopping e w, false)
  pass_in setup w = (step_setup e w, false)
  pass_in waiting w = (step_waiting e w, false)
  pass_in starting w = (step_starting e w, false)
  pass_in running w = step_running w
  pass_in paused w = (step_paused w, false)

  -- The switch; the flag is set for `goto done`.
  unfoldable pub pass : World → World × Bool
  pass w = pass_in w.svc.state w

-- From `done:` on.
unfoldable pub finish_step : Bool → World → World
finish_step true w = emit schedule_work w
finish_step false w = w

-- The loop behind one pass from `w`: stop, or restart if the state changed.
unfoldable pub after_pass : (Bool → World → World) → Bool → World → World × Bool → World
after_pass again changed w (w1, true) = finish_step changed w1
after_pass again changed w (w1, false) =
    if same_state w1.svc.state w.svc.state
    then finish_step (changed || not (is_zero w1.run_block)) w1
    else again true w1

-- The passes of one call. The fuel bounds these and the calls that collect a lost process.
unfoldable pub service_step_from : Env → ℕ → Bool → World → World
service_step_from e zero changed w = w
service_step_from e (suc f) changed w =
    after_pass (service_step_from e f) changed w (pass e (service_step_from e f false) w)

unfoldable pub service_step : Env → ℕ → World → World
service_step e f w = service_step_from e f false w
