-- ===== src/Service/Action.antt =====
-- service.c: what the steps of the state machine are made of (timers, conditions, scripts, start,
-- stop, reload). Logging and progress output are left out.
pub mod Timer
use mathlib.Core.Bool.{Bool, true, false, not, ◌&&◌, ◌||◌}
use finit.Prelude.{
  ℕ, suc, zero, ◌+◌, ◌%◌, ◌^◌, List, [], ◌∷◌, ◌++◌, map, Option, none, some, ℤ, pos, negsuc,
  is_zero, leb_ℤ, eq_ℤ, leb, ◌==◌, if◌then◌else◌,
}
use finit.Service.Types.{
  SvcType, service, run, SvcState, halted, done, stopping, paused, running, Block, unblocked,
  missing, user, crashing, restarting, conflict, no_notify, systemd, s6, unset, managed,
  daemon_owned, service_kill, service_kill_script, service_script_kill, Script, pre, post, ready,
  clean, stop, reload, Svc, KillResult, delivered, lost, denied, Env, CondName, own, provides,
  success, failure, service_dir, ready_cond, service_status, sighalt, sigkill, sighup, Effect,
  notify_state, remove_dirs, cond_set, cond_set_oneshot, cond_clear, cond_clear_noupdate,
  kill_process, kill_group, run_script, start_process, sysv_stop, create_pidfile, remove_pidfile,
  touch_pidfile, close_notify, utmp_dead, World, emit, emits, with_svc, rank, same_state,
  is_process, svc_is_daemon, svc_is_sysv, svc_is_tty, svc_is_runtask, svc_has_pidfile, svc_status,
}
use finit.Service.Action.Timer.{service_timeout_after, service_timeout_cancel}

abbrev pub set_block : Block → Svc → Svc
set_block b s = record s { block = b }

-- The conditions that a service provides, from the `i`-th on.
provided : ℕ → ℕ → List CondName
provided zero i = []
provided (suc n) i = provides i ∷ provided n (i + 1)

-- `svc_cond_nth`: its own condition and each that it provides.
pub owned : Svc → List CondName
unfolding provided
owned s = own ∷ provided s.num_provides 0

unfoldable pub svc_cond_clear : World → World
svc_cond_clear w = emits (map cond_clear (owned w.svc)) w

-- The conditions of a run/task in `svc_set_state`.
runtask_conds : SvcState → Svc → List Effect
runtask_conds done s =
    if s.started && s.status.code == 0
    then cond_set_oneshot success ∷ []
    else cond_set_oneshot failure ∷ []
runtask_conds halted s = cond_clear success ∷ cond_clear failure ∷ []
runtask_conds _ s = []

-- Between these two states the conditions of a daemon are kept.
only_paused : SvcState → SvcState → Bool
only_paused running paused = true
only_paused paused running = true
only_paused _ _ = false

daemon_status : SvcState → Svc → List Effect
daemon_status halted s = cond_set_oneshot (service_status (svc_status s)) ∷ []
daemon_status running s = cond_set_oneshot (service_status (svc_status s)) ∷ []
daemon_status _ s = []

-- The conditions of a daemon in `svc_set_state`.
daemon_conds : Env → SvcState → SvcState → Svc → List Effect
unfolding only_paused daemon_status svc_status
daemon_conds e old_state new_state s =
    (if only_paused old_state new_state
      then []
      else if e.in_reload
      then cond_clear_noupdate service_dir ∷ []
      else cond_clear service_dir ∷ [])
    ++ daemon_status new_state s

rmdirs : SvcState → Svc → List Effect
rmdirs halted s = remove_dirs ∷ []
rmdirs done s = if not s.remain then remove_dirs ∷ [] else []
rmdirs _ s = []

-- The part of `svc_set_state` behind the write of the state.
unfoldable pub entered : Env → SvcState → SvcState → Svc → List Effect
unfolding runtask_conds daemon_conds rmdirs
entered e old_state new_state s =
    notify_state old_state new_state
    ∷ (rmdirs new_state s
        ++ ((if svc_is_runtask s then runtask_conds new_state s else [])
            ++ (if svc_is_daemon s then daemon_conds e old_state new_state s else [])))

-- A stopping service is killed after `killdelay`.
unfoldable pub arm_kill : SvcState → Svc → Svc
unfolding service_timeout_after
arm_kill stopping s = service_timeout_after s.killdelay service_kill (service_timeout_cancel s)
arm_kill _ s = s

unfoldable pub svc_set_state : Env → SvcState → World → World
svc_set_state e new_state w =
    let s = record (arm_kill new_state w.svc) { state = new_state } in
    record w {
      svc = s;
      log =
          w.log
          ++ (if same_state w.svc.state new_state then [] else entered e w.svc.state new_state s);
    }

-- `service_ready`: the ready condition of a daemon, with its ready: script.
unfoldable pub service_ready_script : Env → World → World
unfolding service_timeout_after
service_ready_script e w = if not e.ready_executable then w else elim (e.fork) [
  | none ↦ w
  | some _ ↦
      emit (run_script ready)
        (with_svc w (service_timeout_after w.svc.ready_tmo service_script_kill w.svc))
]

unfoldable pub service_ready : Env → Bool → World → World
unfolding service_ready_script
service_ready e is_ready w =
    if not (svc_is_daemon w.svc)
    then w
    else if not is_ready
    then emit (cond_clear ready_cond) w
    else if w.svc.ready_script
    then service_ready_script e (emit (cond_set ready_cond) w)
    else emit (cond_set ready_cond) w

-- The pre:, post: and cleanup: scripts run under the service's own `pid`, which is -1 if the fork
-- fails.
unfoldable pub service_script : Env → Script → ℕ → World → World
unfolding service_timeout_after
service_script e sc tmo w = elim (e.fork) [
  | none ↦ with_svc w (record (w.svc) { pid = negsuc 0 })
  | some p ↦
      emit (run_script sc) (
        with_svc w (service_timeout_after tmo service_kill_script (record (w.svc) { pid = pos p })))
]

-- `service_run_script`, for the stop: and reload: scripts: 1 if the fork fails.
unfoldable pub service_run_script : Env → Script → ℕ → World → World × ℤ
unfolding service_timeout_after
service_run_script e sc tmo w = elim (e.fork) [
  | none ↦ (w, pos 1)
  | some _ ↦ (
    emit (run_script sc) (
        with_svc w (
          service_timeout_after (if tmo == 0 then w.svc.killdelay else tmo) service_script_kill
            w.svc)),
    pos 0,
  )
]

unfoldable pub service_notify_stop : World → World
service_notify_stop w = elim (w.svc.notify) [
  | systemd ↦ emit close_notify w
  | s6 ↦ emit close_notify w
  | _ ↦ w
]

unfoldable pub service_clean_pidfile : Env → ℤ → World → World
service_clean_pidfile e reaped w =
    if is_process reaped && e.pidfile_stale then emit remove_pidfile w else w

unfoldable pub service_cleanup : Env → World → World
unfolding service_clean_pidfile svc_cond_clear service_notify_stop
service_cleanup e w0 =
    let w = with_svc w0 (service_timeout_cancel w0.svc) in
    let w1 =
      if svc_has_pidfile w.svc
      then emit remove_pidfile w
      else elim (w.svc.pidfile) [ daemon_owned ↦ service_clean_pidfile e w.svc.pid w | _ ↦ w ] in
    let w2 = service_notify_stop (svc_cond_clear w1) in
    let w3 =
      if svc_is_tty w.svc && is_process w.svc.pid then emit (utmp_dead w.svc.pid) w2 else w2 in
    with_svc w3 (record (w3.svc) { oldpid = w3.svc.pid; is_starting = false; pid = pos 0 })

-- The part of `service_start` behind a successful fork; the result is 0 or -1.
forked : Env → ℕ → World → World × ℤ
forked e p w0 =
    let w = emit (start_process (pos p)) (with_svc w0 (record (w0.svc) { pid = pos p })) in
    let result : ℤ = elim (w.svc.notify) [
      | systemd ↦ if e.notify_ok then pos 0 else negsuc 0
      | s6 ↦ if e.notify_ok then pos 0 else negsuc 0
      | _ ↦ pos 0
    ] in
    (
      elim (w.svc.type) [
        | run ↦ record w { run_block = pos p }
        | service ↦ emit create_pidfile w
        | _ ↦ w
      ],
      result,
    )

-- `restart_tot++` on an unsigned int
count_restart : Svc → Svc
count_restart s =
    if svc_is_daemon s && (not (is_zero s.restart_cnt) || not (s.restart_tot == 0))
    then record s { restart_tot = (s.restart_tot + 1) % 2 ^ 32 }
    else s

-- `service_start`, in the parent. The flag is set if it fails.
unfoldable pub service_start : Env → World → World × Bool
unfolding forked count_restart
service_start e w =
    if e.norespawn
    then (w, true)
    else if not (is_zero w.run_block)
    then (w, true)
    else if not e.startable
    then (with_svc w (set_block missing w.svc), true)
    else (let w1 = with_svc w (count_restart (record (w.svc) { is_starting = true })) in
        elim (e.fork) [
          | none ↦ (w1, true)
          | some p ↦ let (w2, rc) = forked e p w1 in (w2, not (is_zero rc))
        ])
