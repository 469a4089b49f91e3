-- ===== src/Service/Types.antt =====
-- svc.h: the state of a service, and what the state machine asks of the rest of the system.
use Prim.Native.String.{String}
use finit.Prelude.{
  ℕ, Bool, true, false, not, ◌&&◌, ◌||◌, List, [], ◌∷◌, ◌++◌, Option, ℤ, pos, negsuc, ltb, ◌==◌,
  if◌then◌else◌,
}

-- `svc_type_t`
pub data SvcType : Type 0 where
  free service task run tty sysv : SvcType

-- `svc_state_t`, in the source's order
pub data SvcState : Type 0 where
  halted done dead cleanup teardown stopping setup paused waiting starting running : SvcState

-- `svc_block_t`; `unblocked` is SVC_BLOCK_NONE
pub data Block : Type 0 where
  unblocked missing crashing user busy restarting conflict : Block

-- `svc_oncrash_action_t`
pub data OnCrash : Type 0 where
  ignore reboot script : OnCrash

-- `svc_notify_t`; `no_notify` is SVC_NOTIFY_NONE
pub data Notify : Type 0 where
  no_notify by_pid systemd s6 : Notify

-- `cond_state_t`
pub data CondState : Type 0 where
  off flux on : CondState

-- `pidfile`: not set, a path, or a path with the prefix '!'
pub data PidFile : Type 0 where
  unset managed daemon_owned : PidFile

-- The callback of a running timer (`timer_cb`).
pub data TimerCb : Type 0 where
  service_kill service_kill_script service_script_kill service_retry : TimerCb

-- The scripts of a service.
pub data Script : Type 0 where
  pre post ready clean stop reload : Script

-- A status from `waitpid`, as WIFEXITED and WEXITSTATUS read it.
pub record WaitStatus : Type 0 where
  pub exited : Bool
  pub code : ℕ

-- The status 0, a normal exit with code 0.
abbrev pub exit_ok : WaitStatus
exit_ok = record { exited = true; code = 0 }

-- The fields of `svc_t` that the state machine reads or writes. A script's field says whether its
-- text is not empty; times are in milliseconds.
pub record Svc : Type 0 where
  pub state : SvcState
  pub type : SvcType
  pub block : Block
  pub pid : ℤ
  pub oldpid : ℤ
  pub status : WaitStatus
  pub started : Bool
  pub is_starting : Bool
  pub removed : Bool
  pub dirty : Bool
  pub args_dirty : Bool
  pub manual : Bool
  pub remain : Bool
  pub protect : Bool
  pub sighup : Bool
  pub flux_reload : Bool
  pub forking : Bool
  pub respawn : Bool
  pub notify : Notify
  pub pidfile : PidFile
  pub num_provides : ℕ
  pub once : ℕ
  pub restart_tot : ℕ
  pub restart_cnt : ℤ
  pub restart_max : ℤ
  pub restart_tmo : ℕ
  pub restart_saved : ℕ
  pub oncrash_action : OnCrash
  pub killdelay : ℕ
  pub pre_script : Bool
  pub pre_tmo : ℕ
  pub post_script : Bool
  pub post_tmo : ℕ
  pub ready_script : Bool
  pub ready_tmo : ℕ
  pub cleanup_script : Bool
  pub cleanup_tmo : ℕ
  pub stop_script : Bool
  pub stop_tmo : ℕ
  pub reload_script : Bool
  pub reload_tmo : ℕ
  pub timer : Option (TimerCb × ℕ)

-- The outcome of `kill()`: the signal is sent, there is no such process, or another error.
pub data KillResult : Type 0 where
  delivered lost denied : KillResult

-- What the rest of the system answers while one service is stepped. `fork` is the child's process
-- id or `none` for -1. `startable` says that all checks of `service_start` before the fork pass
-- (command, env file, PAM, terminal, notify pipe or socket); `notify_ok` that the readiness socket
-- could be set up behind the fork. `has_name` and `alive` are `pid_get_name` and `pid_alive` of the
-- service's process, `in_runlevel` and `only_bootstrap` the bit tests ISSET(runlevels, runlevel) and
-- !ISOTHER(runlevels, INIT_LEVEL), and `pidfile_stale` says that the pid file names the
-- reaped process, which is gone.
pub record Env : Type 0 where
  pub in_runlevel : Bool
  pub only_bootstrap : Bool
  pub bootstrap : Bool
  pub in_reload : Bool
  pub norespawn : Bool
  pub cond : CondState
  pub ifthen : Bool
  pub conflicts : Bool
  pub fork : Option ℕ
  pub startable : Bool
  pub notify_ok : Bool
  pub has_name : Bool
  pub alive : Bool
  pub kill : KillResult
  pub pidfile_stale : Bool
  pub ready_executable : Bool

-- The conditions that the state machine sets and clears; `provides i` is the i-th provided one.
pub data CondName : Type 0 where
  own : CondName
  provides : ℕ → CondName
  success failure : CondName
  service_dir ready_cond : CondName
  service_status : String → CondName

pub data Signal : Type 0 where
  sighalt sigkill sigstop sigcont sighup : Signal

-- What the state machine does to the rest of the system, in order.
pub data Effect : Type 0 where
  notify_state : SvcState → SvcState → Effect
  remove_dirs : Effect
  cond_set cond_set_oneshot cond_clear cond_clear_noupdate cond_reassert : CondName → Effect
  kill_process kill_group : ℤ → Signal → Effect
  run_script : Script → Effect
  start_process : ℤ → Effect
  sysv_stop : Effect
  create_pidfile remove_pidfile touch_pidfile : Effect
  close_notify : Effect
  utmp_dead : ℤ → Effect
  schedule_work : Effect
  request_reboot : Effect
  delete : Effect
  step_machine : Effect

-- The service, `run_block_pid`, and the effects so far, in order.
pub record World : Type 0 where
  pub svc : Svc
  pub run_block : ℤ
  pub log : List Effect

abbrev pub emits : List Effect → World → World
emits fs w = record w { log = w.log ++ fs }

abbrev pub emit : Effect → World → World
emit f = emits (f ∷ [])

abbrev pub with_svc : World → Svc → World
with_svc w s = record w { svc = s }

-- The order of the states that `service_stop` and `svc_conflicts` compare by.
abbrev pub rank : SvcState → ℕ
rank halted = 0
rank done = 1
rank dead = 2
rank cleanup = 3
rank teardown = 4
rank stopping = 5
rank setup = 6
rank paused = 7
rank waiting = 8
rank starting = 9
rank running = 10

-- `svc->state != state`, by rank
abbrev pub same_state : SvcState → SvcState → Bool
same_state a b = rank a == rank b

-- `pid > 1`
abbrev pub is_process : ℤ → Bool
is_process (pos n) = ltb 1 n
is_process (negsuc n) = false

abbrev pub svc_is_daemon : Svc → Bool
svc_is_daemon s = elim (s.type) [ service ↦ true | sysv ↦ true | _ ↦ false ]

abbrev pub svc_is_sysv : Svc → Bool
svc_is_sysv s = elim (s.type) [ sysv ↦ true | _ ↦ false ]

abbrev pub svc_is_tty : Svc → Bool
svc_is_tty s = elim (s.type) [ tty ↦ true | _ ↦ false ]

abbrev pub svc_is_runtask : Svc → Bool
svc_is_runtask s = elim (s.type) [ run ↦ true | task ↦ true | _ ↦ false ]

abbrev pub svc_is_noreload : Svc → Bool
svc_is_noreload s = not s.sighup && not s.reload_script

abbrev pub svc_has_pidfile : Svc → Bool
svc_has_pidfile s = svc_is_daemon s && elim (s.pidfile) [ managed ↦ true | _ ↦ false ]

abbrev pub svc_is_blocked : Svc → Bool
svc_is_blocked s = elim (s.block) [ unblocked ↦ false | _ ↦ true ]

abbrev pub svc_is_missing : Svc → Bool
svc_is_missing s = elim (s.block) [ missing ↦ true | _ ↦ false ]

abbrev pub svc_is_conflict : Svc → Bool
svc_is_conflict s = elim (s.block) [ conflict ↦ true | _ ↦ false ]

abbrev pub svc_is_stopped : Svc → Bool
svc_is_stopped s = elim (s.block) [ user ↦ true | _ ↦ false ]

-- `svc_status`, the text shown for a service and part of its conditions' names
unfoldable pub svc_status : Svc → String
svc_status s = elim (s.state) [
  | halted ↦ elim (s.block) [
    | unblocked ↦ "halted"
    | missing ↦ "missing"
    | crashing ↦ "crashed"
    | user ↦ "stopped"
    | busy ↦ "busy"
    | restarting ↦ "restart"
    | conflict ↦ "conflict"
  ]
  | done ↦ if s.started then "done" else "failed"
  | stopping ↦ elim (s.type) [ run ↦ "active" | task ↦ "active" | _ ↦ "stopping" ]
  | teardown ↦ "teardown"
  | setup ↦ "setup"
  | cleanup ↦ "cleanup"
  | paused ↦ "paused"
  | waiting ↦ "waiting"
  | starting ↦ "starting"
  | running ↦ "running"
  | dead ↦ "dead"
]

-- `svc_enabled` (svc.c): the service may run in this runlevel, and nothing holds it back.
unfoldable pub svc_enabled : Env → Svc → Bool
svc_enabled e s =
    if not e.in_runlevel
    then false
    else if s.removed || svc_is_blocked s
    then false
    else if svc_is_missing s
    then false
    else if not e.ifthen
    then false
    else not (svc_is_tty s && e.bootstrap)
