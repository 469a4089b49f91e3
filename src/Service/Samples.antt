-- ===== src/Service/Samples.antt =====
-- A service and its surroundings, for the tests.
use finit.Prelude.{true, false, pos, some, none, []}
use finit.Service.Types.{
  halted, stopping, service, unblocked, no_notify, on, unset, ignore, delivered, service_kill,
  exit_ok, Svc, Env, World,
}

-- A daemon that is allowed to run, in an environment where all goes well.
abbrev pub daemon : Svc
daemon = record {
  state = halted;
  type = service;
  block = unblocked;
  pid = pos 0;
  oldpid = pos 0;
  status = exit_ok;
  started = false;
  is_starting = false;
  removed = false;
  dirty = false;
  args_dirty = false;
  manual = false;
  remain = false;
  protect = false;
  sighup = true;
  flux_reload = false;
  forking = false;
  respawn = false;
  notify = no_notify;
  pidfile = unset;
  num_provides = 1;
  once = 0;
  restart_tot = 0;
  restart_cnt = pos 0;
  restart_max = pos 10;
  restart_tmo = 0;
  restart_saved = 0;
  oncrash_action = ignore;
  killdelay = 3000;
  pre_script = false;
  pre_tmo = 3000;
  post_script = false;
  post_tmo = 3000;
  ready_script = false;
  ready_tmo = 3000;
  cleanup_script = false;
  cleanup_tmo = 3000;
  stop_script = false;
  stop_tmo = 5000;
  reload_script = false;
  reload_tmo = 0;
  timer = none;
}

abbrev pub calm : Env
calm = record {
  in_runlevel = true;
  only_bootstrap = false;
  bootstrap = false;
  in_reload = false;
  norespawn = false;
  cond = on;
  ifthen = true;
  conflicts = false;
  fork = some 42;
  startable = true;
  notify_ok = true;
  has_name = true;
  alive = true;
  kill = delivered;
  pidfile_stale = false;
  ready_executable = true;
}

abbrev pub at_svc : Svc → World
at_svc s = record { svc = s; run_block = pos 0; log = [] }

abbrev pub stopping_daemon : Svc
stopping_daemon = record daemon {
  state = stopping;
  pid = pos 42;
  timer = some (service_kill, 3000);
}
