-- ===== src/Machine/Step.antt =====
-- sm.c: `sm_step`, the switch on the state and its loop.
use finit.Prelude.{
  ℕ, zero, suc, Bool, true, false, not, ◌&&◌, ◌||◌, ◌==◌, List, [], ◌∷◌, ◌++◌, Option, none, some,
  ℤ, pos, negsuc, leb_ℤ, eq_ℤ, if◌then◌else◌,
}

-- `sm_state_t`
pub data SmState : Type 0 where
  bootstrapping bootstrap_wait running runlevel_change runlevel_wait runlevel_clean : SmState
  reload_change reload_wait reload_clean : SmState

-- The masks of service types that `service_step_all` is called with.
pub data Types : Type 0 where
  any boot_types respawn_types : Types

pub data Hook : Type 0 where
  system_up shutdown change_runlevel svc_reconf svc_up : Hook

-- `shutop_t`, as far as this file sets it
pub data Halt : Type 0 where
  shut_off shut_reboot : Halt

-- What the machine does to the rest of the system, in order.
pub data Effect : Type 0 where
  service_step_all : Types → Effect
  bootstrap_condition : Effect
  console_watcher_start console_watcher_stop : Effect
  run_hooks : Hook → Effect
  progress_off : Effect
  notify_runlevel : ℤ → ℤ → Effect
  shutdown_wdt_start shutdown_wdt_stop : Effect
  api_exit log_exit : Effect
  runlevel_set : ℤ → ℤ → Effect
  touch_nologin erase_nologin : Effect
  conf_reload conf_flush_events : Effect
  runtask_clean : Effect
  cgroup_prune : Effect
  svc_clean_dynamic : Effect
  rc_local : Effect
  do_shutdown : Halt → Effect
  cond_reload devmon_reconf notify_reconf notify_reload : Effect
  networking : Bool → Effect
  log_incomplete svc_prune_bootstrap : Effect
  reschedule_bootstrap : Effect

-- The variable `sm`, the globals that go with it, and the effects so far.
pub record Machine : Type 0 where
  pub state : SmState
  pub newlevel : ℤ
  pub reload : Bool
  pub in_reload : Bool
  pub skip_bootstrap : Bool
  pub runlevel : ℤ
  pub prevlevel : ℤ
  pub cfglevel : ℤ
  pub cmdlevel : ℤ
  pub bootstrap : Bool
  pub rescue : Bool
  pub halt : Halt
  pub log : List Effect

-- What the rest of the system answers in one pass: all stopped services are collected
-- (`svc_stop_completed` is NULL), all post: and cleanup: scripts are (`svc_clean_completed` is NULL),
-- some .conf file changed, and the program was built with an rc.local.
pub record Answers : Type 0 where
  pub stop_completed : Bool
  pub clean_completed : Bool
  pub conf_changed : Bool
  pub has_rc_local : Bool

abbrev pub emits : List Effect → Machine → Machine
emits fs m = record m { log = m.log ++ fs }

-- `INIT_LEVEL`, the runlevel S
abbrev pub init_level : ℤ
init_level = pos 10

abbrev pub no_level : ℤ
no_level = negsuc 0

-- Runlevels 0 and 6, and those with S.
abbrev pub is_shutdown : ℤ → Bool
is_shutdown l = eq_ℤ l (pos 0) || eq_ℤ l (pos 6)

abbrev pub is_reserved : ℤ → Bool
is_reserved l = eq_ℤ l (pos 0) || eq_ℤ l (pos 6) || eq_ℤ l init_level

-- `nologin`
nologin : Machine → List Effect
nologin m =
    (if eq_ℤ m.runlevel (pos 1) || is_reserved m.runlevel then touch_nologin ∷ [] else [])
    ++ (if eq_ℤ m.prevlevel (pos 1) || is_reserved m.prevlevel then erase_nologin ∷ [] else [])

unfoldable pub step_bootstrap : Machine → Machine
step_bootstrap m =
    emits (service_step_all boot_types ∷ console_watcher_start ∷ [])
      (record m { state = bootstrap_wait })

unfoldable pub step_bootstrap_wait : Machine → Machine
step_bootstrap_wait m0 =
    let m = emits (service_step_all any ∷ bootstrap_condition ∷ []) m0 in
    if eq_ℤ m.newlevel no_level
    then m
    else emits
        (console_watcher_stop
          ∷ run_hooks system_up
          ∷ service_step_all any
          ∷ progress_off
          ∷ service_step_all respawn_types
          ∷ [])
        (record m { bootstrap = false; state = running })

unfoldable pub step_running : Machine → Machine
step_running m0 =
    let m = emits (service_step_all any ∷ []) m0 in
    if leb_ℤ (pos 0) m.newlevel && leb_ℤ m.newlevel (pos 9)
    then (if eq_ℤ m.runlevel m.newlevel
        then record m { newlevel = no_level }
        else record m { state = runlevel_change })
    else if m.reload
    then record m { reload = false; state = reload_change }
    else m

-- What is done on the way down, before the services are stopped.
leave_for_shutdown : ℤ → List Effect
leave_for_shutdown level =
    if is_shutdown level
    then shutdown_wdt_start ∷ api_exit ∷ log_exit ∷ run_hooks shutdown ∷ []
    else []

unfoldable pub step_runlevel_change : Answers → Machine → Machine
unfolding nologin leave_for_shutdown
step_runlevel_change a m0 =
    let m = record m0 { prevlevel = m0.runlevel; runlevel = m0.newlevel; newlevel = no_level } in
    emits
      (notify_runlevel m.prevlevel m.runlevel
        ∷ (leave_for_shutdown m.runlevel
            ++ (runlevel_set m.prevlevel m.runlevel
                ∷ (nologin m
                    ++ ((if not (is_shutdown m.runlevel) && a.conf_changed
                          then conf_reload ∷ []
                          else [])
                        ++ (runtask_clean ∷ service_step_all any ∷ []))))))
      (record m { in_reload = true; state = runlevel_wait })

unfoldable pub step_runlevel_wait : Answers → Machine → Machine
step_runlevel_wait a m =
    if not a.stop_completed
    then m
    else emits (run_hooks change_runlevel ∷ cgroup_prune ∷ service_step_all any ∷ [])
        (record m { in_reload = false; state = runlevel_clean })

unfoldable pub step_runlevel_clean : Answers → Machine → Machine
step_runlevel_clean a m =
    if not a.clean_completed
    then m
    else emits
        (svc_clean_dynamic
          ∷ ((if a.has_rc_local && eq_ℤ m.prevlevel init_level && not m.rescue
                then rc_local ∷ []
                else [])
              ++ (if is_shutdown m.runlevel
                  then shutdown_wdt_stop ∷ do_shutdown m.halt ∷ []
                  else [])))
        (record m { state = running })

unfoldable pub step_reload_change : Machine → Machine
step_reload_change m =
    emits (conf_reload ∷ runtask_clean ∷ service_step_all any ∷ cond_reload ∷ [])
      (record m { in_reload = true; state = reload_wait })

unfoldable pub step_reload_wait : Answers → Machine → Machine
step_reload_wait a m =
    if not a.stop_completed
    then m
    else emits (service_step_all any ∷ []) (record m { in_reload = false; state = reload_clean })

unfoldable pub step_reload_clean : Answers → Machine → Machine
step_reload_clean a m =
    if not a.clean_completed
    then m
    else emits
        (svc_clean_dynamic
          ∷ service_step_all any
          ∷ run_hooks svc_reconf
          ∷ service_step_all any
          ∷ devmon_reconf
          ∷ service_step_all any
          ∷ notify_reconf
          ∷ service_step_all any
          ∷ notify_reload
          ∷ [])
        (record m { state = running })

-- One pass of the switch.
unfoldable pub pass_in : SmState → Answers → Machine → Machine
pass_in bootstrapping a m = step_bootstrap m
pass_in bootstrap_wait a m = step_bootstrap_wait m
pass_in running a m = step_running m
pass_in runlevel_change a m = step_runlevel_change a m
pass_in runlevel_wait a m = step_runlevel_wait a m
pass_in runlevel_clean a m = step_runlevel_clean a m
pass_in reload_change a m = step_reload_change m
pass_in reload_wait a m = step_reload_wait a m
pass_in reload_clean a m = step_reload_clean a m

unfoldable pub pass : Answers → Machine → Machine
pass a m = pass_in m.state a m

abbrev pub number : SmState → ℕ
number bootstrapping = 0
number bootstrap_wait = 1
number running = 2
number runlevel_change = 3
number runlevel_wait = 4
number runlevel_clean = 5
number reload_change = 6
number reload_wait = 7
number reload_clean = 8

abbrev pub same_state : SmState → SmState → Bool
same_state s t = number s == number t

-- `goto restart` while the state changes; `answers f` are given in the pass that leaves fuel `f`, and
-- `none` means that the fuel ran out.
unfoldable pub sm_step : (ℕ → Answers) → ℕ → Machine → Option Machine
sm_step answers zero m = none
sm_step answers (suc f) m =
    let m1 = pass (answers f) m in
    let rest = sm_step answers f m1 in if same_state m1.state m.state then some m1 else rest
