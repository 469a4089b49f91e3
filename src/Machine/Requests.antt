-- ===== src/Machine/Requests.antt =====
-- sm.c: the requests that drive the machine. `fuel` is that of `sm_step`.
pub mod Laws
use finit.Prelude.{
  ◌==◌, ℕ, ◌-◌, ◌*◌, Bool, true, false, not, ◌&&◌, ◌||◌, ltb, [], ◌∷◌, ◌++◌, Option, none, some, ℤ,
  pos, negsuc, eq_ℤ, is_zero, leb_ℤ, if◌then◌else◌,
}
use finit.Machine.Step.{
  SmState, bootstrapping, Halt, shut_off, shut_reboot, any, svc_up, service_step_all,
  console_watcher_stop, run_hooks, conf_flush_events, cgroup_prune, do_shutdown, networking,
  log_incomplete, svc_prune_bootstrap, reschedule_bootstrap, Machine, Answers, emits, init_level,
  no_level, is_reserved, sm_step,
}

-- `sm_init`
unfoldable pub sm_init : Machine → Machine
sm_init m = emits (reschedule_bootstrap ∷ []) (record m {
  state = bootstrapping;
  newlevel = no_level;
  reload = false;
  in_reload = false;
  skip_bootstrap = false;
})

-- The network is brought up on the way from single user mode or S, and down for a shutdown.
networking_up : ℤ → Machine → Machine
networking_up level m =
    emits
      (if not m.rescue
          && (eq_ℤ m.runlevel (pos 1) || eq_ℤ m.runlevel init_level)
          && not (is_reserved level)
        then networking true ∷ []
        else [])
      m

networking_down : Machine → Machine
networking_down m =
    emits (if not m.rescue && is_reserved m.runlevel then networking false ∷ [] else []) m

unfoldable pub sm_runlevel : (ℕ → Answers) → ℕ → ℤ → Machine → Option Machine
unfolding networking_up networking_down
sm_runlevel answers fuel level m =
    let m1 = emits (conf_flush_events ∷ []) (record (networking_up level m) { newlevel = level }) in
    elim (sm_step answers fuel m1) [ none ↦ none | some m2 ↦ some (networking_down m2) ]

unfoldable pub sm_reload : (ℕ → Answers) → ℕ → Machine → Option Machine
sm_reload answers fuel m =
    sm_step answers fuel (emits (conf_flush_events ∷ []) (record m { reload = true }))

-- How the system goes down, by the runlevel asked for.
unfoldable pub halt_for : ℤ → Halt → Halt
halt_for level h =
    if eq_ℤ level (pos 6) then shut_reboot else if eq_ℤ level (pos 0) then shut_off else h

-- `sm_request_runlevel`: refused on the way down, deferred in S.
unfoldable pub sm_request_runlevel : (ℕ → Answers) → ℕ → ℤ → Machine → Option Machine
unfolding halt_for
sm_request_runlevel answers fuel level m0 =
    if is_reserved m0.runlevel && not (eq_ℤ m0.runlevel init_level)
    then some m0
    else (let m = record m0 { halt = halt_for level m0.halt } in
        if eq_ℤ m.runlevel init_level
        then some (record m { cfglevel = level })
        else sm_runlevel answers fuel level m)

-- The last part of `sm_check_bootstrap`.
finish_bootstrap : Machine → Machine
finish_bootstrap m = emits (svc_prune_bootstrap ∷ cgroup_prune ∷ run_hooks svc_up ∷ []) m

-- The part of `sm_check_bootstrap` behind the wait.
leave_bootstrap : (ℕ → Answers) → ℕ → Machine → Option Machine
unfolding finish_bootstrap
leave_bootstrap answers fuel m0 =
    let m =
      emits
        (console_watcher_stop
          ∷ ((if m0.skip_bootstrap then log_incomplete ∷ [] else []) ++ (conf_flush_events ∷ [])))
        m0 in
    let level = if not (is_zero m.cmdlevel) then m.cmdlevel else m.cfglevel in
    elim (sm_runlevel answers fuel level m) [ none ↦ none | some m1 ↦ some (finish_bootstrap m1) ]

-- `sm_check_bootstrap` with the seconds left, which are 0 once the source's counter is not positive;
-- `completed` is the answer of `service_completed`. The flag says that it will be called again.
unfoldable pub sm_check_bootstrap :
    (ℕ → Answers) → ℕ → ℕ → Bool → Machine → Option (ℕ × Bool × Machine)
unfolding leave_bootstrap
sm_check_bootstrap answers fuel timeout completed m0 =
    let m = emits (service_step_all any ∷ []) m0 in
    if ltb 0 timeout && not completed && not m.skip_bootstrap
    then some (timeout - 1, true, emits (reschedule_bootstrap ∷ []) m)
    else elim (leave_bootstrap answers fuel m) [
      | none ↦ none
      | some m1 ↦ some (timeout - 1, false, m1)
    ]

-- `console_input_cb`: Ctrl-C ends the wait.
unfoldable pub console_input : ℕ → Machine → Machine
console_input ch m = if ch == 3 then record m { skip_bootstrap = true } else m

-- The callbacks of both shutdown timers.
unfoldable pub shutdown_wdt_cb : Machine → Machine
shutdown_wdt_cb m = emits (do_shutdown m.halt ∷ []) m
