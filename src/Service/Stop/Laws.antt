-- ===== src/Service/Stop/Laws.antt =====
-- What `service_stop` guarantees.
use finit.Prelude.{true, false, ℕ, ◌≡◌, ◌⊎◌, arith, ◌<◌, ℤ, some}
use finit.Service.Action.Timer.{service_timeout_cancel}
use finit.Service.Action.{service_run_script, svc_set_state, arm_kill}
use finit.Service.Stop.{service_stop, stop_live, finish_stop, stop_action}
use finit.Service.Types.{SvcState, halted, stopping, service_kill, Env, World, rank}

-- A service that was stopped on a call has gone on to HALTED or STOPPING, or its process was found
-- dead; `a` is the state before the call.
abbrev pub StopsTo : SvcState → SvcState → Type 0
StopsTo a b = (b ≡ a) ⊎ (b ≡ halted) ⊎ (b ≡ stopping)

finish_stop_state :
    (e : Env) (p : World × ℤ)
    → ((finish_stop e p).0.svc.state ≡ halted) ⊎ ((finish_stop e p).0.svc.state ≡ stopping)
unfolding finish_stop svc_set_state
finish_stop_state e p = ground arith

stop_live-StopsTo : (e : Env) (w : World) → StopsTo w.svc.state (stop_live e w).0.svc.state
unfolding stop_live
stop_live-StopsTo e w = ground (
  arith,
  finish_stop_state e (stop_action e (record w { svc = record (w.svc) { is_starting = false } })),
)

-- A call of `service_stop` leaves the state as it was, or leads to HALTED or STOPPING, and to no
-- other state.
pub service_stop-StopsTo :
    (e : Env) (w : World) → StopsTo w.svc.state (service_stop e w).0.svc.state
unfolding service_stop svc_set_state
service_stop-StopsTo e w =
    ground (arith, stop_live-StopsTo e (record w { svc = service_timeout_cancel w.svc }))

-- A live service with a stop: script goes to STOPPING with the kill timer of `killdelay`: the
-- script's own timeout has no effect.
pub service_stop_script :
    (e : Env) (w : World) (p : ℕ)
    → rank stopping < rank w.svc.state
    → w.svc.stop_script ≡ true
    → e.alive ≡ true
    → e.fork ≡ some p
    → 0 < w.svc.killdelay
    → ((service_stop e w).0.svc.state ≡ stopping)
      × ((service_stop e w).0.svc.timer ≡ some (service_kill, w.svc.killdelay))
unfolding service_stop stop_live stop_action finish_stop svc_set_state arm_kill service_run_script
service_stop_script e w p l s a f k = ground arith
