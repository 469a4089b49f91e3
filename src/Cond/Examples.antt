-- ===== src/Cond/Examples.antt =====
-- Conditions at work, and the theorems at them.
use finit.Prelude.{pos, ◌≡◌, refl, List, [], ◌∷◌, true, arith, if◌then◌else◌}
use finit.Service.Types.{off, flux, on, waiting, running}
use finit.Service.Samples.{daemon, calm, at_svc}
use finit.Service.Step.Idle.{is_idle, service_step-idle}
use finit.Service.Step.{service_step}
use finit.Cond.Files.{Files, link, number, lookup}
use finit.Cond.Engine.{cond_get_gen, cond_get_path, cond_get_agg}
use finit.Cond.Engine.Aggregate.{any_off, all_on, cond_get_agg_lem}
use finit.Cond.Refinement.{Op, set, oneshot, reload, run, started, working, run-refines}
use finit.Cond.Update.{Member, System, cond_reassert}
use finit.Cond.Update.Laws.{reassert_steps_none}

-- One condition is set before a reload, another for good.
abbrev ops : List Op
ops = set "net/eth0/up" ∷ oneshot "hook/sys/up" ∷ reload ∷ []

abbrev files : Files
files = ("reconf", number 2) ∷ ("hook/sys/up", link) ∷ ("net/eth0/up", number 1) ∷ []

in_flux : cond_get_path files "net/eth0/up" ≡ flux
unfolding cond_get_path cond_get_gen lookup
in_flux = refl

for_good : cond_get_path files "hook/sys/up" ≡ on
unfolding cond_get_path cond_get_gen lookup
for_good = refl

run-refines_example : cond_get_path (run ops started) "net/eth0/up" ≡ flux
run-refines_example =
    run-refines ops "net/eth0/up" (refl, (refl, (omega arith, omega arith))) refl (omega arith)

cond_get_agg_lem_example : cond_get_agg files (λ p. p) ("hook/sys/up" ∷ "net/eth0/up" ∷ []) ≡ (
    if any_off files (λ p. p) ("hook/sys/up" ∷ "net/eth0/up" ∷ [])
    then off
    else if all_on files (λ p. p) ("hook/sys/up" ∷ "net/eth0/up" ∷ [])
    then on
    else flux)
cond_get_agg_lem_example = cond_get_agg_lem files (λ p. p) ("hook/sys/up" ∷ "net/eth0/up" ∷ [])

-- A daemon that waits for the network.
abbrev waiting_daemon : Member
waiting_daemon = record {
  conds = "net/eth0/up" ∷ [];
  env = calm;
  world = at_svc (record daemon { state = waiting });
}

abbrev network : System
network = record { files = files; services = waiting_daemon ∷ [] }

service_step-idle_example :
    is_idle (service_step (record calm { cond = flux }) 5 (at_svc daemon)).svc.state ≡ true
service_step-idle_example =
    service_step-idle (record calm { cond = flux }) 5 (at_svc daemon) refl refl

-- One daemon waits for the network, another runs and needs it too.
abbrev busy_network : System
busy_network = record {
  files = files;
  services =
      waiting_daemon
      ∷ record waiting_daemon { world = at_svc (record daemon { state = running; pid = pos 42 }) }
      ∷ [];
}

reassert_steps_none_example :
    (cond_reassert working (λ p. p) 5 ("net/eth0/up" ∷ []) network).services ≡ network.services
reassert_steps_none_example =
    reassert_steps_none working (λ p. p) 5 ("net/eth0/up" ∷ []) network ((refl, refl), refl)
