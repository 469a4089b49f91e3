-- ===== src/Service/Step/Path.antt =====
-- Every call of `service_step` follows the state diagram.
use finit.Prelude.{Bool, false, ◌≡◌, refl, ℕ, zero, suc, arith, subst}
use finit.Service.Graph.{◌⟶*◌, here, next, ⟶*_trans}
use finit.Service.Step.Loop.{after_pass-keeps}
use finit.Service.Step.Pass.{pass-path}
use finit.Service.Step.{service_step_from, service_step}
use finit.Service.Types.{SvcState, dead, Env, World}

service_step_from-path :
    (e : Env) (f : ℕ) (changed : Bool) (w : World)
    → w.svc.state ⟶* (service_step_from e f changed w).svc.state
unfolding service_step_from
service_step_from-path e zero changed w = here
service_step_from-path e (suc f) changed w =
    after_pass-keeps (λ s. w.svc.state ⟶* s.state) (service_step_from e f)
      (λ b v h. ⟶*_trans h (service_step_from-path e f b v)) changed w _
      (pass-path e (service_step_from e f false) (service_step_from-path e f false) w)

-- A service goes only along the edges of the diagram, in any environment.
pub service_step-path :
    (e : Env) (f : ℕ) (w : World) → w.svc.state ⟶* (service_step e f w).svc.state
unfolding service_step
service_step-path e f w = service_step_from-path e f false w

dead_absorbs : {b : SvcState} → dead ⟶* b → b ≡ dead
dead_absorbs here = refl
dead_absorbs (next p e) = ground (arith, dead_absorbs p)

-- A service that is dead stays dead.
pub service_step_dead :
    (e : Env) (f : ℕ) (w : World) → w.svc.state ≡ dead → (service_step e f w).svc.state ≡ dead
service_step_dead e f w h =
    dead_absorbs (subst (λ x. x ⟶* (service_step e f w).svc.state) h (service_step-path e f w))
