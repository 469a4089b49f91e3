-- ===== src/Service/Step/Loop.antt =====
-- The rule for the loop of `service_step`.
use finit.Prelude.{
  ap, Bool, true, false, not, ◌||◌, ◌≡◌, ℕ, zero, suc, Bool-cases, inl, inr, is_zero,
}
use finit.Service.Step.{pass_in, pass, finish_step, after_pass, service_step_from, service_step}
use finit.Service.Types.{SvcState, Svc, Env, World, same_state}

-- The switch at a known state.
pub pass_at :
    (e : Env) (step : World → World) (w : World) {s : SvcState}
    → w.svc.state ≡ s
    → pass e step w ≡ pass_in e step s w
unfolding pass
pass_at e step w h = ap (λ s. pass_in e step s w) h

module _ (P : Svc → Type 0) where
  finish_step-keeps : (b : Bool) (w : World) → P w.svc → P (finish_step b w).svc
  unfolding finish_step
  finish_step-keeps true w h = h
  finish_step-keeps false w h = h

  pub after_pass-keeps :
      (again : Bool → World → World)
      → ((b : Bool) (w : World) → P w.svc → P (again b w).svc)
      → (changed : Bool) (w : World) (r : World × Bool) → P r.0.svc
      → P (after_pass again changed w r).svc
  unfolding after_pass
  after_pass-keeps again keeps changed w (w1, true) h = finish_step-keeps changed w1 h
  after_pass-keeps again keeps changed w (w1, false) h =
      elim (Bool-cases (same_state w1.svc.state w.svc.state)) [
        | inl y ↦ rw y (finish_step-keeps (changed || not (is_zero w1.run_block)) w1 h)
        | inr n ↦ rw n (keeps true w1 h)
      ]

  module _ (e : Env)
      (pass_keeps : (step : World → World)
        → ((w : World) → P w.svc → P (step w).svc)
        → (w : World) → P w.svc
        → P (pass e step w).0.svc) where
    service_step_from-keeps :
        (f : ℕ) (changed : Bool) (w : World) → P w.svc → P (service_step_from e f changed w).svc
    unfolding service_step_from
    service_step_from-keeps zero changed w h = h
    service_step_from-keeps (suc f) changed w h =
        after_pass-keeps (service_step_from e f) (service_step_from-keeps f) changed w _
          (pass_keeps (service_step_from e f false) (service_step_from-keeps f false) w h)

    -- What each pass keeps, the whole call keeps.
    pub service_step-keeps : (f : ℕ) (w : World) → P w.svc → P (service_step e f w).svc
    unfolding service_step
    service_step-keeps f w h = service_step_from-keeps f false w h
