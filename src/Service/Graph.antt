-- ===== src/Service/Graph.antt =====
-- The state diagram of a service: which states one call of `service_step` can lead to.
use finit.Prelude.{Bool, true, false, ◌≡◌, ◌⊎◌, inl, inr, sym, subst, sym}
use finit.Service.Types.{
  SvcState, halted, done, dead, cleanup, teardown, stopping, setup, paused, waiting, starting,
  running,
}

-- The edges of the diagram.
abbrev pub edge : SvcState → SvcState → Bool
edge halted waiting = true
edge halted dead = true
edge teardown cleanup = true
edge teardown halted = true
edge cleanup halted = true
edge done teardown = true
edge done halted = true
edge done waiting = true
edge stopping teardown = true
edge stopping cleanup = true
edge stopping halted = true
edge stopping done = true
edge setup halted = true
edge setup stopping = true
edge setup starting = true
edge waiting halted = true
edge waiting setup = true
edge waiting starting = true
edge starting halted = true
edge starting running = true
edge running halted = true
edge running stopping = true
edge running paused = true
edge paused halted = true
edge paused stopping = true
edge paused waiting = true
edge paused running = true
edge _ _ = false

abbrev pub MovesTo : SvcState → SvcState → Type 0
MovesTo a b = (b ≡ a) ⊎ (edge a b ≡ true)

-- A path in the diagram.
infix 40 ◌⟶*◌
pub data ◌⟶*◌ (a : SvcState) : SvcState → Type 0 where
  here : a ⟶* a
  next : {b c : SvcState} → a ⟶* b → edge b c ≡ true → a ⟶* c

pub ⟶*_trans : {a b c : SvcState} → a ⟶* b → b ⟶* c → a ⟶* c
⟶*_trans p here = p
⟶*_trans p (next q e) = next (⟶*_trans p q) e

pub MovesTo-path : (a b : SvcState) → MovesTo a b → a ⟶* b
MovesTo-path a b (inl p) = subst (λ x. a ⟶* x) (sym p) here
MovesTo-path a b (inr e) = next here e
