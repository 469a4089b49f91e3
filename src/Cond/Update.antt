-- ===== src/Cond/Update.antt =====
-- cond-w.c: what follows from a change of a condition for the services that depend on it.
pub mod Laws
use finit.Prelude.{
  List, [], ◌∷◌, ℕ, suc, zero, ◌+◌, Bool, true, false, not, ◌&&◌, String, if◌then◌else◌,
}
use Prim.Native.String
use finit.Service.Types.{CondState, off, unblocked, Svc, Env, World, restarting}
use finit.Service.Action.{set_block}
use finit.Service.Action.Timer.{service_timeout_cancel}
use finit.Service.Control.{is_restarting, on_svc}
use finit.Service.Step.{service_step}
use finit.Cond.Files.{Files}
use finit.Cond.Engine.{
  Io, cond_get_agg, cond_affects, cond_set_noupdate, cond_clear_noupdate, cond_set_oneshot_noupdate,
}

-- A service, the names in its condition (`svc->cond`, as strtok() gives them), and what the rest of
-- the system answers when it is stepped.
pub record Member : Type 0 where
  pub conds : List String
  pub env : Env
  pub world : World

pub record System : Type 0 where
  pub files : Files
  pub services : List Member

is_off : CondState → Bool
is_off off = true
is_off _ = false

-- `svc_is_restart`: a crashed service that waits for its next attempt.
abbrev pub svc_is_restart : Svc → Bool
svc_is_restart s = is_restarting s.block

-- A path below the directory of conditions, with the slash in front of it.
abbrev pub slashed : String → String
slashed s = String.◌∷◌ "/" s

-- All declarations have the system calls' answers, `cond_path`, and the fuel of `service_step`.
module _ (io : Io) (cond_path : String → String) (fuel : ℕ) where
  -- The answers for a service, with its condition as it now is.
  abbrev pub env_now : Files → Member → Env
  env_now fs m = record (m.env) { cond = cond_get_agg fs cond_path m.conds }

  -- One round of the loop of `cond_update`, for a service that is affected.
  unfoldable pub step_affected : Files → Member → Member
  unfolding is_off
  step_affected fs m =
      let w =
        if svc_is_restart m.world.svc && is_off (cond_get_agg fs cond_path m.conds)
        then on_svc (λ s. set_block unblocked (service_timeout_cancel s)) m.world
        else m.world in
      record m { world = service_step (env_now fs m) fuel w }

  -- The loop of `cond_update`, on the files as they are at its start: the services, and how many are affected.
  unfoldable pub update_all : Files → String → List Member → List Member × ℕ
  update_all fs name [] = ([], 0)
  update_all fs name (m ∷ ms) =
      let (rest, n) = update_all fs name ms in
      if cond_affects name m.conds then (step_affected fs m ∷ rest, suc n) else (m ∷ rest, n)

  unfoldable pub cond_update : String → System → System × ℕ
  cond_update name sys =
      let (ms, n) = update_all sys.files name sys.services in (record sys { services = ms }, n)

  -- `cond_set`, `cond_clear` and `cond_set_oneshot` behind their `_noupdate` forms.
  abbrev update_if : String → System → Files × Bool → System
  update_if name sys (fs, go) =
      let sys1 = record sys { files = fs } in if go then (cond_update name sys1).0 else sys1

  unfoldable pub cond_set : String → System → System
  cond_set name sys = update_if name sys (cond_set_noupdate io cond_path name sys.files)

  unfoldable pub cond_clear : String → System → System
  cond_clear name sys = update_if name sys (cond_clear_noupdate io cond_path name sys.files)

  unfoldable pub cond_set_oneshot : String → System → System
  cond_set_oneshot name sys =
      update_if name sys (cond_set_oneshot_noupdate io cond_path name sys.files)

  -- `do_assert` for the files that nftw() finds, by their paths below the directory of conditions.
  -- The name is what follows `finit/cond` in the path, and so begins with a slash.
  unfoldable pub cond_reassert : List String → System → System
  cond_reassert [] sys = sys
  cond_reassert (n ∷ ns) sys = cond_reassert ns (cond_set (slashed n) sys)
