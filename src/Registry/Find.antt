-- ===== src/Registry/Find.antt =====
-- svc.c: looking services up, and what depends on others being there.
pub mod Conflicts
use Prim.Native.Char.{code}
use Prim.Native.String
use finit.Prelude.{
  ℕ, Bool, true, false, not, ◌&&◌, ◌||◌, ◌==◌, leb, String, str_eq, ℤ, eq_ℤ, List, [], ◌∷◌, Option,
  none, some, if◌then◌else◌,
}
use finit.Service.Types.{
  SvcState, stopping, dead, done, halted, teardown, rank, CondState, on, off, flux, svc_enabled,
  svc_is_runtask, is_process, same_state,
}
use finit.Registry.Entries.{Entry}

-- The first entry that passes a test.
unfoldable pub first : (Entry → Bool) → List Entry → Option Entry
first p [] = none
first p (e ∷ es) = if p e then some e else first p es

-- `svc_find`, `svc_find_by_pid` and `svc_find_by_jobid`
unfoldable pub svc_find : String → String → List Entry → Option Entry
svc_find name id es = first (λ e. str_eq e.name name && str_eq e.id id) es

unfoldable pub svc_find_by_pid : ℤ → List Entry → Option Entry
svc_find_by_pid pid es = first (λ e. eq_ℤ e.svc.pid pid) es

unfoldable pub svc_find_by_jobid : ℕ → String → List Entry → Option Entry
svc_find_by_jobid job id es = first (λ e. e.job == job && str_eq e.id id) es

-- A text before its first colon, and what follows that.
unfoldable pub split_colon : String → String × Option String
split_colon String.[] = ("", none)
split_colon (String.◌∷◌ c s) =
    let rest = split_colon s in if code c == 58 then ("", some s) else (String.◌∷◌ c rest.0, rest.1)

abbrev or_empty : Option String → String
or_empty none = ""
or_empty (some s) = s

-- `svc_find_by_str`
unfoldable pub svc_find_by_str : String → List Entry → Option Entry
svc_find_by_str str es = let (name, id) = split_colon str in svc_find name (or_empty id) es

-- `s->state >= SVC_STOPPING_STATE`
abbrev pub is_up : Entry → Bool
is_up e = leb (rank stopping) (rank e.svc.state)

-- The loop of `svc_conflicts`, which ends at the first name that is found.
unfoldable pub conflicts_with : List String → List Entry → Bool
conflicts_with [] es = false
conflicts_with (nm ∷ nms) es = elim (svc_find_by_str nm es) [
  | some s ↦ is_up s
  | none ↦ conflicts_with nms es
]

unfoldable pub svc_conflicts : Entry → List Entry → Bool
svc_conflicts e es = conflicts_with e.conflict es

-- `svc_stop_completed` and `svc_clean_completed`: the first service that is still waited for.
unfoldable pub stop_pending : Entry → Bool
stop_pending e =
    (same_state e.svc.state stopping && is_process e.svc.pid)
    || (e.svc.remain && same_state e.svc.state teardown && is_process e.svc.pid)

unfoldable pub svc_stop_completed : List Entry → Option Entry
svc_stop_completed es = first stop_pending es

unfoldable pub clean_pending : Entry → Bool
clean_pending e =
    not (svc_enabled e.env e.svc)
    && not (svc_is_runtask e.svc && same_state e.svc.state done)
    && not (if e.svc.removed then same_state e.svc.state dead else same_state e.svc.state halted)

unfoldable pub svc_clean_completed : List Entry → Option Entry
svc_clean_completed es = first clean_pending es

-- A name in an if: option, and whether it is negated with an exclamation mark.
pub record Term : Type 0 where
  pub negated : Bool
  pub name : String

-- `svc_ifthen` for the form in angle brackets, whose conditions `cond` answers.
unfoldable pub if_conds : (String → CondState) → List Term → Bool
if_conds cond [] = true
if_conds cond (t ∷ ts) =
    let held : Bool = elim (cond t.name) [ on ↦ t.negated | flux ↦ false | off ↦ not t.negated ] in
    if held then false else if_conds cond ts

-- `svc_ifthen` for names of services, when a .conf file is read.
unfoldable pub if_services : List Term → List Entry → Bool
if_services [] es = true
if_services (t ∷ ts) es = elim (svc_find_by_str t.name es) [
  | some s ↦ if t.negated then false else if_services ts es
  | none ↦ if not t.negated then false else if_services ts es
]
