-- ===== src/Registry/Entries.antt =====
-- svc.c: the entries of the list, and how they come and go.
use finit.Prelude.{
  ℕ, suc, ◌==◌, String, str_eq, List, [], ◌∷◌, ◌++◌, Option, none, some, if◌then◌else◌,
}
use finit.Service.Types.{Svc, Env}

-- A service in the list: its place in memory, by which pointers are compared, the names that it is
-- found by, the names in its conflict: option (as strtok() gives them), its state, and what the rest
-- of the system answers about it.
pub record Entry : Type 0 where
  pub place : ℕ
  pub cmd : String
  pub name : String
  pub id : String
  pub job : ℕ
  pub conflict : List String
  pub svc : Svc
  pub env : Env

-- `svc_list` in its order, and `jobcounter`
pub record Registry : Type 0 where
  pub entries : List Entry
  pub jobcounter : ℕ

-- The job of the first entry with the same command.
unfoldable pub job_of : String → List Entry → Option ℕ
job_of cmd [] = none
job_of cmd (e ∷ es) = if str_eq e.cmd cmd then some e.job else job_of cmd es

-- `svc_new` with a command, for an entry that is filled in but for its job.
abbrev pub numbered : Entry → Registry → Option ℕ → Registry
numbered e r (some job) = record r { entries = r.entries ++ record e { job = job } ∷ [] }
numbered e r none = record {
  entries = r.entries ++ record e { job = r.jobcounter } ∷ [];
  jobcounter = suc r.jobcounter;
}

unfoldable pub svc_new : Entry → Registry → Registry
svc_new e r = numbered e r (job_of e.cmd r.entries)

-- `svc_del`: the entry leaves the list. (It is freed later.)
unfoldable pub without : ℕ → List Entry → List Entry
without p [] = []
without p (e ∷ es) = let rest = without p es in if e.place == p then rest else e ∷ rest

unfoldable pub svc_del : ℕ → Registry → Registry
svc_del p r = record r { entries = without p r.entries }
