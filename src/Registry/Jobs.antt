-- ===== src/Registry/Jobs.antt =====
-- svc.c: the services that a text such as `3:1 sshd 7` names.
pub mod Laws
use Prim.Native.Char.{code}
use Prim.Native.String
use finit.Prelude.{
  ℕ, zero, suc, ◌+◌, ◌-◌, ◌%◌, ◌^◌, Bool, true, false, ◌&&◌, ◌==◌, leb, String, str_eq, ℤ, pos,
  negsuc, ◌+ℤ◌, List, [], ◌∷◌, map, Option, none, some, if◌then◌else◌,
}
use finit.Registry.Entries.{Entry}
use finit.Registry.Find.{svc_find, svc_find_by_jobid, split_colon}

-- `isspace` in the C locale
abbrev is_space : ℕ → Bool
is_space c = if c == 32 then true else leb 9 c && leb c 13

-- As a C string: up to the first NUL.
abbrev until_nul : String → String
until_nul String.[] = String.[]
until_nul (String.◌∷◌ c s) = let rest = until_nul s in if code c == 0 then "" else String.◌∷◌ c rest

abbrev unless_end : String → List String → List String
unless_end String.[] ts = []
unless_end (String.◌∷◌ c s) ts = ts

-- The token that has begun, with those behind it. A space ends it, and another begins if more bytes follow.
unfoldable pub tokens_from : String → List String
tokens_from String.[] = "" ∷ []
tokens_from (String.◌∷◌ c s) =
    let rest = tokens_from s in
    if is_space (code c)
    then "" ∷ unless_end s rest
    else elim rest [ [] ↦ [] | ◌∷◌ t ts ↦ String.◌∷◌ c t ∷ ts ]

-- The tokens that `tokstr` breaks a buffer into; two spaces have an empty one between them. The text
-- is all the `len` bytes, which may hold a NUL with more behind it, and a token is read as a C
-- string. The byte behind the buffer is a NUL.
unfoldable pub tokstr : String → List String
tokstr s = map until_nul (unless_end s (tokens_from s))

-- `isdigit(token[0])`
abbrev pub starts_number : String → Bool
starts_number String.[] = false
starts_number (String.◌∷◌ c s) = leb 48 (code c) && leb (code c) 57

-- `svc_job_iterator` and `svc_named_iterator`, to their ends
unfoldable pub svc_job_iterator : ℕ → List Entry → List Entry
svc_job_iterator job [] = []
svc_job_iterator job (e ∷ es) =
    let rest = svc_job_iterator job es in if e.job == job then e ∷ rest else rest

unfoldable pub svc_named_iterator : String → List Entry → List Entry
svc_named_iterator cmd [] = []
svc_named_iterator cmd (e ∷ es) =
    let rest = svc_named_iterator cmd es in if str_eq e.name cmd then e ∷ rest else rest

-- The sum of what the callbacks return, and what they work on.
pub record Called (S : Type 0) : Type 0 where
  pub result : ℤ
  pub data_ : S

-- What follows a token: the next one, or the same one again.
pub data Turn (S : Type 0) : Type 0 where
  next : Called S → Turn S
  again : Called S → Turn S

-- With `strtol` and the test by `regexec` of the C library, the callbacks, which may be missing, and
-- the services in the list.
module _ {S : Type 0} (strtol : String → Option ℕ) (regexec : String → Bool)
    (found : Option (Option Entry → S → ℤ × S))
    (not_found : Option (Option String → Option String → S → ℤ × S)) (es : List Entry) where
  unfoldable pub add : (S → ℤ × S) → Called S → Called S
  add f c = let (n, s) = f c.data_ in record { result = c.result +ℤ n; data_ = s }

  unfoldable pub call_found : Option Entry → Called S → Called S
  call_found e c = elim found [ some f ↦ add (f e) c | none ↦ c ]

  unfoldable pub call_each : List Entry → Called S → Called S
  call_each [] c = c
  call_each (e ∷ rest) c = call_each rest (call_found (some e) c)

  -- All services with a number or a name, or the callback for none.
  unfoldable pub all_of : Option String → Option String → List Entry → Called S → Called S
  all_of job id [] c = elim not_found [ some f ↦ add (f job id) c | none ↦ c ]
  all_of job id (e ∷ rest) c = call_each (e ∷ rest) c

  -- The one service with an id. Without a callback for none, the other one gets no service.
  unfoldable pub one_of : String → String → Option Entry → Called S → Called S
  one_of job id (some e) c = call_found (some e) c
  one_of job id none c = elim not_found [
    | some f ↦ add (f (some job) (some id)) c
    | none ↦ call_found none c
  ]

  -- A token that is split at its colon, if it has one: a job number or a name. The number, a long, is
  -- passed as an int: its residue mod 2^32, which here is that of an entry's job number.
  unfoldable pub by_job : String → ℕ → String × Option String → Called S → Called S
  by_job token job (name, none) c = all_of none (some token) (svc_job_iterator (job % 2 ^ 32) es) c
  by_job token job (name, some id) c = one_of name id (svc_find_by_jobid (job % 2 ^ 32) id es) c

  unfoldable pub by_name : String → String × Option String → Called S → Called S
  by_name token (name, none) c = all_of (some token) none (svc_named_iterator token es) c
  by_name token (name, some id) c = one_of name id (svc_find name id es) c

  unfoldable pub with_job : String → Option ℕ → Called S → Turn S
  with_job token none c = again (record { result = c.result +ℤ pos 1; data_ = c.data_ })
  with_job token (some job) c = next (by_job token job (split_colon token) c)

  unfoldable pub parse_token : String → Called S → Turn S
  parse_token token c =
      if regexec token
      then (if starts_number token
          then with_job token (strtol token) c
          else next (by_name token (split_colon token) c))
      else next c

  -- The loop of `svc_parse_jobstr`, with fuel. It has not ended when the fuel is used up.
  unfoldable pub parse_tokens : ℕ → List String → Called S → Option (Called S)
  parse_tokens zero ts c = none
  parse_tokens (suc n) [] c = some c
  parse_tokens (suc n) (t ∷ ts) c = elim (parse_token t c) [
    | next d ↦ parse_tokens n ts d
    | again d ↦ parse_tokens n (t ∷ ts) d
  ]

  unfoldable pub svc_parse_jobstr : ℕ → String → S → Option (Called S)
  svc_parse_jobstr fuel str s =
      parse_tokens fuel (tokstr str) (record { result = pos 0; data_ = s })
