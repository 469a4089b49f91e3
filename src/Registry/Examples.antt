-- ===== src/Registry/Examples.antt =====
-- Two services, and the theorems at them.
use Prim.Native.Char.{code}
use finit.Prelude.{
  ℕ, suc, ◌+◌, ◌-◌, ◌*◌, ◌^◌, ltb, leb, Bool, true, false, not, ◌&&◌, ◌||◌, String, str_eq, ℤ, pos,
  ◌≡◌, refl, arith, List, [], ◌∷◌, Option, none, some, if◌then◌else◌,
}
use finit.Service.Types.{running}
use finit.Service.Samples.{daemon, calm}
use finit.Registry.Entries.{Entry}
use finit.Service.Control.{svc_mark}
use finit.Registry.Reload.{mark_entry, svc_mark_dynamic}
use finit.Registry.Find.{if_services, svc_find, svc_find_by_str, first, split_colon, svc_conflicts}
use finit.Registry.Find.Conflicts.{svc_conflicts_misses, any_up}
use finit.Registry.Jobs.{
  parse_tokens, parse_token, with_job, by_job, all_of, call_each, call_found, add, svc_job_iterator,
  tokstr, tokens_from, svc_parse_jobstr,
}
use finit.Registry.Jobs.Laws.{any_bad, each_once, svc_parse_jobstr_each, svc_parse_jobstr_hangs}

abbrev sshd : Entry
sshd = record {
  place = 1;
  cmd = "/sbin/sshd";
  name = "sshd";
  id = "";
  job = 1;
  conflict = [];
  svc = record daemon { state = running };
  env = calm;
}

abbrev ntpd : Entry
ntpd = record sshd { place = 2; cmd = "/sbin/ntpd"; name = "ntpd"; job = 2; svc = daemon }

abbrev both : List Entry
both = sshd ∷ ntpd ∷ []

-- A service that a reload has marked is found by an if: option still.
still_there :
    if_services (record { negated = false; name = "ntpd" } ∷ []) (svc_mark_dynamic both) ≡ true
unfolding if_services svc_find_by_str svc_find first split_colon svc_mark_dynamic mark_entry
    svc_mark
still_there = refl

-- ntpd is down, sshd is up.
svc_conflicts_misses_example :
    ((not (svc_conflicts sshd both) || any_up [] both) ≡ true)
    × (svc_conflicts (record sshd { conflict = "ntpd" ∷ "sshd" ∷ [] }) both ≡ false)
    × (any_up ("ntpd" ∷ "sshd" ∷ []) both ≡ true)
unfolding svc_find_by_str svc_find first split_colon
svc_conflicts_misses_example =
    svc_conflicts_misses sshd both "ntpd" ("sshd" ∷ []) ntpd refl refl refl

-- A decimal number at the start of a text, where it fits in 64 bits with sign.
abbrev digits : ℕ → String → ℕ
digits n String.[] = n
digits n (String.◌∷◌ c s) =
    let rest = digits (10 * n + (code c - 48)) s in
    if leb 48 (code c) && leb (code c) 57 then rest else n

abbrev strtol : String → Option ℕ
strtol s = if ltb (digits 0 s) (2 ^ 63) then some (digits 0 s) else none

-- What an action of the API does here: it counts.
abbrev count_one : Option Entry → ℕ → ℤ × ℕ
count_one e n = (pos 0, suc n)

abbrev is_word : String → Bool
is_word t = not (str_eq t "")

worked_off : any_bad {S = ℕ} strtol is_word (some count_one) none both (tokstr "sshd  2") ≡ false
unfolding tokstr tokens_from
worked_off = refl

svc_parse_jobstr_each_example :
    svc_parse_jobstr strtol is_word (some count_one) none both 4 "sshd  2" 0
    ≡ some (
        each_once strtol is_word
          (some count_one)
          none
          both
          (tokstr "sshd  2")
          (record { result = pos 0; data_ = 0 }))
unfolding tokstr tokens_from
svc_parse_jobstr_each_example =
    svc_parse_jobstr_each strtol is_word (some count_one) none both 4 "sshd  2" 0 refl (omega arith)

-- Job 2^32 + 1 is job 1, and bytes behind the NUL of the buffer make a token.
long_job :
    svc_parse_jobstr strtol is_word (some count_one) none both 2 "4294967297" 0
    ≡ some (record { result = pos 0; data_ = 1 })
unfolding svc_parse_jobstr parse_tokens parse_token with_job by_job all_of call_each call_found add
    svc_job_iterator tokstr tokens_from split_colon
long_job = refl

behind_nul : tokstr "sshd\0 2" ≡ "sshd" ∷ "2" ∷ []
unfolding tokstr tokens_from
behind_nul = refl

svc_parse_jobstr_hangs_example :
    svc_parse_jobstr strtol is_word (some count_one) none both 1000 "sshd 9223372036854775808" 0
    ≡ none
unfolding tokstr tokens_from
svc_parse_jobstr_hangs_example =
    svc_parse_jobstr_hangs strtol is_word (some count_one) none both "sshd 9223372036854775808" refl
      1000 0
