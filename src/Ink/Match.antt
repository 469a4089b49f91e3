-- ===== src/Ink/Match.antt =====
-- libink/match.c: rules that select signals, as lists of bytes.
pub mod Parse
pub mod Table
pub mod Fuel
mod Examples
use finit.Prelude.{
  ℕ, zero, suc, ◌+◌, Bool, true, false, not, ◌&&◌, ◌||◌, leb, ltb, ◌==◌, List, [], ◌∷◌, ◌++◌,
  length, Option, none, some, if◌then◌else◌,
}

-- `strcmp(a, b) == 0`
abbrev pub str_same : List ℕ → List ℕ → Bool
str_same [] [] = true
str_same [] (d ∷ t) = false
str_same (c ∷ s) [] = false
str_same (c ∷ s) (d ∷ t) = c == d && str_same s t

-- `struct link_match`; a field that is NULL is `none`.
pub record Rule : Type 0 where
  pub raw : List ℕ
  pub type : Option (List ℕ)
  pub interface : Option (List ℕ)
  pub member : Option (List ℕ)
  pub path : Option (List ℕ)

abbrev pub is_blank : ℕ → Bool
is_blank c = c == 32 || c == 9

abbrev pub is_key : ℕ → Bool
is_key c = (leb 97 c && leb c 122) || (leb 65 c && leb c 90) || c == 95

-- The leading bytes that pass a test, and the rest.
abbrev pub span : (ℕ → Bool) → List ℕ → List ℕ × List ℕ
span p [] = ([], [])
span p (c ∷ s) = let more = span p s in if p c then (c ∷ more.0, more.1) else ([], c ∷ s)

-- The entry behind the key and its equals sign: the quoted value, and what follows the blanks and
-- commas behind it.
abbrev pub closed : List ℕ → List ℕ × List ℕ → Option (List ℕ × List ℕ × List ℕ)
closed key (value, []) = none
closed key (value, q ∷ rest) = some (key, value, (span (λ c. is_blank c || c == 44) rest).1)

abbrev pub opened : List ℕ → List ℕ → Option (List ℕ × List ℕ × List ℕ)
opened key [] = none
opened key (q ∷ s) = if q == 39 then closed key (span (λ c. not (c == 39)) s) else none

abbrev pub keyed : List ℕ × List ℕ → Option (List ℕ × List ℕ × List ℕ)
keyed ([], rest) = none
keyed (k ∷ key, []) = none
keyed (k ∷ key, e ∷ s) = if e == 61 then opened (k ∷ key) s else none

-- `parse_kv`: key, value, and what is left; -1 is `none`.
unfoldable pub parse_kv : List ℕ → Option (List ℕ × List ℕ × List ℕ)
parse_kv s = keyed (span is_key (span is_blank s).1)

-- type, interface, member and path, and the keys that are ignored: sender, destination, eavesdrop
abbrev pub type_key : List ℕ
type_key = 116 ∷ 121 ∷ 112 ∷ 101 ∷ []

abbrev pub interface_key : List ℕ
interface_key = 105 ∷ 110 ∷ 116 ∷ 101 ∷ 114 ∷ 102 ∷ 97 ∷ 99 ∷ 101 ∷ []

abbrev pub member_key : List ℕ
member_key = 109 ∷ 101 ∷ 109 ∷ 98 ∷ 101 ∷ 114 ∷ []

abbrev pub path_key : List ℕ
path_key = 112 ∷ 97 ∷ 116 ∷ 104 ∷ []

abbrev is_ignored : List ℕ → Bool
is_ignored key =
    str_same key (115 ∷ 101 ∷ 110 ∷ 100 ∷ 101 ∷ 114 ∷ [])
    || str_same key (100 ∷ 101 ∷ 115 ∷ 116 ∷ 105 ∷ 110 ∷ 97 ∷ 116 ∷ 105 ∷ 111 ∷ 110 ∷ [])
    || str_same key (101 ∷ 97 ∷ 118 ∷ 101 ∷ 115 ∷ 100 ∷ 114 ∷ 111 ∷ 112 ∷ [])

-- A value is stored unless the slot is taken.
abbrev in_slot : Option (List ℕ) → (Option (List ℕ) → Rule) → List ℕ → Option Rule
in_slot none put value = some (put (some value))
in_slot (some old) put value = none

-- One entry of a rule; an unknown or a second key spoils the rule.
unfoldable pub store : List ℕ → List ℕ → Rule → Option Rule
store key value m =
    if str_same key type_key
    then in_slot m.type (λ v. record m { type = v }) value
    else if str_same key interface_key
    then in_slot m.interface (λ v. record m { interface = v }) value
    else if str_same key member_key
    then in_slot m.member (λ v. record m { member = v }) value
    else if str_same key path_key
    then in_slot m.path (λ v. record m { path = v }) value
    else if is_ignored key
    then some m
    else none

abbrev pub empty_rule : List ℕ → Rule
empty_rule raw = record { raw = raw; type = none; interface = none; member = none; path = none }

infixl 5 ◌>>=◌
abbrev ◌>>=◌ : {A B : Type 0} → Option A → (A → Option B) → Option B
none >>= k = none
some a >>= k = k a

-- The loop of `__match_parse`, which eats some of the rule in each round; the fuel is the length of
-- what is left of it.
unfoldable pub parse_entries : ℕ → List ℕ → Rule → Option Rule
parse_entries zero [] m = some m
parse_entries zero (c ∷ s) m = none
parse_entries (suc f) [] m = some m
parse_entries (suc f) (c ∷ s) m = do
  (key, value, rest) ← parse_kv (c ∷ s)
  m1 ← store key value m
  parse_entries f rest m1

-- `__match_parse`; `LINK_MATCH_RULE_MAX` is 256.
unfoldable pub match_parse : List ℕ → Option Rule
match_parse rule =
    if leb 256 (length rule) then none else parse_entries (length rule) rule (empty_rule rule)

-- `field_matches`
abbrev pub field_matches : Option (List ℕ) → Option (List ℕ) → Bool
field_matches none got = true
field_matches (some want) none = false
field_matches (some want) (some got) = str_same want got

abbrev is_signal : List ℕ → Bool
is_signal t = str_same t (115 ∷ 105 ∷ 103 ∷ 110 ∷ 97 ∷ 108 ∷ [])

abbrev type_matches : Option (List ℕ) → Bool
type_matches none = true
type_matches (some t) = is_signal t

-- `__match_matches`
unfoldable pub match_matches : Rule → Option (List ℕ) → Option (List ℕ) → Option (List ℕ) → Bool
match_matches m path iface member =
    if not (type_matches m.type)
    then false
    else field_matches m.path path
      && field_matches m.interface iface
      && field_matches m.member member

-- `LINK_MATCH_PEER_CAP`
abbrev pub peer_cap : ℕ
peer_cap = 16

abbrev added : List Rule → Option Rule → List Rule × Bool
added ms none = (ms, false)
added ms (some m) = (ms ++ m ∷ [], true)

-- `__match_add` on a peer's rules, true on success.
unfoldable pub match_add : List ℕ → List Rule → List Rule × Bool
match_add rule ms = if leb peer_cap (length ms) then (ms, false) else added ms (match_parse rule)

-- The last rule, and those in front of it.
abbrev last_of : Rule → List Rule → List Rule × Rule
last_of m [] = ([], m)
last_of m (n ∷ ms) = let (init, last) = last_of n ms in (m ∷ init, last)

-- The place of the rule at the head is taken by the last one.
abbrev take_place : List Rule → List Rule
take_place [] = []
take_place (m ∷ ms) = let (init, last) = last_of m ms in last ∷ init

-- `__match_remove`, true if the rule was found.
unfoldable pub match_remove : List ℕ → List Rule → List Rule × Bool
match_remove rule [] = ([], false)
match_remove rule (m ∷ ms) =
    let (rest, found) = match_remove rule ms in
    if str_same m.raw rule then (take_place ms, true) else (m ∷ rest, found)
