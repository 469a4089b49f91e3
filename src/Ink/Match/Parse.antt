-- ===== src/Ink/Match/Parse.antt =====
-- Rules that are printed are parsed back.
use finit.Prelude.{
  ℕ, zero, suc, ◌≤◌, ◌<◌, arith, Bool, true, not, ◌||◌, leb, ◌==◌, ◌≡◌, ◌≢◌, refl, ap, ◌∙◌, List,
  [], ◌∷◌, ◌++◌, length, length-append, Option, none, some, if◌then◌else◌,
}
use finit.Ink.Match.{
  Rule, is_blank, span, parse_kv, opened, type_key, interface_key, member_key, path_key, store,
  parse_entries, match_parse, closed,
}

-- A value without a single quote.
abbrev pub NoQuote : List ℕ → Type 0
NoQuote [] = 0 ≤ 0
NoQuote (c ∷ s) = (c ≢ 39) × NoQuote s

abbrev pub Plain : Option (List ℕ) → Type 0
Plain none = 0 ≤ 0
Plain (some v) = NoQuote v

-- An entry, and a field that may be absent.
abbrev pub entry : List ℕ → List ℕ → List ℕ → List ℕ
entry key v rest = key ++ 61 ∷ 39 ∷ (v ++ 39 ∷ 44 ∷ rest)

abbrev pub opt_entry : List ℕ → Option (List ℕ) → List ℕ → List ℕ
opt_entry key none rest = rest
opt_entry key (some v) rest = entry key v rest

-- The text of a rule.
abbrev pub print_rule : Rule → List ℕ
print_rule m = opt_entry type_key m.type (
    opt_entry interface_key m.interface
      (opt_entry member_key m.member (opt_entry path_key m.path [])))

span_value : (v t : List ℕ) → NoQuote v → span (λ c. not (c == 39)) (v ++ 39 ∷ t) ≡ (v, 39 ∷ t)
span_value [] t h = refl
span_value (c ∷ v) t (h, hs) = ground (arith, span_value v t hs)

-- What follows an entry begins with no blank and no comma.
abbrev is_clean : List ℕ → Bool
is_clean [] = true
is_clean (c ∷ s) = not (is_blank c || c == 44)

span_clean : (s : List ℕ) → is_clean s ≡ true → (span (λ c. is_blank c || c == 44) s).1 ≡ s
span_clean [] h = refl
span_clean (c ∷ s) h = ground arith

opened_lem :
    (key v rest : List ℕ)
    → NoQuote v
    → is_clean rest ≡ true
    → opened key (39 ∷ (v ++ 39 ∷ 44 ∷ rest)) ≡ some (key, v, rest)
opened_lem key v rest h k =
    ap (λ x. closed key x) (span_value v (44 ∷ rest) h)
    ∙ ap (λ r. some (key, v, r)) (span_clean rest k)

-- A rule by its fields.
abbrev fields :
    List ℕ → Option (List ℕ) → Option (List ℕ) → Option (List ℕ) → Option (List ℕ) → Rule
fields raw t i m p = record { raw = raw; type = t; interface = i; member = m; path = p }

-- Reading the fields from `s` on leaves fuel enough for `rest`.
abbrev Reads : ℕ → List ℕ → Rule → List ℕ → Rule → Type 0
Reads f s m rest m1 =
    (f' : ℕ) × (length rest ≤ f') × (parse_entries f s m ≡ parse_entries f' rest m1)

read_type :
    (f : ℕ) (o : Option (List ℕ)) (rest raw : List ℕ)
    → Plain o
    → is_clean rest ≡ true
    → length (opt_entry type_key o rest) ≤ f
    → Reads f
        (opt_entry type_key o rest)
        (fields raw none none none none)
        rest
        (fields raw o none none none)
unfolding parse_entries parse_kv store
read_type f none rest raw h k l = (f, l, refl)
read_type zero (some v) rest raw h k l = absurd (omega arith)
read_type (suc f) (some v) rest raw h k l =
    (f, omega (arith, length-append v (39 ∷ 44 ∷ rest)), rw (opened_lem type_key v rest h k) refl)

read_interface :
    (f : ℕ) (o : Option (List ℕ)) (rest raw : List ℕ) (t : Option (List ℕ))
    → Plain o
    → is_clean rest ≡ true
    → length (opt_entry interface_key o rest) ≤ f
    → Reads f
        (opt_entry interface_key o rest)
        (fields raw t none none none)
        rest
        (fields raw t o none none)
unfolding parse_entries parse_kv store
read_interface f none rest raw t h k l = (f, l, refl)
read_interface zero (some v) rest raw t h k l = absurd (omega arith)
read_interface (suc f) (some v) rest raw t h k l = (
  f,
  omega (arith, length-append v (39 ∷ 44 ∷ rest)),
  rw (opened_lem interface_key v rest h k) refl,
)

read_member :
    (f : ℕ) (o : Option (List ℕ)) (rest raw : List ℕ) (t i : Option (List ℕ))
    → Plain o
    → is_clean rest ≡ true
    → length (opt_entry member_key o rest) ≤ f
    → Reads f (opt_entry member_key o rest) (fields raw t i none none) rest (fields raw t i o none)
unfolding parse_entries parse_kv store
read_member f none rest raw t i h k l = (f, l, refl)
read_member zero (some v) rest raw t i h k l = absurd (omega arith)
read_member (suc f) (some v) rest raw t i h k l =
    (f, omega (arith, length-append v (39 ∷ 44 ∷ rest)), rw (opened_lem member_key v rest h k) refl)

read_path :
    (f : ℕ) (o : Option (List ℕ)) (rest raw : List ℕ) (t i m : Option (List ℕ))
    → Plain o
    → is_clean rest ≡ true
    → length (opt_entry path_key o rest) ≤ f
    → Reads f (opt_entry path_key o rest) (fields raw t i m none) rest (fields raw t i m o)
unfolding parse_entries parse_kv store
read_path f none rest raw t i m h k l = (f, l, refl)
read_path zero (some v) rest raw t i m h k l = absurd (omega arith)
read_path (suc f) (some v) rest raw t i m h k l =
    (f, omega (arith, length-append v (39 ∷ 44 ∷ rest)), rw (opened_lem path_key v rest h k) refl)

clean_path : (o : Option (List ℕ)) → is_clean (opt_entry path_key o []) ≡ true
clean_path none = refl
clean_path (some v) = refl

clean_member :
    (o : Option (List ℕ)) (rest : List ℕ)
    → is_clean rest ≡ true
    → is_clean (opt_entry member_key o rest) ≡ true
clean_member none rest h = h
clean_member (some v) rest h = refl

clean_interface :
    (o : Option (List ℕ)) (rest : List ℕ)
    → is_clean rest ≡ true
    → is_clean (opt_entry interface_key o rest) ≡ true
clean_interface none rest h = h
clean_interface (some v) rest h = refl

parse_nothing : (f : ℕ) (m : Rule) → parse_entries f [] m ≡ some m
unfolding parse_entries
parse_nothing zero m = refl
parse_nothing (suc f) m = refl

fits :
    (s : List ℕ) (r : Option Rule) → length s < 256 → (if leb 256 (length s) then none else r) ≡ r
fits s r h = ground arith

-- Any rule whose values have no single quote and whose text is shorter than 256 bytes is what the
-- parser makes of that text.
pub match_parse_print :
    (m : Rule)
    → Plain m.type
    → Plain m.interface
    → Plain m.member
    → Plain m.path
    → length (print_rule m) < 256
    → match_parse (print_rule m) ≡ some (record m { raw = print_rule m })
unfolding match_parse
match_parse_print m ht hi hm hp l =
    let s3 = opt_entry path_key m.path [] in
    let s2 = opt_entry member_key m.member s3 in
    let s1 = opt_entry interface_key m.interface s2 in
    let s = print_rule m in
    let k3 = clean_path m.path in
    let k2 = clean_member m.member s3 k3 in
    let k1 = clean_interface m.interface s2 k2 in
    let (f1, l1, e1) = read_type (length s) m.type s1 s ht k1 (omega arith) in
    let (f2, l2, e2) = read_interface f1 m.interface s2 s m.type hi k2 l1 in
    let (f3, l3, e3) = read_member f2 m.member s3 s m.type m.interface hm k3 l2 in
    let (f4, l4, e4) = read_path f3 m.path [] s m.type m.interface m.member hp refl l3 in
    fits s _ l ∙ (e1 ∙ (e2 ∙ (e3 ∙ (e4 ∙ parse_nothing f4 _))))
