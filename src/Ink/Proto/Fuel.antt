-- ===== src/Ink/Proto/Fuel.antt =====
-- The walk over the fields of a header advances, stays within the header, and ends.
use finit.Prelude.{
  ℕ, zero, suc, ◌+◌, ◌≤◌, ◌<◌, arith, ◌≡◌, ◌⊎◌, inl, inr, refl, List, drop, Option, none, some,
}
use finit.Ink.Reader.{head}
use finit.Ink.Proto.{
  Msg, FieldValue, Found, finished, malformed, field, aligned, parse_string, parse_signature,
  text_field, sign_field, value_at, round_at, store_field, walk,
}

parse_signature-advances :
    (b : List ℕ) (fp fend : ℕ) (s : List ℕ) (next : ℕ)
    → parse_signature b fp fend ≡ some (s, next)
    → (fp < next) × (next ≤ fend)
unfolding parse_signature
parse_signature-advances b fp fend s next h = ground (arith, h)

parse_string-advances :
    (b : List ℕ) (fp fend : ℕ) (s : List ℕ) (next : ℕ)
    → parse_string b fp fend ≡ some (s, next)
    → (fp < next) × (next ≤ fend)
unfolding parse_string
parse_string-advances b fp fend s next h = ground (arith, h)

text_field-advances :
    (r : Option (List ℕ × ℕ)) (code c fp fend : ℕ) (v : FieldValue) (next : ℕ)
    → ((s : List ℕ) (n : ℕ) → r ≡ some (s, n) → (fp < n) × (n ≤ fend))
    → text_field code r ≡ field c v next
    → (fp < next) × (next ≤ fend)
text_field-advances none code c fp fend v next h e = absurd (cc e)
text_field-advances (some (s, n)) code c fp fend v next h e =
    let q : n ≡ next = cc e in rw⁻¹ q (h s n refl)

sign_field-advances :
    (r : Option (List ℕ × ℕ)) (code c fp fend : ℕ) (v : FieldValue) (next : ℕ)
    → ((s : List ℕ) (n : ℕ) → r ≡ some (s, n) → (fp < n) × (n ≤ fend))
    → sign_field code r ≡ field c v next
    → (fp < next) × (next ≤ fend)
sign_field-advances none code c fp fend v next h e = absurd (cc e)
sign_field-advances (some (s, n)) code c fp fend v next h e =
    let q : n ≡ next = cc e in rw⁻¹ q (h s n refl)

value_at-advances :
    (b : List ℕ) (fend code : ℕ) (r : Option (List ℕ × ℕ)) (fp c : ℕ) (v : FieldValue) (next : ℕ)
    → ((s : List ℕ) (n : ℕ) → r ≡ some (s, n) → fp < n)
    → value_at b fend code r ≡ field c v next
    → (fp < next) × (next ≤ fend)
unfolding value_at
value_at-advances b fend code none fp c v next h e = absurd (cc e)
value_at-advances b fend code (some (s, n)) fp c v next h e =
    let text_next =
      text_field-advances (parse_string b (aligned n 4) fend) code c n fend v next
        (λ t k q. omega (arith, parse_string-advances b (aligned n 4) fend t k q)) in
    let sign_next =
      sign_field-advances (parse_signature b n fend) code c n fend v next
        (λ t k q. parse_signature-advances b n fend t k q) in
    ground (arith, e, h s n refl, text_next, sign_next)

-- Each round of the walk that finds a field goes forward, and not beyond the end of the array of
-- fields, whatever the bytes are.
pub round_at-advances :
    (b : List ℕ) (fend fp c : ℕ) (v : FieldValue) (next : ℕ)
    → round_at b fend fp ≡ field c v next
    → (fp < next) × (next ≤ fend)
unfolding round_at
round_at-advances b fend fp c v next h =
    let p = aligned fp 8 in
    let past_signature : (s : List ℕ) (n : ℕ)
        → parse_signature b (p + 1) fend ≡ some (s, n)
        → p < n =
      λ s n q. omega (arith, parse_signature-advances b (p + 1) fend s n q) in
    let next_field =
      value_at-advances b fend (head (drop p b)) (parse_signature b (p + 1) fend) p c v next
        past_signature in
    ground (arith, h, next_field)

pub Found-cases :
    (r : Found)
    → (r ≡ finished)
      ⊎ ((r ≡ malformed) ⊎ ((c : ℕ) × (v : FieldValue) × (next : ℕ) × (r ≡ field c v next)))
Found-cases finished = inl refl
Found-cases malformed = inr (inl refl)
Found-cases (field c v next) = inr (inr (c, v, next, refl))

-- How the walk goes from a position on, and what it returns: the message behind finitely many rounds, or
-- none at the first field that is malformed. A walk that goes on for ever has no result.
pub data Walked (b : List ℕ) (fend : ℕ) : ℕ → Msg → Option Msg → Type 0 where
  ended : {fp : ℕ} {m : Msg} → round_at b fend fp ≡ finished → Walked b fend fp m (some m)
  refused : {fp : ℕ} {m : Msg} → round_at b fend fp ≡ malformed → Walked b fend fp m none
  stepped :
      {fp c next : ℕ} {v : FieldValue} {m : Msg} {r : Option Msg}
      → round_at b fend fp ≡ field c v next
      → Walked b fend next (store_field c v m) r
      → Walked b fend fp m r

-- The walk over the fields of a header ends whatever the bytes are: with more fuel than there are bytes
-- left it returns what finitely many rounds lead to, the message at the end of the array or
-- none at a malformed field, and none never stands for fuel that has run out.
pub walk-Walked :
    (f : ℕ) (b : List ℕ) (fend fp : ℕ) (m : Msg)
    → fend < fp + f
    → 1 ≤ f
    → Walked b fend fp m (walk f b fend fp m)
unfolding walk
walk-Walked zero b fend fp m h p = absurd (omega arith)
walk-Walked (suc f) b fend fp m h p = elim (Found-cases (round_at b fend fp)) [
  | inl e ↦ rw (walk, e) (ended e)
  | inr (inl e) ↦ rw (walk, e) (refused e)
  | inr (inr (c, v, next, e)) ↦
      (let go = round_at-advances b fend fp c v next e in
        rw (walk, e)
          (stepped e (
            walk-Walked f b fend next (store_field c v m) (omega (arith, go)) (omega (arith, go)))))
]
