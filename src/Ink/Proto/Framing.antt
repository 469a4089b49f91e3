-- ===== src/Ink/Proto/Framing.antt =====
-- A message that is not there as a whole.
use finit.Prelude.{
  ℕ, zero, suc, ◌+◌, ◌≤◌, ◌<◌, arith, not, ◌==◌, ltb, ◌≡◌, inl, inr, ap, refl, sym, subst, ◌∙◌,
  List, [], ◌∷◌, ◌++◌, length, drop, Option, none, some, if◌then◌else◌, Bool-cases,
}
use finit.Ink.Reader.{head, rd_u32}
use finit.Ink.Proto.{
  Msg, round_at, store_field, hdr_fixed_size, aligned, walk, Parsed, need_more, bad, message,
  with_body, fixed_part, parse_rest, msg_parse,
}
use finit.Ink.Proto.Fuel.{Found-cases}
use finit.Ink.Proto.RoundTrip.{blank, store_field-body_len}

-- Bytes that are there are read alike whatever follows them.
head-append : (k : ℕ) (b more : List ℕ) → k < length b → head (drop k (b ++ more)) ≡ head (drop k b)
head-append k [] more h = absurd (omega arith)
head-append zero (x ∷ b) more h = refl
head-append (suc k) (x ∷ b) more h = head-append k b more (omega arith)

rd_u32-append :
    (k : ℕ) (b more : List ℕ) → k + 3 < length b → rd_u32 (drop k (b ++ more)) ≡ rd_u32 (drop k b)
unfolding rd_u32
rd_u32-append k [] more h = absurd (omega arith)
rd_u32-append zero (x ∷ y ∷ z ∷ w ∷ b) more h = refl
rd_u32-append zero (x ∷ []) more h = absurd (omega arith)
rd_u32-append zero (x ∷ y ∷ []) more h = absurd (omega arith)
rd_u32-append zero (x ∷ y ∷ z ∷ []) more h = absurd (omega arith)
rd_u32-append (suc k) (x ∷ b) more h = rd_u32-append k b more (omega arith)

walk-body_len :
    (f : ℕ) (b : List ℕ) (fend fp : ℕ) (m r : Msg)
    → walk f b fend fp m ≡ some r
    → r.body_len ≡ m.body_len
unfolding walk
walk-body_len zero b fend fp m r h = absurd (cc h)
walk-body_len (suc f) b fend fp m r h = elim (Found-cases (round_at b fend fp)) [
  | inl e ↦ (let q : some m ≡ some r = rw (walk, e) at h in let same : r ≡ m = cc in rw same refl)
  | inr (inl e) ↦ (let q : none ≡ some r = rw (walk, e) at h in absurd (cc q))
  | inr (inr (c, v, next, e)) ↦
      (let q : walk f b fend next (store_field c v m) ≡ some r = rw (walk, e) at h in
        walk-body_len f b fend next (store_field c v m) r q ∙ store_field-body_len c v m)
]

with_body_size :
    (b : List ℕ) (offset n : ℕ) (o : Option Msg) (r : Msg) (k : ℕ)
    → ((x : Msg) → o ≡ some x → x.body_len ≡ n)
    → with_body b offset o ≡ message r k
    → k ≡ offset + n
with_body_size b offset n none r k g h = absurd (cc h)
with_body_size b offset n (some x) r k g h = ground (arith, g x refl, h)

parse_rest_short :
    (b c : List ℕ) (m : Msg) (n : ℕ) (r : Msg) (k : ℕ)
    → parse_rest c m n ≡ message r k
    → length b < k
    → parse_rest b m n ≡ need_more
parse_rest_short b c m n r k h l =
    let w = walk (suc n) c (hdr_fixed_size + n) hdr_fixed_size m in
    let size =
      with_body_size c (aligned (hdr_fixed_size + n) 8) m.body_len w r k
        (λ x q. walk-body_len (suc n) c (hdr_fixed_size + n) hdr_fixed_size m x q) in
    ground (arith, h, l, size)

-- The tests in front of the rest of a parse.
abbrev tests : ℕ → ℕ → ℕ → Parsed → Parsed
tests n first version rest =
    if ltb n hdr_fixed_size
    then need_more
    else if not (first == 108)
    then bad
    else if not (version == 1)
    then bad
    else rest

tests-message :
    (n first version k : ℕ) (rest : Parsed) (r : Msg)
    → tests n first version rest ≡ message r k
    → (first ≡ 108) × (version ≡ 1) × (rest ≡ message r k)
tests-message n first version k rest r h = ground (arith, h)

tests-rest :
    (n first version : ℕ) (rest : Parsed)
    → first ≡ 108
    → version ≡ 1
    → rest ≡ need_more
    → tests n first version rest ≡ need_more
tests-rest n first version rest h1 h2 h3 = ground (arith, h1, h2, h3)

fixed_part-append : (b more : List ℕ) → 15 < length b → fixed_part (b ++ more) ≡ fixed_part b
fixed_part-append b more h =
    let c = b ++ more in
    ap (λ x. blank x (head (drop 2 c)) (rd_u32 (drop 4 c)) (rd_u32 (drop 8 c)))
      (head-append 1 b more (omega arith))
    ∙ (ap (λ x. blank (head (drop 1 b)) x (rd_u32 (drop 4 c)) (rd_u32 (drop 8 c)))
          (head-append 2 b more (omega arith))
        ∙ (ap (λ x. blank (head (drop 1 b)) (head (drop 2 b)) x (rd_u32 (drop 8 c)))
              (rd_u32-append 4 b more (omega arith))
            ∙ ap (λ x. blank (head (drop 1 b)) (head (drop 2 b)) (rd_u32 (drop 4 b)) x)
                (rd_u32-append 8 b more (omega arith))))

-- Where the bytes that are there, with others behind them, make a message that takes more bytes than
-- are there, the parser asks for more.
pub msg_parse-short :
    (b more : List ℕ) (r : Msg) (k : ℕ)
    → msg_parse (b ++ more) ≡ message r k
    → length b < k
    → msg_parse b ≡ need_more
unfolding msg_parse
msg_parse-short b more r k h l = elim (Bool-cases (ltb (length b) hdr_fixed_size)) [
  | inl y ↦ rw y refl
  | inr y ↦
      (let c = b ++ more in
        let long : 15 < length b = ground (arith, y) in
        let (first, version, found) =
          tests-message (length c) (head c) (head (drop 3 c)) k
            (parse_rest c (fixed_part c) (rd_u32 (drop 12 c))) r h in
        let e = fixed_part-append b more long in
        let d = rd_u32-append 12 b more (omega arith) in
        let found_b : parse_rest c (fixed_part b) (rd_u32 (drop 12 b)) ≡ message r k =
          subst (λ x. parse_rest c (fixed_part b) x ≡ message r k) d
            (subst (λ x. parse_rest c x (rd_u32 (drop 12 c)) ≡ message r k) e found) in
        tests-rest (length b) (head b) (head (drop 3 b))
          (parse_rest b (fixed_part b) (rd_u32 (drop 12 b)))
          (sym (head-append 0 b more (omega arith)) ∙ first)
          (sym (head-append 3 b more (omega arith)) ∙ version)
          (parse_rest_short b c (fixed_part b) (rd_u32 (drop 12 b)) r k found_b l))
]

parse_rest_size :
    (b : List ℕ) (m : Msg) (n : ℕ) (r : Msg) (k : ℕ)
    → parse_rest b m n ≡ message r k
    → (16 ≤ k) × (k ≤ length b)
parse_rest_size b m n r k h =
    let w = walk (suc n) b (hdr_fixed_size + n) hdr_fixed_size m in
    let size =
      with_body_size b (aligned (hdr_fixed_size + n) 8) m.body_len w r k
        (λ x q. walk-body_len (suc n) b (hdr_fixed_size + n) hdr_fixed_size m x q) in
    ground (arith, h, size)

-- A message takes 16 bytes at least, and those that are there at most.
pub msg_parse-size :
    (b : List ℕ) (r : Msg) (k : ℕ) → msg_parse b ≡ message r k → (16 ≤ k) × (k ≤ length b)
unfolding msg_parse
msg_parse-size b r k h =
    let (first, version, found) =
      tests-message (length b) (head b) (head (drop 3 b)) k
        (parse_rest b (fixed_part b) (rd_u32 (drop 12 b))) r h in
    parse_rest_size b (fixed_part b) (rd_u32 (drop 12 b)) r k found
