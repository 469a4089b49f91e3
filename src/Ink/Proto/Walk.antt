-- ===== src/Ink/Proto/Walk.antt =====
-- All fields of a header: written one by one, and walked over by the parser.
use finit.Prelude.{
  ℕ, zero, suc, ◌+◌, ◌%◌, ◌≤◌, ◌<◌, arith, ◌≡◌, refl, ap, sym, subst, ◌∙◌, List, [], ◌∷◌, ◌++◌,
  length, length-append, length-replicate, replicate, Option, none, some,
}
use finit.Ink.Writer.{padding, u32_bytes}
use finit.Ink.Fields.{append_assoc, At, At-append}
use finit.Ink.Written.{append_nil}
use finit.Ink.Proto.{Msg, finished, FieldValue, text, sign, number, round_at, store_field, walk}
use finit.Ink.Proto.Fields.{field_bytes, Fits, start_aligned, round_at-At}
use finit.Ink.Proto.Build.{
  offset, put_padding, put_bytes, put_field_text, put_field_sign, put_field_u32, put_optional,
  put_signature,
}

-- A field: its code, its signature and its value.
abbrev pub FieldEntry : Type 0
FieldEntry = ℕ × ℕ × FieldValue

abbrev pub entries_bytes : ℕ → List FieldEntry → List ℕ
entries_bytes o [] = []
entries_bytes o ((code, vsig, v) ∷ fs) =
    field_bytes o code vsig v ++ entries_bytes (o + length (field_bytes o code vsig v)) fs

abbrev pub AllFit : List FieldEntry → Type 0
AllFit [] = 0 ≤ 0
AllFit ((code, vsig, v) ∷ fs) = Fits vsig v × AllFit fs

-- What the parser stores.
abbrev pub store_all : List FieldEntry → Msg → Msg
store_all [] m = m
store_all ((code, vsig, v) ∷ fs) m = store_all fs (store_field code v m)

round_at-end : (b : List ℕ) (fend : ℕ) → round_at b fend fend ≡ finished
unfolding round_at
round_at-end b fend = ground arith

pub walk-At :
    (f : ℕ) (b : List ℕ) (fend o : ℕ) (fs : List FieldEntry) (rest : List ℕ) (m : Msg)
    → AllFit fs
    → At o b (entries_bytes o fs ++ rest)
    → o + length (entries_bytes o fs) ≡ fend
    → length fs < f
    → walk f b fend o m ≡ some (store_all fs m)
unfolding walk
walk-At zero b fend o fs rest m k h l n = absurd (omega arith)
walk-At (suc f) b fend o [] rest m k h l n =
    let e : fend ≡ o = omega arith in rw e (rw (walk, round_at-end b o) refl)
walk-At (suc f) b fend o ((code, vsig, v) ∷ fs) rest m (k, ks) h l n =
    let next = o + length (field_bytes o code vsig v) in
    let tail = entries_bytes next fs in
    let count = length-append (field_bytes o code vsig v) tail in
    let h1 = subst (At o b) (append_assoc (field_bytes o code vsig v) tail rest) h in
    let found = round_at-At b fend o code vsig v (tail ++ rest) k h1 (omega (arith, count)) in
    let h2 = At-append o b (field_bytes o code vsig v) (tail ++ rest) h1 in
    rw (walk, found)
      (walk-At f b fend next fs rest (store_field code v m) ks h2 (omega (arith, count))
        (omega arith))

-- One field more.
entries_bytes-append :
    (o : ℕ) (fs : List FieldEntry) (code vsig : ℕ) (v : FieldValue)
    → entries_bytes o (fs ++ (code, vsig, v) ∷ [])
      ≡ entries_bytes o fs ++ field_bytes (o + length (entries_bytes o fs)) code vsig v
entries_bytes-append o [] code vsig v =
    append_nil (field_bytes o code vsig v) ∙ ap (λ p. field_bytes p code vsig v) (omega arith)
entries_bytes-append o ((c, g, w) ∷ fs) code vsig v =
    let head_bytes = field_bytes o c g w in
    let next = o + length head_bytes in
    ap (λ t. head_bytes ++ t) (entries_bytes-append next fs code vsig v)
    ∙ (sym (
          append_assoc head_bytes (entries_bytes next fs)
            (field_bytes (next + length (entries_bytes next fs)) code vsig v))
        ∙ ap (λ p. (head_bytes ++ entries_bytes next fs) ++ field_bytes p code vsig v)
            (omega (arith, length-append head_bytes (entries_bytes next fs))))

-- What has been written holds these fields.
abbrev pub Holds : List ℕ → List FieldEntry → Type 0
Holds out fs = out ≡ entries_bytes 16 fs

-- A field behind those that are there.
Holds-field :
    (out z : List ℕ) (fs : List FieldEntry) (code vsig : ℕ) (v : FieldValue)
    → Holds out fs
    → z ≡ out ++ field_bytes (offset out) code vsig v
    → Holds z (fs ++ (code, vsig, v) ∷ [])
Holds-field out z fs code vsig v h e =
    e
    ∙ (ap (λ x. x ++ field_bytes (16 + length x) code vsig v) h
        ∙ sym (entries_bytes-append 16 fs code vsig v))

-- What is written behind the padding of a field that starts at the end.
abbrev started : List ℕ → ℕ → ℕ → List ℕ
started out code vsig = (out ++ replicate (padding (offset out) 8) 0) ++ code ∷ 1 ∷ vsig ∷ 0 ∷ []

padding_started : (out : List ℕ) (code vsig : ℕ) → padding (offset (started out code vsig)) 4 ≡ 0
padding_started out code vsig =
    let r : List ℕ = replicate (padding (offset out) 8) 0 in
    let n : offset (started out code vsig) ≡ offset out + padding (offset out) 8 + 4 = omega (
      arith,
      length-append (out ++ r) (code ∷ 1 ∷ vsig ∷ 0 ∷ []),
      length-append out r,
      length-replicate (padding (offset out) 8) zero,
    ) in
    ap (λ k. padding k 4) n ∙ start_aligned (offset out)

started_value :
    (out : List ℕ) (code vsig : ℕ) (bytes : List ℕ)
    → started out code vsig ++ bytes
      ≡ out ++ (replicate (padding (offset out) 8) 0 ++ (code ∷ 1 ∷ vsig ∷ 0 ∷ bytes))
started_value out code vsig bytes =
    let r : List ℕ = replicate (padding (offset out) 8) 0 in
    append_assoc (out ++ r) (code ∷ 1 ∷ vsig ∷ 0 ∷ []) bytes
    ∙ append_assoc out r (code ∷ 1 ∷ vsig ∷ 0 ∷ bytes)

text_parts :
    (size code vsig : ℕ) (s out z : List ℕ)
    → put_field_text size code vsig s out ≡ some z
    → z
      ≡ (started out code vsig ++ replicate (padding (offset (started out code vsig)) 4) 0)
        ++ (u32_bytes (length s) ++ (s ++ 0 ∷ []))
unfolding put_field_text put_padding put_bytes
text_parts size code vsig s out z h = ground (arith, h)

number_parts :
    (size code v : ℕ) (out z : List ℕ)
    → put_field_u32 size code v out ≡ some z
    → z
      ≡ (started out code 117 ++ replicate (padding (offset (started out code 117)) 4) 0)
        ++ u32_bytes v
unfolding put_field_u32 put_padding put_bytes
number_parts size code v out z h = ground (arith, h)

sign_parts :
    (size code : ℕ) (s out z : List ℕ)
    → put_field_sign size code s out ≡ some z
    → z ≡ started out code 103 ++ (length s % 256 ∷ (s ++ 0 ∷ []))
unfolding put_field_sign put_padding put_bytes
sign_parts size code s out z h = ground (arith, h)

unpadded :
    (out : List ℕ) (code vsig : ℕ) (bytes : List ℕ)
    → (started out code vsig ++ replicate (padding (offset (started out code vsig)) 4) 0) ++ bytes
      ≡ started out code vsig ++ bytes
unpadded out code vsig bytes =
    ap (λ n. (started out code vsig ++ replicate n 0) ++ bytes) (padding_started out code vsig)
    ∙ ap (λ x. x ++ bytes) (append_nil (started out code vsig))

pub text-Holds :
    (size code vsig : ℕ) (s out z : List ℕ) (fs : List FieldEntry)
    → Holds out fs
    → put_field_text size code vsig s out ≡ some z
    → Holds z (fs ++ (code, vsig, text s) ∷ [])
text-Holds size code vsig s out z fs h e = Holds-field out z fs code vsig (text s) h (
    text_parts size code vsig s out z e
    ∙ (unpadded out code vsig (u32_bytes (length s) ++ (s ++ 0 ∷ []))
        ∙ started_value out code vsig (u32_bytes (length s) ++ (s ++ 0 ∷ []))))

pub number-Holds :
    (size code v : ℕ) (out z : List ℕ) (fs : List FieldEntry)
    → Holds out fs
    → put_field_u32 size code v out ≡ some z
    → Holds z (fs ++ (code, 117, number v) ∷ [])
number-Holds size code v out z fs h e = Holds-field out z fs code 117 (number v) h (
    number_parts size code v out z e
    ∙ (unpadded out code 117 (u32_bytes v) ∙ started_value out code 117 (u32_bytes v)))

sign-Holds :
    (size code : ℕ) (s out z : List ℕ) (fs : List FieldEntry)
    → Holds out fs
    → put_field_sign size code s out ≡ some z
    → Holds z (fs ++ (code, 103, sign s) ∷ [])
sign-Holds size code s out z fs h e =
    Holds-field out z fs code 103 (sign s) h
      (sign_parts size code s out z e ∙ started_value out code 103 (length s % 256 ∷ (s ++ 0 ∷ [])))

-- A string that may be missing, and a signature that may be missing or empty.
abbrev pub optional : ℕ → Option (List ℕ) → List FieldEntry
optional code none = []
optional code (some s) = (code, 115, text s) ∷ []

abbrev pub signed : Option (List ℕ) → List FieldEntry
signed none = []
signed (some []) = []
signed (some (c ∷ s)) = (8, 103, sign (c ∷ s)) ∷ []

no_more : (fs : List FieldEntry) → fs ++ [] ≡ fs
no_more [] = refl
no_more (f ∷ fs) = ap (λ t. f ∷ t) (no_more fs)

same : (x z : List ℕ) (fs : List FieldEntry) → Holds x fs → some x ≡ some z → Holds z (fs ++ [])
same x z fs h e = let q : z ≡ x = cc in q ∙ (h ∙ ap (λ t. entries_bytes 16 t) (sym (no_more fs)))

pub optional-Holds :
    (size code : ℕ) (o : Option (List ℕ)) (out z : List ℕ) (fs : List FieldEntry)
    → Holds out fs
    → put_optional size code o out ≡ some z
    → Holds z (fs ++ optional code o)
optional-Holds size code none out z fs h e = same out z fs h e
optional-Holds size code (some s) out z fs h e = text-Holds size code 115 s out z fs h e

pub signature-Holds :
    (size : ℕ) (o : Option (List ℕ)) (out z : List ℕ) (fs : List FieldEntry)
    → Holds out fs
    → put_signature size o out ≡ some z
    → Holds z (fs ++ signed o)
signature-Holds size none out z fs h e = same out z fs h e
signature-Holds size (some []) out z fs h e = same out z fs h e
signature-Holds size (some (c ∷ s)) out z fs h e = sign-Holds size 8 (c ∷ s) out z fs h e
