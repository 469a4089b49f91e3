-- ===== src/Ink/Path/Decode.antt =====
-- The encoding can be undone, so that different identifiers have different paths.
use finit.Prelude.{
  ℕ, zero, suc, ◌+◌, ◌-◌, ◌*◌, ◌/◌, ◌%◌, ◌≤◌, ◌<◌, arith, true, false, leb, ltb, ◌==◌, ◌≡◌, ◌⊎◌,
  refl, ap, ◌∙◌, List, [], ◌∷◌, ◌++◌, length, length-append, none, some, Bool-cases, inl, inr,
  if◌then◌else◌,
}
use finit.Ink.Fields.{append_assoc}
use finit.Ink.Written.{append_nil}
use finit.Ink.Path.{is_safe, hex, encode_from, link_path_encode}

abbrev escape : ℕ → List ℕ
escape c = if is_safe c then c ∷ [] else 95 ∷ hex (c / 16) ∷ hex (c % 16) ∷ []

-- The encoding, without the bound.
pub escape_all : List ℕ → List ℕ
escape_all [] = []
escape_all (c ∷ s) = escape c ++ escape_all s

unhex : ℕ → ℕ
unhex d = if ltb d 97 then d - 48 else d - 87

-- An independent decoder.
pub decode : List ℕ → List ℕ
decode [] = []
decode (c ∷ []) = c ∷ []
decode (c ∷ d ∷ []) = c ∷ d ∷ []
decode (c ∷ d ∷ e ∷ s) =
    let three = (unhex d * 16 + unhex e) ∷ decode s in
    let one = c ∷ decode (d ∷ e ∷ s) in elim (c == 95) [ true ↦ three | false ↦ one ]

abbrev pub AllBytes : List ℕ → Type 0
AllBytes [] = 0 ≤ 0
AllBytes (c ∷ s) = (c < 256) × AllBytes s

decode-safe : (c : ℕ) (s : List ℕ) → is_safe c ≡ true → decode (c ∷ s) ≡ c ∷ decode s
unfolding decode is_safe
decode-safe c [] h = refl
decode-safe c (d ∷ []) h = refl
decode-safe c (d ∷ e ∷ s) h = ground arith

unhex-hex : (d : ℕ) → d < 16 → unhex (hex d) ≡ d
unfolding unhex hex
unhex-hex d h = ground arith

decode-escaped :
    (c : ℕ) (s : List ℕ) → c < 256 → decode (95 ∷ hex (c / 16) ∷ hex (c % 16) ∷ s) ≡ c ∷ decode s
unfolding decode
decode-escaped c s h =
    ap (λ k. k ∷ decode s)
      (omega (arith, unhex-hex (c / 16) (omega arith), unhex-hex (c % 16) (omega arith)))

decode-escape : (c : ℕ) (s : List ℕ) → c < 256 → decode (escape c ++ s) ≡ c ∷ decode s
decode-escape c s h = elim (Bool-cases (is_safe c)) [
  | inl y ↦ rw y (decode-safe c s y)
  | inr n ↦ rw n (decode-escaped c s h)
]

decode-escape_all : (s : List ℕ) → AllBytes s → decode (escape_all s) ≡ s
unfolding escape_all decode
decode-escape_all [] h = refl
decode-escape_all (c ∷ s) (h, hs) =
    decode-escape c (escape_all s) h ∙ ap (λ l. c ∷ l) (decode-escape_all s hs)

-- The loop appends the encoding exactly if it fits with its NUL.
encode_from_lem :
    (s out : List ℕ) (outsz : ℕ)
    → length out < outsz
    → encode_from s out outsz ≡ (
        if leb outsz (length out + length (escape_all s)) then none else some (out ++ escape_all s))
unfolding encode_from escape_all
encode_from_lem [] out outsz h = ground (arith, append_nil out)
encode_from_lem (c ∷ s) out outsz h = elim (Bool-cases (is_safe c)) [
  | inl y ↦ rw y (
      ground (
        arith,
        encode_from_lem s (out ++ c ∷ []) outsz,
        length-append out (c ∷ []),
        append_assoc out (c ∷ []) (escape_all s),
      ))
  | inr n ↦ rw n (
      ground (
        arith,
        encode_from_lem s (out ++ 95 ∷ hex (c / 16) ∷ hex (c % 16) ∷ []) outsz,
        length-append out (95 ∷ hex (c / 16) ∷ hex (c % 16) ∷ []),
        append_assoc out (95 ∷ hex (c / 16) ∷ hex (c % 16) ∷ []) (escape_all s),
      ))
]

encodes :
    (s : List ℕ) (outsz : ℕ)
    → (length (escape_all s) < outsz) × (link_path_encode s outsz ≡ some (escape_all s))
      ⊎ (outsz ≤ length (escape_all s)) × (link_path_encode s outsz ≡ none)
unfolding link_path_encode
encodes s zero = inr (omega arith, refl)
encodes s (suc n) = elim (Bool-cases (leb (suc n) (length (escape_all s)))) [
  | inl y ↦ inr (ground arith, ground (arith, encode_from_lem s [] (suc n)))
  | inr no_more ↦ inl (ground arith, ground (arith, encode_from_lem s [] (suc n)))
]

-- Encoding succeeds exactly if the escaped identifier and its NUL fit into the buffer, and what it
-- writes can be decoded to the identifier again: so no two identifiers share a path.
pub path_encode-decode :
    (s : List ℕ) (outsz : ℕ)
    → AllBytes s
    → ((length (escape_all s) < outsz) × (link_path_encode s outsz ≡ some (escape_all s))
        ⊎ (outsz ≤ length (escape_all s)) × (link_path_encode s outsz ≡ none))
      × (decode (escape_all s) ≡ s)
path_encode-decode s outsz h = (encodes s outsz, decode-escape_all s h)
