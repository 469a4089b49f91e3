-- ===== src/Ink/Proto/Headers/Built.antt =====
-- What the four builders write, and what the parser makes of it.
use finit.Prelude.{
  ℕ, zero, ◌+◌, ◌^◌, ◌≤◌, ◌<◌, arith, ◌≡◌, refl, ap, sym, ◌∙◌, List, [], ◌∷◌, ◌++◌, length,
  length-append, length-replicate, replicate, Option, none, some,
}
use finit.Ink.Writer.{padding, u32_bytes}
use finit.Ink.Proto.{number, max_msg_size, aligned, message, msg_parse}
use finit.Ink.Proto.Build.{
  ◌>>=◌, fixed_fits, msg_build_return, msg_build_error, msg_build_signal, msg_build_method_call,
}
use finit.Ink.Proto.Walk.{
  FieldEntry, entries_bytes, Holds, optional, signed, text-Holds, number-Holds, optional-Holds,
  signature-Holds,
}
use finit.Ink.Proto.RoundTrip.{header_bytes, msg_parse-header, finalize-Holds}
use finit.Ink.Proto.Headers.Stored.{stored, fields_fit}
use finit.Ink.Proto.Headers.{
  Header, method_return, error_reply, signal, method_call, build, msg_of, type_of, flags_of,
  fields_of, one, HeaderFits,
}

-- A step of a builder that succeeds, and what it leaves.
step :
    {B : Type 0} {C : Type 0} (x : Option (List ℕ)) (k : List ℕ → Option B) (b : B)
    (fs : List FieldEntry)
    → x >>= k ≡ some b
    → ((a : List ℕ) → x ≡ some a → Holds a fs)
    → ((a : List ℕ) → Holds a fs → k a ≡ some b → C)
    → C
step none k b fs e holds next = absurd (cc e)
step (some a) k b fs e holds next = next a (holds a refl) e

fixed_fits-Holds : (cap : ℕ) (out : List ℕ) → fixed_fits cap ≡ some out → Holds out []
fixed_fits-Holds cap out h = ground (arith, h)

build-Holds :
    (cap serial n : ℕ) (h : Header) (hdr : List ℕ)
    → build cap serial h n ≡ some hdr
    → hdr ≡ header_bytes (type_of h) (flags_of h) n serial (fields_of h)
unfolding msg_build_return msg_build_error msg_build_signal msg_build_method_call
build-Holds cap serial n (method_return r d g) hdr e =
    let f1 : List FieldEntry = (5, 117, number r) ∷ [] in
    let f2 = f1 ++ optional 6 d in
    step _ _ hdr [] e (λ o q. fixed_fits-Holds cap o q)
      (λ o ho e.
        step _ _ hdr f1 e (λ z q. number-Holds cap 5 r o z [] ho q)
          (λ a ha e.
            step _ _ hdr f2 e (λ z q. optional-Holds cap 6 d a z f1 ha q)
              (λ b hb e.
                step _ _ hdr (f2 ++ signed g) e (λ z q. signature-Holds cap g b z f2 hb q)
                  (λ c hc e. finalize-Holds cap 2 1 n serial c hdr (f2 ++ signed g) hc e))))
build-Holds cap serial n (error_reply r d x g) hdr e =
    let f1 : List FieldEntry = (5, 117, number r) ∷ [] in
    let f2 = f1 ++ one 4 115 x in
    let f3 = f2 ++ optional 6 d in
    step _ _ hdr [] e (λ o q. fixed_fits-Holds cap o q)
      (λ o ho e.
        step _ _ hdr f1 e (λ z q. number-Holds cap 5 r o z [] ho q)
          (λ a ha e.
            step _ _ hdr f2 e (λ z q. text-Holds cap 4 115 x a z f1 ha q)
              (λ b hb e.
                step _ _ hdr f3 e (λ z q. optional-Holds cap 6 d b z f2 hb q)
                  (λ c hc e.
                    step _ _ hdr (f3 ++ signed g) e (λ z q. signature-Holds cap g c z f3 hc q)
                      (λ d hd e. finalize-Holds cap 3 1 n serial d hdr (f3 ++ signed g) hd e)))))
build-Holds cap serial n (signal p i m g) hdr e =
    let f1 = one 1 111 p in
    let f2 = f1 ++ one 2 115 i in
    let f3 = f2 ++ one 3 115 m in
    step _ _ hdr [] e (λ o q. fixed_fits-Holds cap o q)
      (λ o ho e.
        step _ _ hdr f1 e (λ z q. text-Holds cap 1 111 p o z [] ho q)
          (λ a ha e.
            step _ _ hdr f2 e (λ z q. text-Holds cap 2 115 i a z f1 ha q)
              (λ b hb e.
                step _ _ hdr f3 e (λ z q. text-Holds cap 3 115 m b z f2 hb q)
                  (λ c hc e.
                    step _ _ hdr (f3 ++ signed g) e (λ z q. signature-Holds cap g c z f3 hc q)
                      (λ d hd e. finalize-Holds cap 4 1 n serial d hdr (f3 ++ signed g) hd e)))))
build-Holds cap serial n (method_call p i m d g) hdr e =
    let f1 = one 1 111 p in
    let f2 = f1 ++ optional 2 i in
    let f3 = f2 ++ one 3 115 m in
    let f4 = f3 ++ optional 6 d in
    step _ _ hdr [] e (λ o q. fixed_fits-Holds cap o q)
      (λ o ho e.
        step _ _ hdr f1 e (λ z q. text-Holds cap 1 111 p o z [] ho q)
          (λ a ha e.
            step _ _ hdr f2 e (λ z q. optional-Holds cap 2 i a z f1 ha q)
              (λ b hb e.
                step _ _ hdr f3 e (λ z q. text-Holds cap 3 115 m b z f2 hb q)
                  (λ c hc e.
                    step _ _ hdr f4 e (λ z q. optional-Holds cap 6 d c z f3 hc q)
                      (λ d hd e.
                        step _ _ hdr (f4 ++ signed g) e (λ z q. signature-Holds cap g d z f4 hd q)
                          (λ k hk e.
                            finalize-Holds cap 1 0 n serial k hdr (f4 ++ signed g) hk e))))))

header_bytes-size :
    (type flags n serial : ℕ) (fs : List FieldEntry)
    → length (header_bytes type flags n serial fs) ≡ aligned (16 + length (entries_bytes 16 fs)) 8
unfolding u32_bytes
header_bytes-size type flags n serial fs =
    let e = entries_bytes 16 fs in
    let r : List ℕ = replicate (padding (16 + length e) 8) 0 in
    omega (arith, length-append e r, length-replicate (padding (16 + length e) 8) zero)

-- The parser makes of a message that any of the four builders has built what the builder was
-- given, with the body behind it and whatever follows it left alone, where the arguments are
-- strings without a NUL, the numbers fit 32 bits, a signature fixed_fits its byte, and neither the header
-- nor the body is over the limit on messages.
pub msg_parse-build :
    (cap serial : ℕ) (h : Header) (hdr body rest : List ℕ)
    → build cap serial h (length body) ≡ some hdr
    → HeaderFits h
    → serial < 2 ^ 32
    → length hdr ≤ max_msg_size
    → length body ≤ max_msg_size
    → msg_parse (hdr ++ (body ++ rest)) ≡ message (msg_of serial h body) (length hdr + length body)
msg_parse-build cap serial h hdr body rest e fit ls lh lb =
    let fs = fields_of h in
    let bytes = build-Holds cap serial (length body) h hdr e in
    let long = header_bytes-size (type_of h) (flags_of h) (length body) serial fs in
    let count : length hdr ≡ aligned (16 + length (entries_bytes 16 fs)) 8 =
      ap length bytes ∙ long in
    ap (λ t. msg_parse (t ++ (body ++ rest))) bytes
    ∙ (msg_parse-header (type_of h) (flags_of h) serial fs body rest (fields_fit h fit)
          (omega (arith, count)) lb ls
        ∙ (ap (λ m. message m (aligned (16 + length (entries_bytes 16 fs)) 8 + length body))
              (stored serial h body)
            ∙ ap (λ k. message (msg_of serial h body) (k + length body)) (sym count)))
