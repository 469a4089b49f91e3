-- ===== src/Ink/Proto/Headers/Stored.antt =====
-- What the parser stores of a header's fields, and that they are written as they are.
use finit.Prelude.{
  ℕ, ◌^◌, ◌<◌, arith, ◌≡◌, inl, inr, refl, ap, ◌∙◌, List, [], ◌∷◌, ◌++◌, length, Option, none, some,
}
use finit.Ink.Proto.{Msg, number, store_field}
use finit.Ink.Proto.Walk.{FieldEntry, AllFit, store_all, optional, signed}
use finit.Ink.Proto.RoundTrip.{blank}
use finit.Ink.Proto.Headers.{
  Header, method_return, error_reply, signal, method_call, not_empty, msg_of, type_of, flags_of,
  sig_of, leading, fields_of, one, TextFits, OptionFits, SignatureFits, HeaderFits,
}

-- What the parser stores of the fields.
store_all-append :
    (fs gs : List FieldEntry) (m : Msg) → store_all (fs ++ gs) m ≡ store_all gs (store_all fs m)
store_all-append [] gs m = refl
store_all-append ((c, v, x) ∷ fs) gs m = store_all-append fs gs (store_field c x m)

store_signed :
    (g : Option (List ℕ)) (m : Msg)
    → m.signature ≡ none
    → store_all (signed g) m ≡ record m { signature = not_empty g }
unfolding store_field
store_signed none m h = ap (λ x. record m { signature = x }) h
store_signed (some []) m h = ap (λ x. record m { signature = x }) h
store_signed (some (c ∷ s)) m h = refl

abbrev start_of : ℕ → ℕ → Header → Msg
start_of n serial h = blank (type_of h) (flags_of h) n serial

store_leading :
    (n serial : ℕ) (h : Header) (body : List ℕ)
    → let m = store_all (leading h) (start_of (length body) serial h) in
      (m.signature ≡ none)
      × (record m { signature = not_empty (sig_of h); body = body } ≡ msg_of serial h body)
unfolding store_field
store_leading n serial (method_return r none g) body = (refl, refl)
store_leading n serial (method_return r (some d) g) body = (refl, refl)
store_leading n serial (error_reply r none e g) body = (refl, refl)
store_leading n serial (error_reply r (some d) e g) body = (refl, refl)
store_leading n serial (signal p i m g) body = (refl, refl)
store_leading n serial (method_call p none m none g) body = (refl, refl)
store_leading n serial (method_call p none m (some d) g) body = (refl, refl)
store_leading n serial (method_call p (some i) m none g) body = (refl, refl)
store_leading n serial (method_call p (some i) m (some d) g) body = (refl, refl)

pub stored :
    (serial : ℕ) (h : Header) (body : List ℕ)
    → record (store_all (fields_of h) (start_of (length body) serial h)) { body = body }
      ≡ msg_of serial h body
stored serial h body =
    let m = start_of (length body) serial h in
    let lead = store_leading 0 serial h body in
    ap {A = Msg} {B = Msg} (λ x. record x { body = body })
      (store_all-append (leading h) (signed (sig_of h)) m
        ∙ store_signed (sig_of h) (store_all (leading h) m) lead.0)
    ∙ lead.1

AllFit-append : (fs gs : List FieldEntry) → AllFit fs → AllFit gs → AllFit (fs ++ gs)
AllFit-append [] gs f g = g
AllFit-append ((c, v, x) ∷ fs) gs (k, f) g = (k, AllFit-append fs gs f g)

optional_fit : (code : ℕ) (o : Option (List ℕ)) → OptionFits o → AllFit (optional code o)
optional_fit code none h = h
optional_fit code (some s) (c, n) = ((inl refl, c, n), omega arith)

signed_fit : (g : Option (List ℕ)) → SignatureFits g → AllFit (signed g)
signed_fit none h = h
signed_fit (some []) h = omega arith
signed_fit (some (c ∷ s)) (k, n) = ((refl, k, n), omega arith)

one_fit : (code : ℕ) (s : List ℕ) → TextFits s → AllFit (one code 115 s)
one_fit code s (c, n) = ((inl refl, c, n), omega arith)

path_fit : (s : List ℕ) → TextFits s → AllFit (one 1 111 s)
path_fit s (c, n) = ((inr refl, c, n), omega arith)

number_fit : (r : ℕ) → r < 2 ^ 32 → AllFit ((5, 117, number r) ∷ [])
number_fit r n = ((refl, n), omega arith)

pub fields_fit : (h : Header) → HeaderFits h → AllFit (fields_of h)
fields_fit (method_return r d g) (n, f, k) =
    let a =
      AllFit-append ((5, 117, number r) ∷ []) (optional 6 d) (number_fit r n)
        (optional_fit 6 d f) in
    AllFit-append (leading (method_return r d g)) (signed g) a (signed_fit g k)
fields_fit (error_reply r d e g) (n, t, f, k) =
    let a =
      AllFit-append ((5, 117, number r) ∷ []) (one 4 115 e) (number_fit r n) (one_fit 4 e t) in
    let b =
      AllFit-append (((5, 117, number r) ∷ []) ++ one 4 115 e) (optional 6 d) a
        (optional_fit 6 d f) in
    AllFit-append (leading (error_reply r d e g)) (signed g) b (signed_fit g k)
fields_fit (signal p i m g) (tp, ti, tm, k) =
    let a = AllFit-append (one 1 111 p) (one 2 115 i) (path_fit p tp) (one_fit 2 i ti) in
    let b = AllFit-append (one 1 111 p ++ one 2 115 i) (one 3 115 m) a (one_fit 3 m tm) in
    AllFit-append (leading (signal p i m g)) (signed g) b (signed_fit g k)
fields_fit (method_call p i m d g) (tp, fi, tm, fd, k) =
    let a = AllFit-append (one 1 111 p) (optional 2 i) (path_fit p tp) (optional_fit 2 i fi) in
    let b = AllFit-append (one 1 111 p ++ optional 2 i) (one 3 115 m) a (one_fit 3 m tm) in
    let c =
      AllFit-append ((one 1 111 p ++ optional 2 i) ++ one 3 115 m) (optional 6 d) b
        (optional_fit 6 d fd) in
    AllFit-append (leading (method_call p i m d g)) (signed g) c (signed_fit g k)
