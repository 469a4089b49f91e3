-- ===== src/Ink/Dispatch/Reading.antt =====
-- The reading of the messages in a buffer ends.
use finit.Prelude.{
  ℕ, zero, suc, ◌≤◌, arith, Bool, true, false, ◌≡◌, ◌⊎◌, inl, inr, refl, List, [], ◌∷◌, length,
  take, drop,
}
use finit.Ink.Proto.{Msg, Parsed, need_more, bad, message, msg_parse}
use finit.Ink.Proto.Framing.{msg_parse-size}
use finit.Ink.Dispatch.{Server, Connection}
use finit.Ink.Dispatch.Send.{Host}
use finit.Ink.Dispatch.Message.{dispatch_message}
use finit.Ink.Dispatch.Events.{process_binary}

length-drop : (n : ℕ) (b : List ℕ) → length (drop n b) ≤ length b
length-drop zero b = omega arith
length-drop (suc n) [] = omega arith
length-drop (suc n) (x ∷ b) = omega (arith, length-drop n b)

shorter : (n x : ℕ) (b : List ℕ) → 1 ≤ n → length (drop n (x ∷ b)) ≤ length b
shorter zero x b h = absurd (omega arith)
shorter (suc n) x b h = length-drop n b

Parsed-cases :
    (p : Parsed) → (p ≡ need_more) ⊎ ((p ≡ bad) ⊎ ((m : Msg) × (n : ℕ) × (p ≡ message m n)))
Parsed-cases need_more = inl refl
Parsed-cases bad = inr (inl refl)
Parsed-cases (message m n) = inr (inr (m, n, refl))

same_status :
    {A : Type 0} (b : Bool) (x : A) {y z : A}
    → y ≡ z
    → elim b [ false ↦ x | true ↦ y ] ≡ elim b [ false ↦ x | true ↦ z ]
same_status false x e = refl
same_status true x e = e

-- What is made of a buffer does not depend on the fuel, as long as that is at least its length.
pub process_binary_enough :
    (f g : ℕ) (host : Host) (srv : Server) (buf : List ℕ) (c : Connection)
    → length buf ≤ f
    → length buf ≤ g
    → process_binary f host srv buf c ≡ process_binary g host srv buf c
unfolding process_binary
process_binary_enough zero zero host srv buf c hf hg = refl
process_binary_enough zero (suc g) host srv [] c hf hg = refl
process_binary_enough (suc f) zero host srv [] c hf hg = refl
process_binary_enough zero (suc g) host srv (x ∷ buf) c hf hg = absurd (omega arith)
process_binary_enough (suc f) zero host srv (x ∷ buf) c hf hg = absurd (omega arith)
process_binary_enough (suc f) (suc g) host srv [] c hf hg = refl
process_binary_enough (suc f) (suc g) host srv (x ∷ buf) c hf hg =
    elim (Parsed-cases (msg_parse (x ∷ buf))) [
      | inl e ↦ rw (process_binary, e) refl
      | inr (inl e) ↦ rw (process_binary, e) refl
      | inr (inr (m, n, e)) ↦
          (let r = dispatch_message host srv c m (take n (x ∷ buf)) in
            let less = shorter n x buf (omega (arith, msg_parse-size (x ∷ buf) m n e)) in
            rw (process_binary, e)
              (same_status r.1 (x ∷ buf, (r.0, false))
                (process_binary_enough f g host srv (drop n (x ∷ buf)) r.0 (omega (arith, less))
                  (omega (arith, less)))))
    ]
