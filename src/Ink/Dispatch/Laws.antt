-- ===== src/Ink/Dispatch/Laws.antt =====
-- What every event keeps, from what the parts of the dispatcher keep.
use finit.Prelude.{
  ℕ, Bool, true, false, not, ◌≡◌, ◌⊎◌, refl, sym, subst, List, [], ◌∷◌, ◌++◌, Option, none, some,
  if◌then◌else◌,
}
use finit.Ink.Proto.{Msg}
use finit.Ink.Dispatch.{Server, Pending, Run, Delivered, Connection}
use finit.Ink.Dispatch.Send.{Host, send_method_return, send_error}
use finit.Ink.Dispatch.Park.{bus_of, park, unpark, map_slots}
use finit.Ink.Dispatch.Outbound.{with_pending}
use finit.Ink.Dispatch.Call.{caller_may, groups_of}
use finit.Ink.Dispatch.Sent.{Sent, send_method_return-Sent, send_error-Sent}

pub on_if : {A : Type 0} (P : A → Type 0) (b : Bool) {x y : A} → P x → P y → P (if b then x else y)
on_if P true p q = p
on_if P false p q = q

pub on_test :
    {A : Type 0} (P : A → Type 0) (b : Bool) {x y : A}
    → (b ≡ true → P x)
    → (b ≡ false → P y)
    → P (if b then x else y)
on_test P true p q = p refl
on_test P false p q = q refl

pub not-true : (b : Bool) → not b ≡ true → b ≡ false
not-true true h = absurd (cc h)
not-true false h = refl

pub on_option :
    {A B : Type 0} (P : A → Type 0) (o : Option B) {x : A} {f : B → A}
    → P x
    → ((b : B) → P (f b))
    → P (elim o [ none ↦ x | some b ↦ f b ])
on_option P none p q = p
on_option P (some b) p q = q b

-- A caller that a method's handler may be run for.
abbrev pub Allowed : Server → List ℕ → Run → Type 0
Allowed srv groups r = (r.privileged ≡ false) ⊎ (caller_may srv r.uid groups ≡ true)

-- What is kept by all that a connection is changed by.
pub record Law (srv : Server) (Inv : Connection → Type 0) : Type 0 where
  pub sends :
      (c : Connection) (n : ℕ) (w : List (List ℕ))
      → Inv c
      → Inv (record c { next_serial = n; wire = w })
  pub parks :
      (c d : Connection) (frame : List ℕ) (uid tok : ℕ)
      → park c frame uid ≡ some (tok, d)
      → Inv c
      → Inv d
  pub frees : (c : Connection) (tok : ℕ) → Inv c → Inv (map_slots (unpark tok) c)
  pub runs :
      (c : Connection) (r : Run)
      → Allowed srv (groups_of c) r
      → Inv c
      → Inv (record c { ran = c.ran ++ r ∷ [] })
  pub pends : (c : Connection) (ps : List Pending) → Inv c → Inv (with_pending (bus_of c.bus) ps c)
  pub delivers : (c : Connection) (d : List Delivered) → Inv c → Inv (record c { delivered = d })
  pub ticks : (c : Connection) (n : ℕ) → Inv c → Inv (record c { now = n })

module _ (host : Host) (srv : Server) (Inv : Connection → Type 0) (law : Law srv Inv) where
  pub kept_Sent : (c d : Connection) → Sent c d → Inv c → Inv d
  kept_Sent c d (n, w, e) h = subst Inv (sym e) (law.sends c n w h)

  pub send_error_keeps :
      (c : Connection) (m : Msg) (name : List ℕ) (text : Option (List ℕ))
      → Inv c
      → Inv (send_error host c m name text).0
  send_error_keeps c m name text =
      kept_Sent c (send_error host c m name text).0 (send_error-Sent host c m name text)

  pub send_method_return_keeps :
      (c : Connection) (m : Msg) (sig : Option (List ℕ)) (body : List ℕ)
      → Inv c
      → Inv (send_method_return host c m sig body).0
  send_method_return_keeps c m sig body =
      kept_Sent c (send_method_return host c m sig body).0
        (send_method_return-Sent host c m sig body)
