-- ===== src/Ink/Dispatch/Sent.antt =====
-- What the sending of a reply or an error changes.
use finit.Prelude.{
  ℕ, Bool, true, false, ◌≡◌, inl, inr, refl, ap, ◌∙◌, List, [], ◌∷◌, ◌++◌, length, Option, none,
  some, Bool-cases,
}
use finit.Ink.Proto.{Msg}
use finit.Ink.Dispatch.{Connection}
use finit.Ink.Dispatch.Send.{
  Host, send_all, send_body, send_frame, serial_after, send_method_return, error_body, error_sig,
  error_with, send_error,
}
use finit.Ink.Proto.Build.{msg_build_return, msg_build_error}

-- A connection on which something may have been written.
abbrev pub Sent : Connection → Connection → Type 0
Sent c d = (n : ℕ) × (w : List (List ℕ)) × (d ≡ record c { next_serial = n; wire = w })

send_all-Sent :
    (host : Host) (n : ℕ) (bytes : List ℕ) (c : Connection) → Sent c (send_all host n bytes c).0
send_all-Sent host n bytes c = elim (Bool-cases (host.wrote n bytes)) [
  | inl y ↦ rw y (c.next_serial, c.wire ++ bytes ∷ [], refl)
  | inr y ↦ rw y (c.next_serial, c.wire, refl)
]

Sent-after : (c d e : Connection) → Sent c d → Sent d e → Sent c e
Sent-after c d e (n, w, h) (k, v, g) =
    (k, v, g ∙ ap {A = Connection} {B = Connection} (λ x. record x { next_serial = k; wire = v }) h)

send_body-Sent :
    (host : Host) (n : ℕ) (body : List ℕ) (c : Connection) (r : Connection × Bool)
    → Sent c r.0
    → Sent c (send_body host n body r).0
send_body-Sent host n body c (d, false) h = h
send_body-Sent host n [] c (d, true) h = h
send_body-Sent host n (b ∷ body) c (d, true) h =
    Sent-after c d (send_all host n (b ∷ body) d).0 h (send_all-Sent host n (b ∷ body) d)

pub send_frame-Sent :
    (host : Host) (n : ℕ) (hdr : Option (List ℕ)) (body : List ℕ) (c : Connection)
    → Sent c (send_frame host n hdr body c).0
send_frame-Sent host n none body c = (c.next_serial, c.wire, refl)
send_frame-Sent host n (some hdr) body c =
    send_body-Sent host n body c (send_all host n hdr c) (send_all-Sent host n hdr c)

next_Sent : (c : Connection) (n : ℕ) → Sent c (record c { next_serial = n })
next_Sent c n = (n, c.wire, refl)

pub send_method_return-Sent :
    (host : Host) (c : Connection) (m : Msg) (sig : Option (List ℕ)) (body : List ℕ)
    → Sent c (send_method_return host c m sig body).0
unfolding send_method_return
send_method_return-Sent host c m sig body =
    let n = serial_after c.next_serial in
    let next = record c { next_serial = n } in
    let hdr = msg_build_return 512 n m.serial m.sender sig (length body) in
    Sent-after c next (send_frame host n hdr body next).0 (next_Sent c n)
      (send_frame-Sent host n hdr body next)

error_with-Sent :
    (host : Host) (n : ℕ) (m : Msg) (name : List ℕ) (c : Connection) (b : Option (List ℕ))
    → Sent c (error_with host n m name c b).0
error_with-Sent host n m name c none = (c.next_serial, c.wire, refl)
error_with-Sent host n m name c (some body) =
    send_frame-Sent host n
      (msg_build_error 512 n m.serial m.sender name (error_sig body) (length body)) body c

pub send_error-Sent :
    (host : Host) (c : Connection) (m : Msg) (name : List ℕ) (text : Option (List ℕ))
    → Sent c (send_error host c m name text).0
unfolding send_error
send_error-Sent host c m name text =
    let n = serial_after c.next_serial in
    let next = record c { next_serial = n } in
    Sent-after c next (error_with host n m name next (error_body text)).0 (next_Sent c n)
      (error_with-Sent host n m name next (error_body text))
