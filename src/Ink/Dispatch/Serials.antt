-- ===== src/Ink/Dispatch/Serials.antt =====
-- The serials of what is sent.
use finit.Prelude.{ℕ, Bool, true, false, ◌≡◌, ap, List, [], ◌∷◌, length, Option, none, some}
use finit.Ink.Proto.{Msg}
use finit.Ink.Proto.Build.{msg_build_return, msg_build_error}
use finit.Ink.Dispatch.{Connection}
use finit.Ink.Dispatch.Send.{
  Host, send_all, send_body, send_frame, serial_after, send_method_return, error_body, error_sig,
  error_with, send_error,
}
use finit.Ink.Dispatch.Laws.{on_if}

-- The serial of a connection, and the number of calls that have been parked on it.
abbrev pub AtSerial : ℕ → ℕ → Connection → Type 0
AtSerial n k c = (c.next_serial ≡ n) × (c.parks ≡ k)

send_all_still :
    (host : Host) (s n k : ℕ) (bytes : List ℕ) (c : Connection)
    → AtSerial n k c
    → AtSerial n k (send_all host s bytes c).0
send_all_still host s n k bytes c h =
    on_if (λ (r : Connection × Bool). AtSerial n k r.0) (host.wrote s bytes) h h

send_body_still :
    (host : Host) (s n k : ℕ) (body : List ℕ) (r : Connection × Bool)
    → AtSerial n k r.0
    → AtSerial n k (send_body host s body r).0
send_body_still host s n k body (c, false) h = h
send_body_still host s n k [] (c, true) h = h
send_body_still host s n k (b ∷ body) (c, true) h = send_all_still host s n k (b ∷ body) c h

pub send_frame_still :
    (host : Host) (s n k : ℕ) (hdr : Option (List ℕ)) (body : List ℕ) (c : Connection)
    → AtSerial n k c
    → AtSerial n k (send_frame host s hdr body c).0
send_frame_still host s n k none body c h = h
send_frame_still host s n k (some hdr) body c h =
    send_body_still host s n k body (send_all host s hdr c) (send_all_still host s n k hdr c h)

pub send_method_return_once :
    (host : Host) (n k : ℕ) (c : Connection) (m : Msg) (sig : Option (List ℕ)) (body : List ℕ)
    → AtSerial n k c
    → AtSerial (serial_after n) k (send_method_return host c m sig body).0
unfolding send_method_return
send_method_return_once host n k c m sig body (e, p) =
    let s = serial_after c.next_serial in
    send_frame_still host s (serial_after n) k
      (msg_build_return 512 s m.serial m.sender sig (length body)) body
      (record c { next_serial = s }) (ap serial_after e, p)

error_with_still :
    (host : Host) (s n k : ℕ) (m : Msg) (name : List ℕ) (c : Connection) (b : Option (List ℕ))
    → AtSerial n k c
    → AtSerial n k (error_with host s m name c b).0
error_with_still host s n k m name c none h = h
error_with_still host s n k m name c (some body) h =
    send_frame_still host s n k
      (msg_build_error 512 s m.serial m.sender name (error_sig body) (length body)) body c h

pub send_error_once :
    (host : Host) (n k : ℕ) (c : Connection) (m : Msg) (name : List ℕ) (text : Option (List ℕ))
    → AtSerial n k c
    → AtSerial (serial_after n) k (send_error host c m name text).0
unfolding send_error
send_error_once host n k c m name text (e, p) =
    let s = serial_after c.next_serial in
    error_with_still host s (serial_after n) k m name (record c { next_serial = s })
      (error_body text) (ap serial_after e, p)
