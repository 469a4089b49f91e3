-- ===== src/Ink/Dispatch/Signal.antt =====
-- libink/dispatch.c: signals, for those who have asked for them.
use finit.Prelude.{
  ℕ, Bool, true, false, not, ◌||◌, ◌&&◌, arith, ◌≡◌, ◌⊎◌, refl, List, [], ◌∷◌, length, Option, some,
  if◌then◌else◌,
}
use finit.Ink.Auth.{AuthState, nul, line, done, failed}
use finit.Ink.Match.{Rule, match_matches}
use finit.Ink.Proto.Build.{msg_build_signal}
use finit.Ink.Dispatch.{Connection}
use finit.Ink.Dispatch.Send.{Host, serial_after, send_frame}
use finit.Ink.Dispatch.Serials.{send_frame_still}

abbrev is_authenticated : AuthState → Bool
is_authenticated done = true
is_authenticated nul = false
is_authenticated line = false
is_authenticated failed = false

abbrev any_match : List Rule → List ℕ → List ℕ → List ℕ → Bool
any_match [] path interface member = false
any_match (r ∷ rs) path interface member =
    match_matches r (some path) (some interface) (some member) || any_match rs path interface member

-- `link_connection_emit_signal`; whoever has not been authenticated or has no rule for the signal is
-- left alone.
unfoldable pub emit_signal :
    Host
    → Connection
    → (path interface member : List ℕ) → Option (List ℕ)
    → List ℕ
    → Connection × Bool
emit_signal host c path interface member signature body =
    let serial = serial_after c.next_serial in
    if not (is_authenticated c.auth)
    then (c, true)
    else if not (c.broker || any_match c.matches path interface member)
    then (c, true)
    else send_frame host serial
        (msg_build_signal 512 serial path interface member signature (length body)) body
        (record c { next_serial = serial })

-- Authenticated, and a broker or with a rule that selects the signal.
abbrev pub wants : Connection → List ℕ → List ℕ → List ℕ → Bool
wants c path interface member =
    is_authenticated c.auth && (c.broker || any_match c.matches path interface member)

-- One serial is used for a signal to a peer that wants it; nothing at all happens for another.
pub emit_signal-wants :
    (host : Host) (c : Connection) (path interface member : List ℕ) (sig : Option (List ℕ))
    (body : List ℕ)
    → (wants c path interface member ≡ true)
        × ((emit_signal host c path interface member sig body).0.next_serial
            ≡ serial_after c.next_serial)
      ⊎ (wants c path interface member ≡ false)
        × (emit_signal host c path interface member sig body ≡ (c, true))
unfolding emit_signal
emit_signal-wants host c path interface member sig body =
    let serial = serial_after c.next_serial in
    let next : Connection = record c { next_serial = serial } in
    let sent =
      send_frame_still host serial serial c.parks
        (msg_build_signal 512 serial path interface member sig (length body)) body next
        (refl, refl) in
    ground (arith, sent)
