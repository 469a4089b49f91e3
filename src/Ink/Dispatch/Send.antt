-- ===== src/Ink/Dispatch/Send.antt =====
-- libink/dispatch.c: replies and errors on their way out.
use finit.Prelude.{
  ℕ, ◌+◌, ◌%◌, ◌^◌, Bool, true, false, List, [], ◌∷◌, ◌++◌, length, Option, none, some,
  if◌then◌else◌,
}
use finit.Ink.Writer.{w_init, w_string, w_finish}
use finit.Ink.Proto.{Msg}
use finit.Ink.Proto.Build.{msg_build_return, msg_build_error}
use finit.Ink.Dispatch.{Connection}

-- The built-in methods of the interfaces in org.freedesktop.DBus, and how one of them answers.
pub data Builtin : Type 0 where
  hello add_match remove_match ping get_machine_id introspect properties_get properties_get_all :
      Builtin

pub data Answer : Type 0 where
  answer_error : List ℕ → Option (List ℕ) → Answer
  answer_return : Option (List ℕ) → List ℕ → Answer
  overflow : Answer

-- What surrounds the dispatcher: whether the bytes of the message with a serial can be written as a
-- whole (`__io_write_all`), and what the built-in methods answer.
pub record Host : Type 0 where
  pub wrote : ℕ → List ℕ → Bool
  pub builtin : Builtin → Connection → Msg → Answer

-- `send_all` of the header and of the body, if there is one; the status is false for -1.
abbrev pub send_all : Host → ℕ → List ℕ → Connection → Connection × Bool
send_all host serial bytes c =
    if host.wrote serial bytes then (record c { wire = c.wire ++ bytes ∷ [] }, true) else (c, false)

abbrev pub send_body : Host → ℕ → List ℕ → Connection × Bool → Connection × Bool
send_body host serial body (c, false) = (c, false)
send_body host serial [] (c, true) = (c, true)
send_body host serial (b ∷ body) (c, true) = send_all host serial (b ∷ body) c

abbrev pub send_frame : Host → ℕ → Option (List ℕ) → List ℕ → Connection → Connection × Bool
send_frame host serial none body c = (c, false)
send_frame host serial (some hdr) body c = send_body host serial body (send_all host serial hdr c)

abbrev pub serial_after : ℕ → ℕ
serial_after n = (n + 1) % 2 ^ 32

-- `__send_method_return`
unfoldable pub send_method_return :
    Host → Connection → Msg → Option (List ℕ) → List ℕ → Connection × Bool
send_method_return host c req out_sig body =
    let serial = serial_after c.next_serial in
    send_frame host serial (msg_build_return 512 serial req.serial req.sender out_sig (length body))
      body (record c { next_serial = serial })

-- The text of an error as a body of at most 256 bytes; -1 is `none`.
abbrev pub error_body : Option (List ℕ) → Option (List ℕ)
error_body none = some []
error_body (some []) = some []
error_body (some (t ∷ text)) =
    let w = w_string (t ∷ text) (w_init 256) in
    elim (w_finish w) [ none ↦ none | some n ↦ some w.buf ]

abbrev pub error_sig : List ℕ → Option (List ℕ)
error_sig [] = none
error_sig (b ∷ body) = some (115 ∷ [])

abbrev pub error_with : Host → ℕ → Msg → List ℕ → Connection → Option (List ℕ) → Connection × Bool
error_with host serial req name c none = (c, false)
error_with host serial req name c (some body) =
    send_frame host serial
      (msg_build_error 512 serial req.serial req.sender name (error_sig body) (length body)) body c

-- `__send_error`
unfoldable pub send_error : Host → Connection → Msg → List ℕ → Option (List ℕ) → Connection × Bool
send_error host c req name text =
    let serial = serial_after c.next_serial in
    error_with host serial req name (record c { next_serial = serial }) (error_body text)
