-- ===== src/Ink/Auth/Examples.antt =====
-- A handshake, and the theorems at it.
use finit.Prelude.{
  ℕ, ◌*◌, ◌+◌, ◌-◌, ◌==◌, not, ◌&&◌, true, ◌≡◌, refl, arith, List, [], ◌∷◌, ◌++◌, codes, Option,
  some, if◌then◌else◌,
}
use finit.Ink.Auth.{nul, done, Conn, no_uid, reply, reject, handle_line, auth_process, auth_line}
use finit.Ink.Auth.Laws.{handle-auth_line, begin_unchecked}

-- The number that a text of decimal digits stands for.
abbrev strtoul_from : ℕ → List ℕ → Option ℕ
strtoul_from n [] = some n
strtoul_from n (c ∷ s) = strtoul_from (10 * n + (c - 48)) s

abbrev strtoul : List ℕ → Option ℕ
strtoul s = strtoul_from 0 s

abbrev peer : Conn
peer = record { auth = nul; linebuf = []; rxbuf = []; peer_uid = 33; guid = codes "6d"; sent = [] }

-- The peer has uid 33 and claims to be root.
handle-auth_line_example : handle_line strtoul true (auth_line (codes "0")) peer ≡ (
    if not (33 == no_uid) && 0 == 33
    then reply strtoul true (codes "OK " ++ (peer.guid ++ codes "\r\n")) peer
    else reject strtoul true peer)
handle-auth_line_example =
    handle-auth_line strtoul true (codes "0") 0 33 peer refl (omega arith) (omega arith)
      (omega arith) (omega arith)

begin_unchecked_example :
    auth_process strtoul true 4096 (0 ∷ (codes "BEGIN\r\n" ++ 108 ∷ [])) peer
    ≡ (record peer { auth = done; rxbuf = 108 ∷ [] }, true)
begin_unchecked_example =
    begin_unchecked strtoul true 4096 (108 ∷ []) peer (omega arith) (omega arith)
