-- ===== src/Ink/Dispatch/Authorised.antt =====
-- A handler of a privileged method is run for callers that may only.
use finit.Prelude.{ℕ, ◌≤◌, arith, ◌≡◌, refl, sym, subst, List, [], ◌∷◌, ◌++◌, some}
use finit.Ink.Dispatch.{Server, Run, Connection}
use finit.Ink.Dispatch.Send.{Host}
use finit.Ink.Dispatch.Park.{park}
use finit.Ink.Dispatch.Call.{groups_of}
use finit.Ink.Dispatch.Slots.{park_lem}
use finit.Ink.Dispatch.Laws.{Allowed, Law}
use finit.Ink.Dispatch.Events.{Event, Link, run}
use finit.Ink.Dispatch.Lives.{run_keeps}

-- All the handlers that have been run.
abbrev pub AllAllowed : Server → List ℕ → List Run → Type 0
AllAllowed srv groups [] = 0 ≤ 0
AllAllowed srv groups (r ∷ rs) = Allowed srv groups r × AllAllowed srv groups rs

abbrev Authorised : Server → List ℕ → Connection → Type 0
Authorised srv groups c = (groups_of c ≡ groups) × AllAllowed srv groups c.ran

AllAllowed-append :
    (srv : Server) (groups : List ℕ) (rs : List Run) (r : Run)
    → AllAllowed srv groups rs
    → Allowed srv groups r
    → AllAllowed srv groups (rs ++ r ∷ [])
AllAllowed-append srv groups [] r h a = (a, omega arith)
AllAllowed-append srv groups (q ∷ rs) r (b, h) a = (b, AllAllowed-append srv groups rs r h a)

parks-Authorised :
    (srv : Server) (groups : List ℕ) (c d : Connection) (frame : List ℕ) (uid tok : ℕ)
    → park c frame uid ≡ some (tok, d)
    → Authorised srv groups c
    → Authorised srv groups d
parks-Authorised srv groups c d frame uid tok e h =
    let (slots, taken, same, left) = park_lem c d frame uid tok e in
    subst (Authorised srv groups) (sym left) h

law-Authorised : (srv : Server) (groups : List ℕ) → Law srv (Authorised srv groups)
law-Authorised srv groups = record {
  sends = λ c n w h. h;
  parks = parks-Authorised srv groups;
  frees = λ c tok h. h;
  runs = λ c r a (g, h).
      (g, AllAllowed-append srv groups c.ran r h (subst (λ x. Allowed srv x r) g a));
  pends = λ c ps h. h;
  delivers = λ c d h. h;
  ticks = λ c n h. h;
}

-- Whatever happens to a connection, in whatever order (messages, the answers of a resolver, calls that
-- are resumed, time-outs): the handler of a privileged method is only ever run for a uid that the
-- authorizer lets through, with the groups of the peer and with none on a broker's connection; without
-- an authorizer for root alone, and never for a caller that nobody has identified.
pub run-AllAllowed :
    (host : Host) (srv : Server) (es : List Event) (l : Link)
    → AllAllowed srv (groups_of l.conn) l.conn.ran
    → AllAllowed srv (groups_of l.conn) (run host srv es l).conn.ran
run-AllAllowed host srv es l h =
    let groups = groups_of l.conn in
    (run_keeps host srv (Authorised srv groups) (law-Authorised srv groups) es l (refl, h)).1
