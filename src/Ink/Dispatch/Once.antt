-- ===== src/Ink/Dispatch/Once.antt =====
-- A token resumes a parked call once at most.
use finit.Prelude.{
  ℕ, zero, suc, ◌+◌, ◌^◌, ◌≤◌, ◌<◌, arith, Bool, ◌==◌, ◌≡◌, inl, refl, ap, sym, subst, ◌∙◌, List,
  Option, none, some,
}
use finit.Ink.Proto.{msg_parse}
use finit.Ink.Dispatch.{Server, Parked, Bus, Connection}
use finit.Ink.Dispatch.Send.{Host}
use finit.Ink.Dispatch.Park.{
  bus_of, empty_bus, token_after, unpark, find_slot, map_bus, map_slots, park,
}
use finit.Ink.Dispatch.Message.{slots_of, uid_or, resume_slot, resume_parked}
use finit.Ink.Dispatch.Slots.{new_slot, park_lem, find_slot-take_slot, find_slot-unpark}
use finit.Ink.Dispatch.Tokens.{
  AllIssued, Unique, AllIssued-more, AllIssued-take_slot, Unique-take_slot, AllIssued-unpark,
  Unique-unpark, unpark-gone,
}
use finit.Ink.Dispatch.Laws.{Law, on_if, on_test}
use finit.Ink.Dispatch.Kept.{redispatch_keeps}
use finit.Ink.Dispatch.Lives.{run_keeps}
use finit.Ink.Dispatch.Events.{Event, Link, with_conn, run}

-- A predicate on the bus that holds as long as the 64 bits of a token have not been used up.
abbrev pub Counted : (ℕ → Bus → Type 0) → Connection → Type 0
Counted P c = c.parks < 2 ^ 64 → P c.parks (bus_of c.bus)

abbrev pub Tidy : ℕ → Bus → Type 0
Tidy n b = (b.next_tok ≡ n) × AllIssued n b.parked × Unique b.parked

-- A token that has been issued and is in no slot.
abbrev pub Spent : ℕ → ℕ → Bus → Type 0
Spent t n b = (b.next_tok ≡ n) × (t ≤ n) × (find_slot t b.parked ≡ none)

token_next : (n : ℕ) → n + 1 < 2 ^ 64 → token_after n ≡ n + 1
token_next n h = omega arith

parks-Tidy :
    (c d : Connection) (frame : List ℕ) (uid tok : ℕ)
    → park c frame uid ≡ some (tok, d)
    → Counted Tidy c
    → Counted Tidy d
parks-Tidy c d frame uid tok e h =
    let (slots, taken, same, left) = park_lem c d frame uid tok e in
    subst (Counted Tidy) (sym left) (λ bound.
      let (count, issued, unique) = h (omega arith) in
      let last : token_after (bus_of c.bus).next_tok ≡ c.parks + 1 =
        ap token_after count ∙ token_next c.parks bound in
      (
        last,
        AllIssued-take_slot (c.parks + 1) (new_slot c frame uid) (bus_of c.bus).parked slots taken
            (omega (arith, last))
            (AllIssued-more c.parks (c.parks + 1) (bus_of c.bus).parked (omega arith) issued),
        Unique-take_slot c.parks (new_slot c frame uid) (bus_of c.bus).parked slots taken
            (omega (arith, last)) issued unique,
      ))

frees_bus :
    (P : Bus → Type 0) (f : List Parked → List Parked) (o : Option Bus)
    → ((b : Bus) → P b → P (record b { parked = f b.parked }))
    → P (bus_of o)
    → P (bus_of (map_bus f o))
frees_bus P f none k h = h
frees_bus P f (some b) k h = k b h

law-Tidy : (srv : Server) → Law srv (Counted Tidy)
law-Tidy srv = record {
  sends = λ c n w h. h;
  parks = parks-Tidy;
  frees = λ c tok h bound.
      frees_bus (Tidy c.parks) (unpark tok) c.bus
        (λ b (count, issued, unique).
          (count, AllIssued-unpark c.parks tok b.parked issued, Unique-unpark tok b.parked unique))
        (h bound);
  runs = λ c r a h. h;
  pends = λ c ps h. h;
  delivers = λ c d h. h;
  ticks = λ c n h. h;
}

parks-Spent :
    (t : ℕ) (c d : Connection) (frame : List ℕ) (uid tok : ℕ)
    → park c frame uid ≡ some (tok, d)
    → Counted (Spent t) c
    → Counted (Spent t) d
parks-Spent t c d frame uid tok e h =
    let (slots, taken, same, left) = park_lem c d frame uid tok e in
    subst (Counted (Spent t)) (sym left) (λ bound.
      let (count, issued, gone) = h (omega arith) in
      let last : token_after (bus_of c.bus).next_tok ≡ c.parks + 1 =
        ap token_after count ∙ token_next c.parks bound in
      (
        last,
        omega arith,
        find_slot-take_slot t (new_slot c frame uid) (bus_of c.bus).parked slots taken
            (λ z. omega (arith, last, z)) gone,
      ))

law-Spent : (srv : Server) (t : ℕ) → 1 ≤ t → Law srv (Counted (Spent t))
law-Spent srv t pos = record {
  sends = λ c n w h. h;
  parks = parks-Spent t;
  frees = λ c tok h bound.
      frees_bus (Spent t c.parks) (unpark tok) c.bus
        (λ b (count, issued, gone). (count, issued, find_slot-unpark t tok b.parked pos gone))
        (h bound);
  runs = λ c r a h. h;
  pends = λ c ps h. h;
  delivers = λ c d h. h;
  ticks = λ c n h. h;
}

empty_slots : (t : ℕ) → 1 ≤ t → find_slot t empty_bus.parked ≡ none
unfolding find_slot
empty_slots t pos = ground arith

gone_bus :
    (t n : ℕ) (o : Option Bus)
    → 1 ≤ t
    → t ≤ n
    → Tidy n (bus_of o)
    → Spent t n (bus_of (map_bus (unpark t) o))
gone_bus t n none pos le (count, issued, unique) = (count, le, empty_slots t pos)
gone_bus t n (some b) pos le (count, issued, unique) =
    (count, le, unpark-gone t b.parked pos unique)

not_found :
    (t : ℕ) (o : Option Bus)
    → 1 ≤ t
    → find_slot t (slots_of o) ≡ none
    → find_slot t (bus_of o).parked ≡ none
not_found t none pos h = empty_slots t pos
not_found t (some b) pos h = h

found_nowhere :
    (t : ℕ) (o : Option Bus)
    → find_slot t (bus_of o).parked ≡ none
    → find_slot t (slots_of o) ≡ none
unfolding find_slot
found_nowhere t none h = refl
found_nowhere t (some b) h = h

slot_answered :
    (host : Host) (srv : Server) (c : Connection) (t : ℕ) (uid : Option ℕ) (r : Bool)
    (o : Option Parked)
    → find_slot t (slots_of c.bus) ≡ o
    → 1 ≤ t
    → t ≤ c.parks
    → Counted Tidy c
    → Counted (Spent t) (resume_slot host srv c t uid r o)
slot_answered host srv c t uid r none e pos le h =
    λ bound. ((h bound).0, le, not_found t c.bus pos e)
slot_answered host srv c t uid r (some p) e pos le h =
    redispatch_keeps host srv (Counted (Spent t)) (law-Spent srv t pos) (map_slots (unpark t) c)
      (uid_or uid p.uid) r (msg_parse p.buf) (λ bound. gone_bus t c.parks c.bus pos le (h bound))

-- An answer leaves its token spent, and a token that is spent resumes nothing.
answered-Spent :
    (host : Host) (srv : Server) (c : Connection) (t : ℕ) (uid : Option ℕ) (r : Bool)
    → 1 ≤ t
    → t ≤ c.parks
    → Counted Tidy c
    → Counted (Spent t) (resume_parked host srv c t uid r)
unfolding resume_parked
answered-Spent host srv c t uid r pos le h =
    on_test (Counted (Spent t)) (t == 0) (λ y. absurd (ground (arith, y, pos)))
      (λ n. slot_answered host srv c t uid r (find_slot t (slots_of c.bus)) refl pos le h)

resume_nothing :
    (host : Host) (srv : Server) (c : Connection) (t : ℕ) (uid : Option ℕ) (r : Bool)
    → find_slot t (slots_of c.bus) ≡ none
    → resume_parked host srv c t uid r ≡ c
unfolding resume_parked
resume_nothing host srv c t uid r h = on_if (λ x. x ≡ c) (t == 0) refl (rw h refl)

resume_zero :
    (host : Host) (srv : Server) (c : Connection) (uid : Option ℕ) (r : Bool)
    → resume_parked host srv c 0 uid r ≡ c
unfolding resume_parked
resume_zero host srv c uid r = refl

Tidy-start : (l : Link) → l.conn.bus ≡ none → l.conn.parks ≡ 0 → Counted Tidy l.conn
Tidy-start l b n bound =
    subst (λ o. Tidy l.conn.parks (bus_of o)) (sym b)
      (sym n, omega arith, (inl refl, (inl refl, (inl refl, (inl refl, omega arith)))))

-- The connection after what happens first, an answer with a token, and what happens then.
abbrev pub answered_then :
    Host → Server → List Event → Link → ℕ → Option ℕ → Bool → List Event → Connection
answered_then host srv before l t uid r after =
    let k = run host srv before l in
    (run host srv after (with_conn k (resume_parked host srv k.conn t uid r))).conn

-- On a connection that has started without parked calls: once a token that has been issued has been
-- answered (by the resolver, or by a handler's resume), then whatever happens afterwards, another
-- answer with it changes nothing, as long as fewer than 2 ^ 64 calls have been parked.
pub run-answered_once :
    (host : Host) (srv : Server) (before after : List Event) (l : Link) (t : ℕ)
    (uid again : Option ℕ) (r s : Bool)
    → l.conn.bus ≡ none
    → l.conn.parks ≡ 0
    → t ≤ (run host srv before l).conn.parks
    → (answered_then host srv before l t uid r after).parks < 2 ^ 64
    → resume_parked host srv (answered_then host srv before l t uid r after) t again s
      ≡ answered_then host srv before l t uid r after
run-answered_once host srv before after l zero uid again r s b n le bound =
    resume_zero host srv (answered_then host srv before l 0 uid r after) again s
run-answered_once host srv before after l (suc t) uid again r s b n le bound =
    let k = run host srv before l in
    let tidy = run_keeps host srv (Counted Tidy) (law-Tidy srv) before l (Tidy-start l b n) in
    let answer = resume_parked host srv k.conn (suc t) uid r in
    let end = (run host srv after (with_conn k answer)).conn in
    let spent =
      run_keeps host srv (Counted (Spent (suc t))) (law-Spent srv (suc t) (omega arith)) after
        (with_conn k answer) (answered-Spent host srv k.conn (suc t) uid r (omega arith) le tidy)
        bound in
    resume_nothing host srv end (suc t) again s (found_nowhere (suc t) end.bus spent.2)
