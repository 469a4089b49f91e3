-- ===== src/Ink/Dispatch/Slots.antt =====
-- What parking a call leaves, and the slots.
use finit.Prelude.{
  ℕ, ◌+◌, ◌≤◌, arith, ◌||◌, ltb, ◌==◌, ◌≡◌, ◌≢◌, ◌⊎◌, inl, inr, refl, sym, subst, List, [], ◌∷◌,
  length, Option, none, some, Bool-cases,
}
use finit.Ink.Dispatch.{Parked, Connection}
use finit.Ink.Dispatch.Park.{
  bus_of, slot_before, take_slot, token_after, park, parked_msg_max, put_in_slot, unpark, find_slot,
}

-- What `park` leaves when it succeeds.
abbrev pub new_slot : Connection → List ℕ → ℕ → Parked
new_slot c frame uid = record {
  tok = token_after (bus_of c.bus).next_tok;
  stamp = c.now;
  uid = uid;
  buf = frame;
}

abbrev pub with_slots : Connection → List Parked → Connection
with_slots c slots =
    let b = bus_of c.bus in
    record c {
      bus = some (record b { parked = slots; next_tok = token_after b.next_tok });
      parks = c.parks + 1;
    }

abbrev pub Holding : Connection → List ℕ → ℕ → ℕ → Connection → Type 0
Holding c frame uid tok d =
    (slots : List Parked) × (take_slot (new_slot c frame uid) (bus_of c.bus).parked ≡ some slots)
    × (tok ≡ token_after (bus_of c.bus).next_tok)
    × (d ≡ with_slots c slots)

put_in_slot_lem :
    (c : Connection) (tok : ℕ) (o : Option (List Parked)) (k : ℕ) (d : Connection)
    → put_in_slot c tok o ≡ some (k, d)
    → (slots : List Parked) × (o ≡ some slots)
      × (k ≡ tok)
      × (d ≡ record c {
        bus = some (record (bus_of c.bus) { parked = slots; next_tok = tok });
        parks = c.parks + 1;
      })
put_in_slot_lem c tok none k d h = absurd (cc h)
put_in_slot_lem c tok (some slots) k d h = (slots, refl, cc, cc)

pub park_lem :
    (c d : Connection) (frame : List ℕ) (uid tok : ℕ)
    → park c frame uid ≡ some (tok, d)
    → Holding c frame uid tok d
unfolding park
park_lem c d frame uid tok h =
    elim (Bool-cases (length frame == 0 || ltb parked_msg_max (length frame))) [
      | inl y ↦ (let q : none ≡ some (tok, d) = rw (park, y) at h in absurd (cc q))
      | inr n ↦
          (put_in_slot_lem c (token_after (bus_of c.bus).next_tok)
            (take_slot (new_slot c frame uid) (bus_of c.bus).parked) tok d (rw (park, n) at h))
    ]

slot_before_lem :
    (q : Parked) (o : Option (List Parked)) (slots : List Parked)
    → slot_before q o ≡ some slots
    → (left : List Parked) × (o ≡ some left) × (slots ≡ q ∷ left)
slot_before_lem q none slots h = absurd (cc h)
slot_before_lem q (some left) slots h = (left, refl, cc)

-- The slot that is taken is the first, or it is one behind that.
pub take_slot_lem :
    (p q : Parked) (qs slots : List Parked)
    → take_slot p (q ∷ qs) ≡ some slots
    → (q.tok ≡ 0) × (slots ≡ p ∷ qs)
      ⊎ ((left : List Parked) × (take_slot p qs ≡ some left) × (slots ≡ q ∷ left))
unfolding take_slot
take_slot_lem p q qs slots h = elim (Bool-cases (q.tok == 0)) [
  | inl y ↦
      (let e : some (p ∷ qs) ≡ some slots = rw (take_slot, y) at h in inl (ground (arith, y), cc))
  | inr n ↦ inr (slot_before_lem q (take_slot p qs) slots (rw (take_slot, n) at h))
]

pub find_slot_next :
    (t : ℕ) (q : Parked) (qs : List Parked)
    → find_slot t (q ∷ qs) ≡ none
    → (q.tok ≢ t) × (find_slot t qs ≡ none)
unfolding find_slot
find_slot_next t q qs h = ground (arith, h)

pub find_slot-none :
    (t : ℕ) (q : Parked) (qs : List Parked)
    → q.tok ≢ t
    → find_slot t qs ≡ none
    → find_slot t (q ∷ qs) ≡ none
unfolding find_slot
find_slot-none t q qs n h = ground (arith, n, h)

pub take_slot-none :
    (p : Parked) (slots : List Parked) → take_slot p [] ≡ some slots → none ≡ some slots
unfolding take_slot
take_slot-none p slots h = h

-- What is not found is not found either once a slot has been taken or freed.
pub find_slot-take_slot :
    (t : ℕ) (p : Parked) (qs slots : List Parked)
    → take_slot p qs ≡ some slots
    → p.tok ≢ t
    → find_slot t qs ≡ none
    → find_slot t slots ≡ none
find_slot-take_slot t p [] slots e n h = absurd (cc (take_slot-none p slots e))
find_slot-take_slot t p (q ∷ qs) slots e n h =
    let (other, rest) = find_slot_next t q qs h in
    elim (take_slot_lem p q qs slots e) [
      | inl (free, same) ↦
          subst (λ x. find_slot t x ≡ none) (sym same) (find_slot-none t p qs n rest)
      | inr (left, taken, same) ↦
          (subst (λ x. find_slot t x ≡ none) (sym same)
            (find_slot-none t q left other (find_slot-take_slot t p qs left taken n rest)))
    ]

pub find_slot-unpark :
    (t k : ℕ) (qs : List Parked) → 1 ≤ t → find_slot t qs ≡ none → find_slot t (unpark k qs) ≡ none
unfolding unpark find_slot
find_slot-unpark t k [] n h = refl
find_slot-unpark t k (q ∷ qs) n h = let rest = find_slot-unpark t k qs n in ground (arith, h, rest)
