-- ===== src/Registry/Find/Conflicts.antt =====
-- What `svc_conflicts` finds, and what it misses.
use finit.Prelude.{
  Bool, true, false, not, ◌||◌, ◌≡◌, refl, arith, String, List, [], ◌∷◌, none, some,
}
use finit.Registry.Entries.{Entry}
use finit.Registry.Find.{svc_find_by_str, is_up, conflicts_with, svc_conflicts}

-- Some service that is named in the option is up.
abbrev pub any_up : List String → List Entry → Bool
any_up [] es = false
any_up (nm ∷ nms) es = elim (svc_find_by_str nm es) [
  | some s ↦ is_up s || any_up nms es
  | none ↦ any_up nms es
]

conflicts_sound :
    (nms : List String) (es : List Entry) → (not (conflicts_with nms es) || any_up nms es) ≡ true
unfolding conflicts_with
conflicts_sound [] es = refl
conflicts_sound (nm ∷ nms) es = ground (arith, conflicts_sound nms es)

-- Where `svc_conflicts` reports a conflict, some service that is named is up. But where the service
-- named first is registered and down, and one that is named behind it is up, it reports none.
pub svc_conflicts_misses :
    (e : Entry) (es : List Entry) (nm : String) (nms : List String) (s : Entry)
    → svc_find_by_str nm es ≡ some s
    → is_up s ≡ false
    → any_up nms es ≡ true
    → ((not (svc_conflicts e es) || any_up e.conflict es) ≡ true)
      × (svc_conflicts (record e { conflict = nm ∷ nms }) es ≡ false)
      × (any_up (nm ∷ nms) es ≡ true)
unfolding svc_conflicts conflicts_with
svc_conflicts_misses e es nm nms s f d u =
    (conflicts_sound e.conflict es, ground (arith, f, d), ground (arith, f))
