-- ===== src/Keventd/Tags.antt =====
-- What TAGS keys match.
use finit.Prelude.{false, true, not, String, ◌≡◌, refl, ap, List, [], ◌∷◌, Option, none, some}
use finit.Keventd.Keys.{match_eq, match_ne, key_tags, RuleKey}
use finit.Keventd.Match.{
  Uevent, System, Parent, any_parent, parent_chain, match_parent_chain, match_class, match_key,
}

module _ (sys : System) where
  no_parent :
      (k : RuleKey) (ps : List Parent) → any_parent sys (record k { cls = key_tags }) ps ≡ false
  unfolding any_parent
  no_parent k [] = refl
  no_parent k (p ∷ ps) = no_parent k ps

  tags_chain :
      (k : RuleKey) (d : Option String)
      → (parent_chain sys (record k { cls = key_tags; op = match_eq }) d ≡ false)
        × (parent_chain sys (record k { cls = key_tags; op = match_ne }) d ≡ true)
  tags_chain k none = (refl, refl)
  tags_chain k (some devpath) = (
    no_parent (record k { op = match_eq }) (sys.parents devpath),
    ap not (no_parent (record k { op = match_ne }) (sys.parents devpath)),
  )

  -- A TAGS key never matches with ==, and always with !=, whatever tags the event or its parents have.
  pub match_key_tags :
      (k : RuleKey) (ev : Uevent)
      → ((match_key sys (record k { cls = key_tags; op = match_eq }) ev).0 ≡ false)
        × ((match_key sys (record k { cls = key_tags; op = match_ne }) ev).0 ≡ true)
  unfolding match_key match_class match_parent_chain
  match_key_tags k ev = tags_chain k ev.devpath
