-- ===== src/Conf/Changes/Laws.antt =====
-- What is reported as changed.
use finit.Prelude.{
  ℕ, ◌≤◌, arith, Bool, true, false, ◌||◌, ◌≡◌, refl, ap, subst, ◌∙◌, ◌↔◌, List, [], ◌∷◌, Option,
  none, some, Bool-cases, inl, inr,
}
use finit.Conf.Changes.{
  Resolved, event_path, conf_find, registered, conf_change_act, path_of, conf_changed, find_at,
}

or_false : (a : Bool) → (a || false) ≡ a
or_false a = ground arith

swap : (a b c : Bool) → (a || (b || c)) ≡ ((b || a) || c)
swap a b c = ground arith

module _ (basenm : List ℕ → List ℕ) (paste : List ℕ → List ℕ → List ℕ)
    (string_compare : List ℕ → List ℕ → Bool) (realpath : List ℕ → Resolved) where
  -- The events of the watcher, each with its directory and its name.
  pub changes : List (List ℕ × List ℕ) → List (List ℕ) → List (List ℕ)
  changes [] list = list
  changes ((dir, name) ∷ events) list =
      changes events (conf_change_act basenm paste string_compare realpath dir name list).0

  abbrev leads_to : List ℕ → Option (List ℕ) → Bool
  leads_to path none = false
  leads_to path (some other) = string_compare other path

  -- Some event is about the path.
  abbrev pub any_event : List ℕ → List (List ℕ × List ℕ) → Bool
  any_event path [] = false
  any_event path ((dir, name) ∷ events) =
      leads_to path (event_path basenm paste string_compare realpath dir name)
      || any_event path events

  -- No path is there twice.
  abbrev pub NoTwins : List (List ℕ) → Type 0
  NoTwins [] = 0 ≤ 0
  NoTwins (path ∷ list) =
      (conf_find basenm paste string_compare realpath path list ≡ false) × NoTwins list

  conf_find-registered :
      ((a b : List ℕ) → (string_compare a b ≡ true) ↔ (a ≡ b))
      → (path : List ℕ) (o : Option (List ℕ)) (list : List (List ℕ))
      → conf_find basenm paste string_compare realpath path
          (registered basenm paste string_compare realpath o list).0
        ≡ (leads_to path o || conf_find basenm paste string_compare realpath path list)
  unfolding conf_find
  conf_find-registered same path none list = refl
  conf_find-registered same path (some other) list =
      elim (Bool-cases (conf_find basenm paste string_compare realpath other list)) [
        | inr n ↦ rw n refl
        | inl y ↦ elim (Bool-cases (string_compare other path)) [
          | inr n ↦ rw (y, n) refl
          | inl e ↦
              let found =
                subst (λ x. conf_find basenm paste string_compare realpath x list ≡ true)
                  ((same other path).0 e) y in
              rw (y, e) found
        ]
      ]

  registered-NoTwins :
      (o : Option (List ℕ)) (list : List (List ℕ))
      → NoTwins list
      → NoTwins (registered basenm paste string_compare realpath o list).0
  registered-NoTwins none list h = h
  registered-NoTwins (some path) list h =
      elim (Bool-cases (conf_find basenm paste string_compare realpath path list)) [
        | inl y ↦ rw y h
        | inr n ↦ rw n (n, h)
      ]

  conf_find-changes :
      ((a b : List ℕ) → (string_compare a b ≡ true) ↔ (a ≡ b))
      → (path : List ℕ) (events : List (List ℕ × List ℕ)) (list : List (List ℕ))
      → conf_find basenm paste string_compare realpath path (changes events list)
        ≡ (any_event path events || conf_find basenm paste string_compare realpath path list)
  unfolding changes conf_change_act
  conf_find-changes same path [] list = refl
  conf_find-changes same path ((dir, name) ∷ events) list =
      let o = event_path basenm paste string_compare realpath dir name in
      conf_find-changes same path events (registered basenm paste string_compare realpath o list).0
      ∙ (ap (λ x. any_event path events || x) (conf_find-registered same path o list)
          ∙ swap (any_event path events) (leads_to path o)
              (conf_find basenm paste string_compare realpath path list))

  changes-NoTwins :
      (events : List (List ℕ × List ℕ)) (list : List (List ℕ))
      → NoTwins list
      → NoTwins (changes events list)
  unfolding changes conf_change_act
  changes-NoTwins [] list h = h
  changes-NoTwins ((dir, name) ∷ events) list h =
      let o = event_path basenm paste string_compare realpath dir name in
      changes-NoTwins events (registered basenm paste string_compare realpath o list).0
        (registered-NoTwins o list h)

  abbrev leads_any : Option (List ℕ) → List (List ℕ × List ℕ) → Bool
  leads_any none events = false
  leads_any (some path) events = any_event path events

  find_at-changes :
      ((a b : List ℕ) → (string_compare a b ≡ true) ↔ (a ≡ b))
      → (o : Option (List ℕ)) (events : List (List ℕ × List ℕ))
      → find_at basenm paste string_compare realpath o (changes events []) ≡ leads_any o events
  unfolding conf_find
  find_at-changes same none events = refl
  find_at-changes same (some path) events =
      conf_find-changes same path events [] ∙ or_false (any_event path events)

  -- Where `string_compare` tests for equality: however many events there were since the list was
  -- emptied, a file is reported as changed exactly if one of them led to its path, and no path is
  -- listed twice.
  pub conf_changed-changes :
      ((a b : List ℕ) → (string_compare a b ≡ true) ↔ (a ≡ b))
      → (file : List ℕ) (events : List (List ℕ × List ℕ))
      → (conf_changed basenm paste string_compare realpath (some file) (changes events [])
          ≡ leads_any (path_of basenm paste string_compare realpath file) events)
        × NoTwins (changes events [])
  unfolding conf_changed
  conf_changed-changes same file events = (
    find_at-changes same (path_of basenm paste string_compare realpath file) events,
    changes-NoTwins events [] (omega arith),
  )
