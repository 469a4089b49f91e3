-- ===== src/Registry/Reload.antt =====
-- svc.c: the marks of a reload, and the services that still have one.
use finit.Prelude.{false, List, [], ◌∷◌, map, if◌then◌else◌}
use finit.Service.Control.{svc_mark}
use finit.Registry.Entries.{Entry}

-- `svc_mark_dynamic`
unfoldable pub mark_entry : Entry → Entry
mark_entry e = record e { svc = svc_mark (e.svc) }

unfoldable pub svc_mark_dynamic : List Entry → List Entry
svc_mark_dynamic es = map mark_entry es

-- `svc_enable`
unfoldable pub svc_enable : Entry → Entry
svc_enable e = record e { svc = record (e.svc) { removed = false } }

-- The services that `svc_clean_dynamic` calls back for.
unfoldable pub svc_clean_dynamic : List Entry → List Entry
svc_clean_dynamic [] = []
svc_clean_dynamic (e ∷ es) =
    let rest = svc_clean_dynamic es in if e.svc.removed then e ∷ rest else rest
