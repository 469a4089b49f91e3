-- ===== src/Service/Action/Timer.antt =====
-- The one timer of a service.
use finit.Prelude.{ℕ, none, some, ◌==◌, if◌then◌else◌}
use finit.Service.Types.{TimerCb, Svc}

-- A running timer is not replaced, and a timeout of 0 starts none.
unfoldable pub service_timeout_after : ℕ → TimerCb → Svc → Svc
service_timeout_after timeout cb s =
    if timeout == 0
    then s
    else elim (s.timer) [ some _ ↦ s | none ↦ record s { timer = some (cb, timeout) } ]

abbrev pub service_timeout_cancel : Svc → Svc
service_timeout_cancel s = record s { timer = none }
