-- ===== src/Ink/Dispatch/Answers.antt =====
-- How many serials the dispatch of one call uses, and when it uses none.
use finit.Prelude.{ℕ, ◌≤◌, ◌<◌, Bool, ◌≡◌, Option, none, some}
use finit.Ink.Dispatch.{Resolution, known, later, unknown, busy, Connection}
use finit.Ink.Dispatch.Working.{Ends}

-- What asking the resolver leaves: no message, and a parked call if it answers later.
abbrev Asked : ℕ → ℕ → Resolution × Connection → Type 0
Asked n k (later, d) = (d.next_serial ≡ n) × (k < d.parks)
Asked n k (known uid, d) = (d.next_serial ≡ n) × (k ≤ d.parks)
Asked n k (unknown, d) = (d.next_serial ≡ n) × (k ≤ d.parks)
Asked n k (busy, d) = (d.next_serial ≡ n) × (k ≤ d.parks)

abbrev EndsIf : ℕ → ℕ → Option (Connection × Bool) → Type 0
EndsIf n k none = 0 ≤ 0
EndsIf n k (some r) = Ends n k r
