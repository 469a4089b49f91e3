-- ===== src/Machine/Requests/Laws.antt =====
-- The end of bootstrap, and runlevel requests.
use finit.Prelude.{
  Bool, true, false, not, ◌&&◌, ltb, ◌≡◌, refl, sym, negsuc, Bool-cases, ap, subst, ◌∙◌, ◌⊎◌, inl,
  inr, ℕ, suc, ◌-◌, ◌≤◌, arith, Option, some, none, [], ◌∷◌, ◌++◌, ℤ, pos, eq_ℤ, is_zero,
  if◌then◌else◌,
}
use finit.Machine.Step.{
  bootstrap_wait, running, any, service_step_all, console_watcher_stop, log_incomplete,
  conf_flush_events, Machine, Answers, emits, init_level, is_shutdown, is_reserved,
  reschedule_bootstrap, pass, pass_in, step_bootstrap_wait,
}
use finit.Machine.Change.{Shape, AllCollected, Returns, Returns-step, sm_step_reaches}
use finit.Machine.Ends.{sm_step_ends}
use finit.Machine.Requests.{
  sm_runlevel, sm_request_runlevel, sm_check_bootstrap, leave_bootstrap, halt_for, networking_up,
  networking_down, finish_bootstrap,
}

pass_boot :
    (a : Answers) (m : Machine) (n : ℕ)
    → m.state ≡ bootstrap_wait
    → m.newlevel ≡ pos n
    → ((pass a m).state ≡ running)
      × ((pass a m).newlevel ≡ pos n)
      × ((pass a m).reload ≡ m.reload)
      × ((pass a m).runlevel ≡ m.runlevel)
unfolding pass pass_in step_bootstrap_wait
pass_boot a m n s e = rw s (rw e (ground arith))

boot_reaches :
    (answers : ℕ → Answers) (f : ℕ) (m : Machine) (n : ℕ)
    → AllCollected answers
    → m.state ≡ bootstrap_wait
    → m.newlevel ≡ pos n
    → n ≤ 9
    → m.runlevel ≡ init_level
    → m.reload ≡ false
    → Returns answers
        (suc (suc (suc (suc (suc (suc f))))))
        m
        (Shape running false (pos n) init_level)
boot_reaches answers f m n c s e b l r =
    let (s1, e1, r1, l1) = pass_boot (answers (suc (suc (suc (suc (suc f)))))) m n s e in
    let m1 = pass (answers (suc (suc (suc (suc (suc f)))))) m in
    let l2 = l1 ∙ l in
    Returns-step answers (suc (suc (suc (suc (suc f))))) m _ bootstrap_wait running s s1 refl (
      subst
        (λ old.
          Returns answers (suc (suc (suc (suc (suc f))))) m1 (Shape running false (pos n) old))
        l2 (sm_step_reaches answers f m1 n c s1 e1 b (rw l2 (ground arith)) (r1 ∙ r)))

-- A call that returns a machine with the property.
abbrev pub Gives : Option Machine → (Machine → Type 0) → Type 0
Gives x P = (m' : Machine) × (x ≡ some m') × P m'

sm_runlevel_reaches :
    (answers : ℕ → Answers) (f : ℕ) (m : Machine) (n : ℕ)
    → AllCollected answers
    → m.state ≡ bootstrap_wait
    → n ≤ 9
    → m.runlevel ≡ init_level
    → m.reload ≡ false
    → Gives
        (sm_runlevel answers (suc (suc (suc (suc (suc (suc f)))))) (pos n) m)
        (Shape running false (pos n) init_level)
unfolding sm_runlevel networking_up networking_down
sm_runlevel_reaches answers f m n c s b l r =
    let (m', e, p) =
      boot_reaches answers f
        (emits (conf_flush_events ∷ []) (record (networking_up (pos n) m) { newlevel = pos n })) n c
        s refl b l r in
    (
      networking_down m',
      ap (λ x. elim x [ none ↦ none | some m2 ↦ some (networking_down m2) ]) e,
      p,
    )

sm_runlevel_ends :
    (answers : ℕ → Answers) (f : ℕ) (level : ℤ) (m : Machine)
    → 12 ≤ f
    → (m' : Machine) × (sm_runlevel answers f level m ≡ some m')
unfolding sm_runlevel
sm_runlevel_ends answers f level m h =
    let (m', e) =
      sm_step_ends answers f
        (emits (conf_flush_events ∷ []) (record (networking_up level m) { newlevel = level })) h in
    (networking_down m', ap (λ x. elim x [ none ↦ none | some m2 ↦ some (networking_down m2) ]) e)

-- The runlevel that the system starts in.
abbrev pub first_level : Machine → ℤ
first_level m = if not (is_zero m.cmdlevel) then m.cmdlevel else m.cfglevel

-- The machine that `leave_bootstrap` asks for the first runlevel.
abbrev leaving : Machine → Machine
leaving m =
    emits
      (console_watcher_stop
        ∷ ((if m.skip_bootstrap then log_incomplete ∷ [] else []) ++ (conf_flush_events ∷ [])))
      m

leave_as :
    (answers : ℕ → Answers) (f : ℕ) (m m' : Machine)
    → sm_runlevel answers f (first_level m) (leaving m) ≡ some m'
    → leave_bootstrap answers f m ≡ some (finish_bootstrap m')
unfolding leave_bootstrap
leave_as answers f m m' e =
    ap (λ x. elim x [ none ↦ none | some m1 ↦ some (finish_bootstrap m1) ]) e

check_as :
    (answers : ℕ → Answers) (f timeout : ℕ) (completed : Bool) (m m' : Machine)
    → (ltb 0 timeout && not completed && not m.skip_bootstrap) ≡ false
    → leave_bootstrap answers f (emits (service_step_all any ∷ []) m) ≡ some m'
    → sm_check_bootstrap answers f timeout completed m ≡ some (timeout - 1, false, m')
unfolding sm_check_bootstrap
check_as answers f timeout completed m m' w e =
    rw w (ap (λ x. elim x [ none ↦ none | some m1 ↦ some (timeout - 1, false, m1) ]) e)

leave_reaches :
    (answers : ℕ → Answers) (f : ℕ) (m : Machine) (n : ℕ)
    → AllCollected answers
    → m.state ≡ bootstrap_wait
    → first_level m ≡ pos n
    → n ≤ 9
    → m.runlevel ≡ init_level
    → m.reload ≡ false
    → Gives
        (leave_bootstrap answers (suc (suc (suc (suc (suc (suc f)))))) m)
        (Shape running false (pos n) init_level)
unfolding finish_bootstrap
leave_reaches answers f m n c s e b l r =
    let (m', q, p) = sm_runlevel_reaches answers f (leaving m) n c s b l r in
    (finish_bootstrap m', leave_as answers (suc (suc (suc (suc (suc (suc f)))))) m m' (rw e q), p)

-- Once all services of the runlevel S are completed, or the time or the user ends the wait, the next
-- poll brings the system from BOOTSTRAP_WAIT into the runlevel of the command line, or else of the
-- configuration, if that is one of 0 to 9, no reload is pending, and all services and their scripts
-- are collected at once: the machine is in RUNNING, and there is no further poll.
pub sm_check_bootstrap_reaches :
    (answers : ℕ → Answers) (f timeout : ℕ) (completed : Bool) (m : Machine) (n : ℕ)
    → AllCollected answers
    → (ltb 0 timeout && not completed && not m.skip_bootstrap) ≡ false
    → m.state ≡ bootstrap_wait
    → first_level m ≡ pos n
    → n ≤ 9
    → m.runlevel ≡ init_level
    → m.reload ≡ false
    → (m' : Machine) × (sm_check_bootstrap answers
          (suc (suc (suc (suc (suc (suc f))))))
          timeout
          completed
          m
        ≡ some (timeout - 1, false, m'))
      × Shape running false (pos n) init_level m'
sm_check_bootstrap_reaches answers f timeout completed m n c w s e b l r =
    let m0 = emits (service_step_all any ∷ []) m in
    let (m', q, p) = leave_reaches answers f m0 n c s e b l r in
    (m', check_as answers (suc (suc (suc (suc (suc (suc f)))))) timeout completed m m' w q, p)

-- A poll always returns, with twelve units of fuel, and asks for another one exactly as long as
-- there is time left, a service of the runlevel S is not completed, and the user did not interrupt.
pub sm_check_bootstrap_polls :
    (answers : ℕ → Answers) (f timeout : ℕ) (completed : Bool) (m : Machine)
    → 12 ≤ f
    → (m' : Machine) × (sm_check_bootstrap answers f timeout completed m
        ≡ some (timeout - 1, ltb 0 timeout && not completed && not m.skip_bootstrap, m'))
unfolding sm_check_bootstrap
sm_check_bootstrap_polls answers f timeout completed m h =
    let m0 = emits (service_step_all any ∷ []) m in
    elim (Bool-cases (ltb 0 timeout && not completed && not m.skip_bootstrap)) [
      | inl y ↦ (emits (reschedule_bootstrap ∷ []) m0, rw y refl)
      | inr n ↦
          let (m', q) = sm_runlevel_ends answers f (first_level m0) (leaving m0) h in
          (
            finish_bootstrap m',
            check_as answers f timeout completed m (finish_bootstrap m') n
                  (leave_as answers f m0 m' q)
                ∙ ap (λ b. some (timeout - 1, b, finish_bootstrap m')) (sym n),
          )
    ]

not_both : (level : ℤ) → is_shutdown level ≡ true → eq_ℤ level init_level ≡ false
not_both (pos n) h = ground arith
not_both (negsuc n) h = cc

reserved_parts :
    (level : ℤ)
    → is_shutdown level ≡ false
    → eq_ℤ level init_level ≡ false
    → is_reserved level ≡ false
reserved_parts level s i = ground arith

-- With twelve units of fuel a request for any runlevel returns. Either the system is on its way down
-- to 0 or 6 and nothing changes, or it is in the runlevel S, where no more than the runlevel that
-- will be entered first and the kind of halt change, or it is in another runlevel, and the change
-- is carried out.
pub sm_request_runlevel_lem :
    (answers : ℕ → Answers) (f : ℕ) (level : ℤ) (m : Machine)
    → 12 ≤ f
    → (m' : Machine) × (sm_request_runlevel answers f level m ≡ some m')
      × (((is_shutdown m.runlevel ≡ true) × (m' ≡ m))
          ⊎ ((eq_ℤ m.runlevel init_level ≡ true)
              × (m' ≡ record m { cfglevel = level; halt = halt_for level m.halt }))
          ⊎ ((is_reserved m.runlevel ≡ false)
              × (sm_runlevel answers f level (record m { halt = halt_for level m.halt })
                  ≡ some m')))
unfolding sm_request_runlevel
sm_request_runlevel_lem answers f level m h = elim (Bool-cases (is_shutdown m.runlevel)) [
  | inl s ↦ (m, ground (arith, not_both m.runlevel s), inl (s, refl))
  | inr s ↦ elim (Bool-cases (eq_ℤ m.runlevel init_level)) [
    | inl i ↦ (
      record m { cfglevel = level; halt = halt_for level m.halt },
      ground arith,
      inr (inl (i, refl)),
    )
    | inr i ↦
        let (m', e) =
          sm_runlevel_ends answers f level (record m { halt = halt_for level m.halt }) h in
        (m', ground arith, inr (inr (reserved_parts m.runlevel s i, e)))
  ]
]
