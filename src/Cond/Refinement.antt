-- ===== src/Cond/Refinement.antt =====
-- The states of a condition: a name is absent, held since the last reload or from before it, or held
-- for ever. The files with their generations implement this.
use finit.Prelude.{
  ◌≡◌, refl, ap, ◌∙◌, Option, none, some, List, [], ◌∷◌, ℕ, ◌+◌, ◌%◌, ◌^◌, ◌≤◌, ◌<◌, arith, true,
  false, not, ◌==◌, ◌&&◌, String, str_eq, str_eq_iff, length, if◌then◌else◌,
}
use finit.Service.Types.{CondState, off, flux, on}
use finit.Cond.Files.{File, number, link, Files, lookup, remove, put, lookup-remove, lookup-put}
use finit.Cond.Engine.{
  Io, reconf, cond_get_gen, cond_get_path, cond_set_gen, cond_bump_reconf, cond_set_path,
  cond_set_noupdate, cond_clear_noupdate, cond_set_oneshot_noupdate, cond_reload,
}

-- The abstract state of one condition.
pub data Held : Type 0 where
  absent once fresh stale : Held

pub data Op : Type 0 where
  set clear oneshot : String → Op
  reload : Op

-- A reload makes all that is held stale, but for what is held once for all.
abbrev pub reloaded : Held → Held
reloaded fresh = stale
reloaded h = h

abbrev pub asserted : Held → Held
asserted once = once
asserted h = fresh

-- To set for good a condition that is set already leaves it as it is, also where a reload will put
-- it in flux: `symlink` fails on the file that exists.
abbrev pub kept : Held → Held
kept absent = once
kept h = h

-- The specification, for the name `q`.
abbrev pub at_name : String → String → Held → Held → Held
at_name n q h h' = if str_eq n q && not (str_eq n "nop") then h' else h

abbrev pub spec : Op → String → Held → Held
spec (set n) q h = at_name n q h (asserted h)
spec (clear n) q h = at_name n q h absent
spec (oneshot n) q h = at_name n q h (kept h)
spec reload q h = reloaded h

abbrev pub spec_run : List Op → String → Held → Held
spec_run [] q h = h
spec_run (op ∷ ops) q h = spec_run ops q (spec op q h)

abbrev pub state_of : Held → CondState
state_of absent = off
state_of once = on
state_of fresh = on
state_of stale = flux

-- The implementation, on system calls that succeed and with the name for the path.
abbrev pub working : Io
working = record { checkpath = λ _. true; writable = λ _. true; linkable = λ _. true }

pub step : Op → Files → Files
step (set n) fs = (cond_set_noupdate working (λ p. p) n fs).0
step (clear n) fs = (cond_clear_noupdate working (λ p. p) n fs).0
step (oneshot n) fs = (cond_set_oneshot_noupdate working (λ p. p) n fs).0
step reload fs = cond_reload working fs

pub run : List Op → Files → Files
run [] fs = fs
run (op ∷ ops) fs = run ops (step op fs)

-- A generation that was written is at least 1 and not ahead of the configuration's, `r`.
abbrev Written : ℕ → Option File → Type 0
Written r none = 0 ≤ r
Written r (some (number g)) = (1 ≤ g) × (g ≤ r)
Written r (some link) = 0 ≤ r

record Inv (r : ℕ) (fs : Files) : Type 0 where
  current : lookup reconf fs ≡ some (number r)
  started : 1 ≤ r
  written : (q : String) → Written r (lookup q fs)

-- The abstract state that a file stands for.
abbrev held : ℕ → Option File → Held
held r none = absent
held r (some (number g)) = if g == r then fresh else stale
held r (some link) = once

get_path-held :
    (r : ℕ) (fs : Files) (q : String)
    → Inv r fs
    → cond_get_path fs q ≡ state_of (held r (lookup q fs))
unfolding cond_get_path cond_get_gen
get_path-held r fs q i = ground (arith, i.written q)

-- What the file at `q` is behind each operation.
abbrev set_file : ℕ → Option File → Option File
set_file r (some link) = some link
set_file r f = some (number r)

abbrev kept_file : Option File → Option File
kept_file none = some link
kept_file f = f

abbrev file_at : String → String → Option File → Option File → Option File
file_at n q f f' = if str_eq n q && not (str_eq n "nop") then f' else f

lookup-set :
    (r : ℕ) (n q : String) (fs : Files)
    → Inv r fs
    → str_eq n reconf ≡ false
    → lookup q (step (set n) fs) ≡ file_at n q (lookup q fs) (set_file r (lookup q fs))
unfolding step cond_set_noupdate cond_set_path cond_set_gen cond_get_gen
lookup-set r n q fs i h = ground (
  arith,
  lookup-put n q (number r) fs,
  lookup-put reconf q (number r) fs,
  str_eq_iff n q,
  str_eq_iff reconf q,
  str_eq_iff n "nop",
)

lookup-clear :
    (n q : String) (fs : Files) → lookup q (step (clear n) fs) ≡ file_at n q (lookup q fs) none
unfolding step cond_clear_noupdate cond_set_path
lookup-clear n q fs = ground (arith, lookup-remove n q fs)

lookup-oneshot :
    (n q : String) (fs : Files)
    → lookup q (step (oneshot n) fs) ≡ file_at n q (lookup q fs) (kept_file (lookup q fs))
unfolding step cond_set_oneshot_noupdate
lookup-oneshot n q fs = ground (arith, lookup-put n q link fs, str_eq_iff n q)

lookup-reload :
    (r : ℕ) (q : String) (fs : Files)
    → Inv r fs
    → r + 1 < 2 ^ 32
    → lookup q (step reload fs) ≡ (if str_eq reconf q then some (number (r + 1)) else lookup q fs)
unfolding step cond_reload cond_bump_reconf cond_set_gen cond_get_gen
lookup-reload r q fs i h = ground (arith, lookup-put reconf q (number ((r + 1) % 2 ^ 32)) fs)

-- The file `reconf` is no condition.
abbrev pub Named : Op → Type 0
Named (set n) = str_eq n reconf ≡ false
Named (clear n) = str_eq n reconf ≡ false
Named (oneshot n) = str_eq n reconf ≡ false
Named reload = 0 ≤ 0

abbrev pub AllNamed : List Op → Type 0
AllNamed [] = 0 ≤ 0
AllNamed (op ∷ ops) = Named op × AllNamed ops

abbrev generation : Op → ℕ → ℕ
generation reload r = r + 1
generation _ r = r

step-Inv :
    (op : Op) (r : ℕ) (fs : Files)
    → Named op
    → r + 1 < 2 ^ 32
    → Inv r fs
    → Inv (generation op r) (step op fs)
step-Inv (set n) r fs h b i = record {
  current = ground (arith, lookup-set r n reconf fs i h, str_eq_iff n reconf);
  started = i.started;
  written = λ q. ground (arith, lookup-set r n q fs i h, i.written q, i.started);
}
step-Inv (clear n) r fs h b i = record {
  current = ground (arith, lookup-clear n reconf fs);
  started = i.started;
  written = λ q. ground (arith, lookup-clear n q fs, i.written q);
}
step-Inv (oneshot n) r fs h b i = record {
  current = ground (arith, lookup-oneshot n reconf fs);
  started = i.started;
  written = λ q. ground (arith, lookup-oneshot n q fs, i.written q);
}
step-Inv reload r fs h b i = record {
  current = ground (arith, lookup-reload r reconf fs i b, str_eq_iff reconf reconf);
  started = omega arith;
  written = λ q. ground (arith, lookup-reload r q fs i b, i.written q);
}

step-held :
    (op : Op) (r : ℕ) (q : String) (fs : Files)
    → Named op
    → str_eq q reconf ≡ false
    → r + 1 < 2 ^ 32
    → Inv r fs
    → held (generation op r) (lookup q (step op fs)) ≡ spec op q (held r (lookup q fs))
step-held (set n) r q fs h k b i = ground (arith, lookup-set r n q fs i h)
step-held (clear n) r q fs h k b i = ground (arith, lookup-clear n q fs)
step-held (oneshot n) r q fs h k b i = ground (arith, lookup-oneshot n q fs)
step-held reload r q fs h k b i =
    ground (arith, lookup-reload r q fs i b, i.written q, str_eq_iff reconf q, str_eq_iff q reconf)

run-held :
    (ops : List Op) (r : ℕ) (q : String) (fs : Files)
    → AllNamed ops
    → str_eq q reconf ≡ false
    → r + length ops < 2 ^ 32
    → Inv r fs
    → cond_get_path (run ops fs) q ≡ state_of (spec_run ops q (held r (lookup q fs)))
unfolding run
run-held [] r q fs h k b i = get_path-held r fs q i
run-held (op ∷ ops) r q fs (h, hs) k b i =
    run-held ops (generation op r) q (step op fs) hs k (ground arith)
      (step-Inv op r fs h (omega arith) i)
    ∙ ap (λ x. state_of (spec_run ops q x)) (step-held op r q fs h k (omega arith) i)

-- The directory behind `cond_init`, without conditions of the kernel's command line.
pub started : Files
started = cond_bump_reconf working []

started-Inv : Inv 1 started
unfolding started cond_bump_reconf cond_set_gen cond_get_gen lookup put remove
started-Inv = record { current = refl; started = omega arith; written = λ q. ground arith }

started-absent : (q : String) → str_eq q reconf ≡ false → held 1 (lookup q started) ≡ absent
unfolding started cond_bump_reconf cond_set_gen cond_get_gen lookup put remove
started-absent q k = ground (arith, str_eq_iff q reconf, str_eq_iff reconf q)

-- From `cond_init` on, any sequence of fewer than 2^32 - 1 operations that set, clear or set for
-- good a condition or reload leaves each condition in the state that the specification says. It is
-- off if it was never set or has been cleared since. Else it is on whatever follows if it was set for
-- good while it was off; otherwise it is on if it was set since the last reload, and in flux if it was
-- set before that only. To set a condition for good that is on or in flux changes nothing: it goes on
-- as it was. The system calls succeed, a condition's path is its name, and no operation names the
-- file of the generation.
pub run-refines :
    (ops : List Op) (q : String)
    → AllNamed ops
    → str_eq q reconf ≡ false
    → 1 + length ops < 2 ^ 32
    → cond_get_path (run ops started) q ≡ state_of (spec_run ops q absent)
run-refines ops q h k b =
    run-held ops 1 q started h k b started-Inv
    ∙ ap (λ x. state_of (spec_run ops q x)) (started-absent q k)
