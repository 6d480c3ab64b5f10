-- ===== src/Fs/Safety/Paths.antt =====
-- Accesses of all interleavings of workers of core/threaded/scheduler_FS.c.
use schedule_test_manual.Base.{
  ℕ, ◌+◌, ◌<◌, ◌≡◌, ◌≢◌, true, List, some, length, get_elem?, set, Option-cases, get_elem?-set_inv,
  inl, inr,
}
use mathlib.Core.Path.{subst}
use schedule_test_manual.Base.Int.{ℤ}
use schedule_test_manual.Fs.{Inst, Run, ok, fault, out_of_range}
use schedule_test_manual.Fs.System.{
  Worker, System, turn_at, turn, perform, Event, runs, triggers, Reach, here, next, triggered,
}
use schedule_test_manual.Fs.Check.{Sizes, check_codes, check_codes-get_elem?}
use schedule_test_manual.Fs.Safety.{Safe, Safe-bind, HasSizes}
use schedule_test_manual.Fs.Safety.Turn.{ahead, InCode, turn_at-Safe, update_status-HasSizes}

-- The schedules pass the check, the arrays have the sizes it was made for, and each worker has a
-- schedule and stands in it.
pub record IsSafe (z : Sizes) (y : System) : Type 0 where
  pub checked : check_codes z y.schedules ≡ true
  pub sizes : HasSizes z y.sched
  pub inside :
      (n : ℕ) (w : Worker)
      → get_elem? y.workers n ≡ some w
      → (code : List Inst) × (get_elem? y.schedules n ≡ some code)
        × (w.pc + ahead w.place < length code)

turn-Safe : (z : Sizes) (now : ℤ) (n : ℕ) (y : System) → IsSafe z y → Safe (IsSafe z) (turn now n y)
unfolding turn
turn-Safe z now n y h = elim (Option-cases (get_elem? y.workers n)) [
  | inl e ↦ rw (e, turn) tt
  | inr (w, e) ↦
      let (code, c, l) = h.inside n w e in
      let good = check_codes-get_elem? z n y.schedules code h.checked c in
      rw (e, c, turn)
        (Safe-bind (InCode z code) (IsSafe z) (turn_at w.place now code y.sched w)
          (λ (s, w'). ok (record y { sched = s; workers = set y.workers n w' }))
          (turn_at-Safe z now code y.sched w w.place good h.sizes l)
          (λ (s, w') (hs, l'). record {
            checked = h.checked;
            sizes = hs;
            inside = λ m v e'. elim (get_elem?-set_inv y.workers n m w' v e') [
              | inl (p, same) ↦ (code, rw (← p) c, rw same l')
              | inr (p, old) ↦ h.inside m v old
            ];
          }))
]

perform-Safe : (z : Sizes) (e : Event) (y : System) → IsSafe z y → Safe (IsSafe z) (perform e y)
unfolding perform
perform-Safe z (runs now n) y h = turn-Safe z now n y h
perform-Safe z (triggers r) y h = record {
  checked = h.checked;
  sizes = update_status-HasSizes z triggered r y.sched h.sizes;
  inside = h.inside;
}

Safe-ok {ℓ} : {A : Type ℓ} (P : A → Type 0) (m : Run A) {a : A} → Safe P m → m ≡ ok a → P a
Safe-ok P m h e = subst (Safe P) e h

-- Whatever the interleaving of the workers, the physical times and the triggered reactions, every
-- state reached from a safe one is safe.
pub Reach-IsSafe : (z : Sizes) {x y : System} → IsSafe z x → Reach x y → IsSafe z y
Reach-IsSafe z h here = h
Reach-IsSafe z h (next {y = y} r e p) =
    Safe-ok (IsSafe z) (perform e y) (perform-Safe z e y (Reach-IsSafe z h r)) p

-- From a system whose schedules pass the check and whose workers stand in their schedules, no event
-- of any interleaving makes an access outside the schedules or the arrays.
pub Reach-in_range :
    (z : Sizes) {x y : System} (e : Event)
    → IsSafe z x
    → Reach x y
    → perform e y ≢ fault out_of_range
Reach-in_range z {y = y} e h r p = rw p at (perform-Safe z e y (Reach-IsSafe z h r))
