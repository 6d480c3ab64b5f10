-- ===== src/Fs/Barrier/Invariant.antt =====
-- The barrier of SAC over all interleavings of core/threaded/scheduler_FS.c.
use schedule_test_manual.Base.{
  ℕ, ◌+◌, ◌-◌, ◌<◌, ◌≡◌, ◌≢◌, List, some, none, length, get_elem?, set, arith, refl, ◌⊎◌, inl, inr,
  length-set, Bool-cases, Option-cases, false, ◌==◌, if◌then◌else◌,
}
use schedule_test_manual.Base.Int.{ℤ}
use schedule_test_manual.Fs.{Inst, Sched, Frame, Ensures, Ensures-intro, Ensures-bind, Ensures-map}
use schedule_test_manual.Fs.Induction.{turn-Ensures, Reach-induction}
use schedule_test_manual.Fs.System.{
  Place, fetching, waiting, last_idle, executing, exited, Worker, System, turn_at, turn, Reach,
  execute_inst, execute_simple, is_sac, leave_or_loop, returned,
}
use schedule_test_manual.Fs.Barrier.{SameBarrier, execute_simple-SameBarrier, notify-clear}
use schedule_test_manual.Fs.Barrier.Counts.{
  is_waiting, is_last, total, total-set, total-lt, total-le, IsCounted,
}

-- What one turn may do to the barrier.
data Move (s : Sched) (p : Place) (s' : Sched) (p' : Place) : Type 0 where
  other :
      is_waiting p + is_last p ≡ 0
      → is_waiting p' + is_last p' ≡ 0
      → s'.number_of_idle_workers ≡ s.number_of_idle_workers
      → s'.semaphore ≡ s.semaphore
      → Move s p s' p'
  arrive :
      is_waiting p + is_last p ≡ 0
      → s'.number_of_idle_workers ≡ s.number_of_idle_workers + 1
      → s'.semaphore ≡ s.semaphore
      → (s'.number_of_idle_workers ≡ s.number_of_workers) × (is_waiting p' ≡ 0) × (is_last p' ≡ 1)
        ⊎ (s'.number_of_idle_workers ≢ s.number_of_workers) × (is_waiting p' ≡ 1) × (is_last p' ≡ 0)
      → Move s p s' p'
  acquire :
      (is_waiting p ≡ 1) × (is_last p ≡ 0)
      → is_waiting p' + is_last p' ≡ 0
      → s'.number_of_idle_workers ≡ s.number_of_idle_workers
      → s'.semaphore + 1 ≡ s.semaphore
      → Move s p s' p'
  notify :
      (is_waiting p ≡ 0) × (is_last p ≡ 1)
      → is_waiting p' + is_last p' ≡ 0
      → s'.number_of_idle_workers ≡ 0
      → s'.semaphore ≡ s.semaphore + (s.number_of_idle_workers - 1)
      → Move s p s' p'

-- where a worker stands after an instruction
abbrev after : Frame → Place
after f = if f.exit_loop then returned f.returned_reaction else fetching

-- the number of workers stays, and the barrier moves in one of these ways
abbrev Moved : Sched → Place → Sched × Worker → Type 0
Moved s p (s', w') = (s'.number_of_workers ≡ s.number_of_workers) × Move s p s' w'.place

place_after : (f : Frame) → is_waiting (after f) + is_last (after f) ≡ 0
place_after f = ground arith

execute_inst-Moved :
    (now : ℤ) (i : Inst) (s : Sched) (w : Worker)
    → Ensures (Moved s fetching) (execute_inst now i s w)
unfolding execute_inst
execute_inst-Moved now i s w = elim (Bool-cases (is_sac i.op)) [
  | inl c ↦ rw c (refl, Move.arrive refl refl refl (ground arith))
  | inr c ↦ rw c (
      let f : Frame = record {
        pc = w.pc;
        iteration = w.iteration;
        returned_reaction = none;
        exit_loop = false;
      } in
      Ensures-bind (λ (s', f'). SameBarrier s s') (Moved s fetching)
        (execute_simple i.op now i.rs1 i.rs2 s f) leave_or_loop
        (Ensures-intro (λ (s', f'). SameBarrier s s') (execute_simple i.op now i.rs1 i.rs2 s f)
          (λ (s', f') e. execute_simple-SameBarrier i.op now i.rs1 i.rs2 s s' f f' e))
        (λ (s', f') same. (same.workers, Move.other refl (place_after f') same.idle same.permits)))
]

turn_at-Moved :
    (p : Place) (now : ℤ) (code : List Inst) (s : Sched) (w : Worker)
    → Ensures (Moved s p) (turn_at p now code s w)
unfolding turn_at
turn_at-Moved fetching now code s w = elim (Option-cases (get_elem? code w.pc)) [
  | inl c ↦ rw (c, turn_at) tt
  | inr (i, c) ↦ rw (c, turn_at) (execute_inst-Moved now i s w)
]
turn_at-Moved waiting now code s w = elim (Bool-cases (s.semaphore == 0)) [
  | inl c ↦ rw (c, turn_at) tt
  | inr c ↦ rw (c, turn_at) (refl, Move.acquire (refl, refl) refl refl (ground arith))
]
turn_at-Moved last_idle now code s w =
    let facts = notify-clear s in (facts.0, Move.notify (refl, refl) refl facts.1 facts.2)
turn_at-Moved (executing t) now code s w = (refl, Move.other refl refl refl refl)
turn_at-Moved exited now code s w = tt

Move-IsCounted :
    (y : System) (n : ℕ) (w w' : Worker) (s' : Sched)
    → IsCounted y
    → get_elem? y.workers n ≡ some w
    → s'.number_of_workers ≡ y.sched.number_of_workers
    → Move y.sched w.place s' w'.place
    → IsCounted (record y { sched = s'; workers = set y.workers n w' })
Move-IsCounted y n w w' s' c e same (Move.other p p' i m) =
    let tw = total-set is_waiting y.workers n w w' e in
    let tl = total-set is_last y.workers n w w' e in
    let len = length-set y.workers n w' in ground arith
Move-IsCounted y n w w' s' c e same (Move.arrive p i m d) =
    let tw = total-set is_waiting y.workers n w w' e in
    let tl = total-set is_last y.workers n w w' e in
    let lt = total-lt y.workers n w e p in let len = length-set y.workers n w' in ground arith
Move-IsCounted y n w w' s' c e same (Move.acquire p p' i m) =
    let tw = total-set is_waiting y.workers n w w' e in
    let tl = total-set is_last y.workers n w w' e in
    let le = total-le y.workers in let len = length-set y.workers n w' in ground arith
Move-IsCounted y n w w' s' c e same (Move.notify p p' i m) =
    let tw = total-set is_waiting y.workers n w w' e in
    let tl = total-set is_last y.workers n w w' e in
    let le = total-le y.workers in let len = length-set y.workers n w' in ground arith

turn-IsCounted : (now : ℤ) (n : ℕ) (y : System) → IsCounted y → Ensures IsCounted (turn now n y)
turn-IsCounted now n y c = turn-Ensures IsCounted now n y (λ w code e d.
    let after = λ (r : Sched × Worker). record y { sched = r.0; workers = set y.workers n r.1 } in
    Ensures-map (Moved y.sched w.place) (λ r. IsCounted (after r))
      (turn_at w.place now code y.sched w) (turn_at-Moved w.place now code y.sched w)
      (λ (s', w') (same, m). Move-IsCounted y n w w' s' c e same m))

-- In every state that is reached from one in which the counts agree, they agree: the workers that
-- wait for the semaphore or are about to notify the others are as many as the counter of idle workers
-- and the permits of the semaphore together, and the counter stands at the number of workers exactly
-- while one worker is about to notify.
pub Reach-IsCounted : {x y : System} → IsCounted x → Reach x y → IsCounted y
Reach-IsCounted c r =
    Reach-induction IsCounted turn-IsCounted
      (λ t y d. record { workers = d.workers; counted = d.counted; phase = d.phase }) c r

-- No deadlock at the barrier: in every state reached from one in which the counts agree, when every
-- worker is at the barrier, either one is about to notify the others, or the semaphore has a permit.
pub barrier_progress :
    {x y : System}
    → IsCounted x
    → Reach x y
    → total is_waiting y.workers + total is_last y.workers ≡ length y.workers
    → (total is_last y.workers ≡ 1) ⊎ (0 < y.sched.semaphore)
barrier_progress c r all = let d = Reach-IsCounted c r in ground arith

-- In every state reached from one in which the counts agree, while a worker is about to clear the
-- counters and to notify, every other worker waits for the semaphore, which has no permit.
pub notify_exclusive :
    {x y : System}
    → IsCounted x
    → Reach x y
    → total is_last y.workers ≡ 1
    → (total is_waiting y.workers + 1 ≡ length y.workers) × (y.sched.semaphore ≡ 0)
notify_exclusive {y = y} c r last =
    let d = Reach-IsCounted c r in let le = total-le y.workers in ground arith
