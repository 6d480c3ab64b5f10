-- ===== src/Fs/Barrier/Counts.antt =====
-- How many workers wait at the barrier, against the counts that the scheduler keeps.
use schedule_test_manual.Base.{
  ℕ, zero, suc, ◌+◌, ◌<◌, ◌≤◌, ◌≡◌, List, [], ◌∷◌, some, length, get_elem?, set, arith, ◌⊎◌,
}
use schedule_test_manual.Fs.System.{Place, waiting, last_idle, Worker, System}

-- a worker in the wait for the semaphore, and one in the branch of the last idle worker
abbrev pub is_waiting : Place → ℕ
is_waiting waiting = 1
is_waiting _ = 0

abbrev pub is_last : Place → ℕ
is_last last_idle = 1
is_last _ = 0

-- the number of workers at such a place
unfoldable pub total : (Place → ℕ) → List Worker → ℕ
total f [] = 0
total f (w ∷ ws) = f w.place + total f ws

pub total-set :
    (f : Place → ℕ) (ws : List Worker) (n : ℕ) (w w' : Worker)
    → get_elem? ws n ≡ some w
    → total f (set ws n w') + f w.place ≡ total f ws + f w'.place
unfolding total
total-set f [] n w w' e = absurd (cc)
total-set f (v ∷ ws) zero w w' e = ground arith
total-set f (v ∷ ws) (suc n) w w' e = ground (arith, total-set f ws n w w')

pub total-le : (ws : List Worker) → total is_waiting ws + total is_last ws ≤ length ws
unfolding total
total-le [] = omega arith
total-le (w ∷ ws) = ground (arith, total-le ws)

-- a worker that is neither waiting nor last leaves room for at most the others
pub total-lt :
    (ws : List Worker) (n : ℕ) (w : Worker)
    → get_elem? ws n ≡ some w
    → is_waiting w.place + is_last w.place ≡ 0
    → total is_waiting ws + total is_last ws < length ws
unfolding total
total-lt [] n w e f = absurd (cc)
total-lt (v ∷ ws) zero w e f = ground (arith, total-le ws)
total-lt (v ∷ ws) (suc n) w e f = ground (arith, total-lt ws n w e f)

-- The counts agree: the workers in the wait are the idle ones and those a permit is left for, and
-- all workers are idle exactly when one of them is in the branch of the last idle worker.
pub record IsCounted (y : System) : Type 0 where
  pub workers : length y.workers ≡ y.sched.number_of_workers
  pub counted :
      total is_waiting y.workers + total is_last y.workers
      ≡ y.sched.number_of_idle_workers + y.sched.semaphore
  pub phase :
      (total is_last y.workers ≡ 0) × (y.sched.number_of_idle_workers < y.sched.number_of_workers)
      ⊎ (total is_last y.workers ≡ 1) × (y.sched.number_of_idle_workers ≡ y.sched.number_of_workers)
