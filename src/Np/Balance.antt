-- ===== src/Np/Balance.antt =====
-- core/threaded/scheduler_NP.c: the count of idle workers, the permits of the semaphore and the places
-- of the workers.
pub mod Idle
pub mod Rounds
pub mod Run
pub mod Work
use mathlib.Core.Path.{subst}
use mathlib.Core.Option.{some-injective}
use schedule_test_manual.Base.{
  ℕ, zero, suc, ◌+◌, ◌-◌, ◌≡◌, ◌≢◌, ◌≤◌, ◌<◌, refl, sym, ap, ◌∙◌, ◌⊎◌, Bool, true, false, Option,
  none, some, List, [], ◌∷◌, ◌==◌, if◌then◌else◌, length, get_elem?, set, inl, inr, arith,
  length-set, Bool-cases, Option-cases, if_true, if_false, ==_iff,
}
use schedule_test_manual.Net.{◌>>=◌}
use schedule_test_manual.Rti.{>>=-eq-some}
use schedule_test_manual.Tag.{Tag}
use schedule_test_manual.Np.{
  Level, SchedInstance, trigger_all, done_with_reaction, pop_reaction, round, reset_index,
}
use schedule_test_manual.Np.Workers.{
  Place, System, fetching, out_of_work, waiting, advancing, exited, executing, turn_at,
  wait_for_work, MayTrigger, Reach, here, next,
}
use schedule_test_manual.Np.Counts.{
  is_waiting, is_advancing, is_out, is_executing, is_exited, total, total-set, total-le,
}
use schedule_test_manual.Np.Rows.{AreLevels}
use schedule_test_manual.Np.Effects.{Unmoved, Unmoved-trans, trigger_all-Unmoved, trigger_all_later}
use schedule_test_manual.Np.Moves.{
  IsDry, Took, done-Unmoved, pop_reaction-Took, reset_index-Unmoved,
}
use schedule_test_manual.Np.Advance.{Outcome, woken, ended, held, Woken, Ended, Held}

-- before the stop: each waiting or advancing worker is counted as idle or has a permit, and a worker
-- advances the tag exactly when all are idle
pub record IsRunning (y : System) : Type 0 where
  pub stop : y.sched.should_stop ≡ false
  pub rows : AreLevels y.sched.levels
  pub follows : y.sched.next_reaction_level ≡ suc y.sched.executing_reactions
  pub size : length y.workers ≡ y.sched.number_of_workers
  pub counted :
      total is_waiting y.workers + total is_advancing y.workers
      ≡ y.sched.number_of_idle_workers + y.sched.semaphore
  pub phase :
      (total is_advancing y.workers ≡ 0)
        × (y.sched.number_of_idle_workers < y.sched.number_of_workers)
      ⊎ (total is_advancing y.workers ≡ 1)
        × (y.sched.number_of_idle_workers ≡ y.sched.number_of_workers)
  pub dry : 0 < total is_out y.workers → IsDry y.sched

-- after it: each waiting worker has a permit, and no worker has work
pub record IsStopping (y : System) : Type 0 where
  pub stop : y.sched.should_stop ≡ true
  pub permitted : total is_waiting y.workers ≤ y.sched.semaphore
  pub none_advancing : total is_advancing y.workers ≡ 0
  pub none_out : total is_out y.workers ≡ 0
  pub none_executing : total is_executing y.workers ≡ 0

pub data IsBalanced (y : System) : Type 0 where
  is_running : IsRunning y → IsBalanced y
  is_stopping : IsStopping y → IsBalanced y

abbrev pub after : System → ℕ → Place → SchedInstance → System
after y n p s = record { sched = s; workers = set y.workers n p }

-- one more idle worker
abbrev pub one_idle : SchedInstance → SchedInstance
one_idle s = record s { number_of_idle_workers = s.number_of_idle_workers + 1 }

-- a turn that leaves the counters
pub Unmoved-IsRunning :
    (y : System) (n : ℕ) (p p' : Place) (m : SchedInstance)
    → get_elem? y.workers n ≡ some p
    → Unmoved y.sched m
    → is_waiting p' ≡ is_waiting p
    → is_advancing p' ≡ is_advancing p
    → (0 < total is_out (set y.workers n p') → IsDry m)
    → IsRunning y
    → IsRunning (after y n p' m)
Unmoved-IsRunning y n p p' m at u w a dry b =
    let ws = total-set is_waiting y.workers n p p' at in
    let ads = total-set is_advancing y.workers n p p' at in
    let c1 = u.idle in
    let c2 = u.permits in
    let c3 = u.workers in
    let c4 = u.next in
    let c5 = u.executing_same in
    let c6 = b.counted in
    let follows = b.follows in
    record {
      stop = u.stop ∙ b.stop;
      rows = u.rows;
      follows = omega arith;
      size = length-set y.workers n p' ∙ b.size ∙ sym u.workers;
      counted = omega arith;
      phase = elim b.phase [
        | inl h ↦ inl (omega arith, omega arith)
        | inr h ↦ inr (omega arith, omega arith)
      ];
      dry = dry;
    }

-- what the phase says when a worker is about to be idle, or advances
pub alone :
    (y : System)
    → IsRunning y
    → total is_advancing y.workers ≡ 1
    → (total is_out y.workers ≡ 0)
      × (total is_executing y.workers ≡ 0)
      × (total is_waiting y.workers + 1 ≡ length y.workers)
      × (y.sched.semaphore ≡ 0)
      × (y.sched.number_of_idle_workers ≡ y.sched.number_of_workers)
alone y b one =
    let le = total-le y.workers in
    let size = b.size in
    let counted = b.counted in
    elim b.phase [
      | inl h ↦ absurd (omega arith)
      | inr h ↦ (omega arith, omega arith, omega arith, omega arith, h.1)
    ]
