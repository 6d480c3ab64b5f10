-- ===== src/Fs/Barrier.antt =====
-- The barrier of SAC: the counts of idle workers and of the semaphore, one instruction at a time.
pub mod Counts
pub mod Invariant
use schedule_test_manual.Base.{
  ℕ, suc, ◌+◌, ◌-◌, ltb, Bool-cases, inl, inr, refl, ◌<◌, ◌≤◌, ◌≡◌, Bool, true, false, arith,
}
use schedule_test_manual.Base.Int.{ℤ}
use schedule_test_manual.Fs.{
  Opcode, adv, adv2, bit, du, eit, exe, inc, inc2, jmp, sac, stp, wu, Sched, Frame, Run, ok,
}
use schedule_test_manual.Fs.Exec.{
  execute_adv, execute_bit, execute_du, execute_eit, execute_exe, execute_inc, execute_jmp,
  execute_stp, execute_wu, semaphore_acquire, notify_workers, clear_counters,
}
use schedule_test_manual.Fs.System.{Place, waiting, last_idle, wait_for_work, execute_simple}

-- the fields that the barrier works on are the same
pub record SameBarrier (s t : Sched) : Type 0 where
  pub workers : t.number_of_workers ≡ s.number_of_workers
  pub idle : t.number_of_idle_workers ≡ s.number_of_idle_workers
  pub permits : t.semaphore ≡ s.semaphore

-- only SAC touches the barrier
pub execute_simple-SameBarrier :
    (op : Opcode) (now rs1 rs2 : ℤ) (s s' : Sched) (f f' : Frame)
    → execute_simple op now rs1 rs2 s f ≡ ok (s', f')
    → SameBarrier s s'
unfolding execute_simple execute_adv execute_bit execute_du execute_eit execute_exe execute_inc
    execute_jmp execute_stp execute_wu
execute_simple-SameBarrier adv now rs1 rs2 s s' f f' e = ground arith
execute_simple-SameBarrier _ now rs1 rs2 s s' f f' e = ground arith

-- the barrier after the last idle worker has cleared the counters and notified the others
pub notify-clear :
    (s : Sched)
    → let t = notify_workers (clear_counters s) in
      (t.number_of_workers ≡ s.number_of_workers)
      × (t.number_of_idle_workers ≡ 0)
      × (t.semaphore ≡ s.semaphore + (s.number_of_idle_workers - 1))
unfolding notify_workers clear_counters
notify-clear s = elim (Bool-cases (ltb 1 s.number_of_idle_workers)) [
  | inl e ↦ rw (e, notify_workers) (refl, omega arith, refl)
  | inr e ↦ rw (e, notify_workers) (refl, omega arith, ground arith)
]

pub acquire_permit :
    (s : Sched)
    → 0 < s.semaphore
    → semaphore_acquire s ≡ ok (record s { semaphore = s.semaphore - 1 })
unfolding semaphore_acquire
acquire_permit s h = ground arith

-- When all the other workers are idle and no permit is left, the last worker to arrive at a barrier
-- can pass it, arrive at the next barrier and pass that one too, without a turn of any other worker:
-- it takes one of the permits that it released itself. This holds from two workers on.
pub sac_overtaken :
    (s : Sched)
    → 2 ≤ s.number_of_workers
    → s.number_of_idle_workers + 1 ≡ s.number_of_workers
    → s.semaphore ≡ 0
    → let first = wait_for_work s in
      let second = wait_for_work (notify_workers (clear_counters first.0)) in
      (first.1 ≡ last_idle)
      × (second.1 ≡ waiting)
      × ((s' : Sched) × (semaphore_acquire second.0 ≡ ok s')
          × (s'.semaphore + 2 ≡ s.number_of_workers))
unfolding wait_for_work
sac_overtaken s many last empty =
    let first = (wait_for_work s).0 in
    let facts = notify-clear first in
    let second = (wait_for_work (notify_workers (clear_counters first))).0 in
    let permit : 0 < second.semaphore = omega arith in
    (
      ground arith,
      ground arith,
      (
        record second { semaphore = second.semaphore - 1 },
        acquire_permit second permit,
        omega arith,
      ),
    )
