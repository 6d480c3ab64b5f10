-- ===== src/Fs/Tests.antt =====
-- Runs of the scheduler on schedules/v9.c.
use schedule_test_manual.Base.{
  ℕ, zero, suc, ◌++◌, ◌+◌, ◌<◌, ◌≡◌, ◌⊎◌, false, List, [], ◌∷◌, some, none, arith, refl, get_elem?,
  map, length, Option,
}
use schedule_test_manual.Base.Int.{ℤ, pos, negsuc}
use schedule_test_manual.Tag.{Tag}
use schedule_test_manual.Fs.{Sched, Frame, Run, ok, fault, flag_out_of_range}
use schedule_test_manual.Fs.System.{
  Place, fetching, waiting, last_idle, Worker, System, perform, run, Event, runs, Reach, here,
}
use schedule_test_manual.Fs.Check.{check_codes}
use schedule_test_manual.Fs.Stop.{codes_forward}
use schedule_test_manual.Fs.Init.{init, start_tags, init-IsSafe, init-IsCounted}
use schedule_test_manual.Fs.Safety.Paths.{IsSafe}
use schedule_test_manual.Fs.Exec.{execute_bit, semaphore_acquire, notify_workers, clear_counters}
use schedule_test_manual.Fs.System.{wait_for_work}
use schedule_test_manual.Fs.Barrier.{sac_overtaken}
use schedule_test_manual.Fs.Barrier.Counts.{IsCounted, total, is_waiting, is_last}
use schedule_test_manual.Fs.Barrier.Invariant.{Reach-IsCounted, barrier_progress, notify_exclusive}
use schedule_test_manual.Tag.Order.{Before}
use schedule_test_manual.Fs.Stop.Invariant.{Flagged, Reach-Flagged, bit_exact}
use schedule_test_manual.Fs.Stop.Start.{init-Flagged}
use schedule_test_manual.Fs.Induction.{run-Reach}
use schedule_test_manual.Fs.Schedules
use schedule_test_manual.Fs.Repository.{sizes, ScheduleSet}

abbrev repeat : ℕ → Event → List Event
repeat zero e = []
repeat (suc n) e = e ∷ repeat n e

abbrev late : ℤ
late = pos 10_000_000_000

abbrev end : Tag
end = record { time = pos 1_000_000_000; microstep = 0 }

abbrev v9 : System
v9 = init (sizes 1) Schedules.V9.static_schedules 2 (pos 0) (pos 0) end

-- where a worker stands
abbrev standing : ℕ → Run System → Option (ℕ × Place)
standing n (ok y) = elim (get_elem? y.workers n) [ some w ↦ some (w.pc, w.place) | none ↦ none ]
standing n _ = none

abbrev overtaken : Run System
unfolding run init start_tags
overtaken = run (repeat 5 (runs late 0) ++ repeat 32 (runs late 1)) v9

-- In v9.c worker 1 can pass the SAC of two iterations while worker 0 still waits in its first SAC.
overtaken_v9 :
    (standing 0 overtaken ≡ some (3, waiting)) × (standing 1 overtaken ≡ some (11, fetching))
unfolding run init start_tags
overtaken_v9 = (refl, refl)

-- A system of two workers that runs v9.c, and the state after worker 0 has jumped past its stop test.
v9-IsSafe : IsSafe (sizes 1) v9
unfolding init check_codes
v9-IsSafe =
    init-IsSafe (sizes 1) Schedules.V9.static_schedules 2 (pos 0) (pos 0) end refl (omega arith)
      (omega arith)

abbrev after_one : System
unfolding init start_tags perform
after_one = elim (perform (runs late 0) v9) [ ok y ↦ y | _ ↦ v9 ]

-- worker 0 waits at its first SAC, and worker 1 has arrived at its own
abbrev met : System
unfolding init run start_tags
met = elim (run (repeat 5 (runs late 0) ++ repeat 14 (runs late 1)) v9) [ ok y ↦ y | _ ↦ v9 ]

met_places : map (λ (w : Worker). w.place) met.workers ≡ waiting ∷ last_idle ∷ []
unfolding init run start_tags
met_places = refl

Reach-met : Reach v9 met
unfolding init run start_tags
Reach-met = run-Reach (repeat 5 (runs late 0) ++ repeat 14 (runs late 1)) here refl

v9-IsCounted : IsCounted v9
v9-IsCounted =
    init-IsCounted (sizes 1) Schedules.V9.static_schedules 2 (pos 0) (pos 0) end (omega arith)

Reach-IsCounted_example : IsCounted met
Reach-IsCounted_example = Reach-IsCounted v9-IsCounted Reach-met

barrier_progress_example : (total is_last met.workers ≡ 1) ⊎ (0 < met.sched.semaphore)
unfolding init run start_tags total
barrier_progress_example = barrier_progress v9-IsCounted Reach-met refl

notify_exclusive_example :
    (total is_waiting met.workers + 1 ≡ length met.workers) × (met.sched.semaphore ≡ 0)
unfolding init run start_tags total
notify_exclusive_example = notify_exclusive v9-IsCounted Reach-met refl

v9-Flagged : Flagged v9
unfolding codes_forward
v9-Flagged =
    init-Flagged (sizes 1) Schedules.V9.static_schedules 2 (pos 0) (pos 0) end refl (omega arith)
      (omega arith) (omega arith)

abbrev first_frame : Frame
first_frame = record { pc = 1; iteration = 0; returned_reaction = none; exit_loop = false }

bit_exact_example :
    (((i : ℕ) (t : Tag)
        → i < 3
        → get_elem? met.sched.reactor_tags i ≡ some t
        → Before met.sched.stop_tag t)
      → execute_bit (pos 14) (negsuc 0) met.sched first_frame
        ≡ ok (met.sched, record first_frame { pc = 14 }))
    × ((i : ℕ) (t : Tag)
        → i < 3
        → get_elem? met.sched.reactor_tags i ≡ some t
        → ¬ Before met.sched.stop_tag t
        → execute_bit (pos 14) (negsuc 0) met.sched first_frame
          ≡ ok (met.sched, record first_frame { pc = 2 }))
unfolding init run start_tags
bit_exact_example =
    bit_exact (pos 14) (negsuc 0) met.sched first_frame (Reach-Flagged v9-Flagged Reach-met).1
      (omega arith)

-- two workers, of which one is idle
abbrev meeting : Sched
meeting = record {
  number_of_workers = 2;
  number_of_idle_workers = 1;
  semaphore = 0;
  counters = 5 ∷ [];
  reactor_tags = [];
  reached_stop_tag = [];
  num_reactor_self_instances = 0;
  reactions = [];
  stop_tag = end;
  physical_start_time = pos 0;
}

sac_overtaken_example :
    let first = wait_for_work meeting in
    let second = wait_for_work (notify_workers (clear_counters first.0)) in
    (first.1 ≡ last_idle)
    × (second.1 ≡ waiting)
    × ((s' : Sched) × (semaphore_acquire second.0 ≡ ok s') × (s'.semaphore + 2 ≡ 2))
sac_overtaken_example = sac_overtaken meeting (omega arith) refl refl

abbrev v9_set : ScheduleSet
v9_set = record { num_counters = 1; codes = Schedules.V9.static_schedules }

-- the stop tag comes before the sink's first advance
abbrev soon : System
soon =
    init (sizes 1) Schedules.V9.static_schedules 2 (pos 0) (pos 0)
      (record { time = pos 1_000_000; microstep = 0 })

-- v9.c runs into the missing stop flag of the sink
v9_flag_missing :
    run (repeat 5 (runs late 0) ++ repeat 14 (runs late 1)) soon ≡ fault flag_out_of_range
unfolding init run start_tags
v9_flag_missing = refl
