-- ===== src/Fs/Repository.antt =====
-- The ten sets of schedules under schedules/, run by core/threaded/scheduler_FS.c.
use schedule_test_manual.Base.{ℕ, ◌&&◌, Bool, true, List, [], ◌∷◌}
use schedule_test_manual.Tag.{Tag}
use schedule_test_manual.Fs.{Inst}
use schedule_test_manual.Fs.System.{System}
use schedule_test_manual.Fs.Check.{Sizes, check_codes}
use schedule_test_manual.Fs.Stop.{codes_forward}
use schedule_test_manual.Fs.Schedules

-- ScheduleTest.c: reactors [main, source, source2, sink], three stop flags, the number of reactors given
-- as three, and reactions [source.0, source2.0, sink.0, sink.1, sink.2]
abbrev pub sizes : ℕ → Sizes
sizes counters = record { counters = counters; reactors = 4; flags = 3; counted = 3; reactions = 5 }

-- one file of schedules: the number of counters and a schedule for each worker
pub record ScheduleSet : Type 0 where
  pub num_counters : ℕ
  pub codes : List (List Inst)

abbrev pub schedule_sets : List ScheduleSet
schedule_sets =
    record { num_counters = Schedules.V1.num_counters; codes = Schedules.V1.static_schedules }
    ∷ record { num_counters = Schedules.V2.num_counters; codes = Schedules.V2.static_schedules }
    ∷ record { num_counters = Schedules.V3.num_counters; codes = Schedules.V3.static_schedules }
    ∷ record { num_counters = Schedules.V4.num_counters; codes = Schedules.V4.static_schedules }
    ∷ record { num_counters = Schedules.V5.num_counters; codes = Schedules.V5.static_schedules }
    ∷ record { num_counters = Schedules.V6.num_counters; codes = Schedules.V6.static_schedules }
    ∷ record { num_counters = Schedules.V7.num_counters; codes = Schedules.V7.static_schedules }
    ∷ record { num_counters = Schedules.V8.num_counters; codes = Schedules.V8.static_schedules }
    ∷ record { num_counters = Schedules.V9.num_counters; codes = Schedules.V9.static_schedules }
    ∷ record { num_counters = Schedules.V10.num_counters; codes = Schedules.V10.static_schedules }
    ∷ []

abbrev passes : ScheduleSet → Bool
passes s = check_codes (sizes s.num_counters) s.codes && codes_forward s.codes

abbrev all_pass : List ScheduleSet → Bool
all_pass [] = true
all_pass (s ∷ ss) = passes s && all_pass ss
