-- ===== src/Fs/Schedules/V4.antt =====
-- schedules/v4.c: the schedule of each worker.
use schedule_test_manual.Base.{ℕ, List, [], ◌∷◌}
use schedule_test_manual.Base.Int.{pos, negsuc}
use schedule_test_manual.Fs.{Inst, inst, adv2, bit, eit, exe, inc2, jmp, sac, stp, wu}

abbrev pub schedule_0 : List Inst
schedule_0 =
    inst bit (pos 9) (negsuc 0)
    ∷ inst exe (pos 0) (negsuc 0)
    ∷ inst inc2 (pos 0) (pos 1)
    ∷ inst exe (pos 1) (negsuc 0)
    ∷ inst inc2 (pos 0) (pos 1)
    ∷ inst adv2 (pos 1) (pos 10000000)
    ∷ inst adv2 (pos 2) (pos 10000000)
    ∷ inst sac (negsuc 0) (negsuc 0)
    ∷ inst jmp (pos 0) (negsuc 0)
    ∷ inst stp (negsuc 0) (negsuc 0)
    ∷ []

abbrev pub schedule_1 : List Inst
schedule_1 =
    inst bit (pos 11) (negsuc 0)
    ∷ inst exe (pos 2) (negsuc 0)
    ∷ inst wu (pos 0) (pos 1)
    ∷ inst eit (pos 3) (negsuc 0)
    ∷ inst wu (pos 0) (pos 2)
    ∷ inst eit (pos 4) (negsuc 0)
    ∷ inst adv2 (pos 3) (pos 5000000)
    ∷ inst exe (pos 2) (negsuc 0)
    ∷ inst adv2 (pos 3) (pos 5000000)
    ∷ inst sac (negsuc 0) (negsuc 0)
    ∷ inst jmp (pos 0) (negsuc 0)
    ∷ inst stp (negsuc 0) (negsuc 0)
    ∷ []

abbrev pub static_schedules : List (List Inst)
static_schedules = schedule_0 ∷ schedule_1 ∷ []

-- the size of `counters`, which start at 0
abbrev pub num_counters : ℕ
num_counters = 1
