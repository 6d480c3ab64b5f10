-- ===== src/Np/Tests.antt =====
-- Two workers and two levels: reaction 0, of level 0, triggers reaction 1, of level 1.
use mathlib.Core.Path.{subst}
use mathlib.Core.Option.{some-injective}
use schedule_test_manual.Base.{
  ℕ, zero, suc, ◌+◌, ◌≡◌, ◌≤◌, ◌<◌, refl, false, none, some, [], ◌∷◌, arith, inl, get_elem?,
}
use schedule_test_manual.Base.Int.{pos, pos_part, negsuc, ◌+ℤ◌}
use schedule_test_manual.Tag.{Tag}
use schedule_test_manual.Fs.{inactive, queued}
use schedule_test_manual.Np.{
  Reaction, Level, SchedInstance, insert_reaction, trigger_as, trigger_reaction, trigger_all,
  done_as, done_with_reaction, take_at, pop_reaction, distribute_loop, distribute_ready_reactions,
  notify_workers, distribute, round, reset_index,
}
use schedule_test_manual.Np.Workers.{
  System, fetching, out_of_work, waiting, advancing, executing, turn_at, wait_for_work, Reach, here,
  next,
}
use schedule_test_manual.Np.Counts.{is_waiting, total}
use schedule_test_manual.Np.Rows.{AreLevels, IsLevel}
use schedule_test_manual.Np.Moves.{IsDry}
use schedule_test_manual.Np.Balance.{IsBalanced, is_running}
use schedule_test_manual.Np.Init.{lf_sched_init, new_levels, lf_sched_init-IsBalanced}
use schedule_test_manual.Np.Balance.Run.{advancing_alone, waiting_woken}

abbrev tag_at : ℕ → Tag
tag_at t = record { time = pos t; microstep = 0 }

-- at the start, reaction 0 is queued and level 0 is the current one
abbrev level_0 : Level
level_0 = record { row = some 0 ∷ []; index = pos 1 }

abbrev level_1 : Level
level_1 = record { row = none ∷ []; index = pos 0 }

abbrev start_sched : SchedInstance
start_sched = record {
  reactions = record { status = queued; level = 0 } ∷ record { status = inactive; level = 1 } ∷ [];
  levels = level_0 ∷ level_1 ∷ [];
  executing_reactions = 0;
  next_reaction_level = 1;
  max_reaction_level = 1;
  number_of_workers = 2;
  number_of_idle_workers = 0;
  semaphore = 0;
  should_stop = false;
  logical_tag_completed = false;
  current_tag = tag_at 0;
  stop_tag = tag_at 10;
}

abbrev start : System
start = record { sched = start_sched; workers = fetching ∷ fetching ∷ [] }

start-AreLevels : AreLevels start_sched.levels
unfolding AreLevels
start-AreLevels zero l e = subst IsLevel (some-injective _ _ e) (tt, omega arith)
start-AreLevels (suc zero) l e = subst IsLevel (some-injective _ _ e) (tt, omega arith)
start-AreLevels (suc (suc i)) l e = cc

start-IsBalanced : IsBalanced start
unfolding total
start-IsBalanced = is_running (record {
  stop = refl;
  rows = start-AreLevels;
  follows = refl;
  size = refl;
  counted = refl;
  phase = inl (refl, omega arith);
  dry = λ lt. absurd (omega arith);
})

-- worker 0 takes reaction 0, worker 1 finds none and waits, worker 0 executes the reaction, which
-- triggers reaction 1, finds no other, and is the last to be idle
abbrev sched_1 : SchedInstance
sched_1 = record start_sched { levels = record { row = none ∷ []; index = pos 0 } ∷ level_1 ∷ [] }

abbrev sched_2 : SchedInstance
sched_2 = record start_sched {
  levels = record { row = none ∷ []; index = negsuc 0 } ∷ level_1 ∷ [];
}

abbrev sched_3 : SchedInstance
sched_3 = record sched_2 { number_of_idle_workers = 1 }

abbrev sched_4 : SchedInstance
sched_4 = record sched_3 {
  reactions = record { status = inactive; level = 0 } ∷ record { status = queued; level = 1 } ∷ [];
  levels =
      record { row = none ∷ []; index = negsuc 0 }
      ∷ record { row = some 1 ∷ []; index = pos 1 }
      ∷ [];
}

abbrev sched_5 : SchedInstance
sched_5 = record sched_4 {
  levels =
      record { row = none ∷ []; index = negsuc 1 }
      ∷ record { row = some 1 ∷ []; index = pos 1 }
      ∷ [];
}

abbrev sched_6 : SchedInstance
sched_6 = record sched_4 {
  levels =
      record { row = none ∷ []; index = pos 0 } ∷ record { row = some 1 ∷ []; index = pos 1 } ∷ [];
  number_of_idle_workers = 2;
}

abbrev last_idle : System
last_idle = record { sched = sched_6; workers = advancing ∷ waiting ∷ [] }

to_last_idle : Reach start last_idle
unfolding turn_at pop_reaction take_at ◌+ℤ◌ wait_for_work reset_index trigger_all trigger_reaction
    trigger_as insert_reaction done_with_reaction done_as
to_last_idle =
    let s1 = next here 0 (tag_at 0) [] fetching (executing 0) sched_1 refl tt refl in
    let s2 = next s1 1 (tag_at 0) [] fetching out_of_work sched_2 refl tt refl in
    let s3 = next s2 1 (tag_at 0) [] out_of_work waiting sched_3 refl tt refl in
    let s4 =
      next s3 0 (tag_at 0) (1 ∷ []) (executing 0) fetching sched_4 refl (level_of_1, tt) refl in
    let s5 = next s4 0 (tag_at 0) [] fetching out_of_work sched_5 refl tt refl in
    next s5 0 (tag_at 0) [] out_of_work advancing sched_6 refl tt refl
  where
    level_of_1 : (r : Reaction) → get_elem? sched_3.reactions 1 ≡ some r → 1 ≤ r.level
    level_of_1 r e = subst (λ (x : Reaction). 1 ≤ x.level) (some-injective _ _ e) (omega arith)

-- and then goes on to level 1, for which it is enough
goes_on : (t : SchedInstance) × (turn_at advancing (tag_at 1) [] sched_6 ≡ some (t, fetching))
unfolding turn_at round distribute distribute_ready_reactions distribute_loop notify_workers
goes_on = (_, refl)

-- two levels with room for one reaction each
abbrev fresh_sched : SchedInstance
fresh_sched = record start_sched {
  reactions =
      record { status = inactive; level = 0 } ∷ record { status = inactive; level = 1 } ∷ [];
  levels = record { row = none ∷ []; index = pos 0 } ∷ level_1 ∷ [];
}

initialized :
    lf_sched_init none 2 (some (1 ∷ 1 ∷ [])) fresh_sched.reactions (tag_at 0) (tag_at 10)
    ≡ some fresh_sched
unfolding lf_sched_init new_levels
initialized = refl

started : trigger_all (0 ∷ []) fresh_sched ≡ some start_sched
unfolding trigger_all trigger_reaction trigger_as insert_reaction
started = refl

lf_sched_init-IsBalanced_example : IsBalanced last_idle
lf_sched_init-IsBalanced_example =
    lf_sched_init-IsBalanced 2 (1 ∷ 1 ∷ []) fresh_sched.reactions (tag_at 0) (tag_at 10) (0 ∷ [])
      fresh_sched start_sched last_idle (omega arith) (omega arith, (omega arith, tt)) initialized
      started to_last_idle

advancing_alone_example :
    (total is_waiting (advancing ∷ waiting ∷ []) + 1 ≡ 2) × (sched_6.semaphore ≡ 0)
advancing_alone_example = advancing_alone start last_idle 0 start-IsBalanced to_last_idle refl

-- worker 0 runs out of work when worker 1 has been woken but does not yet run
abbrev out_sched : SchedInstance
out_sched = record start_sched {
  levels = record { row = none ∷ []; index = negsuc 0 } ∷ level_1 ∷ [];
  semaphore = 1;
}

abbrev one_out : System
one_out = record { sched = out_sched; workers = out_of_work ∷ waiting ∷ [] }

out-AreLevels : AreLevels out_sched.levels
unfolding AreLevels
out-AreLevels zero l e = subst IsLevel (some-injective _ _ e) (tt, omega arith)
out-AreLevels (suc zero) l e = subst IsLevel (some-injective _ _ e) (tt, omega arith)
out-AreLevels (suc (suc i)) l e = cc

out-IsBalanced : IsBalanced one_out
unfolding total IsDry
out-IsBalanced = is_running (record {
  stop = refl;
  rows = out-AreLevels;
  follows = refl;
  size = refl;
  counted = refl;
  phase = inl (refl, omega arith);
  dry = λ lt l e. subst (λ (x : Level). pos_part x.index ≡ 0) (some-injective _ _ e) refl;
})

abbrev both_wait : System
both_wait = record {
  sched = record out_sched { number_of_idle_workers = 1 };
  workers = waiting ∷ waiting ∷ [];
}

to_both_wait : Reach one_out both_wait
unfolding turn_at wait_for_work
to_both_wait = next here 0 (tag_at 0) [] out_of_work waiting both_wait.sched refl tt refl

waiting_woken_example : 0 < both_wait.sched.semaphore
unfolding total
waiting_woken_example =
    waiting_woken one_out both_wait out-IsBalanced to_both_wait (omega arith) refl
