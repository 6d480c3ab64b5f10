-- ===== src/Fs/Exec.antt =====
-- core/threaded/scheduler_FS.c: the instructions. Each takes the operands, the shared state and the
-- worker's frame; the debug output is left out.
use schedule_test_manual.Base.{
  ℕ, zero, suc, ◌+◌, ◌-◌, Bool, true, false, some, List, [], ◌∷◌, map, ltb, ◌==◌, if◌then◌else◌,
}
use schedule_test_manual.Base.Int.{ℤ, pos, negsuc, ◌*ℤ◌, ltb_ℤ, eqb_ℤ}
use schedule_test_manual.Tag.{Tag, tag_compare, fits}
use schedule_test_manual.Fs.{
  Status, queued, Sched, Frame, overflow, out_of_range, Run, ok, blocked, fault, ◌>>=◌, load,
  load_flag, store, add_checked, to_size, to_uint32,
}

-- the shared state and the frame after an instruction
abbrev pub Effect : Type 0
Effect = Run (Sched × Frame)

-- `*pc += 1`
abbrev pub advance_pc : Frame → Frame
advance_pc f = record f { pc = f.pc + 1 }

-- _lf_is_tag_after_stop_tag
unfoldable pub is_tag_after_stop_tag : Tag → Tag → Bool
is_tag_after_stop_tag stop tag = ltb_ℤ (pos 0) (tag_compare tag stop)

-- the loop of BIT over reactor_reached_stop_tag, for the reactors that are counted
unfoldable pub all_reached : ℕ → List Bool → Run Bool
all_reached zero flags = ok true
all_reached (suc n) [] = fault out_of_range
all_reached (suc n) (b ∷ flags) = elim b [ true ↦ all_reached n flags | false ↦ ok false ]

-- execute_inst_BIT: branch to rs1 if every reactor that is counted has reached the stop tag
unfoldable pub execute_bit : ℤ → ℤ → Sched → Frame → Effect
execute_bit rs1 rs2 s f = all_reached s.num_reactor_self_instances s.reached_stop_tag >>= λ stop.
    if stop then ok (s, record f { pc = to_size rs1 }) else ok (s, advance_pc f)

-- `reaction->status == queued`
abbrev pub is_queued : Status → Bool
is_queued queued = true
is_queued _ = false

-- execute_inst_EIT: return the reaction if it is queued
unfoldable pub execute_eit : ℤ → ℤ → Sched → Frame → Effect
execute_eit rs1 rs2 s f = load s.reactions rs1 >>= λ status.
    if is_queued status
    then ok (s, advance_pc (record f { returned_reaction = some (to_size rs1); exit_loop = true }))
    else ok (s, advance_pc f)

-- execute_inst_EXE: return the reaction
unfoldable pub execute_exe : ℤ → ℤ → Sched → Frame → Effect
execute_exe rs1 rs2 s f = load s.reactions rs1 >>= λ status.
    ok (s, advance_pc (record f { returned_reaction = some (to_size rs1); exit_loop = true }))

-- execute_inst_DU: sleep until physical time `now` reaches the wakeup time
unfoldable pub execute_du : ℤ → ℤ → ℤ → Sched → Frame → Effect
execute_du now rs1 rs2 s f =
    let elapsed = rs1 *ℤ pos (f.iteration + 1) in
    if fits elapsed
    then (add_checked s.physical_start_time elapsed >>= λ wakeup_time.
        if ltb_ℤ now wakeup_time then blocked else ok (s, advance_pc f))
    else fault overflow

-- execute_inst_WU: spin while the counter is below rs2
unfoldable pub execute_wu : ℤ → ℤ → Sched → Frame → Effect
execute_wu rs1 rs2 s f = load s.counters rs1 >>= λ counter.
    if ltb_ℤ (pos counter) rs2 then blocked else ok (s, advance_pc f)

-- execute_inst_ADV, which holds the mutex, and execute_inst_ADV2, which does not: advance the tag of
-- reactor rs1 by rs2
unfoldable pub execute_adv : ℤ → ℤ → Sched → Frame → Effect
execute_adv rs1 rs2 s f = load s.reactor_tags rs1 >>= λ tag. add_checked tag.time rs2 >>= λ time.
    let tag' : Tag = record { time = time; microstep = 0 } in
    let tags = store s.reactor_tags rs1 tag' in
    if is_tag_after_stop_tag s.stop_tag tag'
    then (load_flag s.reached_stop_tag rs1 >>= λ _. ok (
      record s { reactor_tags = tags; reached_stop_tag = store s.reached_stop_tag rs1 true },
      advance_pc f,
    ))
    else ok (record s { reactor_tags = tags }, advance_pc f)

-- execute_inst_JMP: jump to rs1, in a new iteration unless rs2 is -1
unfoldable pub execute_jmp : ℤ → ℤ → Sched → Frame → Effect
execute_jmp rs1 rs2 s f =
    if eqb_ℤ rs2 (negsuc 0)
    then ok (s, record f { pc = to_size rs1 })
    else if ltb (f.iteration + 1) 2147483648
    then ok (s, record f { pc = to_size rs1; iteration = f.iteration + 1 })
    else fault overflow

-- execute_inst_INC, which holds the mutex, and execute_inst_INC2, which does not: add rs2 to counter
-- rs1, a uint32_t
unfoldable pub execute_inc : ℤ → ℤ → Sched → Frame → Effect
execute_inc rs1 rs2 s f = load s.counters rs1 >>= λ counter.
    add_checked (pos counter) rs2 >>= λ sum.
    ok (record s { counters = store s.counters rs1 (to_uint32 sum) }, advance_pc f)

-- execute_inst_STP: leave the loop with no reaction, and stay at the instruction
unfoldable pub execute_stp : ℤ → ℤ → Sched → Frame → Effect
execute_stp rs1 rs2 s f = ok (s, record f { exit_loop = true })

-- lf_semaphore_release and lf_semaphore_acquire on the count of the semaphore
unfoldable pub semaphore_release : ℕ → Sched → Sched
semaphore_release i s = record s { semaphore = s.semaphore + i }

unfoldable pub semaphore_acquire : Sched → Run Sched
semaphore_acquire s =
    if s.semaphore == 0 then blocked else ok (record s { semaphore = s.semaphore - 1 })

-- _lf_sched_notify_workers
unfoldable pub notify_workers : Sched → Sched
unfolding semaphore_release
notify_workers s =
    let workers_to_awaken = s.number_of_idle_workers in
    let s' = record s { number_of_idle_workers = s.number_of_idle_workers - workers_to_awaken } in
    if ltb 1 workers_to_awaken then semaphore_release (workers_to_awaken - 1) s' else s'

-- the loop of _lf_sched_wait_for_work that clears the counters
unfoldable pub clear_counters : Sched → Sched
clear_counters s = record s { counters = map (λ _. 0) s.counters }
