-- ===== src/Fs/System.antt =====
-- core/threaded/scheduler_FS.c: the workers, one shared access at a time.
use schedule_test_manual.Base.{
  ℕ, ◌+◌, ◌≡◌, true, false, Bool, Option, none, some, List, get_elem?, set, ◌==◌, if◌then◌else◌,
}
use schedule_test_manual.Base.Int.{ℤ, ◌+ℤ◌, ◌*ℤ◌}
use schedule_test_manual.Tag.{tag_compare, fits}
use schedule_test_manual.Fs.{
  Opcode, adv, adv2, bit, du, eit, exe, inc, inc2, jmp, sac, stp, wu, Inst, Status, inactive,
  queued, Sched, Frame, out_of_range, Run, ok, blocked, fault, ◌>>=◌,
}
use schedule_test_manual.Fs.Exec.{
  Effect, execute_adv, execute_bit, execute_du, execute_eit, execute_exe, execute_inc, execute_jmp,
  execute_stp, execute_wu, all_reached, is_tag_after_stop_tag, semaphore_acquire, notify_workers,
  clear_counters,
}

-- Where a worker thread stands: in the loop of lf_sched_get_ready_reaction; in the two branches of
-- _lf_sched_wait_for_work, called by SAC; with a reaction to execute; past the end of its loop.
pub data Place : Type 0 where
  fetching waiting last_idle : Place
  executing : ℕ → Place
  exited : Place

pub record Worker : Type 0 where
  pub pc : ℕ
  pub iteration : ℕ
  pub place : Place

pub record System : Type 0 where
  pub sched : Sched
  pub schedules : List (List Inst)
  pub workers : List Worker

-- The first half of _lf_sched_wait_for_work: count the worker as idle, and choose the branch.
unfoldable pub wait_for_work : Sched → Sched × Place
wait_for_work s =
    let idle = s.number_of_idle_workers + 1 in
    (
      record s { number_of_idle_workers = idle },
      if idle == s.number_of_workers then last_idle else waiting,
    )

-- the result of lf_sched_get_ready_reaction
abbrev pub returned : Option ℕ → Place
returned (some r) = executing r
returned none = exited

-- the test of the loop of lf_sched_get_ready_reaction, after an instruction
abbrev pub leave_or_loop : Sched × Frame → Run (Sched × Worker)
leave_or_loop (s, f) = ok (
  s,
  record {
    pc = f.pc;
    iteration = f.iteration;
    place = if f.exit_loop then returned f.returned_reaction else fetching;
  },
)

-- the instructions that the worker completes in one turn
unfoldable pub execute_simple : Opcode → ℤ → ℤ → ℤ → Sched → Frame → Effect
execute_simple adv now rs1 rs2 s f = execute_adv rs1 rs2 s f
execute_simple adv2 now rs1 rs2 s f = execute_adv rs1 rs2 s f
execute_simple bit now rs1 rs2 s f = execute_bit rs1 rs2 s f
execute_simple du now rs1 rs2 s f = execute_du now rs1 rs2 s f
execute_simple eit now rs1 rs2 s f = execute_eit rs1 rs2 s f
execute_simple exe now rs1 rs2 s f = execute_exe rs1 rs2 s f
execute_simple inc now rs1 rs2 s f = execute_inc rs1 rs2 s f
execute_simple inc2 now rs1 rs2 s f = execute_inc rs1 rs2 s f
execute_simple jmp now rs1 rs2 s f = execute_jmp rs1 rs2 s f
execute_simple sac now rs1 rs2 s f = ok (s, f)
execute_simple stp now rs1 rs2 s f = execute_stp rs1 rs2 s f
execute_simple wu now rs1 rs2 s f = execute_wu rs1 rs2 s f

abbrev pub is_sac : Opcode → Bool
is_sac sac = true
is_sac _ = false

-- execute_inst, and the test of the loop around it. SAC goes on in another turn.
unfoldable pub execute_inst : ℤ → Inst → Sched → Worker → Run (Sched × Worker)
unfolding execute_simple wait_for_work
execute_inst now i s w =
    let f : Frame = record {
      pc = w.pc;
      iteration = w.iteration;
      returned_reaction = none;
      exit_loop = false;
    } in
    if is_sac i.op
    then (let (s', p) = wait_for_work s in ok (s', record w { place = p }))
    else (execute_simple i.op now i.rs1 i.rs2 s f >>= leave_or_loop)

-- lf_sched_done_with_reaction: a queued reaction becomes inactive, any other status stays
abbrev pub finished : Status → Status
finished queued = inactive
finished s = s

-- lf_sched_trigger_reaction: an inactive reaction is queued, any other status stays
abbrev pub triggered : Status → Status
triggered inactive = queued
triggered s = s

-- a reaction out of range changes nothing: the runtime passes pointers to reactions only
abbrev pub update_status : (Status → Status) → ℕ → Sched → Sched
update_status g r s = record s {
  reactions = elim (get_elem? s.reactions r) [
    | some status ↦ set s.reactions r (g status)
    | none ↦ s.reactions
  ];
}

-- One turn of a worker at physical time `now`: an instruction of its schedule, the second half of a
-- wait, or the end of its reaction. A worker that has left its loop takes no turn.
unfoldable pub turn_at : Place → ℤ → List Inst → Sched → Worker → Run (Sched × Worker)
unfolding execute_inst semaphore_acquire notify_workers clear_counters
turn_at fetching now code s w = elim (get_elem? code w.pc) [
  | some i ↦ execute_inst now i s w
  | none ↦ fault out_of_range
]
turn_at waiting now code s w =
    semaphore_acquire s >>= λ s'. ok (s', record w { pc = w.pc + 1; place = fetching })
turn_at last_idle now code s w =
    ok (notify_workers (clear_counters s), record w { pc = w.pc + 1; place = fetching })
turn_at (executing r) now code s w = ok (update_status finished r s, record w { place = fetching })
turn_at exited now code s w = blocked

-- the thread of worker `n` runs: `static_schedules[worker_number]`
unfoldable pub turn : ℤ → ℕ → System → Run System
unfolding turn_at
turn now n y = elim (get_elem? y.workers n) [
  | some w ↦ elim (get_elem? y.schedules n) [
    | some code ↦ turn_at w.place now code y.sched w >>= λ (s, w').
        ok (record y { sched = s; workers = set y.workers n w' })
    | none ↦ fault out_of_range
  ]
  | none ↦ blocked
]

-- What may happen: a turn of a worker, or a reaction that a reaction body or the event queue triggers.
pub data Event : Type 0 where
  runs : ℤ → ℕ → Event
  triggers : ℕ → Event

unfoldable pub perform : Event → System → Run System
unfolding turn
perform (runs now n) y = turn now n y
perform (triggers r) y = ok (record y { sched = update_status triggered r y.sched })

-- The states that interleavings of the events lead to.
pub data Reach (start : System) : System → Type 0 where
  here : Reach start start
  next : {y z : System} → Reach start y → (e : Event) → perform e y ≡ ok z → Reach start z

-- a given sequence of events
unfoldable pub run : List Event → System → Run System
unfolding perform all_reached execute_adv execute_bit execute_du execute_eit execute_exe execute_inc
    execute_jmp execute_stp execute_wu is_tag_after_stop_tag tag_compare fits ◌+ℤ◌ ◌*ℤ◌
run List.[] y = ok y
run (List.◌∷◌ e es) y = perform e y >>= λ z. run es z
