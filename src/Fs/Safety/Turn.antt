-- ===== src/Fs/Safety/Turn.antt =====
-- Accesses of one turn of a worker of core/threaded/scheduler_FS.c.
use schedule_test_manual.Base.{
  ℕ, ◌+◌, ◌<◌, ◌≡◌, true, false, List, none, length, get_elem?, arith, length-set, get_elem?_of_lt,
  Option-cases, length-map, inl, inr, Bool-cases,
}
use schedule_test_manual.Base.Int.{ℤ}
use schedule_test_manual.Fs.{Inst, Opcode, Sched, Frame, Status}
use schedule_test_manual.Fs.System.{
  Place, fetching, waiting, last_idle, executing, exited, Worker, turn_at, execute_inst,
  execute_simple, update_status, leave_or_loop, is_sac, finished,
}
use schedule_test_manual.Fs.Check.{
  Sizes, check_line, check_code, check_code-get_elem?, falls_through,
}
use schedule_test_manual.Fs.Safety.{Safe, Safe-bind, HasSizes, Within, simple-Safe}

-- a worker that waits in SAC has its program counter still to advance
abbrev pub ahead : Place → ℕ
ahead waiting = 1
ahead last_idle = 1
ahead _ = 0

pub update_status-HasSizes :
    (z : Sizes) (g : Status → Status) (r : ℕ) (s : Sched)
    → HasSizes z s
    → HasSizes z (update_status g r s)
update_status-HasSizes z g r s h = elim (Option-cases (get_elem? s.reactions r)) [
  | inl e ↦ ground arith
  | inr (status, e) ↦ ground (arith, length-set s.reactions r (g status))
]

sac-falls_through : (op : Opcode) → is_sac op ≡ true → falls_through op ≡ true
sac-falls_through op e = ground arith

-- a line that passes the check leaves room for the next one, if it goes on to it
room :
    (z : Sizes) (size line : ℕ) (i : Inst)
    → check_line z size line i ≡ true
    → falls_through i.op ≡ true
    → line + 1 < size
room z size line i c e = ground arith

-- the worker is inside its schedule, and stays there when its wait is over
abbrev pub InCode : Sizes → List Inst → Sched × Worker → Type 0
InCode z code (s, w) = HasSizes z s × (w.pc + ahead w.place < length code)

module _ (z : Sizes) (now : ℤ) (code : List Inst) (s : Sched) (w : Worker) where
  execute_inst-Safe :
      (i : Inst)
      → check_line z (length code) w.pc i ≡ true
      → HasSizes z s
      → w.pc < length code
      → Safe (InCode z code) (execute_inst now i s w)
  unfolding execute_inst
  execute_inst-Safe i c h l =
      let f : Frame = record {
        pc = w.pc;
        iteration = w.iteration;
        returned_reaction = none;
        exit_loop = false;
      } in
      elim (Bool-cases (is_sac i.op)) [
        | inl e ↦ rw e (
          record {
            counters = h.counters;
            reactors = h.reactors;
            counted = h.counted;
            reactions = h.reactions;
          },
          ground (arith, room z (length code) w.pc i c (sac-falls_through i.op e)),
        )
        | inr e ↦ rw e (
            Safe-bind (Within z (length code)) (InCode z code)
              (execute_simple i.op now i.rs1 i.rs2 s f) leave_or_loop
              (simple-Safe z (length code) i.rs1 i.rs2 s f h i.op now (ground arith)
                (room z (length code) w.pc i c) l)
              (λ (s', f') (hs, pc). (hs, ground arith)))
      ]

  pub turn_at-Safe :
      (p : Place)
      → check_code z code ≡ true
      → HasSizes z s
      → w.pc + ahead p < length code
      → Safe (InCode z code) (turn_at p now code s w)
  unfolding turn_at
  turn_at-Safe fetching c h l =
      let (i, e) = get_elem?_of_lt code w.pc (omega arith) in
      let line = check_code-get_elem? z w.pc code i c e in
      rw (e, turn_at) (execute_inst-Safe i line h (omega arith))
  turn_at-Safe waiting c h l = ground arith
  turn_at-Safe last_idle c h l = ground (arith, length-map {B = ℕ} s.counters (λ n. 0))
  turn_at-Safe (executing r) c h l = (update_status-HasSizes z finished r s h, l)
  turn_at-Safe exited c h l = tt
