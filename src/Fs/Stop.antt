-- ===== src/Fs/Stop.antt =====
-- reactor_reached_stop_tag of core/threaded/scheduler_FS.c, the stop flags that BIT reads.
pub mod Advance
pub mod Invariant
pub mod Missing
pub mod Start
use schedule_test_manual.Base.{
  ℕ, zero, suc, ◌+◌, ◌<◌, ◌≡◌, ◌≤◌, List, [], ◌∷◌, Bool, true, false, map, get_elem?, set, some,
  none, refl, arith, ◌&&◌, ltb, ◌==◌, map-set, set-map_same, get_elem?-set_inv, inl, inr,
  Bool-cases, Option-cases, replicate, ap, ◌∙◌, sym,
}
use schedule_test_manual.Base.Int.{ℤ, pos, negsuc, ◌+ℤ◌, ◌≤ℤ◌, ltb_ℤ}
use schedule_test_manual.Tag.{Tag, tag_compare, fits}
use schedule_test_manual.Fs.{
  Opcode, adv, adv2, bit, du, eit, exe, inc, inc2, jmp, sac, stp, wu, Inst, Sched, Frame, Run, ok,
  Ensures, Ensures-ok, Ensures-bind, Ensures-intro, Ensures-map, ◌>>=◌, load, load-found,
  add_checked,
}
use schedule_test_manual.Fs.Exec.{
  execute_adv, execute_bit, execute_du, execute_eit, execute_exe, execute_inc, execute_jmp,
  execute_stp, execute_wu, is_tag_after_stop_tag, semaphore_acquire, notify_workers, clear_counters,
  all_reached,
}
use schedule_test_manual.Fs.Induction.{turn-Ensures, Reach-induction}
use schedule_test_manual.Fs.System.{
  Place, fetching, waiting, last_idle, executing, exited, Worker, System, turn_at, turn, perform,
  Event, runs, triggers, Reach, here, next, execute_inst, execute_simple, is_sac, leave_or_loop,
  wait_for_work,
}

-- whether the instruction, if it is ADV or ADV2, advances by a delay that is not negative
abbrev pub forward_op : Opcode → ℤ → Bool
forward_op adv (negsuc n) = false
forward_op adv2 (negsuc n) = false
forward_op _ _ = true

unfoldable pub all_forward : List Inst → Bool
all_forward [] = true
all_forward (i ∷ code) = forward_op i.op i.rs2 && all_forward code

unfoldable pub codes_forward : List (List Inst) → Bool
unfolding all_forward
codes_forward [] = true
codes_forward (c ∷ cs) = all_forward c && codes_forward cs

-- each flag says what the tag of its reactor says, and the tags are those of whole times
pub record IsFlagged (s : Sched) : Type 0 where
  pub flags :
      (i : ℕ) (b : Bool)
      → get_elem? s.reached_stop_tag i ≡ some b
      → (t : Tag) × (get_elem? s.reactor_tags i ≡ some t) × (b ≡ is_tag_after_stop_tag s.stop_tag t)
  pub whole : (i : ℕ) (t : Tag) → get_elem? s.reactor_tags i ≡ some t → t.microstep ≡ 0
