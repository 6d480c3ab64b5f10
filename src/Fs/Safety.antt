-- ===== src/Fs/Safety.antt =====
-- Accesses of the instructions of core/threaded/scheduler_FS.c to the schedule and to the arrays.
pub mod Turn
pub mod Paths
use schedule_test_manual.Base.{
  ℕ, zero, suc, ◌+◌, ◌<◌, ◌≤◌, ◌≡◌, ◌≢◌, Bool, true, false, List, some, none, length, get_elem?,
  set, arith, refl, length-set, get_elem?_of_lt, lt_of_get_elem?, Option, ◌∙◌, sym, length-map,
  get_elem?-set_self, get_elem?-set_ne, inl, inr, ◌==◌, Bool-cases, Option-cases, ◌⊎◌, [], ◌∷◌,
}
use schedule_test_manual.Base.Int.{ℤ, pos, negsuc, ◌+ℤ◌}
use schedule_test_manual.Tag.{Tag}
use schedule_test_manual.Fs.{
  Opcode, adv, adv2, bit, du, eit, exe, inc, inc2, jmp, sac, stp, wu, Inst, Sched, Frame, Run, ok,
  fault, blocked, Fault, out_of_range, flag_out_of_range, overflow, load_flag, ◌>>=◌, load, store,
  add_checked, Status, to_uint32,
}
use schedule_test_manual.Fs.Exec.{
  Effect, all_reached, execute_adv, execute_bit, execute_du, execute_eit, execute_exe, execute_inc,
  execute_jmp, execute_stp, execute_wu, semaphore_acquire, notify_workers, clear_counters,
}
use schedule_test_manual.Fs.System.{
  Place, fetching, waiting, last_idle, executing, exited, Worker, System, turn_at, turn, perform,
  Event, runs, triggers, Reach, here, next, execute_inst, execute_simple, update_status,
}
use schedule_test_manual.Fs.Check.{
  Sizes, in_bounds, check_operand, check_line, check_code, check_codes, check_code-get_elem?,
  check_codes-get_elem?, falls_through,
}

-- the run meets no access out of range, and what it yields satisfies `P`
abbrev pub Safe {ℓ} : {A : Type ℓ} → (A → Type 0) → Run A → Type 0
Safe P (ok a) = P a
Safe P blocked = Unit
Safe P (fault out_of_range) = ⊥
Safe P (fault flag_out_of_range) = Unit
Safe P (fault overflow) = Unit

pub Safe-bind {ℓ κ} :
    {A : Type ℓ} {B : Type κ} (P : A → Type 0) (Q : B → Type 0) (m : Run A) (k : A → Run B)
    → Safe P m
    → ((a : A) → P a → Safe Q (k a))
    → Safe Q (m >>= k)
Safe-bind P Q (ok a) k h step = step a h
Safe-bind P Q blocked k h step = tt
Safe-bind P Q (fault out_of_range) k h step = absurd h
Safe-bind P Q (fault flag_out_of_range) k h step = tt
Safe-bind P Q (fault overflow) k h step = tt

pub load_safe {ℓ} :
    {A : Type ℓ} (xs : List A) (rs : ℤ) (size : ℕ)
    → length xs ≡ size
    → in_bounds size rs ≡ true
    → (a : A) × (load xs rs ≡ ok a)
load_safe xs (pos n) size e h =
    let (a, p) = get_elem?_of_lt xs n (ground arith) in (a, ground arith)
load_safe xs (negsuc n) size e h = cc

length-store {ℓ} : {A : Type ℓ} (xs : List A) (rs : ℤ) (v : A) → length (store xs rs v) ≡ length xs
length-store xs (pos n) v = length-set xs n v
length-store xs (negsuc n) v = refl

-- a stop flag is there or not
load_flag-cases :
    (xs : List Bool) (rs : ℤ)
    → (load_flag xs rs ≡ fault flag_out_of_range) ⊎ ((b : Bool) × (load_flag xs rs ≡ ok b))
load_flag-cases xs (pos n) = elim (Option-cases (get_elem? xs n)) [
  | inl e ↦ inl (ground arith)
  | inr (b, e) ↦ inr (b, ground arith)
]
load_flag-cases xs (negsuc n) = inl refl

-- the loop of BIT stays inside the flags
all_reached-ok :
    (n : ℕ) (flags : List Bool) → n ≤ length flags → (b : Bool) × (all_reached n flags ≡ ok b)
unfolding all_reached
all_reached-ok zero flags le = (true, refl)
all_reached-ok (suc n) [] le = absurd (omega arith)
all_reached-ok (suc n) (true ∷ flags) le = all_reached-ok n flags (omega arith)
all_reached-ok (suc n) (false ∷ flags) le = (false, refl)

-- the arrays of the scheduler have the sizes that the check was made for
pub record HasSizes (z : Sizes) (s : Sched) : Type 0 where
  pub counters : length s.counters ≡ z.counters
  pub reactors : length s.reactor_tags ≡ z.reactors
  pub counted : s.num_reactor_self_instances ≤ length s.reached_stop_tag
  pub reactions : length s.reactions ≡ z.reactions

-- the state after an instruction is inside a schedule of `size` lines
abbrev pub Within : Sizes → ℕ → Sched × Frame → Type 0
Within z size (s, f) = HasSizes z s × (f.pc < size)

module _ (z : Sizes) (size : ℕ) (rs1 rs2 : ℤ) (s : Sched) (f : Frame) (h : HasSizes z s) where
  adv-Safe :
      in_bounds z.reactors rs1 ≡ true
      → f.pc + 1 < size
      → Safe (Within z size) (execute_adv rs1 rs2 s f)
  unfolding execute_adv
  adv-Safe b l =
      let (t, p) = load_safe s.reactor_tags rs1 z.reactors h.reactors b in
      let tag : Tag = record { time = t.time +ℤ rs2; microstep = 0 } in
      ground (
        arith,
        load_flag-cases s.reached_stop_tag rs1,
        length-store s.reactor_tags rs1 tag,
        length-store s.reached_stop_tag rs1 true,
      )

  bit-Safe :
      in_bounds size rs1 ≡ true → f.pc + 1 < size → Safe (Within z size) (execute_bit rs1 rs2 s f)
  unfolding execute_bit
  bit-Safe b l =
      let (stop, p) = all_reached-ok s.num_reactor_self_instances s.reached_stop_tag h.counted in
      ground arith

  du-Safe : (now : ℤ) → f.pc + 1 < size → Safe (Within z size) (execute_du now rs1 rs2 s f)
  unfolding execute_du
  du-Safe now l = ground arith

  eit-Safe :
      in_bounds z.reactions rs1 ≡ true
      → f.pc + 1 < size
      → Safe (Within z size) (execute_eit rs1 rs2 s f)
  unfolding execute_eit
  eit-Safe b l = let (t, p) = load_safe s.reactions rs1 z.reactions h.reactions b in ground arith

  exe-Safe :
      in_bounds z.reactions rs1 ≡ true
      → f.pc + 1 < size
      → Safe (Within z size) (execute_exe rs1 rs2 s f)
  unfolding execute_exe
  exe-Safe b l = let (t, p) = load_safe s.reactions rs1 z.reactions h.reactions b in ground arith

  wu-Safe :
      in_bounds z.counters rs1 ≡ true
      → f.pc + 1 < size
      → Safe (Within z size) (execute_wu rs1 rs2 s f)
  unfolding execute_wu
  wu-Safe b l = let (t, p) = load_safe s.counters rs1 z.counters h.counters b in ground arith

  inc-Safe :
      in_bounds z.counters rs1 ≡ true
      → f.pc + 1 < size
      → Safe (Within z size) (execute_inc rs1 rs2 s f)
  unfolding execute_inc
  inc-Safe b l =
      let (t, p) = load_safe s.counters rs1 z.counters h.counters b in
      ground (arith, length-store s.counters rs1 (to_uint32 (pos t +ℤ rs2)))

  jmp-Safe : in_bounds size rs1 ≡ true → Safe (Within z size) (execute_jmp rs1 rs2 s f)
  unfolding execute_jmp
  jmp-Safe b = ground arith

  stp-Safe : f.pc < size → Safe (Within z size) (execute_stp rs1 rs2 s f)
  unfolding execute_stp
  stp-Safe l = (h, l)

  -- every instruction but SAC
  pub simple-Safe :
      (op : Opcode) (now : ℤ)
      → check_operand z size op rs1 ≡ true
      → (falls_through op ≡ true → f.pc + 1 < size)
      → f.pc < size
      → Safe (Within z size) (execute_simple op now rs1 rs2 s f)
  unfolding execute_simple check_operand
  simple-Safe adv now c l m = adv-Safe c (l refl)
  simple-Safe adv2 now c l m = adv-Safe c (l refl)
  simple-Safe bit now c l m = bit-Safe c (l refl)
  simple-Safe du now c l m = du-Safe now (l refl)
  simple-Safe eit now c l m = eit-Safe c (l refl)
  simple-Safe exe now c l m = exe-Safe c (l refl)
  simple-Safe inc now c l m = inc-Safe c (l refl)
  simple-Safe inc2 now c l m = inc-Safe c (l refl)
  simple-Safe jmp now c l m = jmp-Safe c
  simple-Safe sac now c l m = (h, m)
  simple-Safe stp now c l m = stp-Safe m
  simple-Safe wu now c l m = wu-Safe c (l refl)
