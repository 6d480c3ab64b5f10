-- ===== src/Fs.antt =====
-- The fully static scheduler: include/core/threaded/scheduler_instructions.h and the parts of
-- _lf_sched_instance_t that core/threaded/scheduler_FS.c works on.
pub mod Exec
pub mod System
pub mod Schedules
pub mod Check
pub mod Induction
pub mod Safety
pub mod Barrier
pub mod Init
mod Tests
pub mod Stop
pub mod Repository
use schedule_test_manual.Base.{
  ℕ, zero, suc, [], ◌∷◌, ◌≡◌, refl, ◌+◌, ◌-◌, ◌%◌, ◌^◌, Bool, Option, none, some, List, get_elem?,
  set, if◌then◌else◌,
}
use mathlib.Core.Path.{subst}
use schedule_test_manual.Base.Int.{ℤ, pos, negsuc, ◌+ℤ◌}
use schedule_test_manual.Tag.{Tag, fits}

-- opcode_t
pub data Opcode : Type 0 where
  adv adv2 bit du eit exe inc inc2 jmp sac stp wu : Opcode

-- inst_t
pub record Inst : Type 0 where
  pub op : Opcode
  pub rs1 : ℤ
  pub rs2 : ℤ

abbrev pub inst : Opcode → ℤ → ℤ → Inst
inst op rs1 rs2 = record { op = op; rs1 = rs1; rs2 = rs2 }

-- reaction_status_t
pub data Status : Type 0 where
  inactive queued running : Status

-- The shared part of the scheduler: fields of _lf_sched_instance_t, the tags of the reactors' self
-- structs, the status of the reactions, and the global stop tag and physical start time.
pub record Sched : Type 0 where
  pub number_of_workers : ℕ
  pub number_of_idle_workers : ℕ
  pub semaphore : ℕ
  pub counters : List ℕ
  pub reactor_tags : List Tag
  pub reached_stop_tag : List Bool
  pub num_reactor_self_instances : ℕ
  pub reactions : List Status
  pub stop_tag : Tag
  pub physical_start_time : ℤ

-- What lf_sched_get_ready_reaction keeps for one worker: its program counter and its iteration
-- (both outlive the call), the reaction to return, and whether the loop ends.
pub record Frame : Type 0 where
  pub pc : ℕ
  pub iteration : ℕ
  pub returned_reaction : Option ℕ
  pub exit_loop : Bool

-- undefined behaviour that an instruction may run into; an access to the stop flags that ADV makes is
-- told apart
pub data Fault : Type 0 where
  out_of_range flag_out_of_range overflow : Fault

-- How one turn of a worker ends: with a result, with the worker still blocked, or in a fault.
pub data Run {ℓ} (A : Type ℓ) : Type ℓ where
  ok : A → Run A
  blocked : Run A
  fault : Fault → Run A

infixl 5 ◌>>=◌
abbrev pub ◌>>=◌ {ℓ κ} : {A : Type ℓ} {B : Type κ} → Run A → (A → Run B) → Run B
ok a >>= f = f a
blocked >>= f = blocked
fault e >>= f = fault e

-- `a[rs]`, where the index is a signed operand
abbrev pub load {ℓ} : {A : Type ℓ} → List A → ℤ → Run A
load xs (pos n) = elim (get_elem? xs n) [ some a ↦ ok a | none ↦ fault out_of_range ]
load xs (negsuc n) = fault out_of_range

-- `reactor_reached_stop_tag[rs]`, for ADV
abbrev pub load_flag : List Bool → ℤ → Run Bool
load_flag xs (pos n) = elim (get_elem? xs n) [ some a ↦ ok a | none ↦ fault flag_out_of_range ]
load_flag xs (negsuc n) = fault flag_out_of_range

-- `a[rs] = v`, after the same element has been loaded
abbrev pub store {ℓ} : {A : Type ℓ} → List A → ℤ → A → List A
store xs (pos n) v = set xs n v
store xs (negsuc n) v = xs

-- a sum of two int64_t
abbrev pub add_checked : ℤ → ℤ → Run ℤ
add_checked a b = if fits (a +ℤ b) then ok (a +ℤ b) else fault overflow

-- the conversions of an int64_t to size_t and to uint32_t
abbrev pub to_size : ℤ → ℕ
to_size (pos n) = n
to_size (negsuc n) = 2 ^ 64 - n - 1

abbrev pub to_uint32 : ℤ → ℕ
to_uint32 (pos n) = n % 2 ^ 32
to_uint32 (negsuc n) = 2 ^ 32 - n % 2 ^ 32 - 1

-- what holds of the result, if there is one
abbrev pub Ensures {ℓ κ} : {A : Type ℓ} → (A → Type κ) → Run A → Type κ
Ensures P (ok a) = P a
Ensures P blocked = Unit
Ensures P (fault e) = Unit

pub Ensures-intro {ℓ κ} :
    {A : Type ℓ} (P : A → Type κ) (m : Run A) → ((a : A) → m ≡ ok a → P a) → Ensures P m
Ensures-intro P (ok a) h = h a refl
Ensures-intro P blocked h = tt
Ensures-intro P (fault e) h = tt

pub Ensures-ok {ℓ κ} :
    {A : Type ℓ} (P : A → Type κ) (m : Run A) {a : A} → Ensures P m → m ≡ ok a → P a
Ensures-ok P m h e = subst (Ensures P) e h

pub Ensures-bind {ℓ κ μ ν} :
    {A : Type ℓ} {B : Type κ} (P : A → Type μ) (Q : B → Type ν) (m : Run A) (k : A → Run B)
    → Ensures P m
    → ((a : A) → P a → Ensures Q (k a))
    → Ensures Q (m >>= k)
Ensures-bind P Q (ok a) k h step = step a h
Ensures-bind P Q blocked k h step = tt
Ensures-bind P Q (fault e) k h step = tt

pub Ensures-map {ℓ μ ν} :
    {A : Type ℓ} (P : A → Type μ) (Q : A → Type ν) (m : Run A)
    → Ensures P m
    → ((a : A) → P a → Q a)
    → Ensures Q m
Ensures-map P Q (ok a) h step = step a h
Ensures-map P Q blocked h step = tt
Ensures-map P Q (fault e) h step = tt

-- what a load yields
pub load-found {ℓ} :
    {A : Type ℓ} (xs : List A) (n : ℕ) → Ensures (λ a. get_elem? xs n ≡ some a) (load xs (pos n))
load-found [] n = tt
load-found (x ∷ xs) zero = refl
load-found (x ∷ xs) (suc n) = load-found xs n
