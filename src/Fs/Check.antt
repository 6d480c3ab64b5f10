-- ===== src/Fs/Check.antt =====
-- A check on static schedules, which core/threaded/scheduler_FS.c leaves to the compiler.
use schedule_test_manual.Base.{
  ℕ, zero, suc, ◌+◌, ◌<◌, ◌≡◌, Bool, true, false, not, ◌&&◌, ◌||◌, List, [], ◌∷◌, some, length,
  get_elem?, ltb, arith,
}
use schedule_test_manual.Base.Int.{ℤ, pos, negsuc}
use schedule_test_manual.Fs.{
  Opcode, adv, adv2, bit, du, eit, exe, inc, inc2, jmp, sac, stp, wu, Inst,
}

-- the numbers of counters, of reactors, of their stop flags and of reactions, and how many of the
-- reactors are counted by `num_reactor_self_instances`
pub record Sizes : Type 0 where
  pub counters : ℕ
  pub reactors : ℕ
  pub flags : ℕ
  pub counted : ℕ
  pub reactions : ℕ

abbrev pub in_bounds : ℕ → ℤ → Bool
in_bounds size (pos n) = ltb n size
in_bounds size (negsuc n) = false

-- the operand rs1 names something that is there
unfoldable pub check_operand : Sizes → ℕ → Opcode → ℤ → Bool
check_operand z size adv rs1 = in_bounds z.reactors rs1
check_operand z size adv2 rs1 = in_bounds z.reactors rs1
check_operand z size bit rs1 = in_bounds size rs1
check_operand z size du rs1 = true
check_operand z size eit rs1 = in_bounds z.reactions rs1
check_operand z size exe rs1 = in_bounds z.reactions rs1
check_operand z size inc rs1 = in_bounds z.counters rs1
check_operand z size inc2 rs1 = in_bounds z.counters rs1
check_operand z size jmp rs1 = in_bounds size rs1
check_operand z size sac rs1 = true
check_operand z size stp rs1 = true
check_operand z size wu rs1 = in_bounds z.counters rs1

-- whether the instruction may go on to the next line
abbrev pub falls_through : Opcode → Bool
falls_through jmp = false
falls_through stp = false
falls_through _ = true

abbrev pub check_line : Sizes → ℕ → ℕ → Inst → Bool
check_line z size line i =
    check_operand z size i.op i.rs1 && (not (falls_through i.op) || ltb (line + 1) size)

unfoldable pub check_from : Sizes → ℕ → ℕ → List Inst → Bool
unfolding check_operand
check_from z size line [] = true
check_from z size line (i ∷ code) = check_line z size line i && check_from z size (line + 1) code

unfoldable pub check_code : Sizes → List Inst → Bool
unfolding check_from
check_code z code = ltb 0 (length code) && check_from z (length code) 0 code

unfoldable pub check_codes : Sizes → List (List Inst) → Bool
unfolding check_code
check_codes z [] = true
check_codes z (c ∷ cs) = check_code z c && check_codes z cs

check_from-get_elem? :
    (z : Sizes) (size line n : ℕ) (code : List Inst) (i : Inst)
    → check_from z size line code ≡ true
    → get_elem? code n ≡ some i
    → check_line z size (line + n) i ≡ true
unfolding check_from
check_from-get_elem? z size line n [] i h e = cc
check_from-get_elem? z size line zero (j ∷ code) i h e = ground arith
check_from-get_elem? z size line (suc n) (j ∷ code) i h e =
    ground (arith, check_from-get_elem? z size (line + 1) n code i)

pub check_code-get_elem? :
    (z : Sizes) (n : ℕ) (code : List Inst) (i : Inst)
    → check_code z code ≡ true
    → get_elem? code n ≡ some i
    → check_line z (length code) n i ≡ true
unfolding check_code
check_code-get_elem? z n code i h e =
    ground (arith, check_from-get_elem? z (length code) 0 n code i)

pub check_codes-get_elem? :
    (z : Sizes) (n : ℕ) (codes : List (List Inst)) (code : List Inst)
    → check_codes z codes ≡ true
    → get_elem? codes n ≡ some code
    → check_code z code ≡ true
unfolding check_codes
check_codes-get_elem? z n [] code h e = cc
check_codes-get_elem? z zero (c ∷ cs) code h e = ground arith
check_codes-get_elem? z (suc n) (c ∷ cs) code h e =
    ground (arith, check_codes-get_elem? z n cs code)

pub check_code-pos : (z : Sizes) (code : List Inst) → check_code z code ≡ true → 0 + 0 < length code
unfolding check_code
check_code-pos z code h = ground arith
