-- ===== src/Fs/Stop/Invariant.antt =====
-- The stop flags in every reachable state, and BIT.
use mathlib.Core.Option.{some-injective}
use schedule_test_manual.Base.{
  length, ◌<◌, ◌≤◌, ap, sym, ◌∙◌, get_elem?_of_lt, ℕ, zero, suc, ◌+◌, ◌≡◌, List, [], ◌∷◌, Bool,
  true, false, get_elem?, some, none, refl, arith, ltb, ◌==◌, inl, inr, Bool-cases, Option-cases,
}
use schedule_test_manual.Base.Int.{ℤ, pos, negsuc}
use schedule_test_manual.Tag.{Tag, tag_compare}
use schedule_test_manual.Fs.{
  Opcode, adv, adv2, Inst, Sched, Frame, ok, Ensures, Ensures-bind, Ensures-intro, Ensures-map,
  to_size,
}
use schedule_test_manual.Fs.Exec.{
  execute_bit, execute_du, execute_eit, execute_exe, execute_inc, execute_jmp, execute_stp,
  execute_wu, is_tag_after_stop_tag, all_reached,
}
use schedule_test_manual.Fs.Induction.{turn-Ensures, Reach-induction}
use schedule_test_manual.Fs.System.{
  Place, fetching, waiting, last_idle, executing, exited, Worker, System, turn_at, turn, Reach,
  execute_inst, execute_simple, is_sac, leave_or_loop,
}
use schedule_test_manual.Fs.Stop.{forward_op, all_forward, codes_forward, IsFlagged}
use schedule_test_manual.Fs.Stop.Advance.{adv-IsFlagged}
use schedule_test_manual.Tag.Order.{Before}

-- the fields that the flags are about are the same
record SameTags (s t : Sched) : Type 0 where
  tags : t.reactor_tags ≡ s.reactor_tags
  reached : t.reached_stop_tag ≡ s.reached_stop_tag
  stop : t.stop_tag ≡ s.stop_tag

SameTags-IsFlagged : (s t : Sched) → SameTags s t → IsFlagged s → IsFlagged t
SameTags-IsFlagged s t same h = record {
  flags = rw (same.tags, same.reached, same.stop) h.flags;
  whole = rw same.tags h.whole;
}

abbrev is_adv : Opcode → Bool
is_adv adv = true
is_adv adv2 = true
is_adv _ = false

-- only ADV and ADV2 touch the tags
execute_simple-SameTags :
    (op : Opcode) (now rs1 rs2 : ℤ) (s s' : Sched) (f f' : Frame)
    → is_adv op ≡ false
    → execute_simple op now rs1 rs2 s f ≡ ok (s', f')
    → SameTags s s'
unfolding execute_simple execute_bit execute_du execute_eit execute_exe execute_inc execute_jmp
    execute_stp execute_wu
execute_simple-SameTags adv now rs1 rs2 s s' f f' a e = absurd (cc)
execute_simple-SameTags adv2 now rs1 rs2 s s' f f' a e = absurd (cc)
execute_simple-SameTags _ now rs1 rs2 s s' f f' a e = ground arith

module _ (now rs1 : ℤ) (s : Sched) (f : Frame) (h : IsFlagged s) where
  simple-IsFlagged :
      (op : Opcode) (rs2 : ℤ)
      → forward_op op rs2 ≡ true
      → Ensures (λ (s', f'). IsFlagged s') (execute_simple op now rs1 rs2 s f)
  unfolding execute_simple
  simple-IsFlagged adv (pos d) g = adv-IsFlagged rs1 d s f h
  simple-IsFlagged adv (negsuc d) g = absurd (cc)
  simple-IsFlagged adv2 (pos d) g = adv-IsFlagged rs1 d s f h
  simple-IsFlagged adv2 (negsuc d) g = absurd (cc)
  simple-IsFlagged op rs2 g =
      Ensures-intro (λ (s', f'). IsFlagged s') (execute_simple op now rs1 rs2 s f)
        (λ (s', f') e.
          SameTags-IsFlagged s s' (execute_simple-SameTags op now rs1 rs2 s s' f f' refl e) h)

all_forward-get_elem? :
    (code : List Inst) (n : ℕ) (i : Inst)
    → all_forward code ≡ true
    → get_elem? code n ≡ some i
    → forward_op i.op i.rs2 ≡ true
unfolding all_forward
all_forward-get_elem? [] n i h e = absurd (cc)
all_forward-get_elem? (j ∷ code) zero i h e = ground arith
all_forward-get_elem? (j ∷ code) (suc n) i h e = ground (arith, all_forward-get_elem? code n i)

codes_forward-get_elem? :
    (codes : List (List Inst)) (n : ℕ) (code : List Inst)
    → codes_forward codes ≡ true
    → get_elem? codes n ≡ some code
    → all_forward code ≡ true
unfolding codes_forward
codes_forward-get_elem? [] n code h e = absurd (cc)
codes_forward-get_elem? (c ∷ cs) zero code h e = ground arith
codes_forward-get_elem? (c ∷ cs) (suc n) code h e =
    ground (arith, codes_forward-get_elem? cs n code)

turn_at-IsFlagged :
    (p : Place) (now : ℤ) (code : List Inst) (s : Sched) (w : Worker)
    → all_forward code ≡ true
    → IsFlagged s
    → Ensures (λ (s', w'). IsFlagged s') (turn_at p now code s w)
unfolding turn_at execute_inst
turn_at-IsFlagged fetching now code s w g h = elim (Option-cases (get_elem? code w.pc)) [
  | inl c ↦ rw (c, turn_at) tt
  | inr (i, c) ↦ elim (Bool-cases (is_sac i.op)) [
    | inl b ↦ rw (c, b, turn_at) (record { flags = h.flags; whole = h.whole })
    | inr b ↦
        let f : Frame = record {
          pc = w.pc;
          iteration = w.iteration;
          returned_reaction = none;
          exit_loop = false;
        } in
        rw (c, b, turn_at)
          (Ensures-bind (λ (s', f'). IsFlagged s') (λ (s', w'). IsFlagged s')
            (execute_simple i.op now i.rs1 i.rs2 s f) leave_or_loop
            (simple-IsFlagged now i.rs1 s f h i.op i.rs2 (all_forward-get_elem? code w.pc i g c))
            (λ _ h'. h'))
  ]
]
turn_at-IsFlagged waiting now code s w g h = elim (Bool-cases (s.semaphore == 0)) [
  | inl c ↦ rw (c, turn_at) tt
  | inr c ↦ rw (c, turn_at) (record { flags = h.flags; whole = h.whole })
]
turn_at-IsFlagged last_idle now code s w g h = elim (Bool-cases (ltb 1 s.number_of_idle_workers)) [
  | inl c ↦ rw (c, turn_at) (record { flags = h.flags; whole = h.whole })
  | inr c ↦ rw (c, turn_at) (record { flags = h.flags; whole = h.whole })
]
turn_at-IsFlagged (executing r) now code s w g h = record { flags = h.flags; whole = h.whole }
turn_at-IsFlagged exited now code s w g h = tt

abbrev pub Flagged : System → Type 0
Flagged y = (codes_forward y.schedules ≡ true) × IsFlagged y.sched

turn-Flagged : (now : ℤ) (n : ℕ) (y : System) → Flagged y → Ensures Flagged (turn now n y)
turn-Flagged now n y (g, h) = turn-Ensures Flagged now n y (λ w code e d.
    Ensures-map (λ (s', w'). IsFlagged s')
      (λ (s', w'). (codes_forward y.schedules ≡ true) × IsFlagged s')
      (turn_at w.place now code y.sched w)
      (turn_at-IsFlagged w.place now code y.sched w (codes_forward-get_elem? y.schedules n code g d)
        h)
      (λ _ h'. (g, h')))

-- If no ADV or ADV2 goes back in time and the stop flags are exact at the start, then in every
-- reachable state each flag is set exactly when the tag of its reactor is past the stop tag.
pub Reach-Flagged : {x y : System} → Flagged x → Reach x y → Flagged y
Reach-Flagged f r =
    Reach-induction Flagged turn-Flagged
      (λ t y (g, h). (g, record { flags = h.flags; whole = h.whole })) f r

past_iff :
    (stop t : Tag)
    → (Before stop t → is_tag_after_stop_tag stop t ≡ true)
      × (¬ Before stop t → is_tag_after_stop_tag stop t ≡ false)
unfolding is_tag_after_stop_tag tag_compare
past_iff stop t = ground arith

-- the loop of BIT, when the flags are exact
all_reached-true :
    (n : ℕ) (flags : List Bool)
    → n ≤ length flags
    → ((i : ℕ) (b : Bool) → i < n → get_elem? flags i ≡ some b → b ≡ true)
    → all_reached n flags ≡ ok true
unfolding all_reached
all_reached-true zero flags le all = refl
all_reached-true (suc n) [] le all = absurd (omega arith)
all_reached-true (suc n) (b ∷ flags) le all =
    let first : b ≡ true = all 0 b (omega arith) refl in
    rw first (all_reached-true n flags (omega arith) (λ i c lt e. all (suc i) c (omega arith) e))

all_reached-false :
    (n i : ℕ) (flags : List Bool)
    → n ≤ length flags
    → i < n
    → get_elem? flags i ≡ some false
    → all_reached n flags ≡ ok false
unfolding all_reached
all_reached-false zero i flags le lt e = absurd (omega arith)
all_reached-false (suc n) i [] le lt e = absurd (omega arith)
all_reached-false (suc n) zero (b ∷ flags) le lt e =
    let first : b ≡ false = some-injective _ _ e in rw first refl
all_reached-false (suc n) (suc i) (false ∷ flags) le lt e = refl
all_reached-false (suc n) (suc i) (true ∷ flags) le lt e =
    all_reached-false n i flags (omega arith) (omega arith) e

-- When there are flags for all `num_reactor_self_instances` reactors and the flags are exact, BIT
-- branches to its operand if the tags of that many reactors, the first ones, are past the stop tag, and
-- goes on to the next line if there is one among them whose tag is not; it looks at no further reactor.
pub bit_exact :
    (rs1 rs2 : ℤ) (s : Sched) (f : Frame)
    → IsFlagged s
    → s.num_reactor_self_instances ≤ length s.reached_stop_tag
    → (((i : ℕ) (t : Tag)
          → i < s.num_reactor_self_instances
          → get_elem? s.reactor_tags i ≡ some t
          → Before s.stop_tag t)
        → execute_bit rs1 rs2 s f ≡ ok (s, record f { pc = to_size rs1 }))
      × ((i : ℕ) (t : Tag)
          → i < s.num_reactor_self_instances
          → get_elem? s.reactor_tags i ≡ some t
          → ¬ Before s.stop_tag t
          → execute_bit rs1 rs2 s f ≡ ok (s, record f { pc = f.pc + 1 }))
unfolding execute_bit
bit_exact rs1 rs2 s f h le = (
  λ all.
      let every = all_reached-true s.num_reactor_self_instances s.reached_stop_tag le (λ i b lt e.
        let (t, found, same) = h.flags i b e in
        same ∙ (past_iff s.stop_tag t).0 (all i t lt found)) in
      rw every refl,
  λ i t lt e out.
      let (b, flag) = get_elem?_of_lt s.reached_stop_tag i (omega arith) in
      let (u, found, same) = h.flags i b flag in
      let is_t : u ≡ t = some-injective _ _ (sym found ∙ e) in
      let open' : b ≡ false =
        same ∙ ap (is_tag_after_stop_tag s.stop_tag) is_t ∙ (past_iff s.stop_tag t).1 out in
      let some_open =
        all_reached-false s.num_reactor_self_instances i s.reached_stop_tag le lt
          (flag ∙ ap some open') in
      rw some_open refl,
)
