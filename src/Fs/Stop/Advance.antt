-- ===== src/Fs/Stop/Advance.antt =====
-- execute_inst_ADV and execute_inst_ADV2 on the stop flags.
use native.Mathlib.Decide.{ℕ_discrete}
use mathlib.Core.Option.{some-injective}
use schedule_test_manual.Base.{
  List, none, ◌≢◌, get_elem?-set_self, get_elem?-set_ne, lt_of_get_elem?, ℕ, ◌≡◌, Bool, true, false,
  get_elem?, set, some, refl, arith, get_elem?-set_inv, inl, inr, Bool-cases, ap, ◌∙◌, sym,
}
use schedule_test_manual.Base.Int.{ℤ, pos, negsuc, ◌+ℤ◌}
use schedule_test_manual.Tag.{Tag, tag_compare, fits}
use schedule_test_manual.Fs.{
  Sched, Frame, Ensures, Ensures-bind, load, load-found, load_flag, add_checked, ok, fault,
  flag_out_of_range,
}
use schedule_test_manual.Fs.Exec.{execute_adv, is_tag_after_stop_tag}
use schedule_test_manual.Fs.Stop.{IsFlagged}

-- a tag of whole time that is past the stop tag stays past it
after_mono :
    (stop t : Tag) (d : ℕ)
    → t.microstep ≡ 0
    → is_tag_after_stop_tag stop t ≡ true
    → is_tag_after_stop_tag stop (record { time = t.time +ℤ pos d; microstep = 0 }) ≡ true
unfolding is_tag_after_stop_tag tag_compare ◌+ℤ◌
after_mono stop t d m h = ground arith

add_checked-sum : (a b : ℤ) → Ensures (λ c. c ≡ a +ℤ b) (add_checked a b)
add_checked-sum a b = elim (Bool-cases (fits (a +ℤ b))) [ inl e ↦ rw e refl | inr e ↦ rw e tt ]

load_flag-any : (xs : List Bool) (n : ℕ) → Ensures (λ _. Unit {0}) (load_flag xs (pos n))
load_flag-any xs n =
    elim (get_elem? xs n)
      as (λ o.
        Ensures (λ _. Unit {0}) (elim o [ some a ↦ ok a | none ↦ fault flag_out_of_range ])) [
          | some a ↦ tt
          | none ↦ tt
        ]

module _ (n d : ℕ) (s : Sched) (t : Tag) (h : IsFlagged s)
    (e : get_elem? s.reactor_tags n ≡ some t) where
  abbrev advanced : Tag
  advanced = record { time = t.time +ℤ pos d; microstep = 0 }

  abbrev past : Tag → Bool
  past = is_tag_after_stop_tag s.stop_tag

  advanced_whole :
      (i : ℕ) (u : Tag) → get_elem? (set s.reactor_tags n advanced) i ≡ some u → u.microstep ≡ 0
  advanced_whole i u q = elim (get_elem?-set_inv s.reactor_tags n i advanced u q) [
    | inl (p, same) ↦ rw same refl
    | inr (p, old) ↦ h.whole i u old
  ]

  -- the flags that a list gives say what the tags say, after the advance
  abbrev AreExact : List Bool → Type 0
  AreExact flags =
      (i : ℕ) (b : Bool)
      → get_elem? flags i ≡ some b
      → (u : Tag) × (get_elem? (set s.reactor_tags n advanced) i ≡ some u) × (b ≡ past u)

  at_n : get_elem? (set s.reactor_tags n advanced) n ≡ some advanced
  at_n = get_elem?-set_self s.reactor_tags n advanced (lt_of_get_elem? s.reactor_tags n t e)

  elsewhere :
      (i : ℕ) (b : Bool)
      → n ≢ i
      → get_elem? s.reached_stop_tag i ≡ some b
      → (u : Tag) × (get_elem? (set s.reactor_tags n advanced) i ≡ some u) × (b ≡ past u)
  elsewhere i b other q =
      let (u, found, same) = h.flags i b q in
      (u, get_elem?-set_ne s.reactor_tags advanced other ∙ found, same)

  past_flags : past advanced ≡ true → AreExact (set s.reached_stop_tag n true)
  past_flags a i b q = elim (get_elem?-set_inv s.reached_stop_tag n i true b q) [
    | inl (p, same) ↦ (advanced, rw (← p) at_n, same ∙ sym a)
    | inr (p, old) ↦ elsewhere i b p old
  ]

  open_flags : past advanced ≡ false → AreExact s.reached_stop_tag
  open_flags a i b q = elim (ℕ_discrete n i) [
    | yes p ↦
        let (u, found, same) = h.flags i b q in
        let is_t : u ≡ t = some-injective _ _ (sym found ∙ (rw (← p) e)) in
        elim (Bool-cases (past t)) [
          | inl c ↦ absurd (cc (after_mono s.stop_tag t d (h.whole n t e) c))
          | inr c ↦ (advanced, rw (← p) at_n, same ∙ ap past is_t ∙ c ∙ sym a)
        ]
    | no other ↦ elsewhere i b other q
  ]

-- an advance by a delay that is not negative keeps the flags exact
pub adv-IsFlagged :
    (rs1 : ℤ) (d : ℕ) (s : Sched) (f : Frame)
    → IsFlagged s
    → Ensures (λ (s', f'). IsFlagged s') (execute_adv rs1 (pos d) s f)
unfolding execute_adv
adv-IsFlagged (negsuc n) d s f h = tt
adv-IsFlagged (pos n) d s f h =
    Ensures-bind _ _ (load s.reactor_tags (pos n)) _ (load-found s.reactor_tags n) (λ t e.
      Ensures-bind _ _ (add_checked t.time (pos d)) _ (add_checked-sum t.time (pos d)) (λ time q.
        let tag = advanced n d s t h e in
        rw q (elim (Bool-cases (past n d s t h e tag)) [
          | inl a ↦ rw a (
              Ensures-bind (λ _. Unit {0}) _ (load_flag s.reached_stop_tag (pos n)) _
                (load_flag-any s.reached_stop_tag n)
                (λ _ _. record {
                  flags = past_flags n d s t h e a;
                  whole = advanced_whole n d s t h e;
                }))
          | inr a ↦
              rw a (record { flags = open_flags n d s t h e a; whole = advanced_whole n d s t h e })
        ])))
