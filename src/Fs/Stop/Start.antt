-- ===== src/Fs/Stop/Start.antt =====
-- The stop flags in the state in which the workers start.
use mathlib.Core.Option.{some-injective}
use schedule_test_manual.Base.{
  [], ◌∷◌, ◌<◌, ◌≤◌, ◌∙◌, length, length-replicate, get_elem?, some, ℕ, zero, suc, ◌≡◌, List, true,
  false, replicate, refl, sym, arith,
}
use schedule_test_manual.Base.Int.{ℤ, pos, ◌≤ℤ◌}
use schedule_test_manual.Tag.{Tag, tag_compare}
use schedule_test_manual.Fs.{Inst}
use schedule_test_manual.Fs.Exec.{is_tag_after_stop_tag}
use schedule_test_manual.Fs.Check.{Sizes}
use schedule_test_manual.Fs.Init.{init, start_tags, get_elem?-replicate}
use schedule_test_manual.Fs.Stop.{codes_forward}
use schedule_test_manual.Fs.Stop.Invariant.{Flagged}

-- the tags that the workers start with: the start time, as far as the reactors are counted
start_tags-started :
    (n : ℕ) (start : Tag) (tags : List Tag) (i : ℕ)
    → i < n
    → i < length tags
    → get_elem? (start_tags n start tags) i ≡ some start
unfolding start_tags
start_tags-started zero start tags i lt le = absurd (omega arith)
start_tags-started (suc n) start [] i lt le = absurd (omega arith)
start_tags-started (suc n) start (tag ∷ tags) zero lt le = refl
start_tags-started (suc n) start (tag ∷ tags) (suc i) lt le =
    start_tags-started n start tags i (omega arith) (omega arith)

start_tags-whole :
    (n : ℕ) (start : Tag) (tags : List Tag)
    → start.microstep ≡ 0
    → ((i : ℕ) (t : Tag) → get_elem? tags i ≡ some t → t.microstep ≡ 0)
    → (i : ℕ) (t : Tag) → get_elem? (start_tags n start tags) i ≡ some t
    → t.microstep ≡ 0
unfolding start_tags
start_tags-whole zero start tags whole old i t e = old i t e
start_tags-whole (suc n) start [] whole old i t e = old i t e
start_tags-whole (suc n) start (tag ∷ tags) whole old zero t e =
    let same : start ≡ t = some-injective _ _ e in rw (← same) whole
start_tags-whole (suc n) start (tag ∷ tags) whole old (suc i) t e =
    start_tags-whole n start tags whole (λ j u q. old (suc j) u q) i t e

-- At the start the stop flags are exact, if there are no more of them than reactors that are counted,
-- the start time is not past the stop tag, and no ADV or ADV2 goes back in time.
pub init-Flagged :
    (z : Sizes) (schedules : List (List Inst)) (n : ℕ) (start physical : ℤ) (stop : Tag)
    → codes_forward schedules ≡ true
    → start ≤ℤ stop.time
    → z.flags ≤ z.counted
    → z.flags ≤ z.reactors
    → Flagged (init z schedules n start physical stop)
unfolding init is_tag_after_stop_tag tag_compare
init-Flagged z schedules n start physical stop forward early counted there =
    let first : Tag = record { time = start; microstep = 0 } in
    let unset : Tag = record { time = pos 0; microstep = 0 } in
    let open' : is_tag_after_stop_tag stop first ≡ false = ground arith in
    let size = length-replicate z.reactors unset in
    (
      forward,
      record {
        flags = λ i b e.
            let (same, lt) = get_elem?-replicate z.flags i false b e in
            (
              first,
              start_tags-started z.counted first (replicate z.reactors unset) i (omega arith)
                  (omega arith),
              same ∙ sym open',
            );
        whole =
            start_tags-whole z.counted first (replicate z.reactors unset) refl
              (λ i t e. let same = (get_elem?-replicate z.reactors i unset t e).0 in rw same refl);
      },
    )
