-- ===== src/Np/Advance/Round.antt =====
-- core/threaded/scheduler_sync_tag_advance.c and scheduler_NP.c: a round of the loop.
use mathlib.Core.Path.{subst}
use mathlib.Core.Option.{some-injective}
use schedule_test_manual.Base.{
  ℕ, suc, ◌+◌, ◌≡◌, ◌<◌, refl, ◌∙◌, Bool, true, Option, some, List, ◌==◌, inl, inr, arith,
  Bool-cases, if_true, if_false,
}
use schedule_test_manual.Net.{◌>>=◌}
use schedule_test_manual.Rti.{>>=-eq-some}
use schedule_test_manual.Tag.{Tag}
use schedule_test_manual.Np.{
  SchedInstance, signal_stop, should_stop_locked, advance_tag_locked, distribute, round,
}
use schedule_test_manual.Np.Rows.{AreLevels}
use schedule_test_manual.Np.Effects.{trigger_all-Unmoved}
use schedule_test_manual.Np.Advance.{Outcome, woken, ended, held}
use schedule_test_manual.Np.Advance.Search.{distribute-Outcome}

-- the counters of the state that a round starts from
record SameCounters (s m : SchedInstance) : Type 0 where
  workers : m.number_of_workers ≡ s.number_of_workers
  idle : m.number_of_idle_workers ≡ s.number_of_idle_workers
  permits : m.semaphore ≡ s.semaphore
  stop : m.should_stop ≡ s.should_stop

Outcome-from : (s m t : SchedInstance) (b : Bool) → SameCounters s m → Outcome m b t → Outcome s b t
Outcome-from s m t b c (woken w) = woken (record {
  rows = w.rows;
  next = w.next;
  workers = w.workers ∙ c.workers;
  balance = (let p = c.idle in let q = c.permits in let z = w.balance in omega arith);
  fewer = (let p = c.idle in let z = w.fewer in omega arith);
  stop = w.stop ∙ c.stop;
})
Outcome-from s m t b c (ended w) = ended (record {
  workers = w.workers ∙ c.workers;
  permits = (let p = c.workers in let q = c.permits in let z = w.permits in omega arith);
  stop = w.stop;
})
Outcome-from s m t b c (held k) = held (record {
  rows = k.rows;
  next = k.next;
  workers = k.workers ∙ c.workers;
  idle = k.idle ∙ c.idle;
  permits = k.permits ∙ c.permits;
  stop = k.stop ∙ c.stop;
})

-- the tag is advanced, and its reactions are distributed
advance-Outcome :
    (tag : Tag) (rs : List ℕ) (s t : SchedInstance) (b : Bool)
    → (advance_tag_locked tag rs s >>= distribute) ≡ some (b, t)
    → AreLevels s.levels
    → s.next_reaction_level ≡ 0
    → 0 < s.number_of_idle_workers
    → Outcome s b t
unfolding advance_tag_locked
advance-Outcome tag rs s t b e h nx idle =
    let (m, go, e1) = >>=-eq-some (advance_tag_locked tag rs s) _ e in
    let u = trigger_all-Unmoved rs _ m go h in
    let c : SameCounters s m = record {
      workers = u.workers;
      idle = u.idle;
      permits = u.permits;
      stop = u.stop;
    } in
    let same = u.idle in
    let next = u.next in
    Outcome-from s m t b c (distribute-Outcome m t b e1 u.rows (inl (omega arith)) (omega arith))

pub round-Outcome :
    (tag : Tag) (rs : List ℕ) (s t : SchedInstance) (b : Bool)
    → round tag rs s ≡ some (b, t)
    → AreLevels s.levels
    → s.next_reaction_level ≡ suc s.executing_reactions
    → 0 < s.number_of_idle_workers
    → Outcome s b t
unfolding round signal_stop
round-Outcome tag rs s t b e h nx idle =
    elim (Bool-cases (s.next_reaction_level == s.max_reaction_level + 1)) [
      | inr z ↦ distribute-Outcome s t b (subst IsSame (if_false _ _ _ z) e) h (inr nx) idle
      | inl y ↦
          (let e1 = subst IsSame (if_true _ _ _ y) e in
            elim (Bool-cases (should_stop_locked start)) [
              | inl y2 ↦
                  (let e2 = subst IsSame (if_true _ _ _ y2) e1 in
                    let o : Outcome s true (signal_stop start) =
                      ended (record { workers = refl; permits = refl; stop = refl }) in
                    subst To (some-injective _ _ e2) o)
              | inr z2 ↦ Outcome-from s start t b same (
                  advance-Outcome tag rs start t b (subst IsSame (if_false _ _ _ z2) e1) h refl
                    idle)
            ])
    ]
  where
    IsSame : Option (Bool × SchedInstance) → Type 0
    IsSame m = m ≡ some (b, t)

    To : Bool × SchedInstance → Type 0
    To z = Outcome s z.0 z.1

    start : SchedInstance
    start = record s { next_reaction_level = 0 }

    same : SameCounters s start
    same = record { workers = refl; idle = refl; permits = refl; stop = refl }
