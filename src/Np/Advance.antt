-- ===== src/Np/Advance.antt =====
-- core/threaded/scheduler_sync_tag_advance.c and scheduler_NP.c: how a round of the loop that
-- advances the tag can end, and the waking of idle workers.
pub mod Round
pub mod Search
use mathlib.Core.Path.{subst}
use mathlib.Core.Option.{some-injective}
use schedule_test_manual.Base.{
  ℕ, zero, suc, ◌+◌, ◌-◌, ◌%◌, ◌≡◌, ◌≤◌, ◌<◌, refl, sym, ap, ◌∙◌, ◌⊎◌, Bool, true, false, Option,
  none, some, List, ◌==◌, if◌then◌else◌, get_elem?, inl, inr, arith, Bool-cases, ltb, if_true,
  if_false,
}
use schedule_test_manual.Base.Int.{ℤ, pos, negsuc, pos_part}
use schedule_test_manual.Net.{◌>>=◌, word64}
use schedule_test_manual.Rti.{>>=-eq-some}
use schedule_test_manual.Tag.{Tag}
use schedule_test_manual.Np.{
  Level, SchedInstance, before, lf_min, distribute_loop, distribute_ready_reactions, notify_workers,
  signal_stop, should_stop_locked, advance_tag_locked, distribute, round,
}
use schedule_test_manual.Np.Rows.{Filled-le, Filled-head, AreLevels}
use schedule_test_manual.Np.Effects.{trigger_all-Unmoved}
use schedule_test_manual.Np.Moves.{before_eq}

-- the counters are the same, and the level to look at next follows the current one
pub record Held (s t : SchedInstance) : Type 0 where
  pub rows : AreLevels t.levels
  pub next : t.next_reaction_level ≡ suc t.executing_reactions
  pub workers : t.number_of_workers ≡ s.number_of_workers
  pub idle : t.number_of_idle_workers ≡ s.number_of_idle_workers
  pub permits : t.semaphore ≡ s.semaphore
  pub stop : t.should_stop ≡ s.should_stop

-- idle workers are woken: each but the one that wakes them gets a permit
pub record Woken (s t : SchedInstance) : Type 0 where
  pub rows : AreLevels t.levels
  pub next : t.next_reaction_level ≡ suc t.executing_reactions
  pub workers : t.number_of_workers ≡ s.number_of_workers
  pub balance : t.number_of_idle_workers + t.semaphore + 1 ≡ s.number_of_idle_workers + s.semaphore
  pub fewer : t.number_of_idle_workers < s.number_of_idle_workers
  pub stop : t.should_stop ≡ s.should_stop

pub record Ended (s t : SchedInstance) : Type 0 where
  pub workers : t.number_of_workers ≡ s.number_of_workers
  pub permits : t.semaphore ≡ s.semaphore + (s.number_of_workers - 1)
  pub stop : t.should_stop ≡ true

-- how a round ends
pub data Outcome (s : SchedInstance) : Bool → SchedInstance → Type 0 where
  woken : {t : SchedInstance} → Woken s t → Outcome s true t
  ended : {t : SchedInstance} → Ended s t → Outcome s true t
  held : {t : SchedInstance} → Held s t → Outcome s false t

ltb_le : (a n : ℕ) → ltb a n ≡ false → n ≤ a
ltb_le a n e = ground arith

lf_min_lem :
    (a : ℕ) (x : ℤ)
    → 0 < pos_part x
    → pos_part x < 2147483648
    → 0 < a
    → (0 < lf_min a x) × (lf_min a x ≤ a)
lf_min_lem a (negsuc n) p q r = absurd (omega arith)
lf_min_lem a (pos n) p q r =
    let small : n % word64 ≡ n = omega arith in
    elim (Bool-cases (ltb a (n % word64))) [
      | inl e ↦ rw e (r, omega arith)
      | inr e ↦
          rw (e, small) (p, (let q : ltb a n ≡ false = sym (ap (ltb a) small) ∙ e in ltb_le a n q))
    ]

pub notify_workers-Woken :
    (s t : SchedInstance) (l : Level)
    → notify_workers s ≡ some t
    → AreLevels s.levels
    → s.next_reaction_level ≡ suc s.executing_reactions
    → get_elem? s.levels s.executing_reactions ≡ some l
    → 0 < pos_part l.index
    → 0 < s.number_of_idle_workers
    → Woken s t
unfolding notify_workers AreLevels
notify_workers-Woken s t l e h nx full some' idle =
    let (current, b, e1) = >>=-eq-some (before s.next_reaction_level) _ e in
    let (l', found, e2) = >>=-eq-some (get_elem? s.levels current) _ e1 in
    let at = before_eq s.next_reaction_level current s.executing_reactions b nx in
    let same : l' ≡ l =
      some-injective _ _ (sym found ∙ ap (λ (k : ℕ). get_elem? s.levels k) at ∙ full) in
    let (fills, small) = h s.executing_reactions l full in
    let part : pos_part l'.index ≡ pos_part l.index = ap (λ (z : Level). pos_part z.index) same in
    let le = Filled-le l.row (pos_part l.index) fills in
    let k = lf_min s.number_of_idle_workers l'.index in
    let (lo, hi) = lf_min_lem s.number_of_idle_workers l'.index (omega arith) (omega arith) idle in
    let w : Woken s (record s {
      number_of_idle_workers = s.number_of_idle_workers - k;
      semaphore = if ltb 1 k then s.semaphore + (k - 1) else s.semaphore;
    }) =
      record {
        rows = h;
        next = nx;
        workers = refl;
        balance = counted s.number_of_idle_workers s.semaphore k lo hi;
        fewer = omega arith;
        stop = refl;
      } in
    subst (Woken s) (some-injective _ _ e2) w
  where
    counted : (i m k : ℕ) → 0 < k → k ≤ i → i - k + (if ltb 1 k then m + (k - 1) else m) + 1 ≡ i + m
    counted i m k lo hi = ground arith
