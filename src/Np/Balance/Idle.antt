-- ===== src/Np/Balance/Idle.antt =====
-- core/threaded/scheduler_NP.c: a turn of a worker that finds no work, or that has waited.
use mathlib.Core.Path.{subst}
use mathlib.Core.Option.{some-injective}
use schedule_test_manual.Base.{
  ℕ, ◌+◌, ◌-◌, ◌≡◌, ◌<◌, sym, ◌∙◌, false, Option, some, List, ◌==◌, get_elem?, set, inl, inr, arith,
  length-set, Bool-cases, if_true, if_false, ==_iff,
}
use schedule_test_manual.Rti.{>>=-eq-some}
use schedule_test_manual.Tag.{Tag}
use schedule_test_manual.Np.{SchedInstance, reset_index}
use schedule_test_manual.Np.Workers.{
  Place, System, fetching, out_of_work, waiting, advancing, turn_at, wait_for_work,
}
use schedule_test_manual.Np.Counts.{
  is_waiting, is_advancing, is_out, is_executing, total, total-set, total-le,
}
use schedule_test_manual.Np.Effects.{Unmoved}
use schedule_test_manual.Np.Moves.{IsDry, reset_index-Unmoved}
use schedule_test_manual.Np.Balance.{
  IsRunning, IsBalanced, is_running, is_stopping, after, one_idle, alone,
}

-- the last worker to be idle is the one that advances the tag
last-IsRunning :
    (y : System) (n : ℕ) (t : SchedInstance)
    → get_elem? y.workers n ≡ some out_of_work
    → y.sched.number_of_idle_workers + 1 ≡ y.sched.number_of_workers
    → total is_advancing y.workers ≡ 0
    → Unmoved (one_idle y.sched) t
    → IsRunning y
    → IsRunning (after y n advancing t)
last-IsRunning y n t at all no_one u b =
    let ws = total-set is_waiting y.workers n out_of_work advancing at in
    let ads = total-set is_advancing y.workers n out_of_work advancing at in
    let le = total-le (set y.workers n advancing) in
    let same = length-set y.workers n advancing in
    let c1 = u.idle in
    let c2 = u.permits in
    let c3 = u.workers in
    let c4 = u.next in
    let c5 = u.executing_same in
    let c6 = b.counted in
    let follows = b.follows in
    let size = b.size in
    record {
      stop = u.stop ∙ b.stop;
      rows = u.rows;
      follows = omega arith;
      size = same ∙ size ∙ sym u.workers;
      counted = omega arith;
      phase = inr (omega arith, omega arith);
      dry = λ lt. absurd (omega arith);
    }

waiting-IsRunning :
    (y : System) (n : ℕ)
    → get_elem? y.workers n ≡ some out_of_work
    → y.sched.number_of_idle_workers + 1 < y.sched.number_of_workers
    → total is_advancing y.workers ≡ 0
    → IsRunning y
    → IsRunning (after y n waiting (one_idle y.sched))
unfolding IsDry
waiting-IsRunning y n at few no_one b =
    let os = total-set is_out y.workers n out_of_work waiting at in
    let ws = total-set is_waiting y.workers n out_of_work waiting at in
    let ads = total-set is_advancing y.workers n out_of_work waiting at in
    let counted = b.counted in
    record {
      stop = b.stop;
      rows = b.rows;
      follows = b.follows;
      size = length-set y.workers n waiting ∙ b.size;
      counted = omega arith;
      phase = inl (omega arith, few);
      dry = λ lt. b.dry (omega arith);
    }

pub waits-IsBalanced :
    (y : System) (n : ℕ) (p' : Place) (s : SchedInstance)
    → get_elem? y.workers n ≡ some out_of_work
    → wait_for_work y.sched ≡ some (s, p')
    → IsRunning y
    → IsBalanced (after y n p' s)
unfolding wait_for_work IsDry
waits-IsBalanced y n p' s at e b =
    let o = total-set is_out y.workers n out_of_work waiting at in
    let low : (total is_advancing y.workers ≡ 0)
        × (y.sched.number_of_idle_workers < y.sched.number_of_workers) =
      elim b.phase [ inl h ↦ h | inr h ↦ (let z = (alone y b h.0).0 in absurd (omega arith)) ] in
    elim (Bool-cases (y.sched.number_of_idle_workers + 1 == y.sched.number_of_workers)) [
      | inl q ↦
          (let e1 = subst IsSame (if_true _ _ _ q) e in
            let (t, back, e2) = >>=-eq-some (reset_index (one_idle y.sched)) _ e1 in
            let u =
              reset_index-Unmoved (one_idle y.sched) t back b.rows b.follows
                (b.dry (omega arith)) in
            subst To (some-injective _ _ e2)
              (is_running (last-IsRunning y n t at ((==_iff _ _).0 q) low.0 u b)))
      | inr q ↦
          (let e1 = subst IsSame (if_false _ _ _ q) e in
            subst To (some-injective _ _ e1)
              (is_running (waiting-IsRunning y n at (not_all _ _ q low.1) low.0 b)))
    ]
  where
    IsSame : Option (SchedInstance × Place) → Type 0
    IsSame m = m ≡ some (s, p')

    To : SchedInstance × Place → Type 0
    To z = IsBalanced (after y n z.1 z.0)

    not_all : (i k : ℕ) → (i + 1 == k) ≡ false → i < k → i + 1 < k
    not_all i k q lt = ground arith

pub permit-IsBalanced :
    (y : System) (n : ℕ) (p' : Place) (s : SchedInstance) (tag : Tag) (reactions : List ℕ)
    → get_elem? y.workers n ≡ some waiting
    → turn_at waiting tag reactions y.sched ≡ some (s, p')
    → IsBalanced y
    → IsBalanced (after y n p' s)
unfolding turn_at IsDry
permit-IsBalanced y n p' s tag reactions at e b = elim (Bool-cases (y.sched.semaphore == 0)) [
  | inl q ↦ (let e1 = subst IsSame (if_true _ _ _ q) e in cc)
  | inr q ↦
      subst To (some-injective _ _ (subst IsSame (if_false _ _ _ q) e))
        (kept (some_permit y.sched.semaphore q) b)
]
  where
    IsSame : Option (SchedInstance × Place) → Type 0
    IsSame m = m ≡ some (s, p')

    To : SchedInstance × Place → Type 0
    To z = IsBalanced (after y n z.1 z.0)

    some_permit : (k : ℕ) → (k == 0) ≡ false → 0 < k
    some_permit k q = ground arith

    taken : SchedInstance
    taken = record y.sched { semaphore = y.sched.semaphore - 1 }

    kept : 0 < y.sched.semaphore → IsBalanced y → IsBalanced (after y n fetching taken)
    kept lt (is_running b) =
        let os = total-set is_out y.workers n waiting fetching at in
        let ws = total-set is_waiting y.workers n waiting fetching at in
        let ads = total-set is_advancing y.workers n waiting fetching at in
        let counted = b.counted in
        is_running (record {
          stop = b.stop;
          rows = b.rows;
          follows = b.follows;
          size = length-set y.workers n fetching ∙ b.size;
          counted = omega arith;
          phase = elim b.phase [ inl h ↦ inl (omega arith, h.1) | inr h ↦ inr (omega arith, h.1) ];
          dry = λ more. b.dry (omega arith);
        })
    kept lt (is_stopping b) =
        let os = total-set is_out y.workers n waiting fetching at in
        let ws = total-set is_waiting y.workers n waiting fetching at in
        let ads = total-set is_advancing y.workers n waiting fetching at in
        let es = total-set is_executing y.workers n waiting fetching at in
        let c1 = b.permitted in
        let c2 = b.none_advancing in
        let c3 = b.none_out in
        let c4 = b.none_executing in
        is_stopping (record {
          stop = b.stop;
          permitted = omega arith;
          none_advancing = omega arith;
          none_out = omega arith;
          none_executing = omega arith;
        })
