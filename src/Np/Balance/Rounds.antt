-- ===== src/Np/Balance/Rounds.antt =====
-- core/threaded/scheduler_NP.c: a turn of the worker that advances the tag.
use mathlib.Core.Path.{subst}
use mathlib.Core.Option.{some-injective}
use schedule_test_manual.Base.{
  ℕ, ◌≡◌, sym, ◌∙◌, Bool, some, List, if◌then◌else◌, get_elem?, inl, inr, arith, length-set,
}
use schedule_test_manual.Rti.{>>=-eq-some}
use schedule_test_manual.Tag.{Tag}
use schedule_test_manual.Np.{SchedInstance, round}
use schedule_test_manual.Np.Workers.{Place, System, fetching, advancing, turn_at}
use schedule_test_manual.Np.Counts.{
  is_waiting, is_advancing, is_out, is_executing, total, total-set,
}
use schedule_test_manual.Np.Moves.{IsDry}
use schedule_test_manual.Np.Advance.{Outcome, woken, ended, held, Woken, Ended, Held}
use schedule_test_manual.Np.Advance.Round.{round-Outcome}
use schedule_test_manual.Np.Balance.{
  IsRunning, IsStopping, IsBalanced, is_running, is_stopping, after, alone,
}

-- idle workers are woken
Woken-IsRunning :
    (y : System) (n : ℕ) (t : SchedInstance)
    → get_elem? y.workers n ≡ some advancing
    → total is_advancing y.workers ≡ 1
    → Woken y.sched t
    → IsRunning y
    → IsRunning (after y n fetching t)
unfolding IsDry
Woken-IsRunning y n t at one w b =
    let ads = total-set is_advancing y.workers n advancing fetching at in
    let ws = total-set is_waiting y.workers n advancing fetching at in
    let outs = total-set is_out y.workers n advancing fetching at in
    let (z1, z2, z3, z4, z5) = alone y b one in
    let counted = b.counted in
    let balance = w.balance in
    let fewer = w.fewer in
    let workers = w.workers in
    record {
      stop = w.stop ∙ b.stop;
      rows = w.rows;
      follows = w.next;
      size = length-set y.workers n fetching ∙ b.size ∙ sym workers;
      counted = omega arith;
      phase = inl (omega arith, omega arith);
      dry = λ lt. absurd (omega arith);
    }

-- all workers are to stop
Ended-IsStopping :
    (y : System) (n : ℕ) (t : SchedInstance)
    → get_elem? y.workers n ≡ some advancing
    → total is_advancing y.workers ≡ 1
    → Ended y.sched t
    → IsRunning y
    → IsStopping (after y n fetching t)
Ended-IsStopping y n t at one w b =
    let ads = total-set is_advancing y.workers n advancing fetching at in
    let ws = total-set is_waiting y.workers n advancing fetching at in
    let outs = total-set is_out y.workers n advancing fetching at in
    let es = total-set is_executing y.workers n advancing fetching at in
    let (z1, z2, z3, z4, z5) = alone y b one in
    let counted = b.counted in
    let permits = w.permits in
    record {
      stop = w.stop;
      permitted = omega arith;
      none_advancing = omega arith;
      none_out = omega arith;
      none_executing = omega arith;
    }

-- the worker goes on with its loop
Held-IsRunning :
    (y : System) (n : ℕ) (t : SchedInstance)
    → get_elem? y.workers n ≡ some advancing
    → total is_advancing y.workers ≡ 1
    → Held y.sched t
    → IsRunning y
    → IsRunning (after y n advancing t)
unfolding IsDry
Held-IsRunning y n t at one k b =
    let ads = total-set is_advancing y.workers n advancing advancing at in
    let ws = total-set is_waiting y.workers n advancing advancing at in
    let outs = total-set is_out y.workers n advancing advancing at in
    let (z1, z2, z3, z4, z5) = alone y b one in
    let counted = b.counted in
    let permits = k.permits in
    let idle = k.idle in
    let workers = k.workers in
    record {
      stop = k.stop ∙ b.stop;
      rows = k.rows;
      follows = k.next;
      size = length-set y.workers n advancing ∙ b.size ∙ sym workers;
      counted = omega arith;
      phase = inr (omega arith, omega arith);
      dry = λ lt. absurd (omega arith);
    }

-- a worker that advances is the only one
pub one_advances :
    (y : System) (n : ℕ)
    → get_elem? y.workers n ≡ some advancing
    → IsRunning y
    → total is_advancing y.workers ≡ 1
one_advances y n at b =
    let ads = total-set is_advancing y.workers n advancing fetching at in
    elim b.phase [ inl h ↦ absurd (omega arith) | inr h ↦ h.0 ]

by-Outcome :
    (y : System) (n : ℕ) (t : SchedInstance) (more : Bool)
    → get_elem? y.workers n ≡ some advancing
    → Outcome y.sched more t
    → IsRunning y
    → IsBalanced (after y n (if more then fetching else advancing) t)
by-Outcome y n t more at (woken w) b =
    is_running (Woken-IsRunning y n t at (one_advances y n at b) w b)
by-Outcome y n t more at (ended w) b =
    is_stopping (Ended-IsStopping y n t at (one_advances y n at b) w b)
by-Outcome y n t more at (held k) b =
    is_running (Held-IsRunning y n t at (one_advances y n at b) k b)

pub advances-IsBalanced :
    (y : System) (n : ℕ) (tag : Tag) (reactions : List ℕ) (p' : Place) (s : SchedInstance)
    → get_elem? y.workers n ≡ some advancing
    → turn_at advancing tag reactions y.sched ≡ some (s, p')
    → IsRunning y
    → IsBalanced (after y n p' s)
unfolding turn_at
advances-IsBalanced y n tag reactions p' s at e b =
    let (r, ran, e1) = >>=-eq-some (round tag reactions y.sched) _ e in
    let (z1, z2, z3, z4, z5) = alone y b (one_advances y n at b) in
    let size = b.size in
    let o = round-Outcome tag reactions y.sched r.1 r.0 ran b.rows b.follows (omega arith) in
    subst (λ (z : SchedInstance × Place). IsBalanced (after y n z.1 z.0)) (some-injective _ _ e1)
      (by-Outcome y n r.1 r.0 at o b)
