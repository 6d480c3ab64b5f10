-- ===== src/Np/Balance/Run.antt =====
-- core/threaded/scheduler_NP.c: the turns of all the workers, in any interleaving.
use mathlib.Core.Path.{subst}
use mathlib.Core.Option.{some-injective}
use schedule_test_manual.Base.{
  ℕ, ◌+◌, ◌≡◌, ◌<◌, Option, some, List, length, get_elem?, inl, inr, arith, if_true, if_false,
}
use schedule_test_manual.Rti.{>>=-eq-some}
use schedule_test_manual.Tag.{Tag}
use schedule_test_manual.Np.{SchedInstance, trigger_all, done_with_reaction, pop_reaction}
use schedule_test_manual.Np.Workers.{
  Place, System, fetching, out_of_work, waiting, advancing, exited, executing, turn_at, MayTrigger,
  Reach, here, next,
}
use schedule_test_manual.Np.Counts.{
  is_waiting, is_advancing, is_out, is_executing, total, total-set, total-le,
}
use schedule_test_manual.Np.Moves.{pop_reaction-Took}
use schedule_test_manual.Np.Balance.{
  IsRunning, IsStopping, IsBalanced, is_running, is_stopping, after, alone,
}
use schedule_test_manual.Np.Balance.Work.{fetched-IsBalanced, executing-IsRunning}
use schedule_test_manual.Np.Balance.Idle.{waits-IsBalanced, permit-IsBalanced}
use schedule_test_manual.Np.Balance.Rounds.{one_advances, advances-IsBalanced}

running-IsBalanced :
    (y : System) (n : ℕ) (tag : Tag) (reactions : List ℕ) (p p' : Place) (s : SchedInstance)
    → get_elem? y.workers n ≡ some p
    → MayTrigger p reactions y.sched
    → turn_at p tag reactions y.sched ≡ some (s, p')
    → IsRunning y
    → IsBalanced (after y n p' s)
unfolding turn_at
running-IsBalanced y n tag reactions fetching p' s at may e b =
    let e1 =
      subst (λ (m : Option (SchedInstance × Place)). m ≡ some (s, p')) (if_false _ _ _ b.stop) e in
    let (r, popped, e2) = >>=-eq-some (pop_reaction y.sched) _ e1 in
    let took = pop_reaction-Took y.sched r.1 r.0 popped b.rows b.follows in
    fetched-IsBalanced y n p' s r.1 r.0 at took e2 b
running-IsBalanced y n tag reactions out_of_work p' s at may e b = waits-IsBalanced y n p' s at e b
running-IsBalanced y n tag reactions waiting p' s at may e b =
    permit-IsBalanced y n p' s tag reactions at e (is_running b)
running-IsBalanced y n tag reactions advancing p' s at may e b =
    advances-IsBalanced y n tag reactions p' s at e b
running-IsBalanced y n tag reactions exited p' s at may e b = cc
running-IsBalanced y n tag reactions (executing x) p' s at may e b =
    let (m, went, e1) = >>=-eq-some (trigger_all reactions y.sched) _ e in
    let (t, end, e2) = >>=-eq-some (done_with_reaction x m) _ e1 in
    subst (λ (z : SchedInstance × Place). IsBalanced (after y n z.1 z.0)) (some-injective _ _ e2)
      (is_running (executing-IsRunning y n x reactions m t at may went end b))

stopping-IsBalanced :
    (y : System) (n : ℕ) (tag : Tag) (reactions : List ℕ) (p p' : Place) (s : SchedInstance)
    → get_elem? y.workers n ≡ some p
    → turn_at p tag reactions y.sched ≡ some (s, p')
    → IsStopping y
    → IsBalanced (after y n p' s)
unfolding turn_at
stopping-IsBalanced y n tag reactions fetching p' s at e b =
    let e1 =
      subst (λ (m : Option (SchedInstance × Place)). m ≡ some (s, p')) (if_true _ _ _ b.stop) e in
    let ws = total-set is_waiting y.workers n fetching exited at in
    let ads = total-set is_advancing y.workers n fetching exited at in
    let outs = total-set is_out y.workers n fetching exited at in
    let es = total-set is_executing y.workers n fetching exited at in
    let c1 = b.permitted in
    let c2 = b.none_advancing in
    let c3 = b.none_out in
    let c4 = b.none_executing in
    let end : IsStopping (after y n exited y.sched) = record {
      stop = b.stop;
      permitted = omega arith;
      none_advancing = omega arith;
      none_out = omega arith;
      none_executing = omega arith;
    } in
    subst (λ (z : SchedInstance × Place). IsBalanced (after y n z.1 z.0)) (some-injective _ _ e1)
      (is_stopping end)
stopping-IsBalanced y n tag reactions out_of_work p' s at e b =
    let outs = total-set is_out y.workers n out_of_work fetching at in
    let z = b.none_out in absurd (omega arith)
stopping-IsBalanced y n tag reactions waiting p' s at e b =
    permit-IsBalanced y n p' s tag reactions at e (is_stopping b)
stopping-IsBalanced y n tag reactions advancing p' s at e b =
    let ads = total-set is_advancing y.workers n advancing fetching at in
    let z = b.none_advancing in absurd (omega arith)
stopping-IsBalanced y n tag reactions exited p' s at e b = cc
stopping-IsBalanced y n tag reactions (executing x) p' s at e b =
    let es = total-set is_executing y.workers n (executing x) fetching at in
    let z = b.none_executing in absurd (omega arith)

-- In every state that turns of the workers lead to, in any interleaving, from a balanced state, where
-- reactions trigger only reactions of later levels: before the stop is signalled, the waiting and the
-- advancing workers together are as many as the count of idle workers and the permits of the semaphore,
-- one worker advances the tag when all workers are counted as idle and none does otherwise, and every
-- row of triggered reactions is filled from its start as far as its index says; once the stop is
-- signalled, each waiting worker has a permit, and no worker has a reaction or advances the tag.
pub Reach-IsBalanced : (start y : System) → IsBalanced start → Reach start y → IsBalanced y
Reach-IsBalanced start y b here = b
Reach-IsBalanced start _ b (next {y} r n tag reactions p p' s at may e) =
    elim (Reach-IsBalanced start y b r) [
      | is_running h ↦ running-IsBalanced y n tag reactions p p' s at may e h
      | is_stopping h ↦ stopping-IsBalanced y n tag reactions p p' s at e h
    ]

-- While a worker advances the tag, in a state that turns of the workers lead to from a balanced one,
-- all the others wait for the semaphore and it has no permit, so that no worker can run beside it.
pub advancing_alone :
    (start y : System) (n : ℕ)
    → IsBalanced start
    → Reach start y
    → get_elem? y.workers n ≡ some advancing
    → (total is_waiting y.workers + 1 ≡ length y.workers) × (y.sched.semaphore ≡ 0)
advancing_alone start y n b r at = elim (Reach-IsBalanced start y b r) [
  | is_running h ↦ (let (z1, z2, z3, z4, z5) = alone y h (one_advances y n at h) in (z3, z4))
  | is_stopping h ↦
      (let ads = total-set is_advancing y.workers n advancing fetching at in
        let z = h.none_advancing in absurd (omega arith))
]

-- No wake-up is lost: in a state that turns of the workers lead to from a balanced one, when all the
-- workers, at least one, wait for the semaphore, it has a permit.
pub waiting_woken :
    (start y : System)
    → IsBalanced start
    → Reach start y
    → 0 < length y.workers
    → total is_waiting y.workers ≡ length y.workers
    → 0 < y.sched.semaphore
waiting_woken start y b r some' all = elim (Reach-IsBalanced start y b r) [
  | is_running h ↦
      (let le = total-le y.workers in
        let counted = h.counted in
        let size = h.size in elim h.phase [ inl q ↦ omega arith | inr q ↦ absurd (omega arith) ])
  | is_stopping h ↦ (let z = h.permitted in omega arith)
]
