-- ===== src/Np/Balance/Work.antt =====
-- core/threaded/scheduler_NP.c: a turn of a worker that takes or executes a reaction.
use mathlib.Core.Path.{subst}
use mathlib.Core.Option.{some-injective}
use schedule_test_manual.Base.{
  ℕ, ◌≡◌, refl, sym, ap, ◌∙◌, Option, none, some, List, get_elem?, arith,
}
use schedule_test_manual.Np.{Level, SchedInstance, trigger_all, done_with_reaction}
use schedule_test_manual.Np.Workers.{
  Place, System, fetching, out_of_work, executing, fetched, MayTrigger,
}
use schedule_test_manual.Np.Counts.{is_out, total-set}
use schedule_test_manual.Np.Effects.{Unmoved-trans, trigger_all-Unmoved, trigger_all_later}
use schedule_test_manual.Np.Moves.{IsDry, Took, done-Unmoved}
use schedule_test_manual.Np.Balance.{IsRunning, IsBalanced, is_running, after, Unmoved-IsRunning}

pub fetched-IsBalanced :
    (y : System) (n : ℕ) (p' : Place) (s m : SchedInstance) (r : Option ℕ)
    → get_elem? y.workers n ≡ some fetching
    → Took y.sched r m
    → fetched m r ≡ some (s, p')
    → IsRunning y
    → IsBalanced (after y n p' s)
fetched-IsBalanced y n p' s m none at (u, dry, kept) e b =
    subst (λ (z : SchedInstance × Place). IsBalanced (after y n z.1 z.0)) (some-injective _ _ e)
      (is_running (Unmoved-IsRunning y n fetching out_of_work m at u refl refl (λ lt. dry refl) b))
fetched-IsBalanced y n p' s m (some x) at (u, dry, kept) e b =
    let os = total-set is_out y.workers n fetching (executing x) at in
    subst (λ (z : SchedInstance × Place). IsBalanced (after y n z.1 z.0)) (some-injective _ _ e)
      (is_running (
        Unmoved-IsRunning y n fetching (executing x) m at u refl refl
          (λ lt. kept (b.dry (omega arith))) b))

-- work done by a reaction of an earlier level than those it triggers
pub executing-IsRunning :
    (y : System) (n x : ℕ) (reactions : List ℕ) (m t : SchedInstance)
    → get_elem? y.workers n ≡ some (executing x)
    → MayTrigger (executing x) reactions y.sched
    → trigger_all reactions y.sched ≡ some m
    → done_with_reaction x m ≡ some t
    → IsRunning y
    → IsRunning (after y n fetching t)
unfolding IsDry
executing-IsRunning y n x reactions m t at may go end b =
    let u = trigger_all-Unmoved reactions y.sched m go b.rows in
    let (v, same) = done-Unmoved x m t end u.rows in
    let os = total-set is_out y.workers n (executing x) fetching at in
    let follows = b.follows in
    let exec : t.executing_reactions ≡ y.sched.executing_reactions =
      v.executing_same ∙ u.executing_same in
    let row : get_elem? t.levels t.executing_reactions
        ≡ get_elem? y.sched.levels y.sched.executing_reactions =
      ap (λ (ls : List Level). get_elem? ls t.executing_reactions) same
      ∙ ap (λ (k : ℕ). get_elem? m.levels k) exec
      ∙ trigger_all_later y.sched.next_reaction_level y.sched.executing_reactions reactions y.sched
          m (omega arith) may go b.rows in
    Unmoved-IsRunning y n (executing x) fetching t at (Unmoved-trans y.sched m t u v) refl refl
      (λ lt l found. b.dry (omega arith) l (sym row ∙ found)) b
