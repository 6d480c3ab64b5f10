-- ===== src/Np/Init.antt =====
-- core/threaded/scheduler_NP.c and include/core/threaded/scheduler_instance.h: the state that
-- initialization leaves.
use mathlib.Core.Path.{subst}
use mathlib.Core.Option.{some-injective}
use schedule_test_manual.Base.{
  ℕ, zero, suc, ◌≡◌, ◌<◌, refl, sym, ◌∙◌, false, Option, none, some, List, [], ◌∷◌, length,
  replicate, length-replicate, inl, arith,
}
use schedule_test_manual.Base.Int.{pos}
use schedule_test_manual.Net.{◌>>=◌}
use schedule_test_manual.Rti.{>>=-eq-some}
use schedule_test_manual.Tag.{Tag}
use schedule_test_manual.Np.{Reaction, Level, SchedInstance, before, trigger_all}
use schedule_test_manual.Np.Rows.{Filled, IsLevel, AreLevels}
use schedule_test_manual.Np.Effects.{trigger_all-Unmoved}
use schedule_test_manual.Np.Workers.{System, fetching, Reach}
use schedule_test_manual.Np.Counts.{is_waiting, is_advancing, is_out, total}
use schedule_test_manual.Np.Balance.{IsBalanced, is_running}
use schedule_test_manual.Np.Balance.Run.{Reach-IsBalanced}

-- lf_sched_init: a row for each level, as calloc gives it
unfoldable pub new_levels : List ℕ → List Level
new_levels [] = []
new_levels (queue_size ∷ more) =
    record { row = replicate queue_size none; index = pos 0 } ∷ new_levels more

-- lf_sched_init with init_sched_instance: an instance that is there is kept; `none` for the parameters
-- that are NULL is the exit, and without levels the greatest level would wrap. The reactions and the tags are those of the program.
unfoldable pub lf_sched_init :
    Option SchedInstance → ℕ → Option (List ℕ) → List Reaction → Tag → Tag → Option SchedInstance
lf_sched_init (some s) number_of_workers params reactions current_tag stop_tag = some s
lf_sched_init none number_of_workers none reactions current_tag stop_tag = none
lf_sched_init none number_of_workers (some num_reactions_per_level) reactions current_tag stop_tag =
    before (length num_reactions_per_level) >>= λ max_reaction_level. some (record {
      reactions = reactions;
      levels = new_levels num_reactions_per_level;
      executing_reactions = 0;
      next_reaction_level = 1;
      max_reaction_level = max_reaction_level;
      number_of_workers = number_of_workers;
      number_of_idle_workers = 0;
      semaphore = 0;
      should_stop = false;
      logical_tag_completed = false;
      current_tag = current_tag;
      stop_tag = stop_tag;
    })

-- sizes of rows that an int can index
abbrev pub AreSmall : List ℕ → Type 0
AreSmall [] = Unit {0}
AreSmall (n ∷ more) = (n < 2147483648) × AreSmall more

Filled-replicate : (n : ℕ) → Filled (replicate n none) 0
Filled-replicate zero = tt
Filled-replicate (suc n) = Filled-replicate n

new_levels-AreLevels : (sizes : List ℕ) → AreSmall sizes → AreLevels (new_levels sizes)
unfolding new_levels AreLevels
new_levels-AreLevels [] small i l e = cc
new_levels-AreLevels (n ∷ more) small zero l e = subst IsLevel (some-injective _ _ e) (
  Filled-replicate n,
  (let q = length-replicate {A = Option ℕ} n none in let z = small.0 in omega arith),
)
new_levels-AreLevels (n ∷ more) small (suc i) l e = new_levels-AreLevels more small.1 i l e

-- all workers are to fetch a reaction
all_fetching :
    (n : ℕ)
    → (total is_waiting (replicate n fetching) ≡ 0)
      × (total is_advancing (replicate n fetching) ≡ 0)
      × (total is_out (replicate n fetching) ≡ 0)
      × (length (replicate n fetching) ≡ n)
unfolding total
all_fetching zero = (refl, refl, refl, refl)
all_fetching (suc n) =
    let (w, a, o, l) = all_fetching n in (omega arith, omega arith, omega arith, omega arith)

abbrev pub begin : ℕ → SchedInstance → System
begin n s = record { sched = s; workers = replicate n fetching }

begin-IsBalanced :
    (n : ℕ) (sizes : List ℕ) (all : List Reaction) (now stop : Tag) (rs : List ℕ)
    (s t : SchedInstance)
    → 0 < n
    → AreSmall sizes
    → lf_sched_init none n (some sizes) all now stop ≡ some s
    → trigger_all rs s ≡ some t
    → IsBalanced (begin n t)
unfolding lf_sched_init
begin-IsBalanced n sizes all now stop rs s t some' small e go =
    let (max, b, e1) = >>=-eq-some (before (length sizes)) _ e in
    let first : SchedInstance = record {
      reactions = all;
      levels = new_levels sizes;
      executing_reactions = 0;
      next_reaction_level = 1;
      max_reaction_level = max;
      number_of_workers = n;
      number_of_idle_workers = 0;
      semaphore = 0;
      should_stop = false;
      logical_tag_completed = false;
      current_tag = now;
      stop_tag = stop;
    } in
    let go1 : trigger_all rs first ≡ some t =
      subst (λ (v : SchedInstance). trigger_all rs v ≡ some t) (sym (some-injective _ _ e1)) go in
    let u = trigger_all-Unmoved rs first t go1 (new_levels-AreLevels sizes small) in
    let (w, a, o, l) = all_fetching n in
    let idle = u.idle in
    let permits = u.permits in
    let workers = u.workers in
    let follows = u.next in
    let executing = u.executing_same in
    is_running (record {
      stop = u.stop;
      rows = u.rows;
      follows = omega arith;
      size = l ∙ sym workers;
      counted = omega arith;
      phase = inl (a, omega arith);
      dry = λ lt. absurd (omega arith);
    })

-- From the state that initialization leaves, with at least one worker and rows that an int can index,
-- and with any reactions triggered for the start, every interleaving of the workers' turns, in which
-- reactions trigger only reactions of later levels, keeps the balance: before the stop is signalled, the
-- waiting and the advancing workers together are as many as the count of idle workers and the permits of
-- the semaphore, one worker advances the tag when all workers are counted as idle and none does
-- otherwise, and every row of triggered reactions is filled from its start as far as its index says;
-- once the stop is signalled, each waiting worker has a permit, and no worker has a reaction or advances
-- the tag.
pub lf_sched_init-IsBalanced :
    (n : ℕ) (sizes : List ℕ) (all : List Reaction) (now stop : Tag) (rs : List ℕ)
    (s t : SchedInstance) (y : System)
    → 0 < n
    → AreSmall sizes
    → lf_sched_init none n (some sizes) all now stop ≡ some s
    → trigger_all rs s ≡ some t
    → Reach (begin n t) y
    → IsBalanced y
lf_sched_init-IsBalanced n sizes all now stop rs s t y some' small e go r =
    Reach-IsBalanced (begin n t) y (begin-IsBalanced n sizes all now stop rs s t some' small e go) r
