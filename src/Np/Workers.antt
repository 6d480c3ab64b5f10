-- ===== src/Np/Workers.antt =====
-- core/threaded/scheduler_NP.c: the worker threads, one shared access at a time.
use schedule_test_manual.Base.{
  ℕ, ◌+◌, ◌-◌, ◌≡◌, ◌≤◌, Option, none, some, List, [], ◌∷◌, ◌==◌, if◌then◌else◌, get_elem?, set,
}
use schedule_test_manual.Tag.{Tag}
use schedule_test_manual.Net.{◌>>=◌}
use schedule_test_manual.Np.{
  Reaction, SchedInstance, trigger_all, done_with_reaction, pop_reaction, round, reset_index,
}

-- Where a worker thread stands: at the test of the loop of lf_sched_get_ready_reaction; out of ready
-- reactions, before _lf_sched_wait_for_work; in the wait for the semaphore; in the loop of
-- _lf_sched_try_advance_tag_and_distribute; with a reaction to execute; past its loop.
pub data Place : Type 0 where
  fetching out_of_work waiting advancing exited : Place
  executing : ℕ → Place

pub record System : Type 0 where
  pub sched : SchedInstance
  pub workers : List Place

-- _lf_sched_wait_for_work: count the worker as idle, and choose the branch
unfoldable pub wait_for_work : SchedInstance → Option (SchedInstance × Place)
wait_for_work s =
    let s' = record s { number_of_idle_workers = s.number_of_idle_workers + 1 } in
    if s'.number_of_idle_workers == s'.number_of_workers
    then (reset_index s' >>= λ t. some (t, advancing))
    else some (s', waiting)

-- lf_sched_get_ready_reaction: the reaction that was taken is returned, if there was one
abbrev pub fetched : SchedInstance → Option ℕ → Option (SchedInstance × Place)
fetched s (some reaction) = some (s, executing reaction)
fetched s none = some (s, out_of_work)

-- One turn of a worker. The reactions are those that the body of its reaction triggers, or those of the
-- tag that it advances to.
unfoldable pub turn_at : Place → Tag → List ℕ → SchedInstance → Option (SchedInstance × Place)
turn_at fetching tag reactions s =
    if s.should_stop then some (s, exited) else (pop_reaction s >>= λ r. fetched r.1 r.0)
turn_at out_of_work tag reactions s = wait_for_work s
turn_at waiting tag reactions s =
    if s.semaphore == 0 then none else some (record s { semaphore = s.semaphore - 1 }, fetching)
turn_at advancing tag reactions s =
    round tag reactions s >>= λ r. some (r.1, if r.0 then fetching else advancing)
turn_at (executing reaction) tag reactions s =
    trigger_all reactions s >>= λ s'. done_with_reaction reaction s' >>= λ t. some (t, fetching)
turn_at exited tag reactions s = none

-- the reactions are of the level `low` or later ones
abbrev pub AreFrom : ℕ → List Reaction → List ℕ → Type 0
AreFrom low all [] = Unit {0}
AreFrom low all (reaction ∷ more) =
    ((r : Reaction) → get_elem? all reaction ≡ some r → low ≤ r.level) × AreFrom low all more

-- what the code generator's levels give: a reaction triggers only reactions of later levels
abbrev pub MayTrigger : Place → List ℕ → SchedInstance → Type 0
MayTrigger (executing reaction) reactions s = AreFrom s.next_reaction_level s.reactions reactions
MayTrigger _ reactions s = Unit {0}

-- The states that the turns of the workers lead to, in any order.
pub data Reach (start : System) : System → Type 0 where
  here : Reach start start
  next :
      {y : System}
      → Reach start y
      → (n : ℕ) (tag : Tag) (reactions : List ℕ) (p p' : Place) (s : SchedInstance)
      → get_elem? y.workers n ≡ some p
      → MayTrigger p reactions y.sched
      → turn_at p tag reactions y.sched ≡ some (s, p')
      → Reach start (record { sched = s; workers = set y.workers n p' })
