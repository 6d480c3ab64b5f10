-- ===== src/Np.antt =====
-- core/threaded/scheduler_NP.c and scheduler_sync_tag_advance.c: the non-preemptive scheduler of a
-- program that is not federated. Functions that several threads run at once are split where they share
-- data; `none` is an access out of range or a failed assertion.
pub mod Advance
pub mod Balance
pub mod Counts
pub mod Effects
pub mod Init
pub mod Moves
pub mod Rows
mod Tests
pub mod Workers
use schedule_test_manual.Base.{
  ℕ, zero, suc, ◌+◌, ◌-◌, Bool, true, false, not, ◌&&◌, Option, none, some, List, [], ◌∷◌, ltb, leb,
  ◌==◌, if◌then◌else◌, get_elem?, set,
}
use schedule_test_manual.Base.Int.{ℤ, pos, negsuc, ◌+ℤ◌, ltb_ℤ}
use schedule_test_manual.Tag.{Tag}
use schedule_test_manual.Tag.Compare.{is_at_most}
use schedule_test_manual.Net.{◌>>=◌, unsigned, word64}
use schedule_test_manual.Fs.{Status, inactive, queued, running}

-- a reaction_t: its status and the level of its index
pub record Reaction : Type 0 where
  pub status : Status
  pub level : ℕ

-- a row of `_lf_sched_triggered_reactions`, none for NULL, and its entry of `_lf_sched_indexes`
pub record Level : Type 0 where
  pub row : List (Option ℕ)
  pub index : ℤ

-- _lf_sched_instance_t, with the reactions, and the variables that advancing the tag uses;
-- `executing_reactions` is the index of the row that the pointer stands for
pub record SchedInstance : Type 0 where
  pub reactions : List Reaction
  pub levels : List Level
  pub executing_reactions : ℕ
  pub next_reaction_level : ℕ
  pub max_reaction_level : ℕ
  pub number_of_workers : ℕ
  pub number_of_idle_workers : ℕ
  pub semaphore : ℕ
  pub should_stop : Bool
  pub logical_tag_completed : Bool
  pub current_tag : Tag
  pub stop_tag : Tag

abbrev pub put_level : ℕ → Level → SchedInstance → SchedInstance
put_level i l s = record s { levels = set s.levels i l }

-- an assignment to an array, which is checked
abbrev pub store {ℓ} : {A : Type ℓ} → List A → ℕ → A → Option (List A)
store xs i a = get_elem? xs i >>= λ old. some (set xs i a)

-- `reaction_level - 1`, for the level that is executed; size_t would wrap
abbrev pub before : ℕ → Option ℕ
before zero = none
before (suc n) = some n

abbrev pub natural : ℤ → Option ℕ
natural (pos n) = some n
natural (negsuc n) = none

-- _lf_sched_insert_reaction, with its assertion
unfoldable pub insert_reaction : ℕ → ℕ → SchedInstance → Option SchedInstance
insert_reaction reaction level s = get_elem? s.levels level >>= λ l. natural l.index >>= λ i.
    store l.row i (some reaction) >>= λ row.
    some (put_level level (record { row = row; index = pos (i + 1) }) s)

-- lf_sched_trigger_reaction, for the status that the comparison finds
unfoldable pub trigger_as : Status → ℕ → Reaction → SchedInstance → Option SchedInstance
trigger_as inactive reaction r s =
    insert_reaction reaction r.level
      (record s { reactions = set s.reactions reaction (record r { status = queued }) })
trigger_as queued reaction r s = some s
trigger_as running reaction r s = some s

-- lf_sched_trigger_reaction
unfoldable pub trigger_reaction : ℕ → SchedInstance → Option SchedInstance
trigger_reaction reaction s =
    get_elem? s.reactions reaction >>= λ r. trigger_as r.status reaction r s

-- reactions are triggered one after the other
unfoldable pub trigger_all : List ℕ → SchedInstance → Option SchedInstance
trigger_all [] s = some s
trigger_all (reaction ∷ more) s = trigger_reaction reaction s >>= trigger_all more

-- lf_sched_done_with_reaction, for the status that the comparison finds; it exits on another status
unfoldable pub done_as : Status → ℕ → Reaction → SchedInstance → Option SchedInstance
done_as queued reaction r s =
    some (record s { reactions = set s.reactions reaction (record r { status = inactive }) })
done_as inactive reaction r s = none
done_as running reaction r s = none

-- lf_sched_done_with_reaction
unfoldable pub done_with_reaction : ℕ → SchedInstance → Option SchedInstance
done_with_reaction reaction s =
    get_elem? s.reactions reaction >>= λ r. done_as r.status reaction r s

-- lf_sched_get_ready_reaction: the reaction at the lowered index, if the index is not negative, is taken
unfoldable pub take_at : ℤ → SchedInstance → Option (Option ℕ × SchedInstance)
take_at (negsuc n) s = some (none, s)
take_at (pos i) s = get_elem? s.levels s.executing_reactions >>= λ e. get_elem? e.row i >>= λ r.
    some (r, put_level s.executing_reactions (record e { row = set e.row i none }) s)

-- lf_sched_get_ready_reaction: what it takes from the current level
unfoldable pub pop_reaction : SchedInstance → Option (Option ℕ × SchedInstance)
pop_reaction s = before s.next_reaction_level >>= λ current. get_elem? s.levels current >>= λ l.
    let index = l.index +ℤ negsuc 0 in
    take_at index (put_level current (record l { index = index }) s)

-- _lf_sched_distribute_ready_reactions: the loop, for `n` more levels; the boolean is its result
unfoldable pub distribute_loop : ℕ → SchedInstance → Option (Bool × SchedInstance)
distribute_loop zero s = some (false, s)
distribute_loop (suc n) s = get_elem? s.levels s.next_reaction_level >>= λ l.
    get_elem? l.row 0 >>= λ first.
    let s' = record s {
      executing_reactions = s.next_reaction_level;
      next_reaction_level = s.next_reaction_level + 1;
    } in
    elim first [ some reaction ↦ some (true, s') | none ↦ distribute_loop n s' ]

unfoldable pub distribute_ready_reactions : SchedInstance → Option (Bool × SchedInstance)
distribute_ready_reactions s = distribute_loop (s.max_reaction_level + 1 - s.next_reaction_level) s

-- LF_MIN, of a size_t and an int
abbrev pub lf_min : ℕ → ℤ → ℕ
lf_min a b = if ltb a (unsigned word64 b) then a else unsigned word64 b

-- _lf_sched_notify_workers
unfoldable pub notify_workers : SchedInstance → Option SchedInstance
notify_workers s = before s.next_reaction_level >>= λ current. get_elem? s.levels current >>= λ l.
    let workers_to_awaken = lf_min s.number_of_idle_workers l.index in
    some (record s {
      number_of_idle_workers = s.number_of_idle_workers - workers_to_awaken;
      semaphore =
          if ltb 1 workers_to_awaken then s.semaphore + (workers_to_awaken - 1) else s.semaphore;
    })

-- _lf_sched_signal_stop
unfoldable pub signal_stop : SchedInstance → SchedInstance
signal_stop s = record s { should_stop = true; semaphore = s.semaphore + (s.number_of_workers - 1) }

-- _lf_sched_should_stop_locked
unfoldable pub should_stop_locked : SchedInstance → Bool
should_stop_locked s = s.logical_tag_completed && is_at_most s.stop_tag s.current_tag

-- _lf_sched_advance_tag_locked, if it is not to stop: _lf_next_locked moves to the tag `tag` and
-- triggers reactions
unfoldable pub advance_tag_locked : Tag → List ℕ → SchedInstance → Option SchedInstance
advance_tag_locked tag reactions s =
    trigger_all reactions (record s { logical_tag_completed = true; current_tag = tag })

-- _lf_sched_try_advance_tag_and_distribute: the end of a round of its loop, and whether the loop ends
unfoldable pub distribute : SchedInstance → Option (Bool × SchedInstance)
distribute s = distribute_ready_reactions s >>= λ r.
    if r.0 then (notify_workers r.1 >>= λ s'. some (true, s')) else some (false, r.1)

-- a round of that loop
unfoldable pub round : Tag → List ℕ → SchedInstance → Option (Bool × SchedInstance)
round tag reactions s =
    if s.next_reaction_level == s.max_reaction_level + 1
    then (let s' = record s { next_reaction_level = 0 } in
        if should_stop_locked s'
        then some (true, signal_stop s')
        else (advance_tag_locked tag reactions s' >>= distribute))
    else distribute s

-- _lf_sched_try_advance_tag_and_distribute: what comes before the loop
unfoldable pub reset_index : SchedInstance → Option SchedInstance
reset_index s = before s.next_reaction_level >>= λ current.
    get_elem? s.levels current >>= λ l. some (put_level current (record l { index = pos 0 }) s)
