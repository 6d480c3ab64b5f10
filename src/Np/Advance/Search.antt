-- ===== src/Np/Advance/Search.antt =====
-- core/threaded/scheduler_sync_tag_advance.c and scheduler_NP.c: the search for a level.
use mathlib.Core.Path.{subst}
use mathlib.Core.Option.{some-injective}
use schedule_test_manual.Base.{
  ℕ, zero, suc, ◌+◌, ◌-◌, ◌≡◌, ◌<◌, refl, sym, ◌∙◌, ◌⊎◌, Bool, true, false, Option, none, some,
  get_elem?, inl, inr, arith, Bool-cases, if_true, if_false,
}
use schedule_test_manual.Base.Int.{pos_part}
use schedule_test_manual.Rti.{>>=-eq-some}
use schedule_test_manual.Np.{
  Level, SchedInstance, distribute_loop, distribute_ready_reactions, notify_workers, distribute,
}
use schedule_test_manual.Np.Rows.{Filled-head, AreLevels}
use schedule_test_manual.Np.Advance.{Held, Outcome, woken, held, notify_workers-Woken}

-- the current level has a reaction to take
unfoldable pub HasReaction : SchedInstance → Type 0
HasReaction s =
    (l : Level) × (get_elem? s.levels s.executing_reactions ≡ some l) × (0 < pos_part l.index)

-- what looking for a level does
abbrev Found : SchedInstance → Bool → SchedInstance → Type 0
Found s b t = Held s t × (b ≡ true → HasReaction t)

-- the loop goes on to the next level
abbrev step_on : SchedInstance → SchedInstance
step_on s = record s {
  executing_reactions = s.next_reaction_level;
  next_reaction_level = s.next_reaction_level + 1;
}

step_on-Held : (s : SchedInstance) → AreLevels s.levels → Held s (step_on s)
step_on-Held s h = record {
  rows = h;
  next = omega arith;
  workers = refl;
  idle = refl;
  permits = refl;
  stop = refl;
}

at_first :
    (n : ℕ) (s t : SchedInstance) (b : Bool) (first : Option ℕ) (l : Level)
    → AreLevels s.levels
    → get_elem? s.levels s.next_reaction_level ≡ some l
    → get_elem? l.row 0 ≡ some first
    → (distribute_loop n (step_on s) ≡ some (b, t) → Found (step_on s) b t)
    → elim first [ some reaction ↦ some (true, step_on s) | none ↦ distribute_loop n (step_on s) ]
      ≡ some (b, t)
    → Found s b t
unfolding AreLevels HasReaction
at_first n s t b none l h found read rest e =
    let (kept, has) = rest e in
    (
      record {
        rows = kept.rows;
        next = kept.next;
        workers = kept.workers;
        idle = kept.idle;
        permits = kept.permits;
        stop = kept.stop;
      },
      has,
    )
at_first n s t b (some r) l h found read rest e =
    let (fills, small) = h s.next_reaction_level l found in
    let has : Found s true (step_on s) =
      (step_on-Held s h, λ p. (l, found, Filled-head l.row (pos_part l.index) r fills read)) in
    subst (λ (z : Bool × SchedInstance). Found s z.0 z.1) (some-injective _ _ e) has

distribute_loop-Found :
    (n : ℕ) (s t : SchedInstance) (b : Bool)
    → distribute_loop n s ≡ some (b, t)
    → AreLevels s.levels
    → 0 < n ⊎ (s.next_reaction_level ≡ suc s.executing_reactions)
    → Found s b t
unfolding distribute_loop
distribute_loop-Found zero s t b e h (inl lt) = absurd (omega arith)
distribute_loop-Found zero s t b e h (inr nx) =
    let held : Held s s = record {
      rows = h;
      next = nx;
      workers = refl;
      idle = refl;
      permits = refl;
      stop = refl;
    } in
    let found : Found s false s = (held, λ p. cc) in
    subst (λ (z : Bool × SchedInstance). Found s z.0 z.1) (some-injective _ _ e) found
distribute_loop-Found (suc n) s t b e h either =
    let (l, found, e1) = >>=-eq-some (get_elem? s.levels s.next_reaction_level) _ e in
    let (first, read, e2) = >>=-eq-some (get_elem? l.row 0) _ e1 in
    at_first n s t b first l h found read
      (λ e3. distribute_loop-Found n (step_on s) t b e3 h (inr (omega arith))) e2

pub distribute-Outcome :
    (s t : SchedInstance) (b : Bool)
    → distribute s ≡ some (b, t)
    → AreLevels s.levels
    → s.next_reaction_level < s.max_reaction_level + 1
      ⊎ (s.next_reaction_level ≡ suc s.executing_reactions)
    → 0 < s.number_of_idle_workers
    → Outcome s b t
unfolding distribute distribute_ready_reactions HasReaction
distribute-Outcome s t b e h either idle =
    let (r, loop, e1) = >>=-eq-some (distribute_ready_reactions s) _ e in
    let n = s.max_reaction_level + 1 - s.next_reaction_level in
    let either' : 0 < n ⊎ (s.next_reaction_level ≡ suc s.executing_reactions) = elim either [
      | inl lt ↦ inl (omega arith)
      | inr nx ↦ inr nx
    ] in
    let (kept, has) = distribute_loop-Found n s r.1 r.0 loop h either' in
    elim (Bool-cases r.0) [
      | inl y ↦
          let e2 = subst IsSame (if_true r.0 _ _ y) e1 in
          let (m, awake, e3) = >>=-eq-some (notify_workers r.1) _ e2 in
          let (l, full, lots) = has y in
          let w =
            notify_workers-Woken r.1 m l awake kept.rows kept.next full lots
              (subst (λ (k : ℕ). 0 < k) (sym kept.idle) idle) in
          let o : Outcome s true m = woken (record {
            rows = w.rows;
            next = w.next;
            workers = w.workers ∙ kept.workers;
            balance =
                (let p = kept.idle in let q = kept.permits in let z = w.balance in omega arith);
            fewer = (let p = kept.idle in let z = w.fewer in omega arith);
            stop = w.stop ∙ kept.stop;
          }) in
          subst To (some-injective _ _ e3) o
      | inr z ↦
          let e2 = subst IsSame (if_false r.0 _ _ z) e1 in
          let o : Outcome s false r.1 = held kept in subst To (some-injective _ _ e2) o
    ]
  where
    IsSame : Option (Bool × SchedInstance) → Type 0
    IsSame m = m ≡ some (b, t)

    To : Bool × SchedInstance → Type 0
    To z = Outcome s z.0 z.1
