-- ===== src/Np/Effects.antt =====
-- core/threaded/scheduler_NP.c: what the operations do to the rows and to the counters.
use mathlib.Core.Path.{subst}
use mathlib.Core.Option.{some-injective}
use schedule_test_manual.Base.{
  ℕ, suc, ◌+◌, ◌≡◌, ◌≢◌, ◌<◌, refl, sym, ap, ◌∙◌, Option, some, List, [], ◌∷◌, length, get_elem?,
  set, inl, inr, arith, length-set, get_elem?-set_inv, get_elem?-set_ne,
}
use schedule_test_manual.Base.Int.{ℤ, pos, negsuc, pos_part}
use schedule_test_manual.Rti.{>>=-eq-some}
use schedule_test_manual.Fs.{Status, inactive, queued, running}
use schedule_test_manual.Np.{
  Reaction, Level, SchedInstance, put_level, store, natural, insert_reaction, trigger_as,
  trigger_reaction, trigger_all,
}
use schedule_test_manual.Np.Rows.{Filled, Filled-insert, IsLevel, AreLevels, set-AreLevels}
use schedule_test_manual.Np.Workers.{AreFrom}

-- the counters and the current level are the same, and the rows are as they should be
pub record Unmoved (s t : SchedInstance) : Type 0 where
  pub rows : AreLevels t.levels
  pub executing_same : t.executing_reactions ≡ s.executing_reactions
  pub next : t.next_reaction_level ≡ s.next_reaction_level
  pub max : t.max_reaction_level ≡ s.max_reaction_level
  pub workers : t.number_of_workers ≡ s.number_of_workers
  pub idle : t.number_of_idle_workers ≡ s.number_of_idle_workers
  pub permits : t.semaphore ≡ s.semaphore
  pub stop : t.should_stop ≡ s.should_stop

pub Unmoved-refl : (s : SchedInstance) → AreLevels s.levels → Unmoved s s
Unmoved-refl s h = record {
  rows = h;
  executing_same = refl;
  next = refl;
  max = refl;
  workers = refl;
  idle = refl;
  permits = refl;
  stop = refl;
}

pub Unmoved-trans : (s t u : SchedInstance) → Unmoved s t → Unmoved t u → Unmoved s u
Unmoved-trans s t u h k = record {
  rows = k.rows;
  executing_same = k.executing_same ∙ h.executing_same;
  next = k.next ∙ h.next;
  max = k.max ∙ h.max;
  workers = k.workers ∙ h.workers;
  idle = k.idle ∙ h.idle;
  permits = k.permits ∙ h.permits;
  stop = k.stop ∙ h.stop;
}

Unmoved-to : (s t u : SchedInstance) → some t ≡ some u → Unmoved s t → Unmoved s u
Unmoved-to s t u e h = subst (Unmoved s) (some-injective _ _ e) h

-- the rows but one are the same
abbrev pub SameOthers : ℕ → SchedInstance → SchedInstance → Type 0
SameOthers level s t = (k : ℕ) → k ≢ level → get_elem? t.levels k ≡ get_elem? s.levels k

natural_part : (x : ℤ) (i : ℕ) → natural x ≡ some i → pos_part x ≡ i
natural_part (pos n) i e = some-injective _ _ e
natural_part (negsuc n) i e = cc

insert_reaction-Unmoved :
    (r level : ℕ) (s t : SchedInstance)
    → insert_reaction r level s ≡ some t
    → AreLevels s.levels
    → Unmoved s t × SameOthers level s t × (t.reactions ≡ s.reactions)
unfolding insert_reaction AreLevels
insert_reaction-Unmoved r level s t e h =
    let (l, found, e1) = >>=-eq-some (get_elem? s.levels level) _ e in
    let (i, natural', e2) = >>=-eq-some (natural l.index) _ e1 in
    let (row, stored, e3) = >>=-eq-some (store l.row i (some r)) _ e2 in
    let (old, read, e4) = >>=-eq-some (get_elem? l.row i) _ stored in
    let (fills, small) = h level l found in
    let part : pos_part l.index ≡ i = natural_part l.index i natural' in
    let row' : set l.row i (some r) ≡ row = some-injective _ _ e4 in
    let fills' : Filled row (suc i) =
      subst (λ (x : List (Option ℕ)). Filled x (suc i)) row'
        (Filled-insert l.row i r old (subst (Filled l.row) part fills) read) in
    let size : length row ≡ length l.row =
      subst (λ (x : List (Option ℕ)). length x ≡ length l.row) row' (length-set l.row i (some r)) in
    let new : Level = record { row = row; index = pos (i + 1) } in
    let one : i + 1 ≡ suc i = omega arith in
    let new' : IsLevel new = (subst (Filled row) (sym one) fills', omega arith) in
    let u : Unmoved s (put_level level new s) = record {
      rows = set-AreLevels s.levels level new h new';
      executing_same = refl;
      next = refl;
      max = refl;
      workers = refl;
      idle = refl;
      permits = refl;
      stop = refl;
    } in
    (
      Unmoved-to s _ t e3 u,
      subst (SameOthers level s) (some-injective _ _ e3)
          (λ k ne. get_elem?-set_ne s.levels new (λ p. ne (sym p))),
      subst (λ (v : SchedInstance). v.reactions ≡ s.reactions) (some-injective _ _ e3) refl,
    )

-- the reactions keep their levels
abbrev pub SameLevels : SchedInstance → SchedInstance → Type 0
SameLevels s t =
    (i : ℕ) (r : Reaction)
    → get_elem? t.reactions i ≡ some r
    → (r' : Reaction) × (get_elem? s.reactions i ≡ some r') × (r'.level ≡ r.level)

-- what triggering a reaction of a level changes
record Triggered (level : ℕ) (s t : SchedInstance) : Type 0 where
  unmoved : Unmoved s t
  others : SameOthers level s t
  levels : SameLevels s t

Triggered-refl : (level : ℕ) (s : SchedInstance) → AreLevels s.levels → Triggered level s s
Triggered-refl level s h = record {
  unmoved = Unmoved-refl s h;
  others = λ k ne. refl;
  levels = λ i r e. (r, e, refl);
}

Triggered-to :
    (level : ℕ) (s t u : SchedInstance)
    → some t ≡ some u
    → Triggered level s t
    → Triggered level s u
Triggered-to level s t u e h = subst (Triggered level s) (some-injective _ _ e) h

trigger_as-Triggered :
    (status : Status) (r : ℕ) (x : Reaction) (s t : SchedInstance)
    → get_elem? s.reactions r ≡ some x
    → trigger_as status r x s ≡ some t
    → AreLevels s.levels
    → Triggered x.level s t
unfolding trigger_as
trigger_as-Triggered inactive r x s t found e h =
    let new : Reaction = record x { status = queued } in
    let mid : SchedInstance = record s { reactions = set s.reactions r new } in
    let (u, others, same) = insert_reaction-Unmoved r x.level mid t e h in
    record {
      unmoved = record {
        rows = u.rows;
        executing_same = u.executing_same;
        next = u.next;
        max = u.max;
        workers = u.workers;
        idle = u.idle;
        permits = u.permits;
        stop = u.stop;
      };
      others = others;
      levels = λ i y read.
          let read' = subst (λ (l : List Reaction). get_elem? l i ≡ some y) same read in
          elim (get_elem?-set_inv s.reactions r i new y read') [
            | inl (p, q) ↦ (x, rw (← p) found, ap (λ (z : Reaction). z.level) (sym q))
            | inr (p, q) ↦ (y, q, refl)
          ];
    }
trigger_as-Triggered queued r x s t found e h =
    Triggered-to x.level s s t e (Triggered-refl x.level s h)
trigger_as-Triggered running r x s t found e h =
    Triggered-to x.level s s t e (Triggered-refl x.level s h)

pub trigger_all-Unmoved :
    (rs : List ℕ) (s t : SchedInstance)
    → trigger_all rs s ≡ some t
    → AreLevels s.levels
    → Unmoved s t
unfolding trigger_all trigger_reaction
trigger_all-Unmoved [] s t e h = Unmoved-to s s t e (Unmoved-refl s h)
trigger_all-Unmoved (r ∷ rs) s t e h =
    let (mid, first, rest) = >>=-eq-some (trigger_reaction r s) _ e in
    let (x, found, e1) = >>=-eq-some (get_elem? s.reactions r) _ first in
    let u = (trigger_as-Triggered x.status r x s mid found e1 h).unmoved in
    Unmoved-trans s mid t u (trigger_all-Unmoved rs mid t rest u.rows)

AreFrom-SameLevels :
    (low : ℕ) (s t : SchedInstance) (rs : List ℕ)
    → SameLevels s t
    → AreFrom low s.reactions rs
    → AreFrom low t.reactions rs
AreFrom-SameLevels low s t [] same h = tt
AreFrom-SameLevels low s t (r ∷ rs) same h = (
  λ x e. let (x', e', p) = same r x e in let le = h.0 x' e' in omega arith,
  AreFrom-SameLevels low s t rs same h.1,
)

-- reactions of later levels leave the earlier rows alone
pub trigger_all_later :
    (low k : ℕ) (rs : List ℕ) (s t : SchedInstance)
    → k < low
    → AreFrom low s.reactions rs
    → trigger_all rs s ≡ some t
    → AreLevels s.levels
    → get_elem? t.levels k ≡ get_elem? s.levels k
unfolding trigger_all trigger_reaction
trigger_all_later low k [] s t lt from e h =
    ap (λ (v : SchedInstance). get_elem? v.levels k) (sym (some-injective _ _ e))
trigger_all_later low k (r ∷ rs) s t lt from e h =
    let (mid, first, rest) = >>=-eq-some (trigger_reaction r s) _ e in
    let (x, found, e1) = >>=-eq-some (get_elem? s.reactions r) _ first in
    let d = trigger_as-Triggered x.status r x s mid found e1 h in
    let le = from.0 x found in
    trigger_all_later low k rs mid t lt (AreFrom-SameLevels low s mid rs d.levels from.1) rest
      d.unmoved.rows
    ∙ d.others k (λ p. omega arith)
