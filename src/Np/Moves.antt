-- ===== src/Np/Moves.antt =====
-- core/threaded/scheduler_NP.c and scheduler_sync_tag_advance.c: what taking a reaction, and advancing
-- to the next level or tag, do to the rows and to the counters.
use mathlib.Core.Path.{subst}
use mathlib.Core.Option.{some-injective}
use schedule_test_manual.Base.{
  ℕ, zero, suc, ◌≡◌, ◌<◌, refl, sym, ap, ◌∙◌, Option, none, some, List, length, get_elem?, set, inl,
  inr, arith, length-set, get_elem?-set_inv, get_elem?-set_ne,
}
use schedule_test_manual.Base.Int.{ℤ, pos, negsuc, pos_part, ◌+ℤ◌}
use schedule_test_manual.Rti.{>>=-eq-some}
use schedule_test_manual.Fs.{Status, inactive, queued, running}
use schedule_test_manual.Np.{
  Reaction, Level, SchedInstance, put_level, before, done_as, take_at, done_with_reaction,
  pop_reaction, reset_index,
}
use schedule_test_manual.Np.Rows.{Filled, Filled-take, IsLevel, AreLevels, set-AreLevels}
use schedule_test_manual.Np.Effects.{Unmoved}

-- the current level has no reaction to take
unfoldable pub IsDry : SchedInstance → Type 0
IsDry s = (l : Level) → get_elem? s.levels s.executing_reactions ≡ some l → pos_part l.index ≡ 0

pub done-Unmoved :
    (r : ℕ) (s t : SchedInstance)
    → done_with_reaction r s ≡ some t
    → AreLevels s.levels
    → Unmoved s t × (t.levels ≡ s.levels)
unfolding done_with_reaction done_as
done-Unmoved r s t e h =
    let (x, found, e1) = >>=-eq-some (get_elem? s.reactions r) _ e in at_status x.status x e1
  where
    at_status :
        (status : Status) (x : Reaction)
        → done_as status r x s ≡ some t
        → Unmoved s t × (t.levels ≡ s.levels)
    at_status queued x e1 =
        let new : SchedInstance = record s {
          reactions = set s.reactions r (record x { status = inactive });
        } in
        let u : Unmoved s new × (new.levels ≡ s.levels) = (
          record {
            rows = h;
            executing_same = refl;
            next = refl;
            max = refl;
            workers = refl;
            idle = refl;
            permits = refl;
            stop = refl;
          },
          refl,
        ) in
        subst (λ (v : SchedInstance). Unmoved s v × (v.levels ≡ s.levels)) (some-injective _ _ e1) u
    at_status inactive x e1 = cc
    at_status running x e1 = cc

-- a row of the instance changes to one that is as it should be
pub put_level-Unmoved :
    (s : SchedInstance) (i : ℕ) (l : Level)
    → AreLevels s.levels
    → IsLevel l
    → Unmoved s (put_level i l s)
put_level-Unmoved s i l h one = record {
  rows = set-AreLevels s.levels i l h one;
  executing_same = refl;
  next = refl;
  max = refl;
  workers = refl;
  idle = refl;
  permits = refl;
  stop = refl;
}

low_negsuc : (x : ℤ) (n : ℕ) → negsuc n ≡ x +ℤ negsuc 0 → pos_part x ≡ 0
unfolding ◌+ℤ◌
low_negsuc x n e = ground arith

low_pos : (x : ℤ) (i : ℕ) → pos i ≡ x +ℤ negsuc 0 → pos_part x ≡ suc i
unfolding ◌+ℤ◌
low_pos x i e = ground arith

-- a row changes twice
set_twice-AreLevels :
    (levels : List Level) (i : ℕ) (a b : Level)
    → AreLevels levels
    → IsLevel b
    → AreLevels (set (set levels i a) i b)
unfolding AreLevels
set_twice-AreLevels levels i a b h one j l e = elim (get_elem?-set_inv (set levels i a) i j b l e) [
  | inl (p, q) ↦ subst IsLevel (sym q) one
  | inr (ne, q) ↦ h j l (sym (get_elem?-set_ne levels a ne) ∙ q)
]

pub before_eq : (n k i : ℕ) → before n ≡ some k → n ≡ suc i → k ≡ i
before_eq zero k i b e = cc
before_eq (suc n) k i b e = let p : n ≡ k = some-injective _ _ b in omega arith

-- what taking a reaction does
abbrev pub Took : SchedInstance → Option ℕ → SchedInstance → Type 0
Took s r t = Unmoved s t × (r ≡ none → IsDry t) × (IsDry s → IsDry t)

take_at-Took :
    (s t : SchedInstance) (current : ℕ) (l : Level) (index : ℤ) (r : Option ℕ)
    → AreLevels s.levels
    → current ≡ s.executing_reactions
    → get_elem? s.levels current ≡ some l
    → index ≡ l.index +ℤ negsuc 0
    → take_at index (put_level current (record l { index = index }) s) ≡ some (r, t)
    → Took s r t
unfolding take_at AreLevels IsDry
take_at-Took s t current l (negsuc n) r h at found low e =
    let empty : pos_part l.index ≡ 0 = low_negsuc l.index n low in
    let new : Level = record l { index = negsuc n } in
    let (fills, small) = h current l found in
    let one : IsLevel new = (subst (Filled l.row) empty fills, small) in
    let m : SchedInstance = put_level current new s in
    let dry : IsDry m = λ l' e'.
      elim (get_elem?-set_inv s.levels current s.executing_reactions new l' e') [
        | inl (p, q) ↦ ap (λ (z : Level). pos_part z.index) q
        | inr (ne, q) ↦ absurd (ne at)
      ] in
    let whole : Took s none m = (put_level-Unmoved s current new h one, (λ p. dry), λ p. dry) in
    subst (λ (z : Option ℕ × SchedInstance). Took s z.0 z.1) (some-injective _ _ e) whole
take_at-Took s t current l (pos i) r h at found low e =
    let new : Level = record l { index = pos i } in
    let m : SchedInstance = put_level current new s in
    let (l', found', e1) =
      >>=-eq-some (get_elem? (set s.levels current new) s.executing_reactions) _ e in
    let (cell, read, e2) = >>=-eq-some (get_elem? l'.row i) _ e1 in
    let same : l' ≡ new = elim (get_elem?-set_inv s.levels current _ new l' found') [
      | inl (p, q) ↦ q
      | inr (ne, q) ↦ absurd (ne at)
    ] in
    let (fills, small) = h current l found in
    let ((x, there), left) =
      Filled-take l.row i (subst (Filled l.row) (low_pos l.index i low) fills) in
    let row' : l'.row ≡ l.row = ap (λ (z : Level). z.row) same in
    let cell' : cell ≡ some x =
      some-injective _ _ (sym read ∙ ap (λ (z : List (Option ℕ)). get_elem? z i) row' ∙ there) in
    let new2 : Level = record l' { row = set l'.row i none } in
    let one : IsLevel new2 = (
      subst (Filled (set l'.row i none)) (sym (ap (λ (z : Level). pos_part z.index) same))
          (subst (λ (z : List (Option ℕ)). Filled (set z i none) i) (sym row') left),
      subst (λ (z : List (Option ℕ)). length (set z i none) < 2147483648) (sym row')
          (omega (arith, length-set l.row i none)),
    ) in
    let full : get_elem? s.levels s.executing_reactions ≡ some l =
      subst (λ (k : ℕ). get_elem? s.levels k ≡ some l) at found in
    let end : SchedInstance = put_level s.executing_reactions new2 m in
    let rows : AreLevels end.levels =
      subst (λ (k : ℕ). AreLevels (set (set s.levels k new) s.executing_reactions new2)) (sym at)
        (set_twice-AreLevels s.levels s.executing_reactions new new2 h one) in
    let whole : Took s cell end = (
      record {
        rows = rows;
        executing_same = refl;
        next = refl;
        max = refl;
        workers = refl;
        idle = refl;
        permits = refl;
        stop = refl;
      },
      (λ p. cc),
      λ dry. let z = dry l full in let w = low_pos l.index i low in absurd (omega arith),
    ) in
    subst (λ (z : Option ℕ × SchedInstance). Took s z.0 z.1) (some-injective _ _ e2) whole

pub pop_reaction-Took :
    (s t : SchedInstance) (r : Option ℕ)
    → pop_reaction s ≡ some (r, t)
    → AreLevels s.levels
    → s.next_reaction_level ≡ suc s.executing_reactions
    → Took s r t
unfolding pop_reaction
pop_reaction-Took s t r e h nx =
    let (current, b, e1) = >>=-eq-some (before s.next_reaction_level) _ e in
    let (l, found, e2) = >>=-eq-some (get_elem? s.levels current) _ e1 in
    take_at-Took s t current l (l.index +ℤ negsuc 0) r h
      (before_eq s.next_reaction_level current s.executing_reactions b nx) found refl e2

pub reset_index-Unmoved :
    (s t : SchedInstance)
    → reset_index s ≡ some t
    → AreLevels s.levels
    → s.next_reaction_level ≡ suc s.executing_reactions
    → IsDry s
    → Unmoved s t
unfolding reset_index AreLevels IsDry
reset_index-Unmoved s t e h nx dry =
    let (current, b, e1) = >>=-eq-some (before s.next_reaction_level) _ e in
    let (l, found, e2) = >>=-eq-some (get_elem? s.levels current) _ e1 in
    let at = before_eq s.next_reaction_level current s.executing_reactions b nx in
    let new : Level = record l { index = pos 0 } in
    let (fills, small) = h current l found in
    let empty : pos_part l.index ≡ 0 =
      dry l (subst (λ (k : ℕ). get_elem? s.levels k ≡ some l) at found) in
    let one : IsLevel new = (subst (Filled l.row) empty fills, small) in
    subst (Unmoved s) (some-injective _ _ e2) (put_level-Unmoved s current new h one)
