-- ===== src/Pqueue/Pour.antt =====
-- pqueue_empty_into of core/utils/pqueue.c: one queue is poured into the other.
use mathlib.Core.Path.{subst}
use mathlib.Core.Option.{some-injective}
use native.Mathlib.Decide.{ℕ_discrete}
use schedule_test_manual.Base.{
  if◌then◌else◌, ℕ, zero, suc, ◌+◌, ◌-◌, ◌≡◌, ◌≤◌, ◌<◌, refl, sym, ◌∙◌, Option, none, some, ◌==◌,
  inl, inr, ap, arith, if_true, if_false, Bool-cases, leb,
}
use schedule_test_manual.Pqueue.{
  Pqueue, Order, pqueue_size, pqueue_pop, pqueue_insert, pour, pour_item, pqueue_empty_into,
}
use schedule_test_manual.Pqueue.Views.{occurs}
use schedule_test_manual.Pqueue.Up.{by_priority}
use schedule_test_manual.Pqueue.Insert.{IsQueue, count, pqueue_insert_adds}
use schedule_test_manual.Pqueue.Pop.{pqueue_pop_least}

-- a queue that holds nothing
abbrev pub IsEmpty : Pqueue → Type 0
IsEmpty q = (x : ℕ) → count x q ≡ 0

pub empty_of_size : (q : Pqueue) → q.size ≡ 1 → IsEmpty q
unfolding occurs
empty_of_size q e x = rw e refl

pub pop-empty_lem : (o : Order) (q : Pqueue) → q.size ≡ 1 → pqueue_pop o q ≡ (none, q)
unfolding pqueue_pop
pop-empty_lem o q e = if_true (q.size == 1) (none, q) _ (ground arith)

pub pop_size : (o : Order) (q : Pqueue) → 0 < pqueue_size q → (pqueue_pop o q).1.size ≡ q.size - 1
unfolding pqueue_pop pqueue_size
pop_size o q h =
    ap (λ (r : Option ℕ × Pqueue). r.1.size) (if_false (q.size == 1) (none, q) _ (ground arith))

pub insert_size : (o : Order) (q : Pqueue) (e : ℕ) → (pqueue_insert o q e).size ≡ q.size + 1
unfolding pqueue_insert
insert_size o q e = refl

-- what pouring leaves: the first queue empty, the other with the elements of both
pub record Poured (pri : ℕ → ℕ) (from to : Pqueue) (r : Pqueue × Pqueue) : Type 0 where
  pub drained : IsEmpty r.0
  pub drained_queue : IsQueue pri r.0
  pub filled_queue : IsQueue pri r.1
  pub holds : (x : ℕ) → count x r.1 ≡ count x from + count x to

pour_item-none :
    (o : Order) (next : Pqueue → Pqueue → Pqueue × Pqueue) (from to : Pqueue)
    → pour_item o next (none, from) to ≡ (from, to)
pour_item-none o next from to = refl

pour_item-some :
    (o : Order) (next : Pqueue → Pqueue → Pqueue × Pqueue) (p : Option ℕ × Pqueue) (to : Pqueue)
    (x : ℕ)
    → p.0 ≡ some x
    → 0 < x
    → pour_item o next p to ≡ next p.1 (pqueue_insert o to x)
pour_item-some o next (none, from) to x e lt = cc
pour_item-some o next (some zero, from) to x e lt =
    let same : 0 ≡ x = some-injective _ _ e in absurd (omega arith)
pour_item-some o next (some (suc y), from) to x e lt =
    let same : suc y ≡ x = some-injective _ _ e in rw (← same) refl

nothing_left :
    (pri : ℕ → ℕ) (from to : Pqueue)
    → IsQueue pri from
    → IsQueue pri to
    → from.size ≡ 1
    → Poured pri from to (from, to)
nothing_left pri from to a b e = record {
  drained = empty_of_size from e;
  drained_queue = a;
  filled_queue = b;
  holds = λ x. let z = empty_of_size from e x in omega arith;
}

pub pour-Poured :
    (pri : ℕ → ℕ) (fuel : ℕ) (from to : Pqueue)
    → IsQueue pri from
    → IsQueue pri to
    → ((x : ℕ) → count x from + count x to ≤ 1)
    → count 0 from ≡ 0
    → pqueue_size from ≤ fuel
    → Poured pri from to (pour (by_priority pri) fuel from to)
unfolding pour pqueue_size
pour-Poured pri zero from to a b once null h =
    let started = a.started in nothing_left pri from to a b (omega arith)
pour-Poured pri (suc fuel) from to a b once null h =
    let o = by_priority pri in
    let started = a.started in
    elim (Bool-cases (from.size == 1)) [
      | inl e ↦
          let e' : from.size ≡ 1 = ground arith in
          subst (Poured pri from to)
            (sym (ap (λ p. pour_item o (pour o fuel) p to) (pop-empty_lem o from e')))
            (nothing_left pri from to a b e')
      | inr e ↦
          let more : 0 < pqueue_size from = ground arith in
          let p = pqueue_pop_least pri from a more in
          let rest = (pqueue_pop o from).1 in
          let size = pop_size o from more in
          let taken : count p.top from ≡ count p.top rest + (if p.top == p.top then 1 else 0) =
            p.takes p.top in
          let rest_null : count 0 rest ≡ 0 = (let t = p.takes 0 in omega arith) in
          let all = once p.top in
          let no_null : 0 < p.top = elim (ℕ_discrete p.top 0) [
            | yes z ↦
                (let t =
                    subst (λ (k : ℕ). count k from ≡ count k rest + (if k == k then 1 else 0)) z
                      taken in
                  absurd (ground arith))
            | no nz ↦ omega arith
          ] in
          let i = pqueue_insert_adds pri to p.top b (ground arith) in
          let to' = pqueue_insert o to p.top in
          let moved : (x : ℕ) → count x rest + count x to' ≡ count x from + count x to =
            λ x. let t = p.takes x in let a' = i.adds x in omega arith in
          let ih =
            pour-Poured pri fuel rest to' p.queue i.queue
              (λ x. let m = moved x in let le = once x in omega arith) rest_null (omega arith) in
          subst (Poured pri from to)
            (sym (pour_item-some o (pour o fuel) (pqueue_pop o from) to p.top p.given no_null))
            (record {
              drained = ih.drained;
              drained_queue = ih.drained_queue;
              filled_queue = ih.filled_queue;
              holds = λ x. ih.holds x ∙ moved x;
            })
    ]

-- Emptying a queue into another, whichever of the two is larger, leaves queues (heaps, inside their
-- arrays, each element knowing its index) of which the source holds nothing and the destination holds
-- what both held, if the two hold no element twice and do not hold NULL.
pub pqueue_empty_into-Poured :
    (pri : ℕ → ℕ) (dest src : Pqueue)
    → IsQueue pri dest
    → IsQueue pri src
    → ((x : ℕ) → count x dest + count x src ≤ 1)
    → count 0 dest + count 0 src ≡ 0
    → let r = pqueue_empty_into (by_priority pri) dest src in Poured pri src dest (r.1, r.0)
unfolding pqueue_empty_into
pqueue_empty_into-Poured pri dest src a b once null = elim (Bool-cases (leb src.size dest.size)) [
  | inl e ↦ rw e (
      pour-Poured pri (pqueue_size src) src dest b a (λ x. let l = once x in omega arith)
        (omega arith) (omega arith))
  | inr e ↦
      let p = pour-Poured pri (pqueue_size dest) dest src a b once (omega arith) (omega arith) in
      rw e (record {
        drained = p.drained;
        drained_queue = p.drained_queue;
        filled_queue = p.filled_queue;
        holds = λ x. let h = p.holds x in omega arith;
      })
]
