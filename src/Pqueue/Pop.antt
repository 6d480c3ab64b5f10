-- ===== src/Pqueue/Pop.antt =====
-- pqueue_pop of core/utils/pqueue.c.
use native.Mathlib.Decide.{ℕ_discrete}
use schedule_test_manual.Base.{
  ℕ, zero, suc, ◌+◌, ◌-◌, ◌/◌, ◌≡◌, ◌≤◌, ◌<◌, false, Option, some, arith, refl, ◌==◌, if◌then◌else◌,
  length-set, ◌∙◌, sym, ap,
}
use schedule_test_manual.Pqueue.{Pqueue, at, pqueue_pop, pqueue_size}
use schedule_test_manual.Pqueue.Up.{by_priority, IsHeap}
use schedule_test_manual.Pqueue.Down.{percolate_down-Restored}
use schedule_test_manual.Pqueue.Positions.{percolate_down-Placed}
use schedule_test_manual.Pqueue.Fill.{filled, filled-DownInv, filled-Away, filled-takes}
use schedule_test_manual.Pqueue.Insert.{occurs-somewhere, count, IsQueue}

-- in a heap, the root comes first
pub root_least :
    (pri : ℕ → ℕ) (v : ℕ → ℕ) (n : ℕ)
    → IsHeap pri v n
    → (fuel c : ℕ) → c ≤ fuel
    → 0 < c
    → c < n
    → pri (v 1) ≤ pri (v c)
root_least pri v n heap zero c f p q = absurd (omega arith)
root_least pri v n heap (suc fuel) c f p q = elim (ℕ_discrete c 1) [
  | yes e ↦ ground arith
  | no ne ↦
      let above = root_least pri v n heap fuel (c / 2) (omega arith) (omega arith) (omega arith) in
      let edge = heap c (omega arith) q in omega arith
]

-- what pqueue_pop gives on a queue that is not empty
pub record Popped (pri : ℕ → ℕ) (q : Pqueue) (r : Option ℕ × Pqueue) : Type 0 where
  pub top : ℕ
  pub given : r.0 ≡ some top
  pub least : (x : ℕ) → 0 < count x q → pri top ≤ pri x
  pub queue : IsQueue pri r.1
  pub takes : (x : ℕ) → count x q ≡ count x r.1 + (if top == x then 1 else 0)

-- Popping a queue that is not empty gives an element that comes first among those it holds, and leaves a
-- queue (a heap, inside its array, each element knowing its index) that holds the others.
pub pqueue_pop_least :
    (pri : ℕ → ℕ) (q : Pqueue)
    → IsQueue pri q
    → 0 < pqueue_size q
    → Popped pri q (pqueue_pop (by_priority pri) q)
unfolding pqueue_pop pqueue_size
pqueue_pop_least pri q valid some' =
    let fits = valid.fits in
    let big : 1 < q.size = omega arith in
    let size = length-set q.cells.d 1 (at q.cells.d (q.size - 1)) in
    let down =
      percolate_down-Restored pri (q.size - 1) (filled q 1) 1 (omega arith) (omega arith)
        (omega arith)
        (filled-DownInv pri q 1 valid (omega arith) big (λ c. absurd (omega arith))) in
    let long = down.cells in
    let many : (q.size == 1) ≡ false = ground arith in
    rw many (record {
      top = at q.cells.d 1;
      given = refl;
      least = λ x c.
          let s = occurs-somewhere x (q.size - 1) (at q.cells.d) c in
          let i = s.0 in
          let i0 = s.1 in
          let i1 = s.2 in
          let l =
            root_least pri (at q.cells.d) q.size valid.heap i i (omega arith) i0 (omega arith) in
          let e = s.3 in ground arith;
      queue = record {
        started = omega arith;
        fits = omega arith;
        allocated = long ∙ size ∙ valid.allocated;
        grows = valid.grows;
        heap = down.heap;
        placed =
            percolate_down-Placed (by_priority pri) (q.size - 1) (filled q 1) 1 (omega arith)
              (omega arith) (omega arith) (filled-Away pri q 1 valid (omega arith) big);
      };
      takes = λ x.
          let i = down.items x in
          let t = filled-takes pri q 1 valid (omega arith) big x in
          t ∙ ap (λ k. k + (if at q.cells.d 1 == x then 1 else 0)) (sym i);
    })
