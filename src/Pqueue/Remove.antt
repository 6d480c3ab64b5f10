-- ===== src/Pqueue/Remove.antt =====
-- pqueue_remove of core/utils/pqueue.c.
use schedule_test_manual.Base.{
  ℕ, ◌+◌, ◌-◌, ◌≡◌, ◌≢◌, ◌≤◌, ◌<◌, false, arith, ltb, ◌==◌, if◌then◌else◌, length, length-set,
  Bool-cases, inl, inr, ◌∙◌, sym, ap,
}
use schedule_test_manual.Pqueue.{Cells, Pqueue, at, bubble_up, percolate_down, pqueue_remove}
use schedule_test_manual.Pqueue.Views.{at-set}
use schedule_test_manual.Pqueue.Up.{by_priority, Restored, bubble_up-Restored}
use schedule_test_manual.Pqueue.Down.{percolate_down-Restored}
use schedule_test_manual.Pqueue.Positions.{Placed, bubble_up-Placed, percolate_down-Placed}
use schedule_test_manual.Pqueue.Insert.{count, IsQueue, occurs-somewhere}
use schedule_test_manual.Pqueue.Fill.{
  filled, filled-DownInv, filled-UpInv, filled-Away, filled-takes,
}

-- a queue that holds what `q` holds, less one `e`
pub record Removed (pri : ℕ → ℕ) (q : Pqueue) (e : ℕ) (r : Pqueue) : Type 0 where
  pub queue : IsQueue pri r
  pub takes : (x : ℕ) → count x q ≡ count x r + (if e == x then 1 else 0)

-- the array that either loop leaves makes such a queue
removed :
    (pri : ℕ → ℕ) (q : Pqueue) (i e : ℕ) (r : Cells)
    → at q.cells.d i ≡ e
    → IsQueue pri q
    → 0 < i
    → i < q.size
    → 1 < q.size
    → Restored pri (at (filled q i).d) (q.size - 1) (length (filled q i).d) r
    → Placed r (q.size - 1)
    → Removed pri q e (record q { cells = r; size = q.size - 1 })
removed pri q i e r is valid p b big good placed =
    let fits = valid.fits in
    let long = good.cells in
    let size = length-set q.cells.d i (at q.cells.d (q.size - 1)) in
    record {
      queue = record {
        started = omega arith;
        fits = omega arith;
        allocated = long ∙ size ∙ valid.allocated;
        grows = valid.grows;
        heap = good.heap;
        placed = placed;
      };
      takes = λ x. let t = filled-takes pri q i valid p b x in let g = good.items x in ground arith;
    }

-- where the element stands, by the index that it stores
locate :
    (pri : ℕ → ℕ) (q : Pqueue) (e : ℕ)
    → IsQueue pri q
    → 0 < count e q
    → (0 < q.cells.pos e) × (q.cells.pos e < q.size) × (at q.cells.d (q.cells.pos e) ≡ e)
locate pri q e valid here =
    let s = occurs-somewhere e (q.size - 1) (at q.cells.d) here in
    let c = s.0 in
    let p = s.1 in
    let b = s.2 in
    let g = s.3 in
    let started = valid.started in
    let f : q.cells.pos e ≡ c = sym (ap q.cells.pos g) ∙ valid.placed c p (omega arith) in
    rw f (p, omega arith, g)

-- Removing an element that is in the queue leaves a queue (a heap, inside its array, each element
-- knowing its index) that holds the others, whether the element that fills its cell moves up or down.
pub pqueue_remove_takes :
    (pri : ℕ → ℕ) (q : Pqueue) (e : ℕ)
    → IsQueue pri q
    → 0 < count e q
    → Removed pri q e (pqueue_remove (by_priority pri) q e)
unfolding pqueue_remove
pqueue_remove_takes pri q e valid here =
    let l = locate pri q e valid here in
    let p = l.0 in
    let b = l.1 in
    let i = q.cells.pos e in
    let last = q.size - 1 in
    let fits = valid.fits in
    let big : 1 < q.size = omega arith in
    let many : (q.size == 1) ≡ false = ground arith in
    let s = at-set q.cells.d i (at q.cells.d last) i (omega arith) in
    let h = filled q i in
    let top : at h.d i ≡ at q.cells.d last = ground arith in
    let size = length-set q.cells.d i (at q.cells.d last) in
    let is : at q.cells.d i ≡ e = l.2 in
    let away = filled-Away pri q i valid p b in
    let same : pri (at h.d i) ≡ pri (at q.cells.d last) = ap pri top in
    let itself : pri (at q.cells.d i) ≡ pri e = ap pri is in
    rw many (elim (Bool-cases (ltb (pri (at h.d i)) (pri e))) [
      | inl before ↦
          let less : pri (at q.cells.d last) < pri (at q.cells.d i) = ground arith in
          let inner : i ≢ last = λ f. let g = ap (λ k. pri (at q.cells.d k)) f in omega arith in
          rw before (
            removed pri q i e (bubble_up (by_priority pri) h i) is valid p b big
              (bubble_up-Restored pri last h i p (omega arith) (omega arith)
                (filled-UpInv pri q i valid p b less))
              (bubble_up-Placed (by_priority pri) last h i p (omega arith) (omega arith) away))
      | inr after ↦
          let more : pri (at q.cells.d i) ≤ pri (at q.cells.d last) = ground arith in
          rw after (
            removed pri q i e (percolate_down (by_priority pri) last h i) is valid p b big
              (percolate_down-Restored pri last h i p (omega arith) (omega arith)
                (filled-DownInv pri q i valid p b (λ _. more)))
              (percolate_down-Placed (by_priority pri) last h i p (omega arith) (omega arith) away))
    ])
