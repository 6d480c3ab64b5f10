-- ===== src/Pqueue/Fill.antt =====
-- The cell of an element that leaves, filled with the last element (core/utils/pqueue.c).
use native.Mathlib.Decide.{ℕ_discrete}
use schedule_test_manual.Base.{
  ℕ, ◌+◌, ◌-◌, ◌/◌, ◌≡◌, ◌≤◌, ◌<◌, arith, ◌==◌, if◌then◌else◌, set, sym, ap,
}
use schedule_test_manual.Pqueue.{Cells, Pqueue, at}
use schedule_test_manual.Pqueue.Views.{at-set, occurs, occurs-agree, occurs-change}
use schedule_test_manual.Pqueue.Up.{UpInv}
use schedule_test_manual.Pqueue.Down.{DownInv}
use schedule_test_manual.Pqueue.Positions.{Away}
use schedule_test_manual.Pqueue.Insert.{count, IsQueue, occurs-suc}

-- the array once the last element stands at `i`
abbrev pub filled : Pqueue → ℕ → Cells
filled q i = record { d = set q.cells.d i (at q.cells.d (q.size - 1)); pos = q.cells.pos }

pub filled-DownInv :
    (pri : ℕ → ℕ) (q : Pqueue) (i : ℕ)
    → IsQueue pri q
    → 0 < i
    → i < q.size
    → (1 < i → pri (at q.cells.d i) ≤ pri (at q.cells.d (q.size - 1)))
    → DownInv pri (at (filled q i).d) (q.size - 1) i
filled-DownInv pri q i valid p b after =
    let fits = valid.fits in
    let a = λ (c : ℕ). at-set q.cells.d i (at q.cells.d (q.size - 1)) c (omega arith) in
    let heap = valid.heap in
    record {
      edges = λ c r s ne. ground (arith, a c, a (c / 2), heap c r (omega arith));
      bridged = λ c r s e f. ground (arith, a c, a (i / 2), heap c r (omega arith), heap i f b);
    }

pub filled-UpInv :
    (pri : ℕ → ℕ) (q : Pqueue) (i : ℕ)
    → IsQueue pri q
    → 0 < i
    → i < q.size
    → pri (at q.cells.d (q.size - 1)) < pri (at q.cells.d i)
    → UpInv pri (at (filled q i).d) (q.size - 1) i
filled-UpInv pri q i valid p b before =
    let fits = valid.fits in
    let a = λ (c : ℕ). at-set q.cells.d i (at q.cells.d (q.size - 1)) c (omega arith) in
    let heap = valid.heap in
    record {
      edges = λ c r s ne. ground (arith, a c, a (c / 2), heap c r (omega arith));
      bridged = λ c r s e f. ground (arith, a c, a (i / 2), heap c r (omega arith), heap i f b);
    }

pub filled-Away :
    (pri : ℕ → ℕ) (q : Pqueue) (i : ℕ)
    → IsQueue pri q
    → 0 < i
    → i < q.size
    → Away (filled q i) (q.size - 1) i (at (filled q i).d i)
filled-Away pri q i valid p0 b0 c p r ne =
    let fits = valid.fits in
    let last = q.size - 1 in
    let a = at-set q.cells.d i (at q.cells.d last) c (omega arith) in
    let b = at-set q.cells.d i (at q.cells.d last) i (omega arith) in
    let f = valid.placed c p (omega arith) in
    let g = valid.placed last (omega arith) (omega arith) in (ground arith, ground arith)

pub filled-takes :
    (pri : ℕ → ℕ) (q : Pqueue) (i : ℕ)
    → IsQueue pri q
    → 0 < i
    → i < q.size
    → (x : ℕ)
    → count x q
      ≡ occurs x (at (filled q i).d) (q.size - 1 - 1) + (if at q.cells.d i == x then 1 else 0)
filled-takes pri q i valid p r x =
    let fits = valid.fits in
    let last = q.size - 1 in
    let d = q.cells.d in
    let a = λ (c : ℕ). at-set d i (at d last) c (omega arith) in
    let split = occurs-suc x last (at d) (omega arith) in
    elim (ℕ_discrete i last) [
      | yes end ↦
          let rest =
            occurs-agree x (last - 1) (at (filled q i).d) (at d)
              (λ c s t. let b = a c in ground arith) in
          let same : at d last ≡ at d i = ap (at d) (sym end) in ground arith
      | no more ↦
          let change =
            occurs-change x (last - 1) i (at (filled q i).d) (at d) p (omega arith)
              (λ c ne. let b = a c in ground arith) in
          let b = a i in ground arith
    ]
