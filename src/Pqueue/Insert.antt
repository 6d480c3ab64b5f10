-- ===== src/Pqueue/Insert.antt =====
-- pqueue_init and pqueue_insert of core/utils/pqueue.c.
use native.Mathlib.Decide.{ℕ_discrete}
use schedule_test_manual.Base.{
  ℕ, zero, suc, ◌+◌, ◌-◌, ◌/◌, ◌≡◌, ◌≢◌, ◌≤◌, ◌<◌, List, [], ◌∷◌, ◌++◌, arith, refl, leb, ◌==◌,
  if◌then◌else◌, length, set, replicate, length-replicate, length-append, length-set, Bool-cases,
  inl, inr, ◌∙◌, sym,
}
use schedule_test_manual.Pqueue.{Cells, Pqueue, at, bubble_up, pqueue_insert, pqueue_init}
use schedule_test_manual.Pqueue.Views.{at-set, occurs, occurs-agree}
use schedule_test_manual.Pqueue.Up.{by_priority, IsHeap, UpInv, bubble_up-Restored}
use schedule_test_manual.Pqueue.Positions.{Placed, bubble_up-Placed}

-- how often `x` is in the queue
abbrev pub count : ℕ → Pqueue → ℕ
count x q = occurs x (at q.cells.d) (q.size - 1)

-- a queue in the order of the priorities `pri`, whose elements are distinct and know their positions
pub record IsQueue (pri : ℕ → ℕ) (q : Pqueue) : Type 0 where
  pub started : 0 < q.size
  pub fits : q.size ≤ length q.cells.d
  pub allocated : length q.cells.d ≡ q.avail
  pub grows : 0 < q.step
  pub heap : IsHeap pri (at q.cells.d) q.size
  pub placed : Placed q.cells q.size

pub occurs-here : (e n : ℕ) (v : ℕ → ℕ) (c : ℕ) → 0 < c → c ≤ n → v c ≡ e → 0 < occurs e v n
unfolding occurs
occurs-here e zero v c p q h = absurd (omega arith)
occurs-here e (suc n) v c p q h = elim (Bool-cases (c == suc n)) [
  | inl same ↦ let s : c ≡ suc n = ground arith in ground arith
  | inr other ↦ let r = occurs-here e n v c p (ground arith) h in ground arith
]

-- an element that is counted stands somewhere
pub occurs-somewhere :
    (e n : ℕ) (v : ℕ → ℕ) → 0 < occurs e v n → (c : ℕ) × (0 < c) × (c ≤ n) × (v c ≡ e)
unfolding occurs
occurs-somewhere e zero v h = absurd (omega arith)
occurs-somewhere e (suc n) v h = elim (ℕ_discrete (v (suc n)) e) [
  | yes s ↦ (suc n, omega arith, omega arith, s)
  | no o ↦ let r = occurs-somewhere e n v (ground arith) in (r.0, r.1, omega arith, r.3)
]

sub-one : (n : ℕ) → suc n - 1 ≡ n
sub-one n = omega arith

pub occurs-suc :
    (e n : ℕ) (v : ℕ → ℕ) → 0 < n → occurs e v n ≡ occurs e v (n - 1) + (if v n == e then 1 else 0)
unfolding occurs
occurs-suc e zero v p = absurd (omega arith)
occurs-suc e (suc n) v p = rw (sub-one n) refl

at-++ : (d e : List ℕ) (c : ℕ) → c < length d → at (d ++ e) c ≡ at d c
at-++ [] e c h = absurd (omega arith)
at-++ (x ∷ d) e zero h = refl
at-++ (x ∷ d) e (suc c) h = at-++ d e c (omega arith)

-- what an insertion into the free cell `n` gives
record Entered (pri : ℕ → ℕ) (d : List ℕ) (n e : ℕ) (r : Cells) : Type 0 where
  heap : IsHeap pri (at r.d) (n + 1)
  cells : length r.d ≡ length d
  placed : Placed r (n + 1)
  adds : (x : ℕ) → occurs x (at r.d) n ≡ occurs x (at d) (n - 1) + (if e == x then 1 else 0)

enter :
    (pri : ℕ → ℕ) (d : List ℕ) (pos : ℕ → ℕ) (n e : ℕ)
    → 0 < n
    → n < length d
    → IsHeap pri (at d) n
    → Placed (record { d = d; pos = pos }) n
    → ((c : ℕ) → 0 < c → c < n → at d c ≢ e)
    → Entered pri d n e (bubble_up (by_priority pri) (record { d = set d n e; pos = pos }) n)
enter pri d pos n e p l heap placed absent =
    let h : Cells = record { d = set d n e; pos = pos } in
    let a = λ (c : ℕ). at-set d n e c l in
    let size = length-set d n e in
    let inv : UpInv pri (at h.d) (n + 1) n = record {
      edges = λ c q r ne. ground (arith, a c, a (c / 2), heap c q (omega arith));
      bridged = λ c q r f s. absurd (omega arith);
    } in
    let top = a n in
    let up = bubble_up-Restored pri (n + 1) h n p (omega arith) (omega arith) inv in
    record {
      heap = up.heap;
      cells = up.cells ∙ size;
      placed =
          bubble_up-Placed (by_priority pri) (n + 1) h n p (omega arith) (omega arith) (λ c q r ne.
            let b = absent c q (omega arith) in
            let f = placed c q (omega arith) in let s = a c in (ground arith, ground arith));
      adds = λ x.
          let i = up.items x in
          let below =
            occurs-agree x (n - 1) (at h.d) (at d) (λ c q r. let s = a c in ground arith) in
          let s = occurs-suc x n (at h.d) p in ground arith;
    }

-- a queue that holds what `q` holds, and `e`
pub record Inserted (pri : ℕ → ℕ) (q : Pqueue) (e : ℕ) (r : Pqueue) : Type 0 where
  pub queue : IsQueue pri r
  pub adds : (x : ℕ) → count x r ≡ count x q + (if e == x then 1 else 0)

absent_at : (q : Pqueue) (e : ℕ) → count e q ≡ 0 → (c : ℕ) → 0 < c → c < q.size → at q.cells.d c ≢ e
absent_at q e absent c r s t =
    let o = occurs-here e (q.size - 1) (at q.cells.d) c r (omega arith) t in omega arith

insert_into :
    (pri : ℕ → ℕ) (q : Pqueue) (e : ℕ) (room : List ℕ) (avail : ℕ)
    → IsQueue pri q
    → count e q ≡ 0
    → q.size < length room
    → length room ≡ avail
    → ((c : ℕ) → c < q.size → at room c ≡ at q.cells.d c)
    → Inserted pri q e (record q {
      cells =
          bubble_up (by_priority pri) (record { d = set room q.size e; pos = q.cells.pos }) q.size;
      size = q.size + 1;
      avail = avail;
    })
insert_into pri q e room avail valid absent l len same =
    let p = valid.started in
    let up =
      enter pri room q.cells.pos q.size e p l
        (λ c r s.
          let a = same c s in
          let b = same (c / 2) (omega arith) in let h = valid.heap c r s in ground arith)
        (λ c r s. let a = same c s in let h = valid.placed c r s in ground arith)
        (λ c r s t. absent_at q e absent c r s (sym (same c s) ∙ t)) in
    let long = up.cells in
    record {
      queue = record {
        started = omega arith;
        fits = omega arith;
        allocated = long ∙ len;
        grows = valid.grows;
        heap = up.heap;
        placed = up.placed;
      };
      adds = λ x.
          let a = up.adds x in
          let b =
            occurs-agree x (q.size - 1) (at room) (at q.cells.d) (λ c r s. same c (omega arith)) in
          let z : q.size + 1 - 1 ≡ q.size = omega arith in rw z (ground arith);
    }

-- Inserting an element that is not in the queue, whether the array has room or grows first, leaves a
-- queue (a heap, inside its array, each element knowing its index) that holds what it held and that element.
pub pqueue_insert_adds :
    (pri : ℕ → ℕ) (q : Pqueue) (e : ℕ)
    → IsQueue pri q
    → count e q ≡ 0
    → Inserted pri q e (pqueue_insert (by_priority pri) q e)
unfolding pqueue_insert
pqueue_insert_adds pri q e valid absent =
    let fits = valid.fits in
    let len = valid.allocated in
    let step = valid.grows in
    elim (Bool-cases (leb q.avail q.size)) [
      | inl full ↦
          let more : List ℕ = replicate q.step 0 in
          let total : length (q.cells.d ++ more) ≡ length q.cells.d + length more =
            length-append q.cells.d more in
          let zero' : ℕ = 0 in
          let extra : length more ≡ q.step = length-replicate q.step zero' in
          let tight : q.avail ≤ q.size = ground arith in
          rw full (
            insert_into pri q e (q.cells.d ++ more) (q.size + q.step) valid absent (omega arith)
              (omega arith) (λ c b. at-++ q.cells.d more c (omega arith)))
      | inr free ↦
          let loose : q.size < q.avail = ground arith in
          rw free
            (insert_into pri q e q.cells.d q.avail valid absent (omega arith) len (λ c b. refl))
    ]

-- pqueue_init gives an empty queue, for any number of cells.
pub pqueue_init-IsQueue : (pri : ℕ → ℕ) (n : ℕ) → IsQueue pri (pqueue_init n)
unfolding pqueue_init
pqueue_init-IsQueue pri n =
    let null : ℕ = 0 in
    let l : length (replicate (n + 1) null) ≡ n + 1 = length-replicate (n + 1) null in
    record {
      started = omega arith;
      fits = omega arith;
      allocated = l;
      grows = omega arith;
      heap = λ c p q. absurd (omega arith);
      placed = λ c p q. absurd (omega arith);
    }
