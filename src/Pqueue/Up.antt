-- ===== src/Pqueue/Up.antt =====
-- bubble_up of core/utils/pqueue.c on the order and the elements.
use mathlib.Core.Path.{subst}
use schedule_test_manual.Base.{
  sym, ℕ, zero, suc, ◌-◌, ◌/◌, ◌≡◌, ◌≢◌, ◌≤◌, ◌<◌, List, arith, ltb, ◌&&◌, length, set, length-set,
  Bool-cases, inl, inr, ◌∙◌,
}
use schedule_test_manual.Pqueue.{Order, Cells, at, put, in_reverse_order, bubble_loop, bubble_up}
use schedule_test_manual.Pqueue.Views.{
  at-set, view, occurs-agree, SameItems, move-SameItems, view_self,
}

module _ (pri : ℕ → ℕ) where
  -- the order of the queues whose lowest priority value comes first
  abbrev pub by_priority : Order
  by_priority = record { cmppri = in_reverse_order; getpri = pri }

  -- no child comes before its parent, among the indices from 1 below `n`
  abbrev pub IsHeap : (ℕ → ℕ) → ℕ → Type 0
  IsHeap v n = (c : ℕ) → 1 < c → c < n → pri (v (c / 2)) ≤ pri (v c)

  -- only the edge above `i` may be out of order
  pub record UpInv (v : ℕ → ℕ) (n i : ℕ) : Type 0 where
    pub edges : (c : ℕ) → 1 < c → c < n → c ≢ i → pri (v (c / 2)) ≤ pri (v c)
    pub bridged : (c : ℕ) → 1 < c → c < n → c / 2 ≡ i → 1 < i → pri (v (i / 2)) ≤ pri (v c)

  move-UpInv :
      (d : List ℕ) (i m n : ℕ)
      → i < length d
      → i < n
      → 1 < i
      → pri m < pri (at d (i / 2))
      → UpInv (view d i m) n i
      → UpInv (view (set d i (at d (i / 2))) (i / 2) m) n (i / 2)
  move-UpInv d i m n l b p below h =
      let a = at-set d i (at d (i / 2)) in
      record {
        edges = λ c p1 p2 ne. ground (arith, a c l, a (c / 2) l, h.edges c, h.bridged c, h.edges i);
        bridged = λ c p1 p2 e p3.
            ground
              (arith, a c l, a (c / 2) l, a (i / 2 / 2) l, h.edges c, h.edges (i / 2), h.bridged c);
      }

  -- what a loop leaves: a heap of the elements of `v`
  pub record Restored (v : ℕ → ℕ) (n len : ℕ) (h : Cells) : Type 0 where
    pub heap : IsHeap (at h.d) n
    pub items : SameItems (at h.d) v (n - 1)
    pub cells : length h.d ≡ len

  pub settle :
      (h : Cells) (i m n : ℕ)
      → i < length h.d
      → IsHeap (view h.d i m) n
      → Restored (view h.d i m) n (length h.d) (put h i m)
  settle h i m n l heap =
      let a = at-set h.d i m in
      record {
        heap = λ c p q. ground (arith, heap c p q, a c l, a (c / 2) l);
        items = λ e. occurs-agree e (n - 1) _ _ (λ c _ _. a c l);
        cells = length-set h.d i m;
      }

  -- what the rest of the loop leaves, after one move of the hole
  pub Restored-move :
      (h r : Cells) (i j m n : ℕ)
      → i < length h.d
      → 0 < i
      → i < n
      → 0 < j
      → j < n
      → i ≢ j
      → Restored (view (set h.d i (at h.d j)) j m) n (length (set h.d i (at h.d j))) r
      → Restored (view h.d i m) n (length h.d) r
  Restored-move h r i j m n l pi qi pj qj ne rest = record {
    heap = rest.heap;
    items = λ e.
        rest.items e ∙ move-SameItems h.d i j m (n - 1) l pi (omega arith) pj (omega arith) ne e;
    cells = rest.cells ∙ length-set h.d i (at h.d j);
  }

  bubble_loop-Restored :
      (fuel m n : ℕ) (h : Cells) (i : ℕ)
      → i ≤ fuel
      → 0 < i
      → i < n
      → n ≤ length h.d
      → UpInv (view h.d i m) n i
      → Restored (view h.d i m) n (length h.d) (bubble_loop by_priority fuel m h i)
  unfolding bubble_loop
  bubble_loop-Restored zero m n h i f p b l inv = absurd (omega arith)
  bubble_loop-Restored (suc fuel) m n h i f p b l inv =
      elim (Bool-cases (ltb 1 i && ltb (pri m) (pri (at h.d (i / 2))))) [
        | inl rises ↦
            let big : 1 < i = ground arith in
            let below : pri m < pri (at h.d (i / 2)) = ground arith in
            let ne : i ≢ i / 2 = omega arith in
            let parent = i / 2 in
            let size = length-set h.d i (at h.d parent) in
            let h' : Cells = put h i (at h.d parent) in
            rw rises (
              Restored-move h (bubble_loop by_priority fuel m h' parent) i parent m n (omega arith)
                p b (omega arith) (omega arith) ne
                (bubble_loop-Restored fuel m n h' parent (omega arith) (omega arith) (omega arith)
                  (omega arith) (move-UpInv h.d i m n (omega arith) b big below inv)))
        | inr stays ↦ rw stays (settle h i m n (omega arith) (λ c q r. ground (arith, inv.edges c)))
      ]

  -- bubble_up restores the heap where only the edge above `i` may be out of order.
  pub bubble_up-Restored :
      (n : ℕ) (h : Cells) (i : ℕ)
      → 0 < i
      → i < n
      → n ≤ length h.d
      → UpInv (at h.d) n i
      → Restored (at h.d) n (length h.d) (bubble_up by_priority h i)
  unfolding bubble_up
  bubble_up-Restored n h i p b l inv =
      let same = view_self h.d i in
      let r = bubble_up by_priority h i in
      subst (λ v. Restored v n (length h.d) r) same
        (bubble_loop-Restored i (at h.d i) n h i (omega arith) p b l
          (subst (λ v. UpInv v n i) (sym same) inv))
