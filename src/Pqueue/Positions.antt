-- ===== src/Pqueue/Positions.antt =====
-- The positions stored in the elements, which pqueue_remove relies on.
use native.Mathlib.Decide.{ℕ_discrete}
use schedule_test_manual.Base.{
  true, ℕ, zero, suc, ◌/◌, ◌≡◌, ◌≢◌, ◌≤◌, ◌<◌, List, arith, ltb, ◌==◌, ◌&&◌, not, length,
  length-set, Bool-cases, inl, inr, sym,
}
use schedule_test_manual.Pqueue.{
  Order, Cells, at, put, maxchild, bubble_loop, bubble_up, percolate_loop, percolate_down,
}
use schedule_test_manual.Pqueue.Views.{at-set}

-- every element from 1 below `n` stores its index
abbrev pub Placed : Cells → ℕ → Type 0
Placed h n = (c : ℕ) → 0 < c → c < n → h.pos (at h.d c) ≡ c

-- so do all but the one at `i`, and none of them is `m`
abbrev pub Away : Cells → ℕ → ℕ → ℕ → Type 0
Away h n i m = (c : ℕ) → 0 < c → c < n → c ≢ i → (h.pos (at h.d c) ≡ c) × (at h.d c ≢ m)

pub put-Placed : (h : Cells) (n i m : ℕ) → i < length h.d → Away h n i m → Placed (put h i m) n
put-Placed h n i m l a c p q =
    let s = at-set h.d i m c l in
    elim (ℕ_discrete c i) [
      | yes e ↦ ground arith
      | no ne ↦ let f = a c p q ne in let f0 = f.0 in let f1 = f.1 in ground arith
    ]

put-Away :
    (h : Cells) (n i j m : ℕ)
    → i < length h.d
    → 0 < j
    → j < n
    → i ≢ j
    → Away h n i m
    → Away (put h i (at h.d j)) n j m
put-Away h n i j m l pj qj ne a c p q nc =
    let s = at-set h.d i (at h.d j) c l in
    let b = a j pj qj (λ e. ne (sym e)) in
    let b0 = b.0 in
    let b1 = b.1 in
    elim (ℕ_discrete c i) [
      | yes e ↦ (ground arith, ground arith)
      | no other ↦
          let f = a c p q other in let f0 = f.0 in let f1 = f.1 in (ground arith, ground arith)
    ]

module _ (o : Order) where
  bubble_loop-Placed :
      (fuel m n : ℕ) (h : Cells) (i : ℕ)
      → 0 < i
      → i < n
      → n ≤ length h.d
      → Away h n i m
      → Placed (bubble_loop o fuel m h i) n
  unfolding bubble_loop
  bubble_loop-Placed zero m n h i p b l a = put-Placed h n i m (omega arith) a
  bubble_loop-Placed (suc fuel) m n h i p b l a =
      let size = length-set h.d i (at h.d (i / 2)) in
      elim (Bool-cases (ltb 1 i && o.cmppri (o.getpri (at h.d (i / 2))) (o.getpri m))) [
        | inl rises ↦
            let big : 1 < i = ground arith in
            rw rises (
              bubble_loop-Placed fuel m n (put h i (at h.d (i / 2))) (i / 2) (omega arith)
                (omega arith) (omega arith)
                (put-Away h n i (i / 2) m (omega arith) (omega arith) (omega arith) (omega arith)
                  a))
        | inr stays ↦ rw stays (put-Placed h n i m (omega arith) a)
      ]

  pub bubble_up-Placed :
      (n : ℕ) (h : Cells) (i : ℕ)
      → 0 < i
      → i < n
      → n ≤ length h.d
      → Away h n i (at h.d i)
      → Placed (bubble_up o h i) n
  unfolding bubble_up
  bubble_up-Placed n h i p b l a = bubble_loop-Placed i (at h.d i) n h i p b l a

  -- a child that maxchild names is one below its node
  maxchild_below :
      (d : List ℕ) (n i : ℕ)
      → 0 < i
      → not (maxchild o d n i == 0) ≡ true
      → (i < maxchild o d n i) × (maxchild o d n i < n)
  unfolding maxchild
  maxchild_below d n i p h = (ground arith, ground arith)

  percolate_loop-Placed :
      (fuel m n : ℕ) (h : Cells) (i : ℕ)
      → 0 < i
      → i < length h.d
      → n ≤ length h.d
      → Away h n i m
      → Placed (percolate_loop o fuel n m h i) n
  unfolding percolate_loop
  percolate_loop-Placed zero m n h i p l l' a = put-Placed h n i m l a
  percolate_loop-Placed (suc fuel) m n h i p l l' a =
      let child = maxchild o h.d n i in
      let size = length-set h.d i (at h.d child) in
      elim (Bool-cases (not (child == 0) && o.cmppri (o.getpri m) (o.getpri (at h.d child)))) [
        | inl sinks ↦
            let b = maxchild_below h.d n i p (ground arith) in
            let b0 = b.0 in
            let b1 = b.1 in
            rw sinks (
              percolate_loop-Placed fuel m n (put h i (at h.d child)) child (omega arith)
                (omega arith) (omega arith)
                (put-Away h n i child m l (omega arith) b1 (omega arith) a))
        | inr stays ↦ rw stays (put-Placed h n i m l a)
      ]

  pub percolate_down-Placed :
      (n : ℕ) (h : Cells) (i : ℕ)
      → 0 < i
      → i < length h.d
      → n ≤ length h.d
      → Away h n i (at h.d i)
      → Placed (percolate_down o n h i) n
  unfolding percolate_down
  percolate_down-Placed n h i p l r a = percolate_loop-Placed n (at h.d i) n h i p l r a
