-- ===== src/Pqueue/Down.antt =====
-- percolate_down of core/utils/pqueue.c on the order and the elements.
use mathlib.Core.Path.{subst}
use native.Mathlib.Decide.{ℕ_discrete}
use schedule_test_manual.Base.{
  ℕ, zero, suc, ◌+◌, ◌*◌, ◌/◌, ◌≡◌, ◌≢◌, ◌≤◌, ◌<◌, List, arith, refl, ltb, leb, ◌==◌, ◌&&◌, not,
  length, set, length-set, Bool-cases, inl, inr, sym, ◌⊎◌,
}
use schedule_test_manual.Pqueue.{Cells, at, put, maxchild, percolate_loop, percolate_down}
use schedule_test_manual.Pqueue.Views.{at-set, view, view_self}
use schedule_test_manual.Pqueue.Up.{by_priority, Restored, Restored-move, settle}

module _ (pri : ℕ → ℕ) where
  -- only the edges below `i` may be out of order
  pub record DownInv (v : ℕ → ℕ) (n i : ℕ) : Type 0 where
    pub edges : (c : ℕ) → 1 < c → c < n → c / 2 ≢ i → pri (v (c / 2)) ≤ pri (v c)
    pub bridged : (c : ℕ) → 1 < c → c < n → c / 2 ≡ i → 1 < i → pri (v (i / 2)) ≤ pri (v c)

  -- the child of `i` that comes first, if `i` has one
  record IsFirstChild (d : List ℕ) (n i m : ℕ) : Type 0 where
    inside : m < n
    child : m / 2 ≡ i
    proper : i < m
    least : (c : ℕ) → 1 < c → c < n → c / 2 ≡ i → pri (at d m) ≤ pri (at d c)

  left_first :
      (d : List ℕ) (n i : ℕ)
      → 0 < i
      → i * 2 < n
      → (i * 2 + 1 < n → pri (at d (i * 2)) ≤ pri (at d (i * 2 + 1)))
      → IsFirstChild d n i (i * 2)
  left_first d n i p b h = record {
    inside = b;
    child = omega arith;
    proper = omega arith;
    least = λ c p1 p2 e. elim (ℕ_discrete c (i * 2)) [
      | yes q ↦ rw q (omega arith)
      | no q ↦ let r : c ≡ i * 2 + 1 = omega arith in rw r (h (omega arith))
    ];
  }

  right_first :
      (d : List ℕ) (n i : ℕ)
      → 0 < i
      → i * 2 + 1 < n
      → pri (at d (i * 2 + 1)) ≤ pri (at d (i * 2))
      → IsFirstChild d n i (i * 2 + 1)
  right_first d n i p b h = record {
    inside = b;
    child = omega arith;
    proper = omega arith;
    least = λ c p1 p2 e. elim (ℕ_discrete c (i * 2)) [
      | yes q ↦ rw q h
      | no q ↦ let r : c ≡ i * 2 + 1 = omega arith in rw r (omega arith)
    ];
  }

  maxchild-IsFirstChild :
      (d : List ℕ) (n i : ℕ)
      → 0 < i
      → (maxchild (by_priority pri) d n i ≡ 0) × (n ≤ i * 2)
        ⊎ (maxchild (by_priority pri) d n i ≢ 0)
          × IsFirstChild d n i (maxchild (by_priority pri) d n i)
  unfolding maxchild
  maxchild-IsFirstChild d n i p = elim (Bool-cases (leb n (i * 2))) [
    | inl e ↦ rw e (inl (refl, ground arith))
    | inr e ↦
        elim (Bool-cases (ltb (i * 2 + 1) n && ltb (pri (at d (i * 2 + 1))) (pri (at d (i * 2))))) [
          | inl q ↦ rw (e, q) (inr (omega arith, right_first d n i p (ground arith) (ground arith)))
          | inr q ↦
              rw (e, q) (inr (omega arith, left_first d n i p (ground arith) (λ b. ground arith)))
        ]
  ]

  move-DownInv :
      (d : List ℕ) (i j m n : ℕ)
      → i < length d
      → 0 < i
      → IsFirstChild d n i j
      → pri (at d j) < pri m
      → DownInv (view d i m) n i
      → DownInv (view (set d i (at d j)) j m) n j
  move-DownInv d i j m n l p s below h =
      let a = at-set d i (at d j) in
      record {
        edges = λ c p1 p2 ne. ground (
          arith,
          a c l,
          a (c / 2) l,
          h.edges c,
          h.bridged j,
          s.least c,
          s.child,
          s.proper,
          s.inside,
        );
        bridged = λ c p1 p2 e p3. ground (arith, a c l, a (j / 2) l, h.edges c, s.child, s.proper);
      }

  -- where the moving element comes before the children of `i`, it can stay
  leaf_edge :
      (d : List ℕ) (i m n : ℕ)
      → DownInv (view d i m) n i
      → (c : ℕ) → 1 < c
      → c < n
      → (c / 2 ≡ i → pri m ≤ pri (at d c))
      → pri (view d i m (c / 2)) ≤ pri (view d i m c)
  leaf_edge d i m n inv c q r all = elim (ℕ_discrete (c / 2) i) [
    | yes e ↦ let low = all e in ground arith
    | no ne ↦ inv.edges c q r ne
  ]

  percolate_loop-Restored :
      (fuel m n : ℕ) (h : Cells) (i : ℕ)
      → n ≤ i + fuel
      → 0 < i
      → i < length h.d
      → n ≤ length h.d
      → DownInv (view h.d i m) n i
      → Restored pri (view h.d i m) n (length h.d) (percolate_loop (by_priority pri) fuel n m h i)
  unfolding percolate_loop
  percolate_loop-Restored zero m n h i f p l l' inv =
      settle pri h i m n l (λ c q r. inv.edges c q r (omega arith))
  percolate_loop-Restored (suc fuel) m n h i f p l l' inv =
      let child = maxchild (by_priority pri) h.d n i in
      let leaf = λ (all : (c : ℕ) → 1 < c → c < n → c / 2 ≡ i → pri m ≤ pri (at h.d c)).
        settle pri h i m n l (λ c q r. leaf_edge h.d i m n inv c q r (all c q r)) in
      elim (Bool-cases (not (child == 0) && ltb (pri (at h.d child)) (pri m))) [
        | inl sinks ↦ rw sinks (elim (maxchild-IsFirstChild h.d n i p) [
          | inl none ↦ let z = none.0 in absurd (ground arith)
          | inr one ↦
              let s = one.1 in
              let size = length-set h.d i (at h.d child) in
              let inside = s.inside in
              let proper = s.proper in
              Restored-move pri h
                (percolate_loop (by_priority pri) fuel n m (put h i (at h.d child)) child) i child m
                n l p (omega arith) (omega arith) inside (omega arith)
                (percolate_loop-Restored fuel m n (put h i (at h.d child)) child (omega arith)
                  (omega arith) (omega arith) (omega arith)
                  (move-DownInv h.d i child m n l p s (ground arith) inv))
        ])
        | inr stays ↦ rw stays (
            leaf (elim (maxchild-IsFirstChild h.d n i p) [
              | inl none ↦ λ c q r e. let b' = none.1 in absurd (omega arith)
              | inr one ↦ λ c q r e. let low = one.1.least c q r e in let ne = one.0 in ground arith
            ]))
      ]

  -- percolate_down restores the heap where only the edges below `i` may be out of order.
  pub percolate_down-Restored :
      (n : ℕ) (h : Cells) (i : ℕ)
      → 0 < i
      → i < length h.d
      → n ≤ length h.d
      → DownInv (at h.d) n i
      → Restored pri (at h.d) n (length h.d) (percolate_down (by_priority pri) n h i)
  unfolding percolate_down
  percolate_down-Restored n h i p l r inv =
      let same = view_self h.d i in
      let out = percolate_down (by_priority pri) n h i in
      subst (λ v. Restored pri v n (length h.d) out) same
        (percolate_loop-Restored n (at h.d i) n h i (omega arith) p l r
          (subst (λ v. DownInv v n i) (sym same) inv))
