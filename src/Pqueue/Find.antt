-- ===== src/Pqueue/Find.antt =====
-- pqueue_find_equal and pqueue_find_equal_same_priority of core/utils/pqueue.c.
use native.Mathlib.Decide.{ℕ_discrete}
use schedule_test_manual.Base.{
  ℕ, zero, suc, ◌+◌, ◌*◌, ◌/◌, ◌≡◌, ◌≢◌, ◌≤◌, ◌<◌, Bool, true, false, List, arith, refl, ltb, leb,
  ◌==◌, ◌&&◌, ◌||◌, if◌then◌else◌, ◌⊎◌, inl, inr, Bool-cases,
}
use schedule_test_manual.Pqueue.{
  Pqueue, at, find, pqueue_find_equal, pqueue_find_equal_same_priority,
}
use schedule_test_manual.Pqueue.Up.{by_priority, IsHeap}
use schedule_test_manual.Pqueue.Insert.{IsQueue}

-- the indices of the subtree below `pos`
data Under (pos : ℕ) : ℕ → Type 0 where
  self : Under pos pos
  child : {c : ℕ} → Under pos (c / 2) → Under pos c

Under-le : {pos c : ℕ} → Under pos c → pos ≤ c
Under-le Under.self = omega arith
Under-le (Under.child u) = let h = Under-le u in omega arith

-- a subtree is its root and the subtrees of the two children
Under-split : {pos c : ℕ} → Under pos c → (c ≡ pos) ⊎ (Under (pos * 2) c ⊎ Under (pos * 2 + 1) c)
Under-split Under.self = inl refl
Under-split {pos} (Under.child {c} u) = elim (Under-split u) [
  | inl e ↦ elim (ℕ_discrete c (pos * 2)) [
    | yes l ↦ inr (inl (rw l Under.self))
    | no r ↦ let o : c ≡ pos * 2 + 1 = omega arith in inr (inr (rw o Under.self))
  ]
  | inr (inl l) ↦ inr (inl (Under.child l))
  | inr (inr r) ↦ inr (inr (Under.child r))
]

Under-root : (fuel c : ℕ) → c ≤ fuel → 0 < c → Under 1 c
Under-root zero c f p = absurd (omega arith)
Under-root (suc fuel) c f p = elim (ℕ_discrete c 1) [
  | yes e ↦ rw e Under.self
  | no ne ↦ Under.child (Under-root fuel (c / 2) (omega arith) (omega arith))
]

neither : (a b : ℕ) → (if a == 0 then b else a) ≡ 0 → (a ≡ 0) × (b ≡ 0)
neither a b h = ground arith

module _ (pri : ℕ → ℕ) (bound : ℕ) (matches : ℕ → Bool) (size : ℕ) (d : List ℕ) where
  abbrev found : ℕ → ℕ → ℕ
  found fuel pos = find (λ curr. ltb bound (pri curr)) matches fuel size d pos

  Under-order :
      IsHeap pri (at d) size
      → (pos c : ℕ) → 0 < pos
      → Under pos c
      → c < size
      → pri (at d pos) ≤ pri (at d c)
  Under-order heap pos c p Under.self l = omega arith
  Under-order heap pos c p (Under.child u) l =
      let h = Under-le u in
      let above = Under-order heap pos (c / 2) p u (omega arith) in
      let edge = heap c (omega arith) l in omega arith

  -- an element of the array that matches, with a priority up to the bound
  abbrev pub Hit : ℕ → Type 0
  Hit x = (c : ℕ) × (0 < c) × (c < size) × (at d c ≡ x) × (matches x ≡ true) × (pri x ≤ bound)

  found-Hit : (fuel pos : ℕ) → 0 < pos → (found fuel pos ≡ 0) ⊎ Hit (found fuel pos)
  unfolding find
  found-Hit zero pos p = inl refl
  found-Hit (suc fuel) pos p =
      let curr = at d pos in
      let left = found fuel (pos * 2) in
      elim (Bool-cases (leb size pos)) [
        | inl out ↦ rw out (inl refl)
        | inr inside ↦ elim (Bool-cases (curr == 0 || ltb bound (pri curr))) [
          | inl ends ↦ rw (inside, ends) (inl refl)
          | inr goes ↦ elim (Bool-cases (matches curr)) [
            | inl hit ↦ rw (inside, goes, hit) (inr (pos, p, ground arith, refl, hit, ground arith))
            | inr miss ↦ elim (Bool-cases (left == 0)) [
              | inl none' ↦
                  rw (inside, goes, miss, none') (found-Hit fuel (pos * 2 + 1) (omega arith))
              | inr some' ↦ rw (inside, goes, miss, some') (found-Hit fuel (pos * 2) (omega arith))
            ]
          ]
        ]
      ]

  -- where nothing is found, nothing in the subtree matches with a priority up to the bound
  found_complete :
      IsHeap pri (at d) size
      → ((c : ℕ) → 0 < c → c < size → at d c ≢ 0)
      → (fuel pos : ℕ) → size ≤ pos + fuel
      → 0 < pos
      → found fuel pos ≡ 0
      → (c : ℕ) → Under pos c
      → c < size
      → pri (at d c) ≤ bound
      → matches (at d c) ≡ false
  unfolding find
  found_complete heap full zero pos f p none' c u l b = let h = Under-le u in absurd (omega arith)
  found_complete heap full (suc fuel) pos f p none' c u l b =
      let curr = at d pos in
      let low = Under-le u in
      let there : leb size pos ≡ false = ground arith in
      let first = Under-order heap pos c p u l in
      let null = full pos p (omega arith) in
      let goes : (curr == 0 || ltb bound (pri curr)) ≡ false = ground arith in
      let split = rw (there, goes) at none' in
      elim (Bool-cases (matches curr)) [
        | inl hit ↦ absurd (null (rw hit at split))
        | inr miss ↦
            let rest = rw miss at split in
            let both = neither (found fuel (pos * 2)) (found fuel (pos * 2 + 1)) rest in
            elim (Under-split u) [
              | inl same ↦ rw same miss
              | inr (inl v) ↦
                  found_complete heap full fuel (pos * 2) (omega arith) (omega arith) both.0 c v l b
              | inr (inr v) ↦
                  found_complete heap full fuel (pos * 2 + 1) (omega arith) (omega arith) both.1 c v
                    l b
            ]
      ]

-- what a search gives: NULL if no element matches up to the bound, or such an element
abbrev pub Found : (ℕ → ℕ) → ℕ → (ℕ → Bool) → Pqueue → ℕ → Type 0
Found pri bound matches q x =
    ((x ≡ 0)
      × ((c : ℕ)
          → 0 < c
          → c < q.size
          → pri (at q.cells.d c) ≤ bound
          → matches (at q.cells.d c) ≡ false))
    ⊎ ((x ≢ 0) × Hit pri bound matches q.size q.cells.d x)

find-Found :
    (pri : ℕ → ℕ) (bound : ℕ) (matches : ℕ → Bool) (q : Pqueue)
    → IsQueue pri q
    → ((c : ℕ) → 0 < c → c < q.size → at q.cells.d c ≢ 0)
    → Found pri bound matches q (found pri bound matches q.size q.cells.d q.size 1)
find-Found pri bound matches q valid full =
    let x = found pri bound matches q.size q.cells.d q.size 1 in
    elim (ℕ_discrete x 0) [
      | yes none' ↦ inl (
        none',
        λ c p l b.
            found_complete pri bound matches q.size q.cells.d valid.heap full q.size 1 (omega arith)
              (omega arith) none' c (Under-root c c (omega arith) p) l b,
      )
      | no some' ↦ elim (found-Hit pri bound matches q.size q.cells.d q.size 1 (omega arith)) [
        | inl e ↦ absurd (some' e)
        | inr h ↦ inr (some', h)
      ]
    ]

-- In a queue of pointers that are not NULL, both searches visit enough of the heap: pqueue_find_equal gives
-- an element that equals the given one and has a priority up to the bound, and
-- pqueue_find_equal_same_priority one that equals it and has its priority. They give NULL only if the
-- queue has no such element.
pub pqueue_find_equal-Found :
    (pri : ℕ → ℕ) (eqelem : ℕ → ℕ → Bool) (q : Pqueue) (e max : ℕ)
    → IsQueue pri q
    → ((c : ℕ) → 0 < c → c < q.size → at q.cells.d c ≢ 0)
    → Found pri max (λ x. eqelem x e) q (pqueue_find_equal (by_priority pri) eqelem q e max)
      × Found pri
          (pri e)
          (λ x. (pri x == pri e) && eqelem x e)
          q
          (pqueue_find_equal_same_priority (by_priority pri) eqelem q e)
unfolding pqueue_find_equal pqueue_find_equal_same_priority
pqueue_find_equal-Found pri eqelem q e max valid full = (
  find-Found pri max (λ x. eqelem x e) q valid full,
  find-Found pri (pri e) (λ x. (pri x == pri e) && eqelem x e) q valid full,
)
