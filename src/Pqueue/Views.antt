-- ===== src/Pqueue/Views.antt =====
-- The array of core/utils/pqueue.c as a function of the index, and how often an element occurs in it.
use mathlib.Core.Path.{fun_ext}
use native.Mathlib.Decide.{ℕ_discrete}
use schedule_test_manual.Base.{
  ℕ, zero, suc, ◌+◌, ◌≡◌, ◌≢◌, ◌≤◌, ◌<◌, List, [], ◌∷◌, arith, refl, ◌==◌, if◌then◌else◌, length,
  set,
}
use schedule_test_manual.Pqueue.{at}

pub at-set :
    (d : List ℕ) (i v c : ℕ) → i < length d → at (set d i v) c ≡ (if i == c then v else at d c)
at-set [] i v c h = absurd (omega arith)
at-set (x ∷ d) zero v zero h = refl
at-set (x ∷ d) zero v (suc c) h = ground arith
at-set (x ∷ d) (suc i) v zero h = ground arith
at-set (x ∷ d) (suc i) v (suc c) h = ground (arith, at-set d i v c)

-- the array with the moving element put into the hole
abbrev pub view : List ℕ → ℕ → ℕ → ℕ → ℕ
view d i m c = if i == c then m else at d c

-- how often `e` stands at the indices from 1 below `n + 1`
unfoldable pub occurs : ℕ → (ℕ → ℕ) → ℕ → ℕ
occurs e v zero = 0
occurs e v (suc n) = occurs e v n + (if v (suc n) == e then 1 else 0)

pub occurs-agree :
    (e n : ℕ) (v w : ℕ → ℕ) → ((c : ℕ) → 0 < c → c ≤ n → v c ≡ w c) → occurs e v n ≡ occurs e w n
unfolding occurs
occurs-agree e zero v w h = refl
occurs-agree e (suc n) v w h =
    rw (h (suc n) (omega arith) (omega arith), occurs-agree e n v w (λ c p q. h c p (omega arith)))

-- what changes at one index changes the count by that
pub occurs-change :
    (e n i : ℕ) (v w : ℕ → ℕ)
    → 0 < i
    → i ≤ n
    → ((c : ℕ) → c ≢ i → v c ≡ w c)
    → occurs e v n + (if w i == e then 1 else 0) ≡ occurs e w n + (if v i == e then 1 else 0)
unfolding occurs
occurs-change e zero i v w p q h = absurd (omega arith)
occurs-change e (suc n) i v w p q h = elim (ℕ_discrete i (suc n)) [
  | yes same ↦
      let below = occurs-agree e n v w (λ c a b. h c (omega arith)) in
      rw (same, below) (omega arith)
  | no other ↦
      let ih = occurs-change e n i v w p (omega arith) h in
      let top = h (suc n) (omega arith) in rw top (omega arith)
]

-- the same elements, each as often
abbrev pub SameItems : (ℕ → ℕ) → (ℕ → ℕ) → ℕ → Type 0
SameItems v w n = (e : ℕ) → occurs e v n ≡ occurs e w n

-- moving the hole from `i` to `j` only exchanges two elements
pub move-SameItems :
    (d : List ℕ) (i j m n : ℕ)
    → i < length d
    → 0 < i
    → i ≤ n
    → 0 < j
    → j ≤ n
    → i ≢ j
    → SameItems (view (set d i (at d j)) j m) (view d i m) n
move-SameItems d i j m n l pi qi pj qj ne e =
    let mid = λ (c : ℕ). if i == c then at d j else at d c in
    let one = occurs-change e n i (view d i m) mid pi qi (λ c q. ground arith) in
    let two =
      occurs-change e n j (view (set d i (at d j)) j m) mid pj qj
        (λ c q. ground (arith, at-set d i (at d j) c)) in
    ground arith

-- the hole filled with what stood there
pub view_self : (d : List ℕ) (i : ℕ) → view d i (at d i) ≡ at d
view_self d i = fun_ext (λ c. ground arith)
