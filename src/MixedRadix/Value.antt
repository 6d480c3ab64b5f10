-- ===== src/MixedRadix/Value.antt =====
-- mixed_radix_to_int of core/mixed_radix.c, before and after an increment.
use native.Mathlib.Nat.{mul-add, mul_assoc, mul-zero, mul-suc}
use mathlib.Core.Path.{subst}
use schedule_test_manual.Base.{
  true, ltb, lt→ltb, inl, inr, ℕ, zero, suc, ◌+◌, ◌-◌, ◌*◌, ◌≡◌, ◌≤◌, ◌<◌, some, List, length,
  get_or, arith, refl, ap,
}
use schedule_test_manual.MixedRadix.{
  MixedRadixInt, int_end, mixed_radix_incr, parent_loop, mixed_radix_parent, mixed_radix_to_int,
}
use schedule_test_manual.MixedRadix.Number.{
  place, value, numbers, Next, get_elem?-in_range, value-below,
}
use schedule_test_manual.MixedRadix.Increment.{incr_loop-Incremented, number, total, Valid}

factor_positive : (r k : ℕ) → 0 < r * k → 0 < k
factor_positive r zero h = let z = mul-zero r in absurd (omega arith)
factor_positive r (suc k) h = omega arith

mul-grows : (a k : ℕ) → 0 < k → a ≤ a * k
mul-grows a zero h = absurd (omega arith)
mul-grows a (suc k) h = let e = mul-suc a k in omega arith

module _ (perm rs : List ℕ) where
  -- with the digits in their order, the loop of mixed_radix_parent adds up the number
  parent_loop-value :
      (n i : ℕ) (ds : List ℕ) (result factor : ℕ)
      → ((j : ℕ) → i ≤ j → j < i + n → (place perm rs j ≡ j) × (j < length ds) × (j < length rs))
      → 0 < numbers perm rs n i
      → result + factor * value perm rs n i ds < int_end
      → factor * numbers perm rs n i < int_end
      → parent_loop n i ds rs result factor ≡ some (result + factor * value perm rs n i ds)
  unfolding parent_loop value numbers
  parent_loop-value zero i ds result factor h some' sum all = ap some (omega arith)
  parent_loop-value (suc n) i ds result factor h some' sum all =
      let here = h i (omega arith) (omega arith) in
      let d = get_or ds i 0 in
      let r = get_or rs i 0 in
      let w = value perm rs n (i + 1) ds in
      let a = get_elem?-in_range ds i here.1 in
      let b = get_elem?-in_range rs i here.2 in
      let split = mul-add factor d (r * w) in
      let assoc = mul_assoc factor r w in
      let k = numbers perm rs n (i + 1) in
      let assoc_all = mul_assoc factor r k in
      let same : place perm rs i ≡ i = here.0 in
      let sum' : result + factor * (d + r * w) < int_end =
        subst (λ (p : ℕ). result + factor * (get_or ds p 0 + get_or rs p 0 * w) < int_end) same
          sum in
      let all' : factor * (r * k) < int_end =
        subst (λ (p : ℕ). factor * (get_or rs p 0 * k) < int_end) same all in
      let some_k : 0 < k =
        factor_positive r k (subst (λ (p : ℕ). 0 < get_or rs p 0 * k) same some') in
      let grows = mul-grows (factor * r) k some_k in
      let sum_fits : ltb (result + factor * d) int_end ≡ true = lt→ltb _ _ (omega arith) in
      let factor_fits : ltb (factor * r) int_end ≡ true = lt→ltb _ _ (omega arith) in
      rw
        (
          a,
          b,
          here.0,
          parent_loop-value n (i + 1) ds (result + factor * d) (factor * r)
              (λ j p q. h j (omega arith) (omega arith)) some_k (omega arith) (omega arith),
          sum_fits,
          factor_fits,
        )
        (ap some (omega arith))

mul-one_zero : (k : ℕ) → 0 + 1 * k ≡ k
mul-one_zero k = omega arith

in_order :
    (m : MixedRadixInt)
    → Valid m
    → ((j : ℕ) → j < m.size → place m.permutation m.radixes j ≡ j)
    → (j : ℕ) → j < m.size
    → (j < length m.digits) × (j < length m.radixes)
in_order m h ordered j l =
    let e = h.entries j (omega arith) (omega arith) in
    let e1 = e.1 in let e2 = e.2 in let o = ordered j l in (omega arith, omega arith)

Next-below : (v w n : ℕ) → Next v w n → w < n
Next-below v w n (inl h) = omega arith
Next-below v w n (inr h) = omega arith

-- Where the permutation keeps the digits in their order and there are at most INT_MAX numbers (the
-- product of the radixes), so that no int overflows, mixed_radix_to_int of a number and of its
-- increment are both defined, and the second is the first plus one, or 0 after the largest number.
pub mixed_radix_to_int_incr :
    (m : MixedRadixInt)
    → Valid m
    → ((j : ℕ) → j < m.size → place m.permutation m.radixes j ≡ j)
    → total m < int_end
    → (r : MixedRadixInt) × (v : ℕ) × (w : ℕ) × (mixed_radix_incr m ≡ some r)
      × (mixed_radix_to_int m ≡ some v)
      × (mixed_radix_to_int r ≡ some w)
      × Next v w (total m)
unfolding mixed_radix_incr mixed_radix_to_int mixed_radix_parent
mixed_radix_to_int_incr m h ordered small =
    let g = incr_loop-Incremented m.permutation m.radixes m.size 0 m.digits h in
    let es = g.0 in
    let long = g.2.size in
    let room = h.inside in
    let all : m.size - 0 ≡ m.size = omega arith in
    let below =
      value-below m.permutation m.radixes m.size 0 m.digits
        (λ j p q. (h.entries j (omega arith) (omega arith)).3) in
    let next' = Next-below _ _ (total m) g.2.next in
    let positive : 0 < total m = omega arith in
    let before =
      parent_loop-value m.permutation m.radixes m.size 0 m.digits 0 1
        (λ j p q.
          let e = in_order m h ordered j (omega arith) in (ordered j (omega arith), e.0, e.1))
        positive (omega arith) (omega arith) in
    let after =
      parent_loop-value m.permutation m.radixes m.size 0 es 0 1
        (λ j p q.
          let e = in_order m h ordered j (omega arith) in
          let e0 = e.0 in (ordered j (omega arith), omega arith, e.1))
        positive (omega arith) (omega arith) in
    let one = λ (k : ℕ). (mul-one_zero k) in
    (
      record m { digits = es },
      number m,
      value m.permutation m.radixes m.size 0 es,
      rw g.1 refl,
      rw (all, before) (ap some (one (number m))),
      rw (all, after) (ap some (one (value m.permutation m.radixes m.size 0 es))),
      g.2.next,
    )
