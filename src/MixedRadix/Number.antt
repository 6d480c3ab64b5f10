-- ===== src/MixedRadix/Number.antt =====
-- The number that the digits of core/mixed_radix.c stand for, in the order of the permutation.
use native.Mathlib.Nat.{mul-suc, mul-le-mul_left}
use schedule_test_manual.Base.{
  ℕ, zero, suc, ◌+◌, ◌*◌, ◌≡◌, ◌≢◌, ◌≤◌, ◌<◌, some, List, [], ◌∷◌, length, get_elem?, set, get_or,
  ◌==◌, if◌then◌else◌, arith, refl, ◌⊎◌,
}

pub digit-set :
    (ds : List ℕ) (i v c : ℕ)
    → i < length ds
    → get_or (set ds i v) c 0 ≡ (if i == c then v else get_or ds c 0)
digit-set [] i v c h = absurd (omega arith)
digit-set (x ∷ ds) zero v zero h = refl
digit-set (x ∷ ds) zero v (suc c) h = ground arith
digit-set (x ∷ ds) (suc i) v zero h = ground arith
digit-set (x ∷ ds) (suc i) v (suc c) h = ground (arith, digit-set ds i v c)

pub get_elem?-in_range :
    (ds : List ℕ) (i : ℕ) → i < length ds → get_elem? ds i ≡ some (get_or ds i 0)
get_elem?-in_range [] i h = absurd (omega arith)
get_elem?-in_range (x ∷ ds) zero h = refl
get_elem?-in_range (x ∷ ds) (suc i) h = get_elem?-in_range ds i (omega arith)

-- a product grows by the factor where the other factor grows by one
pub scale : (r w n : ℕ) → w < n → r * w + r ≤ r * n
scale r w n h =
    let up : suc w ≤ n = h in let e = mul-suc r w in let m = mul-le-mul_left r up in omega arith

-- the number after an increment: one more, or zero if that is all numbers
abbrev pub Next : ℕ → ℕ → ℕ → Type 0
Next v after total = ((after ≡ v + 1) × (v + 1 < total)) ⊎ ((after ≡ 0) × (v + 1 ≡ total))

module _ (perm rs : List ℕ) where
  -- the index of the digit that is incremented in round `j`
  abbrev pub place : ℕ → ℕ
  place j = get_or perm j 0

  -- the number that the digits of the rounds from `i` on stand for, and how many such numbers there are
  unfoldable pub value : ℕ → ℕ → List ℕ → ℕ
  value zero i ds = 0
  value (suc n) i ds = get_or ds (place i) 0 + get_or rs (place i) 0 * value n (i + 1) ds

  unfoldable pub numbers : ℕ → ℕ → ℕ
  numbers zero i = 1
  numbers (suc n) i = get_or rs (place i) 0 * numbers n (i + 1)

  -- the rounds from `i` on increment different digits, each there and below its radix
  pub record IsValid (n i : ℕ) (ds : List ℕ) : Type 0 where
    pub entries :
        (j : ℕ)
        → i ≤ j
        → j < i + n
        → (j < length perm)
          × (place j < length ds)
          × (place j < length rs)
          × (get_or ds (place j) 0 < get_or rs (place j) 0)
    pub distinct : (j k : ℕ) → i ≤ j → j < k → k < i + n → place j ≢ place k
    pub some_digits : 0 < i + n
    pub inside : i + n ≤ length ds

  pub value-below :
      (n i : ℕ) (ds : List ℕ)
      → ((j : ℕ) → i ≤ j → j < i + n → get_or ds (place j) 0 < get_or rs (place j) 0)
      → value n i ds < numbers n i
  unfolding value numbers
  value-below zero i ds h = omega arith
  value-below (suc n) i ds h =
      let r = get_or rs (place i) 0 in
      let rest = value-below n (i + 1) ds (λ j p q. h j (omega arith) (omega arith)) in
      let more = scale r (value n (i + 1) ds) (numbers n (i + 1)) rest in
      let here = h i (omega arith) (omega arith) in omega arith

  pub value-agree :
      (n i : ℕ) (ds es : List ℕ)
      → ((j : ℕ) → i ≤ j → j < i + n → get_or ds (place j) 0 ≡ get_or es (place j) 0)
      → value n i ds ≡ value n i es
  unfolding value
  value-agree zero i ds es h = refl
  value-agree (suc n) i ds es h =
      rw
        (
          h i (omega arith) (omega arith),
          value-agree n (i + 1) ds es (λ j p q. h j (omega arith) (omega arith)),
        )
        refl
