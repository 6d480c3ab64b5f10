-- ===== src/MixedRadix/Tests.antt =====
-- Increments of the number of the documentation, and of one whose digits are in order.
use native.Mathlib.Decide.{ℕ_discrete}
use schedule_test_manual.Base.{ℕ, ◌≡◌, ◌<◌, some, [], ◌∷◌, refl, arith}
use schedule_test_manual.MixedRadix.{MixedRadixInt, mixed_radix_incr, mixed_radix_to_int}
use schedule_test_manual.MixedRadix.Number.{value, numbers, Next, place}
use schedule_test_manual.MixedRadix.Increment.{number, Valid, mixed_radix_incr-Next}
use schedule_test_manual.MixedRadix.Value.{mixed_radix_to_int_incr}

abbrev permuted : MixedRadixInt
permuted = record { size = 2; digits = 1 ∷ 2 ∷ []; radixes = 2 ∷ 3 ∷ []; permutation = 1 ∷ 0 ∷ [] }

abbrev ordered : MixedRadixInt
ordered = record { size = 2; digits = 1 ∷ 1 ∷ []; radixes = 2 ∷ 3 ∷ []; permutation = 0 ∷ 1 ∷ [] }

permuted-Valid : Valid permuted
permuted-Valid = record {
  entries = λ j p q. elim (ℕ_discrete j 0) [
    | yes z ↦ rw z (omega arith, omega arith, omega arith, omega arith)
    | no nz ↦
        let one : j ≡ 1 = omega arith in rw one (omega arith, omega arith, omega arith, omega arith)
  ];
  distinct = λ j k p q r.
      let a : j ≡ 0 = omega arith in let b : k ≡ 1 = omega arith in rw (a, b) (λ e. omega arith);
  some_digits = omega arith;
  inside = omega arith;
}

ordered-Valid : Valid ordered
ordered-Valid = record {
  entries = λ j p q. elim (ℕ_discrete j 0) [
    | yes z ↦ rw z (omega arith, omega arith, omega arith, omega arith)
    | no nz ↦
        let one : j ≡ 1 = omega arith in rw one (omega arith, omega arith, omega arith, omega arith)
  ];
  distinct = λ j k p q r.
      let a : j ≡ 0 = omega arith in let b : k ≡ 1 = omega arith in rw (a, b) (λ e. omega arith);
  some_digits = omega arith;
  inside = omega arith;
}

mixed_radix_incr-Next_example :
    (r : MixedRadixInt) × (mixed_radix_incr permuted ≡ some r) × Next 5 (number r) 6
unfolding value numbers
mixed_radix_incr-Next_example = mixed_radix_incr-Next permuted permuted-Valid

ordered_places : (j : ℕ) → j < 2 → place ordered.permutation ordered.radixes j ≡ j
ordered_places j l = elim (ℕ_discrete j 0) [
  | yes z ↦ rw z refl
  | no nz ↦ let one : j ≡ 1 = omega arith in rw one refl
]

mixed_radix_to_int_incr_example :
    (r : MixedRadixInt) × (v : ℕ) × (w : ℕ) × (mixed_radix_incr ordered ≡ some r)
    × (mixed_radix_to_int ordered ≡ some v)
    × (mixed_radix_to_int r ≡ some w)
    × Next v w 6
unfolding numbers
mixed_radix_to_int_incr_example =
    mixed_radix_to_int_incr ordered ordered-Valid ordered_places (omega arith)
