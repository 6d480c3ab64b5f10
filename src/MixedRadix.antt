-- ===== src/MixedRadix.antt =====
-- core/mixed_radix.c: permuted mixed-radix numbers. The digits, radixes and entries of the permutation
-- are not negative, as the code asserts or relies on; `none` is an access out of range, or an int that
-- overflows in mixed_radix_parent.
pub mod Number
pub mod Increment
pub mod Value
mod Tests
use schedule_test_manual.Base.{
  ℕ, zero, suc, ◌+◌, ◌-◌, ◌*◌, Bool, Option, none, some, List, length, get_elem?, set, ltb, leb,
  ◌&&◌, if◌then◌else◌,
}

-- mixed_radix_int_t
pub record MixedRadixInt : Type 0 where
  pub size : ℕ
  pub digits : List ℕ
  pub radixes : List ℕ
  pub permutation : List ℕ

infixl 5 ◌>>=◌
abbrev pub ◌>>=◌ {ℓ κ} : {A : Type ℓ} {B : Type κ} → Option A → (A → Option B) → Option B
none >>= f = none
some a >>= f = f a

-- `digits[i] = d`
abbrev pub assign : List ℕ → ℕ → ℕ → Option (List ℕ)
assign digits i d = if ltb i (length digits) then some (set digits i d) else none

-- the loop of mixed_radix_incr with `n` rounds left, and the wrap to zero after the last one
unfoldable pub incr_loop : ℕ → ℕ → List ℕ → List ℕ → List ℕ → Option (List ℕ)
incr_loop zero i permutation radixes digits = assign digits (i - 1) 0
incr_loop (suc n) i permutation radixes digits = get_elem? permutation i >>= λ p.
    get_elem? digits p >>= λ d. get_elem? radixes p >>= λ r. assign digits p 0 >>= λ cleared.
    assign digits p (d + 1) >>= λ raised.
    let carried = incr_loop n (i + 1) permutation radixes cleared in
    if leb r (d + 1) then carried else some raised

-- mixed_radix_incr
unfoldable pub mixed_radix_incr : MixedRadixInt → Option MixedRadixInt
mixed_radix_incr m = incr_loop m.size 0 m.permutation m.radixes m.digits >>= λ digits.
    some (record m { digits = digits })

-- one more than INT_MAX
abbrev pub int_end : ℕ
int_end = 2147483648

-- the loop of mixed_radix_parent with `n` rounds left
unfoldable pub parent_loop : ℕ → ℕ → List ℕ → List ℕ → ℕ → ℕ → Option ℕ
parent_loop zero i digits radixes result factor = some result
parent_loop (suc n) i digits radixes result factor = get_elem? digits i >>= λ d.
    get_elem? radixes i >>= λ r.
    let rest = parent_loop n (i + 1) digits radixes (result + factor * d) (factor * r) in
    if ltb (result + factor * d) int_end && ltb (factor * r) int_end then rest else none

-- mixed_radix_parent
unfoldable pub mixed_radix_parent : MixedRadixInt → ℕ → Option ℕ
mixed_radix_parent m n = parent_loop (m.size - n) n m.digits m.radixes 0 1

-- mixed_radix_to_int
unfoldable pub mixed_radix_to_int : MixedRadixInt → Option ℕ
mixed_radix_to_int m = mixed_radix_parent m 0
