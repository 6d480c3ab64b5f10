-- ===== src/Tag/Text/Groups.antt =====
-- lf_comma_separated_time of core/tag.c and the number that its digits spell.
use schedule_test_manual.Base.{
  ℕ, zero, suc, ◌+◌, ◌-◌, ◌*◌, ◌/◌, ◌^◌, ◌≡◌, ◌<◌, ◌≤◌, List, [], ◌∷◌, arith, ltb, length, ◌==◌,
  if◌then◌else◌, Bool-cases, inl, inr,
}
use native.Mathlib.Nat.{pow-suc}
use schedule_test_manual.Tag.Text.{collect}

-- reads decimal digits into the number read so far, and skips commas
unfoldable pub read : ℕ → List ℕ → ℕ
read n [] = n
read n (c ∷ cs) = read (if c == b',' then n else n * 10 + (c - b'0')) cs

-- each entry is the one before it with three digits more, and `t` is the last
abbrev Chain : ℕ → List ℕ → ℕ → Type 0
Chain v [] t = v ≡ t
Chain v (c ∷ cs) t = (c / 1000 ≡ v) × Chain c cs t

-- what the loop has collected when it ends
record Collected (t : ℕ) (cs : List ℕ) : Type 0 where
  top : ℕ
  rest : List ℕ
  split : cs ≡ top ∷ rest
  small : top < 1000
  chain : Chain top rest t

collect-length :
    (k fuel v : ℕ) (cs : List ℕ) → v < 1000 ^ k → length (collect fuel v cs) ≤ k + length cs
unfolding collect
collect-length k zero v cs h = omega arith
collect-length zero (suc fuel) v cs h = let z : v ≡ 0 = omega arith in rw z (omega arith)
collect-length (suc k) (suc fuel) v cs h = elim (Bool-cases (ltb 0 v)) [
  | inl more ↦
      let smaller : v / 1000 < 1000 ^ k = omega (arith, pow-suc 1000 k) in
      rw more (omega (arith, collect-length k fuel (v / 1000) (v ∷ cs) smaller))
  | inr done ↦ rw done (omega arith)
]

-- For every time of an int64_t the loop stores at most the 7 entries that `clauses` has, also with
-- fuel for more.
pub collect_bounded : (fuel t : ℕ) → t < 2 ^ 63 → length (collect fuel t []) ≤ 7
collect_bounded fuel t h = omega (arith, collect-length 7 fuel t [] (omega arith))
