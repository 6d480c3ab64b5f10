-- ===== src/Np/Rows.antt =====
-- core/threaded/scheduler_NP.c: the rows of triggered reactions, each filled from its start.
use mathlib.Core.Path.{subst}
use schedule_test_manual.Base.{
  ℕ, zero, suc, ◌≡◌, ◌≤◌, ◌<◌, refl, sym, Option, none, some, List, [], ◌∷◌, length, get_elem?, set,
  inl, inr, arith, get_elem?-set_inv,
}
use schedule_test_manual.Base.Int.{pos_part}
use schedule_test_manual.Np.{Level}

-- the first `n` cells hold reactions, the others NULL
abbrev pub Filled : List (Option ℕ) → ℕ → Type 0
Filled [] zero = Unit {0}
Filled [] (suc n) = ⊥
Filled (none ∷ row) zero = Filled row zero
Filled (none ∷ row) (suc n) = ⊥
Filled (some r ∷ row) zero = ⊥
Filled (some r ∷ row) (suc n) = Filled row n

pub Filled-insert :
    (row : List (Option ℕ)) (n r : ℕ) (old : Option ℕ)
    → Filled row n
    → get_elem? row n ≡ some old
    → Filled (set row n (some r)) (suc n)
Filled-insert [] zero r old f e = cc
Filled-insert [] (suc n) r old f e = cc
Filled-insert (none ∷ row) zero r old f e = f
Filled-insert (none ∷ row) (suc n) r old f e = f
Filled-insert (some x ∷ row) zero r old f e = elim f [ ]
Filled-insert (some x ∷ row) (suc n) r old f e = Filled-insert row n r old f e

-- the last reaction of a row is there, and can be taken
pub Filled-take :
    (row : List (Option ℕ)) (n : ℕ)
    → Filled row (suc n)
    → ((r : ℕ) × (get_elem? row n ≡ some (some r))) × Filled (set row n none) n
Filled-take [] n f = elim f [ ]
Filled-take (none ∷ row) n f = elim f [ ]
Filled-take (some x ∷ row) zero f = ((x, refl), f)
Filled-take (some x ∷ row) (suc n) f = Filled-take row n f

-- the first cell tells whether there is a reaction
pub Filled-head :
    (row : List (Option ℕ)) (n r : ℕ) → Filled row n → get_elem? row 0 ≡ some (some r) → 0 < n
Filled-head [] n r f e = cc
Filled-head (none ∷ row) n r f e = cc
Filled-head (some x ∷ row) zero r f e = elim f [ ]
Filled-head (some x ∷ row) (suc n) r f e = omega arith

pub Filled-none :
    (row : List (Option ℕ)) (n : ℕ) → Filled row n → get_elem? row 0 ≡ some none → n ≡ 0
Filled-none [] n f e = cc
Filled-none (none ∷ row) zero f e = refl
Filled-none (none ∷ row) (suc n) f e = elim f [ ]
Filled-none (some x ∷ row) n f e = cc

-- a row is filled as far as its index says, where a negative index stands for an empty row, and is
-- small enough for an index that is an int
abbrev pub IsLevel : Level → Type 0
IsLevel l = Filled l.row (pos_part l.index) × (length l.row < 2147483648)

pub Filled-le : (row : List (Option ℕ)) (n : ℕ) → Filled row n → n ≤ length row
Filled-le [] zero f = omega arith
Filled-le [] (suc n) f = elim f [ ]
Filled-le (none ∷ row) zero f = omega arith
Filled-le (none ∷ row) (suc n) f = elim f [ ]
Filled-le (some x ∷ row) zero f = elim f [ ]
Filled-le (some x ∷ row) (suc n) f = omega (arith, Filled-le row n f)

unfoldable pub AreLevels : List Level → Type 0
AreLevels levels = (i : ℕ) (l : Level) → get_elem? levels i ≡ some l → IsLevel l

pub set-AreLevels :
    (levels : List Level) (i : ℕ) (new : Level)
    → AreLevels levels
    → IsLevel new
    → AreLevels (set levels i new)
unfolding AreLevels
set-AreLevels levels i new all one j l e = elim (get_elem?-set_inv levels i j new l e) [
  | inl (p, q) ↦ subst IsLevel (sym q) one
  | inr (p, q) ↦ all j l q
]
