-- ===== src/Np/Counts.antt =====
-- core/threaded/scheduler_NP.c: how many workers stand where.
use schedule_test_manual.Base.{
  ℕ, zero, suc, ◌+◌, ◌≡◌, ◌≤◌, List, [], ◌∷◌, some, length, get_elem?, set, arith,
}
use schedule_test_manual.Np.Workers.{
  Place, fetching, out_of_work, waiting, advancing, exited, executing,
}

abbrev pub is_waiting : Place → ℕ
is_waiting waiting = 1
is_waiting _ = 0

abbrev pub is_advancing : Place → ℕ
is_advancing advancing = 1
is_advancing _ = 0

abbrev pub is_out : Place → ℕ
is_out out_of_work = 1
is_out _ = 0

abbrev pub is_executing : Place → ℕ
is_executing (executing r) = 1
is_executing _ = 0

abbrev pub is_exited : Place → ℕ
is_exited exited = 1
is_exited _ = 0

unfoldable pub total : (Place → ℕ) → List Place → ℕ
total f [] = 0
total f (p ∷ ps) = f p + total f ps

pub total-set :
    (f : Place → ℕ) (ps : List Place) (n : ℕ) (p p' : Place)
    → get_elem? ps n ≡ some p
    → total f (set ps n p') + f p ≡ total f ps + f p'
unfolding total
total-set f [] n p p' e = absurd (cc)
total-set f (q ∷ ps) zero p p' e = ground arith
total-set f (q ∷ ps) (suc n) p p' e = ground (arith, total-set f ps n p p')

-- a worker stands at one place
pub total-le :
    (ps : List Place)
    → total is_waiting ps
        + total is_advancing ps
        + total is_out ps
        + total is_executing ps
        + total is_exited ps
      ≤ length ps
unfolding total
total-le [] = omega arith
total-le (fetching ∷ ps) = omega (arith, total-le ps)
total-le (out_of_work ∷ ps) = omega (arith, total-le ps)
total-le (waiting ∷ ps) = omega (arith, total-le ps)
total-le (advancing ∷ ps) = omega (arith, total-le ps)
total-le (exited ∷ ps) = omega (arith, total-le ps)
total-le (executing r ∷ ps) = omega (arith, total-le ps)
