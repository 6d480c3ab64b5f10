-- ===== src/Vector/At.antt =====
-- vector_at of core/utils/vector.c.
use schedule_test_manual.Base.{ℕ, ◌≡◌, ◌≤◌, ◌<◌, take}
use schedule_test_manual.Vector.{Vector}
use schedule_test_manual.Vector.Refine.{contents, IsValid}

-- what vector_at leaves
pub record Reached (v : Vector) (idx : ℕ) (w : Vector) : Type 0 where
  pub valid : IsValid w
  pub inside : idx < w.size
  pub longer : v.size ≤ w.size
  pub kept : take v.size w.cells ≡ contents v
