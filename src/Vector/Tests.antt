-- ===== src/Vector/Tests.antt =====
-- A vector of capacity 2 that is pushed onto, read and popped.
use schedule_test_manual.Base.{◌≡◌, some, [], ◌∷◌, arith}
use schedule_test_manual.Vector.{Vector, vector_new, vector_push}
use schedule_test_manual.Vector.Refine.{
  contents, IsValid, Extends, push_appends, vector_new-IsValid,
}

abbrev fresh : Vector
unfolding vector_new
fresh = vector_new 2

abbrev full : Vector
full = record { cells = some 7 ∷ some 8 ∷ []; size = 2; votes_required = 15; votes = 3 }

abbrev idle : Vector
idle = record { cells = some 7 ∷ some 8 ∷ []; size = 0; votes_required = 15; votes = 15 }

full-IsValid : IsValid full
full-IsValid = record { fits = omega arith; some_room = omega arith }

idle-IsValid : IsValid idle
idle-IsValid = record { fits = omega arith; some_room = omega arith }

vector_new-IsValid_example : IsValid (vector_new 2) × (contents (vector_new 2) ≡ [])
vector_new-IsValid_example = vector_new-IsValid 2 (omega arith)

push_appends_example : (w : Vector) × (vector_push 9 full ≡ some w) × Extends full (some 9 ∷ []) w
push_appends_example = push_appends 9 full full-IsValid
