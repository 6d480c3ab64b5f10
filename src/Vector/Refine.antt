-- ===== src/Vector/Refine.antt =====
-- vector_push and vector_pushall of core/utils/vector.c against the list of the elements.
use mathlib.Core.List.{append_assoc, append-nil}
use native.Mathlib.Numerals.{add-one}
use schedule_test_manual.Base.{
  lt→ltb, ℕ, zero, suc, ◌+◌, ◌*◌, ◌≡◌, ◌≢◌, ◌≤◌, ◌<◌, false, Option, none, some, List, [], ◌∷◌,
  ◌++◌, map, ltb, ◌==◌, length, set, take, arith, refl, ap, ◌∙◌, sym, length-set, Bool-cases, inl,
  inr, length-replicate,
}
use schedule_test_manual.Vector.{
  Vector, capacity, vector_new, realloc, vector_resize, append_cell, vector_push, append_cells,
  vector_pushall,
}

-- the elements
abbrev pub contents : Vector → List (Option ℕ)
contents v = take v.size v.cells

pub record IsValid (v : Vector) : Type 0 where
  pub fits : v.size ≤ capacity v
  pub some_room : 0 < capacity v

pub length-realloc : (cells : List (Option ℕ)) (n : ℕ) → length (realloc cells n) ≡ n
unfolding realloc
length-realloc cells zero = refl
length-realloc [] (suc n) = ap suc (length-realloc [] n)
length-realloc (c ∷ cells) (suc n) = ap suc (length-realloc cells n)

pub take-realloc :
    (cells : List (Option ℕ)) (n k : ℕ)
    → k ≤ n
    → k ≤ length cells
    → take k (realloc cells n) ≡ take k cells
unfolding realloc
take-realloc cells n zero h l = refl
take-realloc cells zero (suc k) h l = absurd (omega arith)
take-realloc [] (suc n) (suc k) h l = absurd (omega arith)
take-realloc (c ∷ cells) (suc n) (suc k) h l =
    ap (◌∷◌ c) (take-realloc cells n k (omega arith) (omega arith))

take-set :
    (cells : List (Option ℕ)) (i : ℕ) (c : Option ℕ)
    → i < length cells
    → take (suc i) (set cells i c) ≡ take i cells ++ c ∷ []
take-set [] i c h = absurd (omega arith)
take-set (d ∷ cells) zero c h = refl
take-set (d ∷ cells) (suc i) c h = ap (◌∷◌ d) (take-set cells i c (omega arith))

-- `w` is a valid vector that holds what `v` holds, and then `added`
pub record Extends (v : Vector) (added : List (Option ℕ)) (w : Vector) : Type 0 where
  pub valid : IsValid w
  pub holds : contents w ≡ contents v ++ added

-- a resize to what fits keeps the elements
pub resize_keeps :
    (n : ℕ) (v : Vector)
    → IsValid v
    → 0 < n
    → v.size ≤ n
    → (w : Vector) × (vector_resize n v ≡ some w)
      × (w.size ≡ v.size)
      × (capacity w ≡ n)
      × (contents w ≡ contents v)
unfolding vector_resize
resize_keeps n v valid p h = (
  record v { cells = realloc v.cells n; votes = 0 },
  ground arith,
  refl,
  length-realloc v.cells n,
  take-realloc v.cells n v.size h valid.fits,
)

append_cell-Extends :
    (x : ℕ) (v : Vector)
    → v.size < capacity v
    → (w : Vector) × (append_cell x v ≡ some w)
      × Extends v (some x ∷ []) w
      × (w.size ≡ v.size + 1)
      × (capacity w ≡ capacity v)
unfolding append_cell
append_cell-Extends x v h =
    let size = length-set v.cells v.size (some x) in
    let grown : take (v.size + 1) (set v.cells v.size (some x)) ≡ contents v ++ some x ∷ [] =
      rw add-one (take-set v.cells v.size (some x) h) in
    (
      record v { cells = set v.cells v.size (some x); size = v.size + 1 },
      rw (lt→ltb _ _ h),
      record { valid = record { fits = omega arith; some_room = omega arith }; holds = grown },
      refl,
      size,
    )

-- Pushing an element onto a valid vector never fails, also where the vector has to grow: the vector
-- stays valid and holds the element behind the ones before.
pub push_appends :
    (x : ℕ) (v : Vector)
    → IsValid v
    → (w : Vector) × (vector_push x v ≡ some w) × Extends v (some x ∷ []) w
unfolding vector_push
push_appends x v valid = elim (Bool-cases (v.size == capacity v)) [
  | inl full ↦
      let bumped : Vector = record v { votes_required = v.votes_required + 1 } in
      let ok_bumped : IsValid bumped = record { fits = valid.fits; some_room = valid.some_room } in
      let (u, e, s, c, same) =
        resize_keeps (capacity v * 2) bumped ok_bumped (omega (arith, valid.some_room))
          (omega (arith, valid.fits)) in
      let (w, e', ext, _, _) = append_cell-Extends x u (ground (arith, valid.some_room)) in
      (
        w,
        rw (full, e, e'),
        record { valid = ext.valid; holds = ext.holds ∙ ap (λ t. t ++ some x ∷ []) same },
      )
  | inr room ↦
      let (w, e', ext, _, _) = append_cell-Extends x v (ground (arith, valid.fits)) in
      (w, rw (room, e'), ext)
]

-- every element of an array that is asserted not to hold NULL
abbrev pub NoneNull : List ℕ → Type 0
NoneNull [] = Unit
NoneNull (x ∷ xs) = (x ≢ 0) × NoneNull xs

append_cells-Extends :
    (xs : List ℕ) (v : Vector)
    → IsValid v
    → NoneNull xs
    → v.size + length xs ≤ capacity v
    → (w : Vector) × (append_cells xs v ≡ some w) × Extends v (map some xs) w
unfolding append_cells
append_cells-Extends [] v valid n h =
    (v, refl, record { valid = valid; holds = sym (append-nil (contents v)) })
append_cells-Extends (x ∷ xs) v valid (nx, n) h =
    let (u, e, ext, size, room) = append_cell-Extends x v (omega arith) in
    let (w, e', rest) = append_cells-Extends xs u ext.valid n (omega arith) in
    let not_null : (x == 0) ≡ false = ground arith in
    (
      w,
      rw (not_null, e, e'),
      record {
        valid = rest.valid;
        holds =
            rest.holds
            ∙ ap (λ t. t ++ map some xs) ext.holds
            ∙ append_assoc (contents v) (some x ∷ []) (map some xs);
      },
    )

-- Pushing all elements of an array without NULL onto a valid vector never fails, also where the
-- vector has to grow: it stays valid and holds the array behind the elements before.
pub pushall_appends :
    (xs : List ℕ) (v : Vector)
    → IsValid v
    → NoneNull xs
    → (w : Vector) × (vector_pushall xs v ≡ some w) × Extends v (map some xs) w
unfolding vector_pushall
pushall_appends xs v valid n = elim (Bool-cases (ltb (capacity v) (v.size + length xs))) [
  | inl full ↦
      let more : capacity v < v.size + length xs = ground arith in
      let fits : v.size ≤ (v.size + length xs) * 2 = omega arith in
      let pos : 0 < (v.size + length xs) * 2 = omega arith in
      let (u, e, s, c, same) = resize_keeps ((v.size + length xs) * 2) v valid pos fits in
      let valid_u : IsValid u = record { fits = omega arith; some_room = omega arith } in
      let (w, e', ext) = append_cells-Extends xs u valid_u n (omega arith) in
      (
        w,
        rw (full, e, e'),
        record { valid = ext.valid; holds = ext.holds ∙ ap (λ t. t ++ map some xs) same },
      )
  | inr room ↦
      let (w, e', ext) = append_cells-Extends xs v valid n (ground arith) in (w, rw (room, e'), ext)
]

-- A vector with a capacity above zero is valid and empty when it is new.
pub vector_new-IsValid : (n : ℕ) → 0 < n → IsValid (vector_new n) × (contents (vector_new n) ≡ [])
unfolding vector_new
vector_new-IsValid n h =
    let size = length-replicate {A = Option ℕ} n none in
    (record { fits = omega arith; some_room = omega arith }, refl)
