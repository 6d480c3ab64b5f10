-- ===== src/Vector.antt =====
-- core/utils/vector.c: the resizing array. Pointers into the allocation are indices of its cells, and
-- a cell that nothing was written to is `none`. Allocation succeeds, as the code asserts.
pub mod Refine
pub mod Pop
pub mod At
mod Tests
use schedule_test_manual.Base.{
  ℕ, zero, suc, ◌+◌, ◌-◌, ◌*◌, ◌%◌, ◌/◌, ◌≡◌, ◌≤◌, ◌<◌, Bool, Option, none, some, List, [], ◌∷◌,
  ◌++◌, map, ltb, leb, ◌==◌, if◌then◌else◌, length, get_elem?, set, take, replicate, ◌&&◌,
}

-- vector_t: `end - start` is the number of cells, `next - start` is `size`
pub record Vector : Type 0 where
  pub cells : List (Option ℕ)
  pub size : ℕ
  pub votes_required : ℕ
  pub votes : ℕ

abbrev pub capacity : Vector → ℕ
capacity v = length v.cells

infixl 5 ◌>>=◌
abbrev pub ◌>>=◌ {ℓ κ} : {A : Type ℓ} {B : Type κ} → Option A → (A → Option B) → Option B
none >>= f = none
some a >>= f = f a

-- vector_new
unfoldable pub vector_new : ℕ → Vector
vector_new initial_capacity = record {
  cells = replicate initial_capacity none;
  size = 0;
  votes_required = 15;
  votes = 0;
}

-- realloc: the old cells as far as they fit, the new ones not written
unfoldable pub realloc : List (Option ℕ) → ℕ → List (Option ℕ)
realloc cells zero = []
realloc [] (suc n) = none ∷ realloc [] n
realloc (c ∷ cells) (suc n) = c ∷ realloc cells n

-- vector_resize; `none` is the failed assertion that the elements fit
unfoldable pub vector_resize : ℕ → Vector → Option Vector
vector_resize new_capacity v =
    if new_capacity == 0
    then some v
    else if leb v.size new_capacity
    then some (record v { cells = realloc v.cells new_capacity; votes = 0 })
    else none

-- `*(v->next++) = element`; `none` is a write outside the allocation
unfoldable pub append_cell : ℕ → Vector → Option Vector
append_cell element v =
    if ltb v.size (capacity v)
    then some (record v { cells = set v.cells v.size (some element); size = v.size + 1 })
    else none

-- vector_push
unfoldable pub vector_push : ℕ → Vector → Option Vector
vector_push element v =
    (if v.size == capacity v
      then vector_resize (capacity v * 2) (record v { votes_required = v.votes_required + 1 })
      else some v)
    >>= append_cell element

-- the loop of vector_pushall over the array, whose elements are asserted not to be NULL
unfoldable pub append_cells : List ℕ → Vector → Option Vector
append_cells [] v = some v
append_cells (x ∷ xs) v = if x == 0 then none else (append_cell x v >>= append_cells xs)

-- vector_pushall
unfoldable pub vector_pushall : List ℕ → Vector → Option Vector
vector_pushall array v =
    let required_end = v.size + length array in
    (if ltb (capacity v) required_end then vector_resize (required_end * 2) v else some v)
    >>= append_cells array

-- vector_pop: the new vector and the pointer, 0 for NULL, from a cell that may not have been written
unfoldable pub vector_pop : Vector → Option (Vector × Option ℕ)
vector_pop v =
    if v.size == 0
    then ((if leb v.votes_required v.votes && ltb 0 (capacity v / 2)
          then vector_resize (capacity v / 2) v
          else some v)
        >>= λ v'. some (v', some 0))
    else (get_elem? v.cells (v.size - 1) >>= λ c. some (record v { size = v.size - 1 }, c))

-- 2 to the width of size_t
abbrev pub word64 : ℕ
word64 = 18446744073709551616

-- `while (new_size <= idx) new_size *= SCALE_FACTOR`, on fuel; a size_t wraps
unfoldable pub grow : ℕ → ℕ → ℕ → Option ℕ
grow zero idx new_size = none
grow (suc fuel) idx new_size =
    let rest = grow fuel idx (new_size * 2 % word64) in
    if leb new_size idx then rest else some new_size

-- the second half of vector_at: grow until `idx` fits
unfoldable pub ensure_room : ℕ → ℕ → Vector → Option Vector
ensure_room fuel idx v =
    if leb (capacity v) v.size
    then (grow fuel idx (capacity v * 2 % word64) >>= λ new_size.
        vector_resize new_size (record v { votes_required = v.votes_required + 1 }))
    else some v

-- vector_at: the new vector; the pointer that it returns is to cell `idx`
unfoldable pub vector_at : ℕ → ℕ → Vector → Option Vector
unfolding ensure_room
vector_at fuel idx v =
    ensure_room fuel idx (if ltb v.size (idx + 1) then record v { size = idx + 1 } else v)

-- vector_vote
unfoldable pub vector_vote : Vector → Vector
vector_vote v =
    if leb (v.size * 4) (capacity v)
    then record v { votes = v.votes + 1 }
    else record v { votes = 0 }
