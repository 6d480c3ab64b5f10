-- ===== src/Pqueue.antt =====
-- core/utils/pqueue.c: the binary heap of pointers behind the event and reaction queues. A pointer is
-- a number, 0 for NULL; the priorities of the elements are read through `getpri`, and their positions
-- are kept in a map from pointers. Cell 0 of the array is not used.
pub mod Views
pub mod Up
pub mod Down
pub mod Positions
pub mod Insert
pub mod Fill
pub mod Pop
pub mod Pour
pub mod Remove
pub mod Find
mod Tests
use schedule_test_manual.Base.{
  ℕ, zero, suc, ◌+◌, ◌-◌, ◌*◌, ◌/◌, ◌≡◌, ◌≤◌, ◌<◌, Bool, true, false, not, ◌&&◌, ◌||◌, Option, none,
  some, List, [], ◌∷◌, ◌++◌, ltb, leb, ◌==◌, if◌then◌else◌, length, get_or, set, replicate,
}

-- the comparison and the priorities that pqueue_init is given
pub record Order : Type 0 where
  pub cmppri : ℕ → ℕ → Bool
  pub getpri : ℕ → ℕ

-- in_reverse_order and in_no_particular_order
abbrev pub in_reverse_order : ℕ → ℕ → Bool
in_reverse_order this that = ltb that this

abbrev pub in_no_particular_order : ℕ → ℕ → Bool
in_no_particular_order this that = false

-- the array and the positions stored in the elements
pub record Cells : Type 0 where
  pub d : List ℕ
  pub pos : ℕ → ℕ

pub record Pqueue : Type 0 where
  pub cells : Cells
  pub size : ℕ
  pub avail : ℕ
  pub step : ℕ

-- `d[i]`, 0 out of range. The loops stay below `size`, which IsQueue (Pqueue/Insert) keeps in the array.
abbrev pub at : List ℕ → ℕ → ℕ
at d i = get_or d i 0

abbrev pub update : (ℕ → ℕ) → ℕ → ℕ → ℕ → ℕ
update f x v y = if x == y then v else f y

-- `d[i] = e; setpos(d[i], i)`
abbrev pub put : Cells → ℕ → ℕ → Cells
put h i e = record { d = set h.d i e; pos = update h.pos e i }

-- pqueue_init
unfoldable pub pqueue_init : ℕ → Pqueue
pqueue_init n = record {
  cells = record { d = replicate (n + 1) 0; pos = λ _. 0 };
  size = 1;
  avail = n + 1;
  step = n + 1;
}

-- pqueue_size
unfoldable pub pqueue_size : Pqueue → ℕ
pqueue_size q = q.size - 1

module _ (o : Order) where
  -- maxchild: the child of `i` that comes first, 0 if there is none
  unfoldable pub maxchild : List ℕ → ℕ → ℕ → ℕ
  maxchild d size i =
      let child = i * 2 in
      if leb size child
      then 0
      else if ltb (child + 1) size && o.cmppri (o.getpri (at d child)) (o.getpri (at d (child + 1)))
      then child + 1
      else child

  -- the loop of bubble_up; `i` rounds are enough, since `i` halves
  unfoldable pub bubble_loop : ℕ → ℕ → Cells → ℕ → Cells
  bubble_loop zero moving h i = put h i moving
  bubble_loop (suc fuel) moving h i =
      let parent = i / 2 in
      let higher = bubble_loop fuel moving (put h i (at h.d parent)) parent in
      if ltb 1 i && o.cmppri (o.getpri (at h.d parent)) (o.getpri moving)
      then higher
      else put h i moving

  -- bubble_up
  unfoldable pub bubble_up : Cells → ℕ → Cells
  unfolding bubble_loop
  bubble_up h i = bubble_loop i (at h.d i) h i

  -- the loop of percolate_down; `size` rounds are enough, since `i` grows and stays below `size`
  unfoldable pub percolate_loop : ℕ → ℕ → ℕ → Cells → ℕ → Cells
  percolate_loop zero size moving h i = put h i moving
  percolate_loop (suc fuel) size moving h i =
      let child = maxchild h.d size i in
      let lower = percolate_loop fuel size moving (put h i (at h.d child)) child in
      if not (child == 0) && o.cmppri (o.getpri moving) (o.getpri (at h.d child))
      then lower
      else put h i moving

  -- percolate_down
  unfoldable pub percolate_down : ℕ → Cells → ℕ → Cells
  unfolding percolate_loop maxchild
  percolate_down size h i = percolate_loop size size (at h.d i) h i

  -- pqueue_insert; memory for the array can be had
  unfoldable pub pqueue_insert : Pqueue → ℕ → Pqueue
  unfolding bubble_up
  pqueue_insert q e =
      let grows = leb q.avail q.size in
      let room = if grows then q.cells.d ++ replicate q.step 0 else q.cells.d in
      let avail = if grows then q.size + q.step else q.avail in
      record q {
        cells = bubble_up (record { d = set room q.size e; pos = q.cells.pos }) q.size;
        size = q.size + 1;
        avail = avail;
      }

  -- pqueue_remove
  unfoldable pub pqueue_remove : Pqueue → ℕ → Pqueue
  unfolding bubble_up percolate_down
  pqueue_remove q e =
      if q.size == 1
      then q
      else let posn = q.cells.pos e in
        let size = q.size - 1 in
        let h : Cells = record { d = set q.cells.d posn (at q.cells.d size); pos = q.cells.pos } in
        record q {
          cells =
              if o.cmppri (o.getpri e) (o.getpri (at h.d posn))
              then bubble_up h posn
              else percolate_down size h posn;
          size = size;
        }

  -- pqueue_pop: the head, or none for NULL, and the queue without it
  unfoldable pub pqueue_pop : Pqueue → Option ℕ × Pqueue
  unfolding percolate_down
  pqueue_pop q =
      if q.size == 1
      then (none, q)
      else let size = q.size - 1 in
        let h : Cells = record { d = set q.cells.d 1 (at q.cells.d size); pos = q.cells.pos } in
        (some (at q.cells.d 1), record q { cells = percolate_down size h 1; size = size })

-- pqueue_peek
unfoldable pub pqueue_peek : Pqueue → Option ℕ
pqueue_peek q = if q.size == 1 then none else some (at q.cells.d 1)

-- The recursion of find_equal and find_equal_same_priority, on fuel, with 0 for NULL: `stops` ends it at
-- an element, and `matches` takes the element. `pos` doubles, so that `size` rounds are enough.
unfoldable pub find : (ℕ → Bool) → (ℕ → Bool) → ℕ → ℕ → List ℕ → ℕ → ℕ
find stops matches zero size d pos = 0
find stops matches (suc fuel) size d pos =
    let curr = at d pos in
    let left = find stops matches fuel size d (pos * 2) in
    let right = find stops matches fuel size d (pos * 2 + 1) in
    if leb size pos
    then 0
    else if curr == 0 || stops curr
    then 0
    else if matches curr
    then curr
    else if left == 0
    then right
    else left

-- pqueue_find_equal, for the comparison `eqelem` of elements
unfoldable pub pqueue_find_equal : Order → (ℕ → ℕ → Bool) → Pqueue → ℕ → ℕ → ℕ
pqueue_find_equal o eqelem q e max =
    find (λ curr. o.cmppri (o.getpri curr) max) (λ curr. eqelem curr e) q.size q.size q.cells.d 1

-- pqueue_find_equal_same_priority
unfoldable pub pqueue_find_equal_same_priority : Order → (ℕ → ℕ → Bool) → Pqueue → ℕ → ℕ
pqueue_find_equal_same_priority o eqelem q e =
    find (λ curr. o.cmppri (o.getpri curr) (o.getpri e))
      (λ curr. (o.getpri curr == o.getpri e) && eqelem curr e) q.size q.size q.cells.d 1

module _ (o : Order) where
  -- what a loop `while ((item = pqueue_pop(from))) pqueue_insert(to, item)` does with an item; NULL, no
  -- item or the element 0, ends it
  abbrev pub pour_item :
      (Pqueue → Pqueue → Pqueue × Pqueue) → Option ℕ × Pqueue → Pqueue → Pqueue × Pqueue
  pour_item next (none, from) to = (from, to)
  pour_item next (some zero, from) to = (from, to)
  pour_item next (some (suc item), from) to = next from (pqueue_insert o to (suc item))

  -- that loop; as many rounds as `from` holds elements are enough
  unfoldable pub pour : ℕ → Pqueue → Pqueue → Pqueue × Pqueue
  unfolding pqueue_pop pqueue_insert
  pour zero from to = (from, to)
  pour (suc fuel) from to = pour_item (pour fuel) (pqueue_pop o from) to

  -- pqueue_empty_into: the queues that `dest` and `src` point to afterwards
  unfoldable pub pqueue_empty_into : Pqueue → Pqueue → Pqueue × Pqueue
  unfolding pour pqueue_size
  pqueue_empty_into dest src =
      if leb src.size dest.size
      then (let (src', dest') = pour (pqueue_size src) src dest in (dest', src'))
      else (let (dest', src') = pour (pqueue_size dest) dest src in (src', dest'))
