-- ===== src/Pqueue/Tests.antt =====
-- A queue of three events whose priority is their last digit, with one growth of the array.
use schedule_test_manual.Base.{ℕ, ◌%◌, ◌≡◌, some, refl, arith}
use schedule_test_manual.Pqueue.{
  Pqueue, pqueue_init, pqueue_insert, pqueue_remove, pqueue_pop, pqueue_size, pqueue_peek,
  pqueue_empty_into,
}
use schedule_test_manual.Pqueue.Views.{occurs}
use native.Mathlib.Decide.{ℕ_discrete}
use schedule_test_manual.Base.{◌≢◌, ◌==◌, ◌&&◌, ◌<◌, ◌≤◌, ◌+◌}
use schedule_test_manual.Pqueue.{at, find, pqueue_find_equal, pqueue_find_equal_same_priority}
use schedule_test_manual.Pqueue.Find.{Found, pqueue_find_equal-Found}
use schedule_test_manual.Pqueue.Up.{by_priority}
use schedule_test_manual.Pqueue.Pour.{Poured, pqueue_empty_into-Poured}
use schedule_test_manual.Pqueue.Insert.{
  count, IsQueue, Inserted, pqueue_insert_adds, pqueue_init-IsQueue,
}
use schedule_test_manual.Pqueue.Pop.{Popped, pqueue_pop_least}
use schedule_test_manual.Pqueue.Remove.{Removed, pqueue_remove_takes}

abbrev last_digit : ℕ → ℕ
last_digit n = n % 10

abbrev empty : Pqueue
unfolding pqueue_init
empty = pqueue_init 1

abbrev one : Pqueue
unfolding pqueue_insert pqueue_init
one = pqueue_insert (by_priority last_digit) empty 13

abbrev two : Pqueue
unfolding pqueue_insert pqueue_init
two = pqueue_insert (by_priority last_digit) one 21

one-IsQueue : IsQueue last_digit one
unfolding pqueue_init pqueue_insert occurs
one-IsQueue = (pqueue_insert_adds last_digit empty 13 (pqueue_init-IsQueue last_digit 1) refl).queue

pqueue_insert_adds_example :
    Inserted last_digit one 21 (pqueue_insert (by_priority last_digit) one 21)
unfolding pqueue_init pqueue_insert occurs
pqueue_insert_adds_example = pqueue_insert_adds last_digit one 21 one-IsQueue refl

two-IsQueue : IsQueue last_digit two
unfolding pqueue_init pqueue_insert occurs
two-IsQueue = (pqueue_insert_adds last_digit one 21 one-IsQueue refl).queue

two_first : (pqueue_peek two ≡ some 21) × (two.avail ≡ 4) × (two.cells.pos 13 ≡ 2)
unfolding pqueue_init pqueue_insert pqueue_peek
two_first = (refl, refl, refl)

pqueue_pop_least_example : Popped last_digit two (pqueue_pop (by_priority last_digit) two)
unfolding pqueue_init pqueue_insert pqueue_size
pqueue_pop_least_example = pqueue_pop_least last_digit two two-IsQueue (omega arith)

pqueue_remove_takes_example :
    Removed last_digit two 13 (pqueue_remove (by_priority last_digit) two 13)
unfolding pqueue_init pqueue_insert occurs
pqueue_remove_takes_example = pqueue_remove_takes last_digit two 13 two-IsQueue (omega arith)

two_full : (c : ℕ) → 0 < c → c < 3 → at two.cells.d c ≢ 0
unfolding pqueue_init pqueue_insert
two_full c p l = elim (ℕ_discrete c 1) [
  | yes e ↦ rw e (λ z. omega arith)
  | no ne ↦ let e : c ≡ 2 = omega arith in rw e (λ z. omega arith)
]

pqueue_find_equal-Found_example :
    Found last_digit 3 (λ x. x == 13) two (pqueue_find_equal (by_priority last_digit) ◌==◌ two 13 3)
    × Found last_digit 3
        (λ x. (last_digit x == 3) && (x == 13))
        two
        (pqueue_find_equal_same_priority (by_priority last_digit) ◌==◌ two 13)
unfolding pqueue_init pqueue_insert
pqueue_find_equal-Found_example =
    pqueue_find_equal-Found last_digit ◌==◌ two 13 3 two-IsQueue two_full

found_13 : pqueue_find_equal (by_priority last_digit) ◌==◌ two 13 3 ≡ 13
unfolding pqueue_find_equal find pqueue_init pqueue_insert
found_13 = refl

abbrev other : Pqueue
unfolding pqueue_insert pqueue_init
other = pqueue_insert (by_priority last_digit) empty 35

other-IsQueue : IsQueue last_digit other
unfolding pqueue_init pqueue_insert occurs
other-IsQueue =
    (pqueue_insert_adds last_digit empty 35 (pqueue_init-IsQueue last_digit 1) refl).queue

-- the two queues hold different elements
no_common : (x : ℕ) → count x other + count x two ≤ 1
unfolding pqueue_init pqueue_insert occurs
no_common x = ground arith

pqueue_empty_into-Poured_example :
    let r = pqueue_empty_into (by_priority last_digit) other two in
    Poured last_digit two other (r.1, r.0)
unfolding pqueue_init pqueue_insert occurs
pqueue_empty_into-Poured_example =
    pqueue_empty_into-Poured last_digit other two other-IsQueue two-IsQueue no_common refl
