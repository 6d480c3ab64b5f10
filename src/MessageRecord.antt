-- ===== src/MessageRecord.antt =====
-- core/federated/RTI/message_record: the record that the RTI keeps of the messages in transit to a
-- federate, two queues ordered by time. A record of a message is a pointer, a number that is not 0; its
-- tag is read through `tag_of`. Memory can be had, and a pointer is not handed out twice.
pub mod Clean
pub mod Heads
pub mod Minimum
mod Tests
pub mod Times
use schedule_test_manual.Base.{
  ℕ, zero, suc, ◌+◌, Bool, not, ◌&&◌, Option, none, some, ◌==◌, if◌then◌else◌,
}
use schedule_test_manual.Base.Int.{ℤ, ltb_ℤ}
use schedule_test_manual.Tag.{Tag, forever_tag}
use schedule_test_manual.Tag.Compare.{is_at_most}
use schedule_test_manual.Net.{unsigned, word64}
use schedule_test_manual.Pqueue.{
  Pqueue, Order, update, pqueue_init, pqueue_insert, pqueue_pop, pqueue_peek, pqueue_size,
  pqueue_empty_into,
}
use schedule_test_manual.Pqueue.Up.{by_priority}

-- in_transit_message_record_q_t, with the records that it points to and the next free pointer
pub record InTransit : Type 0 where
  pub main_queue : Pqueue
  pub transfer_queue : Pqueue
  pub tag_of : ℕ → Tag
  pub next_pointer : ℕ

-- get_message_record_index: the time, as an unsigned number
abbrev pub get_message_record_index : (ℕ → Tag) → ℕ → ℕ
get_message_record_index tag_of p = unsigned word64 (tag_of p).time

abbrev pub order : InTransit → Order
order q = by_priority (get_message_record_index q.tag_of)

-- initialize_in_transit_message_q
unfoldable pub initialize_in_transit_message_q : InTransit
unfolding pqueue_init
initialize_in_transit_message_q = record {
  main_queue = pqueue_init 10;
  transfer_queue = pqueue_init 10;
  tag_of = λ _. forever_tag;
  next_pointer = 1;
}

-- add_in_transit_message_record
unfoldable pub add_in_transit_message_record : InTransit → Tag → InTransit
add_in_transit_message_record q tag =
    let p = q.next_pointer in
    let tag_of = λ (x : ℕ). if p == x then tag else q.tag_of x in
    record q {
      main_queue = pqueue_insert (by_priority (get_message_record_index tag_of)) q.main_queue p;
      tag_of = tag_of;
      next_pointer = p + 1;
    }

-- `pqueue_insert(queue->transfer_queue, pqueue_pop(queue->main_queue))`, for the head of the queue
abbrev pub transfer : InTransit → ℕ → InTransit
transfer q head = record q {
  main_queue = (pqueue_pop (order q) q.main_queue).1;
  transfer_queue = pqueue_insert (order q) q.transfer_queue head;
}

-- `free(pqueue_pop(queue->main_queue))`
abbrev pub discard : InTransit → InTransit
discard q = record q { main_queue = (pqueue_pop (order q) q.main_queue).1 }

-- `pqueue_empty_into(&queue->main_queue, &queue->transfer_queue)`
abbrev pub refill : InTransit → InTransit
refill q =
    let (main, rest) = pqueue_empty_into (order q) q.main_queue q.transfer_queue in
    record q { main_queue = main; transfer_queue = rest }

-- the loop of clean_in_transit_message_record_up_to_tag; each round takes one from the main queue
unfoldable pub clean_loop : ℕ → InTransit → Tag → InTransit
clean_loop zero q tag = q
clean_loop (suc fuel) q tag = elim (pqueue_peek q.main_queue) [
  | none ↦ q
  | some head ↦
      let rest =
        clean_loop fuel (if is_at_most (q.tag_of head) tag then discard q else transfer q head)
          tag in
      if not (ltb_ℤ tag.time (q.tag_of head).time) then rest else q
]

-- clean_in_transit_message_record_up_to_tag
unfoldable pub clean_in_transit_message_record_up_to_tag : InTransit → Tag → InTransit
clean_in_transit_message_record_up_to_tag q tag =
    refill (clean_loop (pqueue_size q.main_queue) q tag)

-- the loop of get_minimum_in_transit_message_tag; each round takes one from the main queue
unfoldable pub minimum_loop : ℕ → InTransit → Tag → Tag × InTransit
minimum_loop zero q minimum_tag = (minimum_tag, q)
minimum_loop (suc fuel) q minimum_tag = elim (pqueue_peek q.main_queue) [
  | none ↦ (minimum_tag, q)
  | some head ↦
      let tag = q.tag_of head in
      let rest =
        minimum_loop fuel (transfer q head)
          (if is_at_most tag minimum_tag then tag else minimum_tag) in
      if not (is_at_most tag minimum_tag) && ltb_ℤ minimum_tag.time tag.time
      then (minimum_tag, q)
      else rest
]

-- get_minimum_in_transit_message_tag: the tag, and the queue as it is left
unfoldable pub get_minimum_in_transit_message_tag : InTransit → Tag × InTransit
get_minimum_in_transit_message_tag q =
    let (minimum_tag, left) = minimum_loop (pqueue_size q.main_queue) q forever_tag in
    (minimum_tag, refill left)
