-- ===== src/MessageRecord/Tests.antt =====
-- A record of two messages in transit: one of time 7, then one of time 5.
use schedule_test_manual.Base.{ℕ, ◌≡◌, refl, ◌==◌, arith, if◌then◌else◌}
use schedule_test_manual.Base.Int.{pos}
use schedule_test_manual.Tag.{Tag, tag_compare}
use schedule_test_manual.Tag.Compare.{is_at_most}
use schedule_test_manual.Pqueue.{
  Pqueue, pqueue_init, pqueue_insert, pqueue_peek, pqueue_pop, pqueue_size, pqueue_empty_into,
}
use schedule_test_manual.Pqueue.Up.{by_priority}
use schedule_test_manual.Pqueue.Insert.{IsQueue, pqueue_insert_adds, pqueue_init-IsQueue}
use schedule_test_manual.Pqueue.Views.{occurs}
use schedule_test_manual.Pqueue.Pour.{IsEmpty}
use schedule_test_manual.MessageRecord.{
  InTransit, get_message_record_index, clean_in_transit_message_record_up_to_tag,
  get_minimum_in_transit_message_tag, minimum_loop,
}
use schedule_test_manual.MessageRecord.Heads.{IsRecord}
use schedule_test_manual.MessageRecord.Clean.{Cleaned, clean-Cleaned}
use schedule_test_manual.MessageRecord.Minimum.{Minimum, Minimum-Minimum}

abbrev tag_at : ℕ → Tag
tag_at t = record { time = pos t; microstep = 0 }

-- the pointers 1 and 2
abbrev tags : ℕ → Tag
tags p = if p == 1 then tag_at 7 else tag_at 5

abbrev empty : Pqueue
unfolding pqueue_init
empty = pqueue_init 10

abbrev one_message : Pqueue
unfolding pqueue_insert pqueue_init
one_message = pqueue_insert (by_priority (get_message_record_index tags)) empty 1

abbrev two_messages : Pqueue
unfolding pqueue_insert pqueue_init
two_messages = pqueue_insert (by_priority (get_message_record_index tags)) one_message 2

abbrev messages : InTransit
messages = record {
  main_queue = two_messages;
  transfer_queue = empty;
  tag_of = tags;
  next_pointer = 3;
}

one-IsQueue : IsQueue (get_message_record_index tags) one_message
unfolding pqueue_init pqueue_insert occurs
one-IsQueue =
    (pqueue_insert_adds (get_message_record_index tags) empty 1
      (pqueue_init-IsQueue (get_message_record_index tags) 10) refl).queue

two-IsQueue : IsQueue (get_message_record_index tags) two_messages
unfolding pqueue_init pqueue_insert occurs
two-IsQueue =
    (pqueue_insert_adds (get_message_record_index tags) one_message 2 one-IsQueue refl).queue

none_transferred : IsEmpty messages.transfer_queue
unfolding pqueue_init occurs
none_transferred x = refl

messages-IsRecord : IsRecord messages
unfolding pqueue_init pqueue_insert occurs
messages-IsRecord = record {
  main = two-IsQueue;
  transferred = pqueue_init-IsQueue (get_message_record_index tags) 10;
  once = λ x. ground arith;
  no_null = refl;
  times = λ x. ground arith;
  microsteps = λ x. ground arith;
}

least_is_five : (get_minimum_in_transit_message_tag messages).0 ≡ tag_at 5
unfolding get_minimum_in_transit_message_tag minimum_loop pqueue_init pqueue_insert pqueue_peek
    pqueue_pop pqueue_size pqueue_empty_into is_at_most tag_compare
least_is_five = refl

clean-Cleaned_example :
    let r = clean_in_transit_message_record_up_to_tag messages (tag_at 5) in
    Cleaned messages (tag_at 5) r × IsEmpty r.transfer_queue
clean-Cleaned_example = clean-Cleaned messages (tag_at 5) messages-IsRecord none_transferred

Minimum-Minimum_example :
    Minimum messages (get_minimum_in_transit_message_tag messages)
    × IsEmpty (get_minimum_in_transit_message_tag messages).1.transfer_queue
Minimum-Minimum_example = Minimum-Minimum messages messages-IsRecord none_transferred
