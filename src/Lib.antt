-- ===== src/Lib.antt =====
-- ScheduleTestManual: the Lingua Franca C runtime with a fully static scheduler, and hand-written
-- schedules for it.
--
-- The parts and their files. Paths are from the repository's root.
--
-- * Base has shared names, lists, integers and Boolean tests.
--
-- * Tag (core/tag.c, include/core/tag.h): superdense time. A tag is a time, an exact integer in the
--   range of an int64_t, and a microstep below 2^32. tag_compare is lf_tag_compare, delay_tag is
--   _lf_delay_tag with `none` for signed overflow. Tag/Clock has the physical clock (_lf_physical_time,
--   _lf_time, lf_set_physical_clock_offset) over the global variables of tag.c, the reading of the
--   platform's clock being an argument and its sums exact. Tag/Text has lf_comma_separated_time and
--   lf_readable_time as functions to the bytes that they write. The loop of the former has fuel 8; an
--   int64_t has at most 7 groups of three digits. Tag/Compare names the tests `< 0` and `<= 0` on the
--   result of lf_tag_compare.
--
-- * Fs (core/threaded/scheduler_FS.c, include/core/threaded/scheduler_instructions.h and
--   scheduler_instance.h, core/utils/semaphore.c): the scheduler. Fs/Exec has one function for each
--   execute_inst_X, on the shared state Sched and the frame of a worker; Fs/System composes them the way
--   lf_sched_get_ready_reaction does. A worker takes turns: one instruction, the second half of
--   _lf_sched_wait_for_work, or the end of a reaction. perform is one event, Reach the states that any
--   interleaving of events leads to, so that no fairness or speed of a worker is assumed. A turn may
--   block (the semaphore is at 0, the counter of WU is too low, the time of DU has not come), and it may
--   fault: an access out of range, one of ADV to a stop flag being told apart, or signed overflow. The
--   counters are uint32_t, reduced modulo 2^32. Fs/Init is the state that the calls of lf_sched_init
--   leave; the numbers of reactors' tags, of stop flags and of the reactors that lf_sched_init is told of
--   are separate. Fs/Schedules has the arrays of schedules/v1.c to v10.c, which Fs/Repository runs with
--   the arrays of ScheduleTest.c: four reactors, three stop flags, and three as the number of reactors.
--   Fs/Check is a check on schedules that the compiler has to guarantee, and Fs/Safety, Fs/Barrier and
--   Fs/Stop have the proofs.
--
-- * Vector (core/utils/vector.c): the resizing array. Pointers into the allocation are indices, a cell
--   that nothing was written to is `none`. vector_at has a loop that doubles a size, a size_t reduced
--   modulo 2^64; the index plus one is enough fuel where the loop ends, for an index below 2^63.
--
-- * Pqueue (core/utils/pqueue.c, pqueue_support.h): the binary heap of the event and reaction queues.
--   Elements are numbers, their positions a map. The loops have as fuel the index (bubble_up halves it)
--   and the size (percolate_down raises the index to below it), and the searches the size, since the
--   index doubles. pqueue_empty_into pours the smaller queue, with its size as fuel; the element 0 is
--   NULL, which ends its loop.
--
-- * Net (core/federated/net_util.c): bytes of numbers and tags on hosts of both byte orders, the host
--   being an argument. Net/Send (core/federated/federate.c) has send_message and send_timed_message,
--   Net/StartTime (core/federated/RTI/rti.c and federate.c) the agreement on the start time.
--
-- * MessageRecord (core/federated/RTI/message_record/message_record.c, message_record.h and
--   rti_pqueue_support.h): the record of the messages in transit to a federate, two queues of Pqueue
--   ordered by time. A record is a pointer that is handed out once, and its tag is read through a map.
--   Each round of a loop takes one record from the main queue, whose size is the fuel. The order is that
--   of the times as uint64_t; the proofs are about times from 0 to FOREVER.
--
-- * Rti (core/federated/RTI/rti.c, rti.h): the coordination of the federates' tags. The mutex makes each
--   handler a step, a function from RtiInstance; Rti/Grant has the functions that decide on grants and
--   send them, Rti/Handlers the handlers of tags, Rti/Stop the agreement on the stop tag, and
--   Rti/Thread the loop of federate_thread_TCP, whose `run` takes the messages of all federates in the
--   order in which the threads take the mutex. A message sent is an entry of the list `sent`, and
--   whether write_to_socket succeeds is a parameter, `writes`. The recursions over the graph of
--   federates have as fuel the number of federates plus one, since each nested call marks one more, or
--   grants one more the tag. `none` stands for an access out of range, signed overflow, and the wait for
--   another thread to send a federate its start time; the theorems about sequences of messages start
--   from a federation that has started, where no thread waits, and Rti/Waiting has
--   send_tag_advance_grant from its wait on. Rti/Order and Rti/Reach are about the order of the
--   grants, Rti/Total about termination, Rti/Agreement about the stop, Rti/Diamond about a federation
--   with two paths, Rti/Chunks about the chunks that handle_timed_message reads and forwards (the number
--   of bytes is the fuel of its loop). There a socket is the bytes to come and how many of them each call
--   of read() gives at most, 0 for a call that would block. Address queries, ports that are absent and
--   the clock synchronization are left out.
--
-- * Np (core/threaded/scheduler_NP.c, scheduler_sync_tag_advance.c): the non-preemptive scheduler, as it
--   is built for a program that is not federated. Np has the operations on the shared state, with the
--   tag and the reactions that _lf_next_locked gives as arguments; Np/Workers has the turns of the
--   workers between shared accesses, and Reach the states that any interleaving of them leads to.
--   Np/Init has lf_sched_init. A
--   turn that is `none` is blocked, out of range or a failed assertion. The loop over the levels has as
--   fuel the levels that are left. That a reaction triggers reactions of later levels only is what the
--   code generator's levels give, a hypothesis on each step. Np/Rows and Np/Effects are about the rows
--   of triggered reactions, Np/Advance about the loop that advances the tag, Np/Balance about the counts
--   of idle workers and permits.
--
-- * MixedRadix (core/mixed_radix.c): permuted mixed-radix numbers, used to walk through banks of ports. An
--   int that overflows is `none`.
--
-- How they interact: the scheduler advances and compares tags with Tag; a message carries a tag that
-- Tag delays, and is dropped by the scheduler's test against the stop tag. The RTI compares and delays
-- tags with Tag and keeps its messages in transit in MessageRecord, which keeps them in Pqueue. The
-- vectors are used by the runtime and by other schedulers, which are not modelled.
--
-- Not modelled: memory allocation (it succeeds) and freeing; sockets, but for the bytes
-- that are sent and read, threads, the sleep and the clock of
-- the platform; the memory model of the machine (shared accesses are atomic and in order); tracing and
-- debug output; the hash set, which is another project's; the program that the Lingua Franca compiler
-- generates. The preemptive and the adaptive schedulers, the reactor runtime, modes, tokens and
-- clock synchronization are outside the development.
pub mod Base
pub mod Tag
pub mod Fs
pub mod Vector
pub mod Pqueue
pub mod Net
pub mod MixedRadix
pub mod MessageRecord
pub mod Rti
pub mod Np
