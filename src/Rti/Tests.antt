-- ===== src/Rti/Tests.antt =====
-- Two federates: federate 0 sends to federate 1 after a delay of 5.
use mathlib.Core.Path.{subst}
use mathlib.Core.Option.{some-injective}
use schedule_test_manual.Base.{
  replicate, ◌++◌, drop, ℕ, zero, suc, ◌≡◌, refl, true, false, none, some, List, [], ◌∷◌, get_elem?,
  inr, arith,
}
use schedule_test_manual.Base.Int.{pos}
use schedule_test_manual.Tag.{delay_tag, never, forever_tag}
use schedule_test_manual.Tag.Compare.{IsBefore, AtMost, is_at_most, is_before}
use schedule_test_manual.Tag.Delay.{InRange}
use schedule_test_manual.MessageRecord.{initialize_in_transit_message_q}
use schedule_test_manual.Rti.{
  Federate, RtiInstance, granted, not_connected, pending, tag_advance_grant, stop_granted, complete,
  is_not_connected,
}
use schedule_test_manual.Rti.Grant.{send_advance_grant_if_safe, send_tag_advance_grant}
use schedule_test_manual.Rti.Waiting.{resume_tag_advance_grant, waiting-grants}
use schedule_test_manual.Net.{◌>>=◌}
use schedule_test_manual.Rti.Stop.{handle_stop_request_reply}
use schedule_test_manual.Rti.Thread.{
  Received, next_event, logical_tag_complete, tagged_message, stop_request, run, timestamp,
  federate_thread_tcp,
}
use schedule_test_manual.Rti.Chunks.{Socket, forward, joined, Fit}
use schedule_test_manual.Rti.Chunks.Joined.{forward-joined}
use schedule_test_manual.Rti.Order.{InOrder}
use schedule_test_manual.Rti.Reach.{run-InOrder}
use schedule_test_manual.Rti.Formed.{IsFederation, IsFormed}
use schedule_test_manual.Rti.Total.Run.{AreReceivable, run-total}
use schedule_test_manual.Rti.Diamond.{at_time, never_tag, fresh, diamond, diamond_unsafe}
use schedule_test_manual.Rti.Agreement.{IsAgreed, requesters, stops}
use schedule_test_manual.Rti.Agreement.Run.{run-IsAgreed}
use schedule_test_manual.Rti.Agreement.Answer.{last_reply-grants}
use schedule_test_manual.Rti.Agreement.Broadcast.{Has}

abbrev first : Federate
first = fresh (at_time 10) [] (1 ∷ [])

abbrev second : Federate
second = fresh forever_tag ((0, pos 5) ∷ []) []

abbrev pair : RtiInstance
pair = record {
  max_stop_tag = never_tag;
  federates = first ∷ second ∷ [];
  num_feds_handling_stop = 0;
  start_time = pos 0;
  stop_granted_already_sent = false;
  sent = [];
  writes = λ _. complete;
}

-- no message is in transit at first
initial-InRange : (p : ℕ) → InRange (initialize_in_transit_message_q.tag_of p).time
unfolding initialize_in_transit_message_q
initial-InRange p = ground arith

first-IsFormed : IsFormed 2 first
first-IsFormed = record {
  connections = tt;
  downstream_below = (omega arith, tt);
  completed_time = ground arith;
  next_time = ground arith;
  transit_times = initial-InRange;
  started = refl;
}

second-IsFormed : IsFormed 2 second
second-IsFormed = record {
  connections = (omega arith, inr (ground arith, ground arith), tt);
  downstream_below = tt;
  completed_time = ground arith;
  next_time = ground arith;
  transit_times = initial-InRange;
  started = refl;
}

pair-IsFederation : IsFederation pair
pair-IsFederation = record { federate = formed; start = ground arith; stop_time = ground arith }
  where
    formed : (id : ℕ) (fed : Federate) → get_elem? pair.federates id ≡ some fed → IsFormed 2 fed
    formed zero fed e = subst (IsFormed 2) (some-injective _ _ e) first-IsFormed
    formed (suc zero) fed e = subst (IsFormed 2) (some-injective _ _ e) second-IsFormed
    formed (suc (suc i)) fed e = cc

pair-IsAgreed : IsAgreed pair
unfolding requesters stops
pair-IsAgreed = record {
  tally = refl;
  answered = λ e. cc;
  told = λ e. cc;
  complete = λ e. absurd (omega arith);
  once = λ i. omega arith;
}

-- both ask for their next events, a message is sent, and a stop is requested
abbrev events : List (ℕ × Received)
events =
    (1, next_event (at_time 20))
    ∷ (0, next_event (at_time 10))
    ∷ (0, tagged_message 1 (at_time 15))
    ∷ (0, logical_tag_complete (at_time 10))
    ∷ (1, stop_request (at_time 30))
    ∷ []

events-AreReceivable : AreReceivable 2 events
events-AreReceivable = ground arith

run-total_example : (t : RtiInstance) × (run events pair ≡ some t) × IsFederation t
run-total_example = run-total events pair pair-IsFederation events-AreReceivable

run-InOrder_example : (t : RtiInstance) × (run events pair ≡ some t) × InOrder t.sent
run-InOrder_example = run-InOrder events pair pair-IsFederation events-AreReceivable refl

run-IsAgreed_example : (t : RtiInstance) × (run events pair ≡ some t) × IsAgreed t
run-IsAgreed_example = run-IsAgreed events pair pair-IsFederation events-AreReceivable pair-IsAgreed

diamond_unsafe_example :
    ((t : RtiInstance) × (send_advance_grant_if_safe 3 (diamond 5 50 100) ≡ some t)
      × (t.sent ≡ (3, tag_advance_grant (at_time 50)) ∷ []))
    × (delay_tag (at_time 5) never ≡ some (at_time 5))
    × IsBefore (at_time 5) (at_time 50)
diamond_unsafe_example = diamond_unsafe 5 50 100 (omega arith) (omega arith) (omega arith)

-- federate 0 has requested a stop at 30, and federate 1 answers with 40
abbrev asked : RtiInstance
asked = record pair {
  max_stop_tag = at_time 30;
  federates = record first { requested_stop = true } ∷ second ∷ [];
  num_feds_handling_stop = 1;
}

asked-IsAgreed : IsAgreed asked
unfolding requesters stops
asked-IsAgreed = record {
  tally = refl;
  answered = λ e. cc;
  told = λ e. cc;
  complete = λ e. absurd (omega arith);
  once = λ i. omega arith;
}

last_reply-grants_example :
    (t : RtiInstance) × (handle_stop_request_reply 1 (at_time 40) asked ≡ some t)
    × AtMost (at_time 40) t.max_stop_tag
    × AtMost (at_time 30) t.max_stop_tag
    × ((i : ℕ) (f : Federate)
        → get_elem? t.federates i ≡ some f
        → is_not_connected f.state ≡ false
        → Has i (stop_granted t.max_stop_tag) t.sent × AtMost f.next_event t.max_stop_tag)
last_reply-grants_example =
    last_reply-grants 1 (at_time 40) second asked refl refl asked-IsAgreed refl

-- a message of 300 bytes, and a byte of the next one; the first call of read() would block
abbrev long_message : List ℕ
long_message = replicate 300 7

abbrev socket : Socket
socket = record { bytes = long_message ++ 5 ∷ []; reads = 0 ∷ replicate 300 3 }

forward-joined_example :
    ((chunks : List (List ℕ)) × (reads' : List ℕ) × (forward granted (replicate 21 0) 300 socket
        ≡ some (chunks, record { bytes = 5 ∷ []; reads = reads' }))
      × (joined chunks ≡ replicate 21 0 ++ long_message)
      × Fit chunks)
    × (reads' : List ℕ) × (forward not_connected (replicate 21 0) 300 socket
        ≡ some ([], record { bytes = drop 235 long_message ++ 5 ∷ []; reads = reads' }))
forward-joined_example =
    forward-joined (replicate 21 0) long_message (5 ∷ []) (0 ∷ replicate 300 3) refl (omega arith)

-- two threads wait to send federate 0 tags 20 and 10
abbrev waiting : Federate
waiting = record first { state = pending }

abbrev starting : RtiInstance
starting = record pair { federates = waiting ∷ second ∷ [] }

waiting-grants_example :
    (send_tag_advance_grant 0 (at_time 20) starting ≡ none)
    × (send_tag_advance_grant 0 (at_time 10) starting ≡ none)
    × (t : RtiInstance) × ((federate_thread_tcp 0 timestamp starting >>= λ u.
          resume_tag_advance_grant 0 (at_time 20) u >>= resume_tag_advance_grant 0 (at_time 10))
        ≡ some t)
    × (t.sent ≡ (0, tag_advance_grant (at_time 10)) ∷ (0, tag_advance_grant (at_time 20)) ∷ [])
unfolding is_at_most is_before
waiting-grants_example =
    waiting-grants 0 (at_time 20) (at_time 10) waiting starting refl refl (refl, refl) (refl, refl)
      (refl, refl)
