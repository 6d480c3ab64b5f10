-- ===== src/Rti/Stop.antt =====
-- core/federated/RTI/rti.c: the agreement on the stop tag.
use schedule_test_manual.Base.{
  ℕ, zero, suc, ◌+◌, true, not, ◌&&◌, Option, some, List, [], ◌∷◌, ◌==◌, if◌then◌else◌, get_elem?,
  length,
}
use schedule_test_manual.Tag.{Tag}
use schedule_test_manual.Tag.Compare.{is_before, is_at_most}
use schedule_test_manual.Net.{◌>>=◌}
use schedule_test_manual.Rti.{
  Federate, RtiInstance, Message, stop_request, stop_granted, is_not_connected, put_federate,
}

-- a connected federate's next event, no greater than the stop tag
abbrev pub stopped : Tag → Federate → Federate
stopped max_stop_tag fed =
    if not (is_not_connected fed.state) && is_at_most max_stop_tag fed.next_event
    then record fed { next_event = max_stop_tag }
    else fed

-- the loop of _lf_rti_broadcast_stop_time_to_federates_already_locked: the federates, from the index `i`
-- on, and what is sent
unfoldable pub broadcast_loop :
    Tag → ℕ → List Federate → List (ℕ × Message) → List Federate × List (ℕ × Message)
broadcast_loop max_stop_tag i [] sent = ([], sent)
broadcast_loop max_stop_tag i (fed ∷ feds) sent =
    let gone = is_not_connected fed.state in
    let (rest, sent') =
      broadcast_loop max_stop_tag (suc i) feds
        (if gone then sent else (i, stop_granted max_stop_tag) ∷ sent) in
    (stopped max_stop_tag fed ∷ rest, sent')

-- _lf_rti_broadcast_stop_time_to_federates_already_locked; the writes of this and the next functions
-- exit if they fail
unfoldable pub broadcast_stop_time : RtiInstance → RtiInstance
unfolding broadcast_loop
broadcast_stop_time rti =
    if rti.stop_granted_already_sent
    then rti
    else let (feds, sent) = broadcast_loop rti.max_stop_tag 0 rti.federates rti.sent in
      record rti { federates = feds; sent = sent; stop_granted_already_sent = true }

-- mark_federate_requesting_stop: the tally, then the answer when it is complete
unfoldable pub count_request : ℕ → Federate → RtiInstance → RtiInstance
count_request id fed rti =
    if fed.requested_stop
    then rti
    else record (put_federate id (record fed { requested_stop = true }) rti) {
      num_feds_handling_stop = rti.num_feds_handling_stop + 1;
    }

unfoldable pub answer_when_all : RtiInstance → RtiInstance
answer_when_all rti =
    if rti.num_feds_handling_stop == length rti.federates then broadcast_stop_time rti else rti

-- mark_federate_requesting_stop
unfoldable pub mark_federate_requesting_stop : ℕ → RtiInstance → Option RtiInstance
mark_federate_requesting_stop id rti =
    get_elem? rti.federates id >>= λ fed. some (answer_when_all (count_request id fed rti))

-- `if (lf_tag_compare(tag, _RTI.max_stop_tag) > 0) _RTI.max_stop_tag = tag`
abbrev pub raise_stop_tag : Tag → RtiInstance → RtiInstance
raise_stop_tag tag rti =
    if is_before rti.max_stop_tag tag then record rti { max_stop_tag = tag } else rti

-- the loop of handle_stop_request_message: its body for the federate `i`, and `n` federates from `i` on
unfoldable pub request_step : ℕ → Tag → ℕ → RtiInstance → Option RtiInstance
request_step id tag i rti = get_elem? rti.federates i >>= λ fed.
    if not (i == id) && not fed.requested_stop
    then (if is_not_connected fed.state
        then mark_federate_requesting_stop i rti
        else some (record rti { sent = (i, stop_request tag) ∷ rti.sent }))
    else some rti

unfoldable pub request_loop : ℕ → Tag → ℕ → ℕ → RtiInstance → Option RtiInstance
request_loop id tag zero i rti = some rti
request_loop id tag (suc n) i rti = request_step id tag i rti >>= request_loop id tag n (suc i)

-- handle_stop_request_message
unfoldable pub handle_stop_request_message : ℕ → Tag → RtiInstance → Option RtiInstance
handle_stop_request_message id proposed_stop_tag rti = get_elem? rti.federates id >>= λ fed.
    if fed.requested_stop
    then some rti
    else (mark_federate_requesting_stop id (raise_stop_tag proposed_stop_tag rti) >>= λ rti'.
        if rti'.num_feds_handling_stop == length rti'.federates
        then some rti'
        else request_loop id rti'.max_stop_tag (length rti'.federates) 0 rti')

-- handle_stop_request_reply
unfoldable pub handle_stop_request_reply : ℕ → Tag → RtiInstance → Option RtiInstance
handle_stop_request_reply id federate_stop_tag rti =
    mark_federate_requesting_stop id (raise_stop_tag federate_stop_tag rti)
