-- ===== src/Rti/Handlers.antt =====
-- core/federated/RTI/rti.c: the handlers of the messages that change what the RTI knows of a federate's
-- tags. The bytes of the messages are decoded (extract_tag of net_util.c) before.
use schedule_test_manual.Base.{ℕ, Option, none, some, List, [], ◌∷◌, if◌then◌else◌, get_elem?}
use schedule_test_manual.Base.Int.{ℤ}
use schedule_test_manual.Tag.{Tag, forever_tag}
use schedule_test_manual.Tag.Compare.{is_before, earlier}
use schedule_test_manual.MessageRecord.{
  add_in_transit_message_record, clean_in_transit_message_record_up_to_tag,
  get_minimum_in_transit_message_tag,
}
use schedule_test_manual.Net.{◌>>=◌}
use schedule_test_manual.Rti.{
  RtiInstance, not_connected, put_federate, unvisited, depth, is_not_connected, is_pending,
}
use schedule_test_manual.Rti.Grant.{
  send_advance_grant_if_safe, send_downstream_advance_grants_if_safe,
}

-- send_downstream_advance_grants_if_safe with a fresh array
abbrev pub grant_all_downstream : ℕ → RtiInstance → Option RtiInstance
grant_all_downstream id rti =
    send_downstream_advance_grants_if_safe (depth rti) id (unvisited rti) rti >>= λ r. some r.1

-- the end of update_federate_next_event_tag_locked; a federate with nothing upstream expects no grant
unfoldable pub grant_around : List (ℕ × ℤ) → ℕ → RtiInstance → Option RtiInstance
grant_around [] id rti = grant_all_downstream id rti
grant_around (_ ∷ _) id rti = send_advance_grant_if_safe id rti >>= grant_all_downstream id

-- update_federate_next_event_tag_locked
unfoldable pub update_federate_next_event_tag_locked : ℕ → Tag → RtiInstance → Option RtiInstance
update_federate_next_event_tag_locked id next_event_tag rti = get_elem? rti.federates id >>= λ fed.
    let (min_in_transit_tag, queue) =
      get_minimum_in_transit_message_tag fed.in_transit_message_tags in
    let rti1 =
      put_federate id
        (record fed {
          next_event = earlier min_in_transit_tag next_event_tag;
          in_transit_message_tags = queue;
        })
        rti in
    grant_around fed.upstream id rti1

-- the loop of handle_logical_tag_complete over the downstream federates
unfoldable pub complete_loop : List ℕ → RtiInstance → Option RtiInstance
complete_loop [] rti = some rti
complete_loop (downstream ∷ more) rti =
    (send_advance_grant_if_safe downstream rti >>= grant_all_downstream downstream)
    >>= complete_loop more

-- handle_logical_tag_complete
unfoldable pub handle_logical_tag_complete : ℕ → Tag → RtiInstance → Option RtiInstance
handle_logical_tag_complete id completed rti = get_elem? rti.federates id >>= λ fed.
    let queue = clean_in_transit_message_record_up_to_tag fed.in_transit_message_tags completed in
    complete_loop fed.downstream
      (put_federate id (record fed { completed = completed; in_transit_message_tags = queue }) rti)

-- handle_next_event_tag
unfoldable pub handle_next_event_tag : ℕ → Tag → RtiInstance → Option RtiInstance
handle_next_event_tag id intended_tag rti =
    update_federate_next_event_tag_locked id intended_tag rti

-- handle_federate_resign
unfoldable pub handle_federate_resign : ℕ → RtiInstance → Option RtiInstance
handle_federate_resign id rti = get_elem? rti.federates id >>= λ fed.
    grant_all_downstream id
      (put_federate id (record fed { state = not_connected; next_event = forever_tag }) rti)

-- handle_timed_message: what it does to the record of the messages in transit and to the tags. The
-- message itself goes to the destination unchanged, in pieces, once the destination has its start time.
unfoldable pub record_in_transit : ℕ → Tag → RtiInstance → Option RtiInstance
record_in_transit id intended_tag rti = get_elem? rti.federates id >>= λ fed.
    if is_not_connected fed.state
    then some rti
    else if is_pending fed.state
    then none
    else let queue =
        if is_before fed.completed intended_tag
        then add_in_transit_message_record fed.in_transit_message_tags intended_tag
        else fed.in_transit_message_tags in
      update_federate_next_event_tag_locked id intended_tag
        (put_federate id (record fed { in_transit_message_tags = queue }) rti)
