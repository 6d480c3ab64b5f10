-- ===== src/Rti/Grant.antt =====
-- core/federated/RTI/rti.c: the functions that grant a federate a tag.
use schedule_test_manual.Base.{
  ℕ, zero, suc, Bool, true, false, not, ◌&&◌, ◌||◌, Option, none, some, List, [], ◌∷◌,
  if◌then◌else◌, get_elem?, set,
}
use schedule_test_manual.Base.Int.{ℤ}
use schedule_test_manual.Tag.{Tag, delay_tag, forever_tag}
use schedule_test_manual.Tag.Compare.{is_before, is_at_most, earlier}
use schedule_test_manual.Net.{◌>>=◌}
use schedule_test_manual.Rti.{
  Federate, not_connected, Message, tag_advance_grant, provisional_tag_advance_grant, complete,
  short, failed, RtiInstance, is_not_connected, is_pending, put_federate, unvisited,
  transitive_next_event, depth,
}

-- the writes to come, one later
abbrev written : RtiInstance → RtiInstance
written rti = record rti { writes = λ n. rti.writes (suc n) }

-- The end of both grant functions: the message goes to the federate `fed`, which is `fed'` if all of it
-- is written, and is no longer connected if writing fails; the boolean says whether all is written.
unfoldable pub write_grant : ℕ → Message → Federate → Federate → RtiInstance → RtiInstance × Bool
write_grant id message fed fed' rti = elim (rti.writes zero) [
  | complete ↦
      (record (put_federate id fed' (written rti)) { sent = (id, message) ∷ rti.sent }, true)
  | short ↦ (written rti, false)
  | failed ↦ (put_federate id (record fed { state = not_connected }) (written rti), false)
]

-- send_tag_advance_grant up to its wait for the start time of a PENDING federate, which is `none`;
-- Rti/Waiting.antt goes on from there
unfoldable pub send_tag_advance_grant : ℕ → Tag → RtiInstance → Option RtiInstance
unfolding write_grant
send_tag_advance_grant id tag rti = get_elem? rti.federates id >>= λ fed.
    if is_not_connected fed.state
      || is_at_most tag fed.last_granted
      || is_before tag fed.last_provisionally_granted
    then some rti
    else if is_pending fed.state
    then none
    else some (write_grant id (tag_advance_grant tag) fed (record fed { last_granted = tag }) rti).0

-- the loop of send_provisional_tag_advance_grant over the upstream federates, for the call `send`
unfoldable pub provisional_step :
    (ℕ → RtiInstance → Option RtiInstance) → Tag → ℕ → RtiInstance → Option RtiInstance
provisional_step send tag upstream rti = get_elem? rti.federates upstream >>= λ fed.
    if is_not_connected fed.state
    then some rti
    else (transitive_next_event (depth rti) rti upstream fed.next_event (unvisited rti) >>= λ r.
        if is_at_most tag r.0 then send upstream rti else some rti)

unfoldable pub provisional_loop :
    (ℕ → RtiInstance → Option RtiInstance) → Tag → List (ℕ × ℤ) → RtiInstance → Option RtiInstance
provisional_loop send tag [] rti = some rti
provisional_loop send tag ((upstream, delay) ∷ more) rti =
    provisional_step send tag upstream rti >>= provisional_loop send tag more

-- send_provisional_tag_advance_grant. A federate that has been sent the tag stops the recursion, so that
-- calls nest no deeper than there are federates. For a PENDING federate it waits, which is `none`.
unfoldable pub send_provisional_tag_advance_grant : ℕ → Tag → ℕ → RtiInstance → Option RtiInstance
unfolding write_grant
send_provisional_tag_advance_grant zero tag id rti = none
send_provisional_tag_advance_grant (suc fuel) tag id rti = get_elem? rti.federates id >>= λ fed.
    if is_not_connected fed.state
      || is_at_most tag fed.last_granted
      || is_at_most tag fed.last_provisionally_granted
    then some rti
    else if is_pending fed.state
    then none
    else let (rti', done) =
        write_grant id (provisional_tag_advance_grant tag) fed
          (record fed { last_provisionally_granted = tag }) rti in
      if done
      then provisional_loop (send_provisional_tag_advance_grant fuel tag) tag fed.upstream rti'
      else some rti'

-- send_advance_grant_if_safe: the first loop, the least completed tag of the upstream federates with the
-- delays of the connections, from `min_upstream_completed` on
unfoldable pub completed_step : RtiInstance → ℕ → ℤ → Tag → Option Tag
completed_step rti upstream delay min_upstream_completed =
    get_elem? rti.federates upstream >>= λ fed.
    if is_not_connected fed.state
    then some min_upstream_completed
    else (delay_tag fed.completed delay >>= λ candidate.
        some (earlier candidate min_upstream_completed))

unfoldable pub completed_loop : RtiInstance → List (ℕ × ℤ) → Tag → Option Tag
completed_loop rti [] min_upstream_completed = some min_upstream_completed
completed_loop rti ((upstream, delay) ∷ more) min_upstream_completed =
    completed_step rti upstream delay min_upstream_completed >>= completed_loop rti more

-- the second loop, the least tag of a message to come from upstream, from `t_d` on; the array `visited`
-- is shared between the upstream federates
unfoldable pub next_event_step : RtiInstance → ℕ → ℤ → Tag → List Bool → Option (Tag × List Bool)
next_event_step rti upstream delay t_d visited = get_elem? rti.federates upstream >>= λ fed.
    if is_not_connected fed.state
    then some (t_d, visited)
    else (transitive_next_event (depth rti) rti upstream fed.next_event visited >>= λ r.
        delay_tag r.0 delay >>= λ candidate. some (earlier candidate t_d, r.1))

unfoldable pub next_event_loop : RtiInstance → List (ℕ × ℤ) → Tag → List Bool → Option Tag
next_event_loop rti [] t_d visited = some t_d
next_event_loop rti ((upstream, delay) ∷ more) t_d visited =
    next_event_step rti upstream delay t_d visited >>= λ r. next_event_loop rti more r.0 r.1

-- send_advance_grant_if_safe, after the two loops: a grant of the next event, a provisional one, or none
unfoldable pub grant_next_event : ℕ → Federate → Tag → RtiInstance → Option RtiInstance
grant_next_event id fed t_d rti =
    if is_before fed.next_event t_d
      && not (is_before t_d fed.last_provisionally_granted)
      && is_before fed.last_granted t_d
    then send_tag_advance_grant id fed.next_event rti
    else if (is_at_most t_d fed.next_event && is_at_most fed.next_event t_d)
        && is_before fed.last_provisionally_granted t_d
        && is_before fed.last_granted t_d
    then send_provisional_tag_advance_grant (depth rti) t_d id rti
    else some rti

-- send_advance_grant_if_safe, whose result is used nowhere
unfoldable pub send_advance_grant_if_safe : ℕ → RtiInstance → Option RtiInstance
send_advance_grant_if_safe id rti = get_elem? rti.federates id >>= λ fed.
    completed_loop rti fed.upstream forever_tag >>= λ min_upstream_completed.
    if is_before fed.last_granted min_upstream_completed
    then send_tag_advance_grant id min_upstream_completed rti
    else (next_event_loop rti fed.upstream forever_tag (unvisited rti) >>= λ t_d.
        grant_next_event id fed t_d rti)

-- send_downstream_advance_grants_if_safe: the loop over the downstream federates, for the call `next`
unfoldable pub downstream_step :
    (ℕ → List Bool → RtiInstance → Option (List Bool × RtiInstance))
    → ℕ
    → List Bool
    → RtiInstance
    → Option (List Bool × RtiInstance)
downstream_step next downstream visited rti = get_elem? visited downstream >>= λ seen.
    if seen
    then some (visited, rti)
    else (send_advance_grant_if_safe downstream rti >>= next downstream visited)

unfoldable pub downstream_loop :
    (ℕ → List Bool → RtiInstance → Option (List Bool × RtiInstance))
    → List ℕ
    → List Bool
    → RtiInstance
    → Option (List Bool × RtiInstance)
downstream_loop next [] visited rti = some (visited, rti)
downstream_loop next (downstream ∷ more) visited rti =
    downstream_step next downstream visited rti >>= λ r. downstream_loop next more r.0 r.1

-- send_downstream_advance_grants_if_safe. Each call marks a federate, so that calls nest no deeper than
-- there are federates.
unfoldable pub send_downstream_advance_grants_if_safe :
    ℕ → ℕ → List Bool → RtiInstance → Option (List Bool × RtiInstance)
send_downstream_advance_grants_if_safe zero id visited rti = none
send_downstream_advance_grants_if_safe (suc fuel) id visited rti =
    get_elem? rti.federates id >>= λ fed.
    downstream_loop (send_downstream_advance_grants_if_safe fuel) fed.downstream
      (set visited id true) rti
