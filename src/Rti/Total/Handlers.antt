-- ===== src/Rti/Total/Handlers.antt =====
-- core/federated/RTI/rti.c: the handlers of the messages, run on a federation.
use mathlib.Core.Path.{subst}
use schedule_test_manual.Base.{
  ℕ, zero, suc, ◌≡◌, ◌<◌, refl, sym, ◌∙◌, false, Option, some, List, [], ◌∷◌, replicate, length,
  get_elem?, inl, inr, arith, Bool-cases, if◌then◌else◌, if_both, get_elem?_of_lt, length-set,
  length-replicate,
}
use schedule_test_manual.Base.Int.{ℤ}
use schedule_test_manual.Tag.{Tag, forever_tag}
use schedule_test_manual.Tag.Compare.{is_before, earlier}
use schedule_test_manual.Tag.Delay.{InRange}
use schedule_test_manual.Net.{◌>>=◌}
use schedule_test_manual.MessageRecord.{
  InTransit, add_in_transit_message_record, clean_in_transit_message_record_up_to_tag,
  get_minimum_in_transit_message_tag,
}
use schedule_test_manual.MessageRecord.Times.{
  TagsInRange, get_minimum-InRange, clean-InRange, add-InRange,
}
use schedule_test_manual.Rti.{
  Federate, RtiInstance, not_connected, put_federate, is_not_connected, depth, unvisited,
}
use schedule_test_manual.Rti.Grant.{send_advance_grant_if_safe}
use schedule_test_manual.Rti.Handlers.{
  grant_all_downstream, grant_around, update_federate_next_event_tag_locked, complete_loop,
  handle_logical_tag_complete, handle_federate_resign, record_in_transit,
}
use schedule_test_manual.Rti.Formed.{AreBelow, IsFormed, IsFederation, unseen-replicate}
use schedule_test_manual.Rti.Next.{earlier-InRange}
use schedule_test_manual.Rti.Total.{put-IsFederation}
use schedule_test_manual.Rti.Total.Decision.{
  Stays, Stays-refl, Stays-trans, EndsAt, send_advance_grant_if_safe-total,
}
use schedule_test_manual.Rti.Total.Downstream.{
  Spreads, send_downstream_advance_grants_if_safe-Spreads,
}

get_elem?-replicate : (n i : ℕ) → i < n → get_elem? (replicate n false) i ≡ some false
get_elem?-replicate zero i h = absurd (omega arith)
get_elem?-replicate (suc n) zero h = refl
get_elem?-replicate (suc n) (suc i) h = get_elem?-replicate n i (omega arith)

pub grant_all_downstream-total : EndsAt grant_all_downstream
unfolding Spreads
grant_all_downstream-total id s h below =
    let n = length s.federates in
    let u = unseen-replicate n in
    let (r, sent, sp) =
      send_downstream_advance_grants_if_safe-Spreads n (depth s) id (unvisited s) s h refl
        (length-replicate n false) (get_elem?-replicate n id below) (omega arith) in
    (r.1, rw sent refl, sp.stays)

send_and_down-total : EndsAt (λ id s. send_advance_grant_if_safe id s >>= grant_all_downstream id)
send_and_down-total id s h below =
    let (mid, first, st) = send_advance_grant_if_safe-total id s h below in
    let (t, rest, st') = grant_all_downstream-total id mid st.federation (rw st.size below) in
    (t, rw first rest, Stays-trans s mid t st st')

grant_around-total : (upstream : List (ℕ × ℤ)) → EndsAt (grant_around upstream)
unfolding grant_around
grant_around-total [] = grant_all_downstream-total
grant_around-total (_ ∷ _) = send_and_down-total

pub complete_loop-total :
    (ids : List ℕ) (s : RtiInstance)
    → IsFederation s
    → AreBelow (length s.federates) ids
    → (t : RtiInstance) × (complete_loop ids s ≡ some t) × Stays s t
unfolding complete_loop
complete_loop-total [] s h ok = (s, refl, Stays-refl s h)
complete_loop-total (id ∷ ids) s h ok =
    let (mid, first, st) = send_and_down-total id s h ok.0 in
    let (t, rest, st') = complete_loop-total ids mid st.federation (rw st.size ok.1) in
    (t, rw first rest, Stays-trans s mid t st st')

-- a federate with another next event and record of messages
pub next_event-IsFormed :
    (n : ℕ) (fed : Federate) (tag : Tag) (q : InTransit)
    → IsFormed n fed
    → InRange tag.time
    → TagsInRange q.tag_of
    → IsFormed n (record fed { next_event = tag; in_transit_message_tags = q })
unfolding TagsInRange
next_event-IsFormed n fed tag q f one all = record {
  connections = f.connections;
  downstream_below = f.downstream_below;
  completed_time = f.completed_time;
  next_time = one;
  transit_times = all;
  started = f.started;
}

pub put-Stays :
    (id : ℕ) (new : Federate) (s t : RtiInstance) → Stays (put_federate id new s) t → Stays s t
put-Stays id new s t st = record {
  federation = st.federation;
  size = st.size ∙ length-set s.federates id new;
}

-- a handler of a tag that ends on every federation
abbrev pub EndsFor : (ℕ → Tag → RtiInstance → Option RtiInstance) → Type 0
EndsFor handle = (tag : Tag) → InRange tag.time → EndsAt (λ id s. handle id tag s)

pub update-total : EndsFor update_federate_next_event_tag_locked
unfolding update_federate_next_event_tag_locked TagsInRange
update-total tag range id s h below =
    let (fed, found) = get_elem?_of_lt s.federates id below in
    let f = h.federate id fed found in
    let (least, all) = get_minimum-InRange fed.in_transit_message_tags f.transit_times in
    let m = get_minimum_in_transit_message_tag fed.in_transit_message_tags in
    let new = record fed { next_event = earlier m.0 tag; in_transit_message_tags = m.1 } in
    let formed =
      next_event-IsFormed (length s.federates) fed (earlier m.0 tag) m.1 f
        (earlier-InRange m.0 tag least range) all in
    let (t, done, st) =
      grant_around-total fed.upstream id (put_federate id new s)
        (put-IsFederation id new s formed h) (rw (length-set s.federates id new) below) in
    (t, rw found done, put-Stays id new s t st)

-- a federate of a federation is replaced, and what follows ends
put_then-total :
    (id : ℕ) (new : Federate) (s : RtiInstance) (step : RtiInstance → Option RtiInstance)
    → IsFederation s
    → IsFormed (length s.federates) new
    → ((u : RtiInstance)
        → IsFederation u
        → length u.federates ≡ length s.federates
        → (t : RtiInstance) × (step u ≡ some t) × Stays u t)
    → (t : RtiInstance) × (step (put_federate id new s) ≡ some t) × Stays s t
put_then-total id new s step h formed ends =
    let (t, done, st) =
      ends (put_federate id new s) (put-IsFederation id new s formed h)
        (length-set s.federates id new) in
    (t, done, put-Stays id new s t st)

pub handle_logical_tag_complete-total : EndsFor handle_logical_tag_complete
unfolding handle_logical_tag_complete TagsInRange
handle_logical_tag_complete-total tag range id s h below =
    let (fed, found) = get_elem?_of_lt s.federates id below in
    let f = h.federate id fed found in
    let q = fed.in_transit_message_tags in
    let new = record fed {
      completed = tag;
      in_transit_message_tags = clean_in_transit_message_record_up_to_tag q tag;
    } in
    let (t, done, st) =
      put_then-total id new s (complete_loop fed.downstream) h
        (record {
          connections = f.connections;
          downstream_below = f.downstream_below;
          completed_time = range;
          next_time = f.next_time;
          transit_times = clean-InRange q f.transit_times tag;
          started = f.started;
        })
        (λ u hu size.
          complete_loop-total fed.downstream u hu
            (subst (λ (n : ℕ). AreBelow n fed.downstream) (sym size) f.downstream_below)) in
    (t, rw found done, st)

pub handle_federate_resign-total : EndsAt handle_federate_resign
unfolding handle_federate_resign
handle_federate_resign-total id s h below =
    let (fed, found) = get_elem?_of_lt s.federates id below in
    let f = h.federate id fed found in
    let (t, done, st) =
      put_then-total id (record fed { state = not_connected; next_event = forever_tag }) s
        (grant_all_downstream id) h
        (record {
          connections = f.connections;
          downstream_below = f.downstream_below;
          completed_time = f.completed_time;
          next_time = omega arith;
          transit_times = f.transit_times;
          started = refl;
        })
        (λ u hu size. grant_all_downstream-total id u hu (rw size below)) in
    (t, rw found done, st)

pub record_in_transit-total : EndsFor record_in_transit
unfolding record_in_transit TagsInRange
record_in_transit-total tag range id s h below =
    let (fed, found) = get_elem?_of_lt s.federates id below in
    let f = h.federate id fed found in
    let q = fed.in_transit_message_tags in
    elim (Bool-cases (is_not_connected fed.state)) [
      | inl c ↦ (s, rw (found, c) refl, Stays-refl s h)
      | inr c ↦
          let late = is_before fed.completed tag in
          let q' = if late then add_in_transit_message_record q tag else q in
          let all =
            if_both (λ (r : InTransit). (p : ℕ) → InRange (r.tag_of p).time) late
              (add-InRange q f.transit_times tag range) f.transit_times in
          let (t, done, st) =
            put_then-total id (record fed { in_transit_message_tags = q' }) s
              (update_federate_next_event_tag_locked id tag) h
              (next_event-IsFormed (length s.federates) fed fed.next_event q' f f.next_time all)
              (λ u hu size. update-total tag range id u hu (rw size below)) in
          (t, rw (found, c, f.started) done, st)
    ]
