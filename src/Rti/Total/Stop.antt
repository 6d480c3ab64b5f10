-- ===== src/Rti/Total/Stop.antt =====
-- core/federated/RTI/rti.c: the agreement on the stop tag, run on a federation.
use mathlib.Core.Path.{subst}
use mathlib.Core.Option.{some-injective}
use schedule_test_manual.Base.{
  ℕ, zero, suc, ◌+◌, ◌≡◌, ◌≤◌, refl, ap, Bool, true, not, ◌&&◌, Option, some, List, [], ◌∷◌, ◌==◌,
  length, get_elem?, arith, if◌then◌else◌, if_both, get_elem?_of_lt, length-set,
}
use schedule_test_manual.Tag.{Tag}
use schedule_test_manual.Tag.Compare.{is_before, is_at_most}
use schedule_test_manual.Tag.Delay.{InRange}
use schedule_test_manual.Rti.{
  Federate, Message, stop_granted, stop_request as stop_request_message, RtiInstance,
  is_not_connected,
}
use schedule_test_manual.Rti.Stop.{
  broadcast_loop, broadcast_stop_time, count_request, answer_when_all,
  mark_federate_requesting_stop, raise_stop_tag, request_step, request_loop,
  handle_stop_request_message, handle_stop_request_reply,
}
use schedule_test_manual.Rti.Formed.{IsFormed, IsFederation}
use schedule_test_manual.Rti.Total.{put-IsFederation}
use schedule_test_manual.Rti.Total.Decision.{Stays, Stays-refl, Stays-trans, EndsAt}
use schedule_test_manual.Rti.Total.Handlers.{EndsFor}

-- federates with another state, next event or request
same-IsFormed :
    (n : ℕ) (fed : Federate) (next : Tag) (asked : Bool)
    → IsFormed n fed
    → InRange next.time
    → IsFormed n (record fed { next_event = next; requested_stop = asked })
same-IsFormed n fed next asked f one = record {
  connections = f.connections;
  downstream_below = f.downstream_below;
  completed_time = f.completed_time;
  next_time = one;
  transit_times = f.transit_times;
  started = f.started;
}

AllFormed : ℕ → List Federate → Type 0
AllFormed n feds = (id : ℕ) (fed : Federate) → get_elem? feds id ≡ some fed → IsFormed n fed

broadcast-head :
    (n : ℕ) (tag : Tag) (fed : Federate) (feds : List Federate)
    → InRange tag.time
    → IsFormed n fed
    → AllFormed n feds
    → AllFormed n (
        (if not (is_not_connected fed.state) && is_at_most tag fed.next_event
          then record fed { next_event = tag }
          else fed)
        ∷ feds)
unfolding AllFormed
broadcast-head n tag fed feds one f all zero new e =
    let head =
      if_both (IsFormed n) (not (is_not_connected fed.state) && is_at_most tag fed.next_event)
        (same-IsFormed n fed tag fed.requested_stop f one) f in
    subst (IsFormed n) (some-injective _ _ e) head
broadcast-head n tag fed feds one f all (suc id) new e = all id new e

broadcast_loop-AllFormed :
    (n : ℕ) (tag : Tag) (i : ℕ) (feds : List Federate) (sent : List (ℕ × Message))
    → InRange tag.time
    → AllFormed n feds
    → AllFormed n (broadcast_loop tag i feds sent).0
      × (length (broadcast_loop tag i feds sent).0 ≡ length feds)
unfolding broadcast_loop AllFormed
broadcast_loop-AllFormed n tag i [] sent one all = (λ id fed e. cc, refl)
broadcast_loop-AllFormed n tag i (fed ∷ feds) sent one all =
    let gone = is_not_connected fed.state in
    let sent' = if gone then sent else (i, stop_granted tag) ∷ sent in
    let rest = broadcast_loop-AllFormed n tag (suc i) feds sent' one (λ id f e. all (suc id) f e) in
    let f = all zero fed refl in
    (broadcast-head n tag fed (broadcast_loop tag (suc i) feds sent').0 one f rest.0, ap suc rest.1)

broadcast_stop_time-Stays : (s : RtiInstance) → IsFederation s → Stays s (broadcast_stop_time s)
unfolding broadcast_stop_time AllFormed
broadcast_stop_time-Stays s h =
    let (all, size) =
      broadcast_loop-AllFormed (length s.federates) s.max_stop_tag 0 s.federates s.sent h.stop_time
        h.federate in
    if_both (Stays s) s.stop_granted_already_sent (Stays-refl s h) (record {
      federation = record {
        federate = λ id fed e. rw size (all id fed e);
        start = h.start;
        stop_time = h.stop_time;
      };
      size = size;
    })

raise_stop_tag-Stays :
    (tag : Tag) (s : RtiInstance)
    → InRange tag.time
    → IsFederation s
    → Stays s (raise_stop_tag tag s)
raise_stop_tag-Stays tag s one h =
    if_both (Stays s) (is_before s.max_stop_tag tag)
      (record {
        federation = record { federate = h.federate; start = h.start; stop_time = one };
        size = refl;
      })
      (Stays-refl s h)

count_request-Stays :
    (id : ℕ) (fed : Federate) (s : RtiInstance)
    → get_elem? s.federates id ≡ some fed
    → IsFederation s
    → Stays s (count_request id fed s)
unfolding count_request
count_request-Stays id fed s found h =
    let f = h.federate id fed found in
    let new : Federate = record fed { requested_stop = true } in
    let put =
      put-IsFederation id new s
        (same-IsFormed (length s.federates) fed fed.next_event true f f.next_time) h in
    if_both (Stays s) fed.requested_stop (Stays-refl s h) (record {
      federation = record { federate = put.federate; start = h.start; stop_time = h.stop_time };
      size = length-set s.federates id new;
    })

mark-total : EndsAt mark_federate_requesting_stop
unfolding mark_federate_requesting_stop answer_when_all
mark-total id s h below =
    let (fed, found) = get_elem?_of_lt s.federates id below in
    let counted = count_request id fed s in
    let first = count_request-Stays id fed s found h in
    let second = broadcast_stop_time-Stays counted first.federation in
    (
      answer_when_all counted,
      rw found refl,
      if_both (Stays s) (counted.num_feds_handling_stop == length counted.federates)
          (Stays-trans s counted (broadcast_stop_time counted) first second) first,
    )

request_step-total : (id : ℕ) (tag : Tag) → EndsAt (request_step id tag)
unfolding request_step
request_step-total id tag i s h below =
    let (fed, found) = get_elem?_of_lt s.federates i below in
    let (t, marked, st) = mark-total i s h below in
    let goal = λ (o : Option RtiInstance). (r : RtiInstance) × (o ≡ some r) × Stays s r in
    let asked : RtiInstance = record s { sent = (i, stop_request_message tag) ∷ s.sent } in
    let written : Stays s asked = record {
      federation = record { federate = h.federate; start = h.start; stop_time = h.stop_time };
      size = refl;
    } in
    let body =
      if_both goal (not (i == id) && not fed.requested_stop)
        (if_both goal (is_not_connected fed.state) (t, marked, st) (asked, refl, written))
        (s, refl, Stays-refl s h) in
    rw found body

request_loop-total :
    (id : ℕ) (tag : Tag) (n i : ℕ) (s : RtiInstance)
    → IsFederation s
    → i + n ≤ length s.federates
    → (t : RtiInstance) × (request_loop id tag n i s ≡ some t) × Stays s t
unfolding request_loop
request_loop-total id tag zero i s h fits = (s, refl, Stays-refl s h)
request_loop-total id tag (suc n) i s h fits =
    let (mid, first, st) = request_step-total id tag i s h (omega arith) in
    let size = st.size in
    let (t, rest, st') = request_loop-total id tag n (suc i) mid st.federation (omega arith) in
    (t, rw first rest, Stays-trans s mid t st st')

pub reply-total : EndsFor handle_stop_request_reply
unfolding handle_stop_request_reply
reply-total tag one id s h below =
    let raised = raise_stop_tag-Stays tag s one h in
    let (t, marked, st) =
      mark-total id (raise_stop_tag tag s) raised.federation (rw raised.size below) in
    (t, marked, Stays-trans s (raise_stop_tag tag s) t raised st)

pub request-total : EndsFor handle_stop_request_message
unfolding handle_stop_request_message handle_stop_request_reply
request-total tag one id s h below =
    let (fed, found) = get_elem?_of_lt s.federates id below in
    let goal = λ (o : Option RtiInstance). (r : RtiInstance) × (o ≡ some r) × Stays s r in
    let (mid, marked, st) = reply-total tag one id s h below in
    let n = length mid.federates in
    let (t, looped, st') =
      request_loop-total id mid.max_stop_tag n 0 mid st.federation (omega arith) in
    let after =
      if_both goal (mid.num_feds_handling_stop == n) (mid, refl, st)
        (t, looped, Stays-trans s mid t st st') in
    rw found (if_both goal fed.requested_stop (s, refl, Stays-refl s h) (rw marked after))
