-- ===== src/Rti/Total/Run.antt =====
-- core/federated/RTI/rti.c: the threads, run on a federation.
use schedule_test_manual.Base.{
  Bool-cases, inr, inl, ℕ, ◌≡◌, ◌<◌, refl, false, some, List, [], ◌∷◌, length, get_elem?,
  get_elem?_of_lt, length-set,
}
use schedule_test_manual.Tag.Delay.{InRange}
use schedule_test_manual.Rti.{
  is_not_connected, Federate, FedState, is_pending, RtiInstance, not_connected, granted,
  put_federate,
}
use schedule_test_manual.Rti.Handlers.{handle_next_event_tag}
use schedule_test_manual.Rti.Thread.{
  Received, timestamp, resign, closed, tagged_message, next_event, logical_tag_complete,
  stop_request, stop_request_reply, federate_thread_tcp, listen, run,
}
use schedule_test_manual.Rti.Formed.{IsFederation}
use schedule_test_manual.Rti.Total.{put-IsFederation}
use schedule_test_manual.Rti.Total.Decision.{Stays}
use schedule_test_manual.Rti.Total.Handlers.{
  update-total, handle_logical_tag_complete-total, handle_federate_resign-total,
  record_in_transit-total,
}
use schedule_test_manual.Rti.Total.Stop.{reply-total, request-total}

-- a message that a federate of `n` can send, with times that are of int64_t
abbrev pub IsReceivable : ℕ → Received → Type 0
IsReceivable n timestamp = Unit {0}
IsReceivable n closed = Unit {0}
IsReceivable n resign = Unit {0}
IsReceivable n (tagged_message destination tag) = (destination < n) × InRange tag.time
IsReceivable n (next_event tag) = InRange tag.time
IsReceivable n (logical_tag_complete tag) = InRange tag.time
IsReceivable n (stop_request tag) = InRange tag.time
IsReceivable n (stop_request_reply tag) = InRange tag.time

state-Stays :
    (id : ℕ) (fed : Federate) (state' : FedState) (s : RtiInstance)
    → get_elem? s.federates id ≡ some fed
    → is_pending state' ≡ false
    → IsFederation s
    → Stays s (put_federate id (record fed { state = state' }) s)
state-Stays id fed state' s found started h =
    let f = h.federate id fed found in
    let new : Federate = record fed { state = state' } in
    record {
      federation =
          put-IsFederation id new s
            (record {
              connections = f.connections;
              downstream_below = f.downstream_below;
              completed_time = f.completed_time;
              next_time = f.next_time;
              transit_times = f.transit_times;
              started = started;
            })
            h;
      size = length-set s.federates id new;
    }

federate_thread_tcp-total :
    (id : ℕ) (received : Received) (s : RtiInstance)
    → IsFederation s
    → id < length s.federates
    → IsReceivable (length s.federates) received
    → (t : RtiInstance) × (federate_thread_tcp id received s ≡ some t) × Stays s t
unfolding federate_thread_tcp handle_next_event_tag
federate_thread_tcp-total id timestamp s h below ok =
    let (fed, found) = get_elem?_of_lt s.federates id below in
    let new : Federate = record fed { state = granted } in
    (put_federate id new s, rw found refl, state-Stays id fed granted s found refl h)
federate_thread_tcp-total id closed s h below ok =
    let (fed, found) = get_elem?_of_lt s.federates id below in
    let new : Federate = record fed { state = not_connected } in
    (put_federate id new s, rw found refl, state-Stays id fed not_connected s found refl h)
federate_thread_tcp-total id resign s h below ok = handle_federate_resign-total id s h below
federate_thread_tcp-total id (tagged_message destination tag) s h below ok =
    record_in_transit-total tag ok.1 destination s h ok.0
federate_thread_tcp-total id (next_event tag) s h below ok = update-total tag ok id s h below
federate_thread_tcp-total id (logical_tag_complete tag) s h below ok =
    handle_logical_tag_complete-total tag ok id s h below
federate_thread_tcp-total id (stop_request tag) s h below ok = request-total tag ok id s h below
federate_thread_tcp-total id (stop_request_reply tag) s h below ok = reply-total tag ok id s h below

listen-total :
    (id : ℕ) (received : Received) (s : RtiInstance)
    → IsFederation s
    → id < length s.federates
    → IsReceivable (length s.federates) received
    → (t : RtiInstance) × (listen id received s ≡ some t) × Stays s t
unfolding listen
listen-total id received s h below ok =
    let (fed, found) = get_elem?_of_lt s.federates id below in
    let (t, handled, st) = federate_thread_tcp-total id received s h below ok in
    elim (Bool-cases (is_not_connected fed.state)) [
      | inl gone ↦ (s, rw (found, gone) refl, record { federation = h; size = refl })
      | inr there ↦ (t, rw (found, there) handled, st)
    ]

-- messages of federates below `n`
abbrev pub AreReceivable : ℕ → List (ℕ × Received) → Type 0
AreReceivable n [] = Unit {0}
AreReceivable n ((id, received) ∷ more) = (id < n) × IsReceivable n received × AreReceivable n more

-- In a federation that has started, so that no federate is PENDING and no thread waits for a start
-- time, with connections between its federates, delays that are NEVER or from 0 on, and times of
-- int64_t, the RTI handles to its end every sequence of messages, each from a federate of the
-- federation, with a time of int64_t and, if it is a tagged message, to a federate of the federation.
-- No recursion over the graph of federates exceeds the number of federates, cycles or not, no tag
-- overflows, no other index is out of range, and the federation is as well formed afterwards.
pub run-total :
    (events : List (ℕ × Received)) (s : RtiInstance)
    → IsFederation s
    → AreReceivable (length s.federates) events
    → (t : RtiInstance) × (run events s ≡ some t) × IsFederation t
unfolding run
run-total [] s h ok = (s, refl, h)
run-total ((id, received) ∷ more) s h ok =
    let (mid, first, st) = listen-total id received s h ok.0 ok.1 in
    let (t, rest, h') = run-total more mid st.federation (rw st.size ok.2) in (t, rw first rest, h')
