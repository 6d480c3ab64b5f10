-- ===== src/Rti/Agreement/Run.antt =====
-- core/federated/RTI/rti.c: the agreement on the stop tag over sequences of messages.
use mathlib.Core.Path.{subst}
use schedule_test_manual.Base.{
  ℕ, zero, suc, ◌≡◌, refl, not, ◌&&◌, some, List, [], ◌∷◌, ◌==◌, length, get_elem?, inl, inr, arith,
  if_both, Bool-cases,
}
use schedule_test_manual.Tag.{Tag}
use schedule_test_manual.Tag.Compare.{is_before}
use schedule_test_manual.Rti.{
  stop_request as stop_request_message, RtiInstance, is_not_connected, >>=-eq-some,
}
use schedule_test_manual.Rti.Stop.{
  mark_federate_requesting_stop, request_step, request_loop, raise_stop_tag,
  handle_stop_request_message, handle_stop_request_reply,
}
use schedule_test_manual.Rti.Thread.{
  Received, timestamp, resign, closed, tagged_message, next_event, logical_tag_complete,
  stop_request, stop_request_reply, federate_thread_tcp, listen, listen-cases, run, IsConnected,
}
use schedule_test_manual.Rti.Formed.{IsFederation}
use schedule_test_manual.Rti.Total.Run.{AreReceivable, run-total}
use schedule_test_manual.Rti.Rules.{IsAboutTags, federate_thread_tcp-Preserves}
use schedule_test_manual.Rti.Agreement.{
  IsAgreed, one_more, stops-cons, put_federate-IsAgreed, Grants-IsAgreed,
}
use schedule_test_manual.Rti.Agreement.Marking.{
  KeepsAgreed, IsAgreed-to, mark_federate_requesting_stop-IsAgreed,
}

request_step-IsAgreed : (id : ℕ) (tag : Tag) (i : ℕ) → KeepsAgreed (request_step id tag i)
unfolding request_step
request_step-IsAgreed id tag i s t e h =
    let (fed, found, rest) = >>=-eq-some (get_elem? s.federates i) _ e in
    elim (Bool-cases (not (i == id) && not fed.requested_stop)) [
      | inr a ↦ IsAgreed-to s t (ground arith) h
      | inl a ↦ elim (Bool-cases (is_not_connected fed.state)) [
        | inl b ↦ mark_federate_requesting_stop-IsAgreed i s t (ground arith) h
        | inr b ↦
            IsAgreed-to (record s { sent = (i, stop_request_message tag) ∷ s.sent }) t
              (ground arith)
              (record {
                tally = h.tally;
                answered = h.answered;
                told = λ a j f q c.
                    stops-cons j (i, stop_request_message tag) s.sent (h.told a j f q c);
                complete = h.complete;
                once = λ j. one_more j i (stop_request_message tag) s.sent refl (h.once j);
              })
      ]
    ]

request_loop-IsAgreed : (id : ℕ) (tag : Tag) (n i : ℕ) → KeepsAgreed (request_loop id tag n i)
unfolding request_loop
request_loop-IsAgreed id tag zero i s t e h = IsAgreed-to s t e h
request_loop-IsAgreed id tag (suc n) i s t e h =
    let (mid, first, rest) = >>=-eq-some (request_step id tag i s) _ e in
    request_loop-IsAgreed id tag n (suc i) mid t rest (request_step-IsAgreed id tag i s mid first h)

raise_stop_tag-IsAgreed :
    (tag : Tag) (s : RtiInstance) → IsAgreed s → IsAgreed (raise_stop_tag tag s)
raise_stop_tag-IsAgreed tag s h =
    if_both IsAgreed (is_before s.max_stop_tag tag)
      (record {
        tally = h.tally;
        answered = h.answered;
        told = h.told;
        complete = h.complete;
        once = h.once;
      })
      h

reply-IsAgreed : (id : ℕ) (tag : Tag) → KeepsAgreed (handle_stop_request_reply id tag)
unfolding handle_stop_request_reply
reply-IsAgreed id tag s t e h =
    mark_federate_requesting_stop-IsAgreed id (raise_stop_tag tag s) t e
      (raise_stop_tag-IsAgreed tag s h)

request-IsAgreed : (id : ℕ) (tag : Tag) → KeepsAgreed (handle_stop_request_message id tag)
unfolding handle_stop_request_message
request-IsAgreed id tag s t e h =
    let (fed, found, rest) = >>=-eq-some (get_elem? s.federates id) _ e in
    elim (Bool-cases fed.requested_stop) [
      | inl a ↦ IsAgreed-to s t (ground arith) h
      | inr a ↦
          let more = rw a at rest in
          let raised = raise_stop_tag tag s in
          let (mid, first, last) = >>=-eq-some (mark_federate_requesting_stop id raised) _ more in
          let marked =
            mark_federate_requesting_stop-IsAgreed id raised mid first
              (raise_stop_tag-IsAgreed tag s h) in
          elim (Bool-cases (mid.num_feds_handling_stop == length mid.federates)) [
            | inl b ↦ IsAgreed-to mid t (ground arith) marked
            | inr b ↦
                request_loop-IsAgreed id mid.max_stop_tag (length mid.federates) 0 mid t
                  (ground arith) marked
          ]
    ]

about_tags :
    (id : ℕ) (received : Received)
    → IsAboutTags received
    → (s t : RtiInstance) → IsConnected id s
    → federate_thread_tcp id received s ≡ some t
    → IsAgreed s
    → IsAgreed t
about_tags =
    federate_thread_tcp-Preserves IsAgreed Grants-IsAgreed
      λ id fed new s found g p r gone h. put_federate-IsAgreed id fed new s found r gone h

federate_thread_tcp-IsAgreed :
    (id : ℕ) (received : Received) (s t : RtiInstance)
    → IsConnected id s
    → federate_thread_tcp id received s ≡ some t
    → IsAgreed s
    → IsAgreed t
unfolding federate_thread_tcp
federate_thread_tcp-IsAgreed id (stop_request tag) s t on e h = request-IsAgreed id tag s t e h
federate_thread_tcp-IsAgreed id (stop_request_reply tag) s t on e h = reply-IsAgreed id tag s t e h
federate_thread_tcp-IsAgreed id timestamp s t on e h = about_tags id timestamp tt s t on e h
federate_thread_tcp-IsAgreed id closed s t on e h = about_tags id closed tt s t on e h
federate_thread_tcp-IsAgreed id resign s t on e h = about_tags id resign tt s t on e h
federate_thread_tcp-IsAgreed id (tagged_message to tag) s t on e h =
    about_tags id (tagged_message to tag) tt s t on e h
federate_thread_tcp-IsAgreed id (next_event tag) s t on e h =
    about_tags id (next_event tag) tt s t on e h
federate_thread_tcp-IsAgreed id (logical_tag_complete tag) s t on e h =
    about_tags id (logical_tag_complete tag) tt s t on e h

run_from-IsAgreed :
    (events : List (ℕ × Received)) (s t : RtiInstance)
    → run events s ≡ some t
    → IsAgreed s
    → IsAgreed t
unfolding run
run_from-IsAgreed [] s t e h = IsAgreed-to s t e h
run_from-IsAgreed ((id, received) ∷ more) s t e h =
    let (mid, first, rest) = >>=-eq-some (listen id received s) _ e in
    run_from-IsAgreed more mid t rest (elim (listen-cases id received s mid first) [
      | inl same ↦ subst IsAgreed same h
      | inr (on, handled) ↦ federate_thread_tcp-IsAgreed id received s mid on handled h
    ])

-- In a well-formed federation that has started, so that no federate is PENDING and no thread waits for a
-- start time, whatever sequence of messages the RTI handles, each from and to a federate of the
-- federation and with times of int64_t: if it is so before, then afterwards the tally of the federates
-- that have requested or answered a stop is exact; the flag that the stop tag has been sent is set if
-- and only if all federates are counted; once it is set, every connected federate has been sent a stop
-- tag; and no federate has been sent more than one, nor any before the flag is set.
pub run-IsAgreed :
    (events : List (ℕ × Received)) (s : RtiInstance)
    → IsFederation s
    → AreReceivable (length s.federates) events
    → IsAgreed s
    → (t : RtiInstance) × (run events s ≡ some t) × IsAgreed t
run-IsAgreed events s federation receivable h =
    let (t, done, kept) = run-total events s federation receivable in
    (t, done, run_from-IsAgreed events s t done h)
