-- ===== src/Rti/Reach.antt =====
-- core/federated/RTI/rti.c: the grants that any sequence of received messages leads to.
use mathlib.Core.Path.{subst}
use schedule_test_manual.Base.{inr, inl, ℕ, ◌≡◌, some, List, [], ◌∷◌, length, arith}
use schedule_test_manual.Rti.{RtiInstance, put_federate, >>=-eq-some}
use schedule_test_manual.Rti.Rules.{IsAboutTags, federate_thread_tcp-Preserves}
use schedule_test_manual.Rti.Order.{IsOrdered, InOrder, Grants-IsOrdered}
use schedule_test_manual.Rti.Formed.{IsFederation}
use schedule_test_manual.Rti.Total.Run.{AreReceivable, run-total}
use schedule_test_manual.Rti.Keeps.{put_federate-Keeps, Keeps-IsOrdered}
use schedule_test_manual.Rti.Keeps.Stop.{
  handle_stop_request_message-Keeps, handle_stop_request_reply-Keeps,
}
use schedule_test_manual.Rti.Thread.{
  Received, timestamp, resign, closed, tagged_message, next_event, logical_tag_complete,
  stop_request, stop_request_reply, federate_thread_tcp, listen, listen-cases, run, IsConnected,
}

about_tags :
    (id : ℕ) (received : Received)
    → IsAboutTags received
    → (s t : RtiInstance) → IsConnected id s
    → federate_thread_tcp id received s ≡ some t
    → IsOrdered s
    → IsOrdered t
about_tags id received about s t on e h =
    federate_thread_tcp-Preserves IsOrdered (λ u v. Grants-IsOrdered {s = u} {t = v})
      (λ i fed new u found g p r gone k.
        Keeps-IsOrdered u (put_federate i new u) (put_federate-Keeps i fed new u found g p) k)
      id received about s t on e h

federate_thread_tcp-IsOrdered :
    (id : ℕ) (received : Received) (s t : RtiInstance)
    → IsConnected id s
    → federate_thread_tcp id received s ≡ some t
    → IsOrdered s
    → IsOrdered t
unfolding federate_thread_tcp
federate_thread_tcp-IsOrdered id (stop_request tag) s t on e h =
    Keeps-IsOrdered s t (handle_stop_request_message-Keeps id tag s t e) h
federate_thread_tcp-IsOrdered id (stop_request_reply tag) s t on e h =
    Keeps-IsOrdered s t (handle_stop_request_reply-Keeps id tag s t e) h
federate_thread_tcp-IsOrdered id timestamp s t on e h = about_tags id timestamp tt s t on e h
federate_thread_tcp-IsOrdered id closed s t on e h = about_tags id closed tt s t on e h
federate_thread_tcp-IsOrdered id resign s t on e h = about_tags id resign tt s t on e h
federate_thread_tcp-IsOrdered id (tagged_message to tag) s t on e h =
    about_tags id (tagged_message to tag) tt s t on e h
federate_thread_tcp-IsOrdered id (next_event tag) s t on e h =
    about_tags id (next_event tag) tt s t on e h
federate_thread_tcp-IsOrdered id (logical_tag_complete tag) s t on e h =
    about_tags id (logical_tag_complete tag) tt s t on e h

run-IsOrdered :
    (events : List (ℕ × Received)) (s t : RtiInstance)
    → run events s ≡ some t
    → IsOrdered s
    → IsOrdered t
unfolding run
run-IsOrdered [] s t e h = let p : s ≡ t = ground arith in rw (← p) h
run-IsOrdered ((id, received) ∷ more) s t e h =
    let (mid, first, rest) = >>=-eq-some (listen id received s) _ e in
    run-IsOrdered more mid t rest (elim (listen-cases id received s mid first) [
      | inl same ↦ subst IsOrdered same h
      | inr (on, handled) ↦ federate_thread_tcp-IsOrdered id received s mid on handled h
    ])

run_from-InOrder :
    (events : List (ℕ × Received)) (s t : RtiInstance)
    → s.sent ≡ []
    → run events s ≡ some t
    → InOrder t.sent
run_from-InOrder events s t none_sent e =
    (run-IsOrdered events s t e
      (record { bounded = λ id fed found. rw none_sent tt; in_order = rw none_sent tt })).in_order

-- In a well-formed federation that has started, so that no federate is PENDING and no thread waits for a
-- start time, and that has been sent nothing yet, the RTI handles every sequence of messages, each from
-- and to a federate of the federation and with times of int64_t, to its end, whichever of its writes of
-- grants fail. Each federate is then sent its grants in order: a TAG is later than every earlier TAG and
-- not before any earlier PTAG, and a PTAG is later than every earlier TAG and PTAG.
pub run-InOrder :
    (events : List (ℕ × Received)) (s : RtiInstance)
    → IsFederation s
    → AreReceivable (length s.federates) events
    → s.sent ≡ []
    → (t : RtiInstance) × (run events s ≡ some t) × InOrder t.sent
run-InOrder events s federation receivable none_sent =
    let (t, done, kept) = run-total events s federation receivable in
    (t, done, run_from-InOrder events s t none_sent done)
