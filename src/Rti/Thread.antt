-- ===== src/Rti/Thread.antt =====
-- core/federated/RTI/rti.c: the threads that handle the federates' messages, as a sequence of the
-- handlers' steps.
use mathlib.Core.Path.{subst}
use mathlib.Core.Option.{some-injective}
use schedule_test_manual.Base.{
  ℕ, ◌≡◌, sym, ◌∙◌, false, ◌⊎◌, inl, inr, Option, some, List, [], ◌∷◌, get_elem?, if◌then◌else◌,
  Bool-cases, if_true, if_false,
}
use schedule_test_manual.Tag.{Tag}
use schedule_test_manual.Net.{◌>>=◌}
use schedule_test_manual.Rti.{
  Federate, RtiInstance, is_not_connected, >>=-eq-some, not_connected, granted, put_federate,
}
use schedule_test_manual.Rti.Handlers.{
  handle_next_event_tag, handle_logical_tag_complete, handle_federate_resign, record_in_transit,
}
use schedule_test_manual.Rti.Stop.{handle_stop_request_message, handle_stop_request_reply}

-- what the thread of a federate receives: the messages of its `switch` that change the state here, and
-- the end of the connection. For a timestamp the start time has been agreed on and is sent.
pub data Received : Type 0 where
  timestamp resign closed : Received
  tagged_message : ℕ → Tag → Received
  next_event logical_tag_complete stop_request stop_request_reply : Tag → Received

-- the body of the loop of federate_thread_TCP, for the federate `id`
unfoldable pub federate_thread_tcp : ℕ → Received → RtiInstance → Option RtiInstance
federate_thread_tcp id timestamp rti = get_elem? rti.federates id >>= λ fed.
    some (put_federate id (record fed { state = granted }) rti)
federate_thread_tcp id closed rti = get_elem? rti.federates id >>= λ fed.
    some (put_federate id (record fed { state = not_connected }) rti)
federate_thread_tcp id resign rti = handle_federate_resign id rti
federate_thread_tcp id (tagged_message destination tag) rti = record_in_transit destination tag rti
federate_thread_tcp id (next_event tag) rti = handle_next_event_tag id tag rti
federate_thread_tcp id (logical_tag_complete tag) rti = handle_logical_tag_complete id tag rti
federate_thread_tcp id (stop_request tag) rti = handle_stop_request_message id tag rti
federate_thread_tcp id (stop_request_reply tag) rti = handle_stop_request_reply id tag rti

-- the loop of federate_thread_TCP receives from a federate as long as it is connected
unfoldable pub listen : ℕ → Received → RtiInstance → Option RtiInstance
listen id received rti = get_elem? rti.federates id >>= λ fed.
    if is_not_connected fed.state then some rti else federate_thread_tcp id received rti

-- The threads of all federates, in the order in which they take the mutex.
unfoldable pub run : List (ℕ × Received) → RtiInstance → Option RtiInstance
run [] rti = some rti
run ((id, received) ∷ more) rti = listen id received rti >>= run more

-- the thread of the federate still listens
abbrev pub IsConnected : ℕ → RtiInstance → Type 0
IsConnected id rti =
    (fed : Federate) → get_elem? rti.federates id ≡ some fed → is_not_connected fed.state ≡ false

-- a message is handled or not received
pub listen-cases :
    (id : ℕ) (received : Received) (s t : RtiInstance)
    → listen id received s ≡ some t
    → (s ≡ t) ⊎ IsConnected id s × (federate_thread_tcp id received s ≡ some t)
unfolding listen
listen-cases id received s t e =
    let (fed, found, e1) = >>=-eq-some (get_elem? s.federates id) _ e in
    elim (Bool-cases (is_not_connected fed.state)) [
      | inl q ↦
          inl (
            some-injective _ _
              (subst (λ (m : Option RtiInstance). m ≡ some t) (if_true _ _ _ q) e1))
      | inr q ↦ inr (
        λ fed' found'.
            let same : fed ≡ fed' = some-injective _ _ (sym found ∙ found') in
            subst (λ (f : Federate). is_not_connected f.state ≡ false) same q,
        subst (λ (m : Option RtiInstance). m ≡ some t) (if_false _ _ _ q) e1,
      )
    ]
