-- ===== src/Rti/Rules.antt =====
-- core/federated/RTI/rti.c: what the grants and the updates of the tags preserve, every handler of a message about tags does.
use schedule_test_manual.Base.{
  ℕ, ◌≡◌, refl, false, Option, some, List, [], ◌∷◌, get_elem?, inl, inr, arith, Bool-cases,
}
use schedule_test_manual.Base.Int.{ℤ}
use schedule_test_manual.Tag.{Tag}
use schedule_test_manual.Net.{◌>>=◌}
use schedule_test_manual.Rti.{
  Federate, RtiInstance, put_federate, is_not_connected, is_pending, depth, unvisited, >>=-eq-some,
}
use schedule_test_manual.Rti.Grant.{
  send_advance_grant_if_safe, send_downstream_advance_grants_if_safe,
}
use schedule_test_manual.Rti.Handlers.{
  grant_all_downstream, grant_around, update_federate_next_event_tag_locked, complete_loop,
  handle_logical_tag_complete, handle_next_event_tag, handle_federate_resign, record_in_transit,
}
use schedule_test_manual.Rti.Steps.{
  Grants, send_advance_grant_if_safe-Grants, send_downstream_advance_grants_if_safe-Grants,
}
use schedule_test_manual.Rti.Thread.{
  Received, timestamp, resign, closed, tagged_message, next_event, logical_tag_complete,
  stop_request, stop_request_reply, federate_thread_tcp, IsConnected,
}

-- the messages that are not about the stop tag
abbrev pub IsAboutTags : Received → Type 0
IsAboutTags (stop_request tag) = ⊥
IsAboutTags (stop_request_reply tag) = ⊥
IsAboutTags _ = Unit {0}

module _ (P : RtiInstance → Type 0) (granting : (s t : RtiInstance) → Grants s t → P s → P t)
    (put : (id : ℕ) (fed new : Federate) (s : RtiInstance)
      → get_elem? s.federates id ≡ some fed
      → fed.last_granted ≡ new.last_granted
      → fed.last_provisionally_granted ≡ new.last_provisionally_granted
      → fed.requested_stop ≡ new.requested_stop
      → (is_not_connected new.state ≡ false → is_not_connected fed.state ≡ false)
      → P s
      → P (put_federate id new s)) where
  -- a step that keeps it
  abbrev pub Preserves : (RtiInstance → Option RtiInstance) → Type 0
  Preserves step = (s t : RtiInstance) → step s ≡ some t → P s → P t

  holds_to : (s t : RtiInstance) → some s ≡ some t → P s → P t
  holds_to s t e h = let p : s ≡ t = ground arith in rw (← p) h

  chain-Preserves :
      (f g : RtiInstance → Option RtiInstance)
      → Preserves f
      → Preserves g
      → Preserves (λ s. f s >>= g)
  chain-Preserves f g keeps_f keeps_g s t e h =
      let (mid, first, rest) = >>=-eq-some (f s) g e in keeps_g mid t rest (keeps_f s mid first h)

  send-Preserves : (id : ℕ) → Preserves (send_advance_grant_if_safe id)
  send-Preserves id s t e h = granting _ _ (send_advance_grant_if_safe-Grants id s t e) h

  grant_all_downstream-Preserves : (id : ℕ) → Preserves (grant_all_downstream id)
  grant_all_downstream-Preserves id s t e h =
      let (r, first, rest) =
        >>=-eq-some (send_downstream_advance_grants_if_safe (depth s) id (unvisited s) s) _ e in
      let steps =
        send_downstream_advance_grants_if_safe-Grants (depth s) id (unvisited s) s r first in
      holds_to r.1 t rest (granting _ _ steps h)

  send_and_down-Preserves :
      (id : ℕ) → Preserves (λ s. send_advance_grant_if_safe id s >>= grant_all_downstream id)
  send_and_down-Preserves id =
      chain-Preserves (send_advance_grant_if_safe id) (grant_all_downstream id) (send-Preserves id)
        (grant_all_downstream-Preserves id)

  complete_loop-Preserves : (ids : List ℕ) → Preserves (complete_loop ids)
  unfolding complete_loop
  complete_loop-Preserves [] s t e h = holds_to s t e h
  complete_loop-Preserves (id ∷ ids) s t e h =
      chain-Preserves (λ u. send_advance_grant_if_safe id u >>= grant_all_downstream id)
        (complete_loop ids) (send_and_down-Preserves id) (complete_loop-Preserves ids) s t e h

  grant_around-Preserves : (upstream : List (ℕ × ℤ)) (id : ℕ) → Preserves (grant_around upstream id)
  unfolding grant_around
  grant_around-Preserves [] id s t e h = grant_all_downstream-Preserves id s t e h
  grant_around-Preserves (_ ∷ _) id s t e h = send_and_down-Preserves id s t e h

  update-Preserves : (id : ℕ) (tag : Tag) → Preserves (update_federate_next_event_tag_locked id tag)
  unfolding update_federate_next_event_tag_locked
  update-Preserves id tag s t e h =
      let (fed, found, rest) = >>=-eq-some (get_elem? s.federates id) _ e in
      grant_around-Preserves fed.upstream id _ t rest
        (put id fed _ s found refl refl refl (λ c. c) h)

  record_in_transit-Preserves : (id : ℕ) (tag : Tag) → Preserves (record_in_transit id tag)
  unfolding record_in_transit
  record_in_transit-Preserves id tag s t e h =
      let (fed, found, rest) = >>=-eq-some (get_elem? s.federates id) _ e in
      elim (Bool-cases (is_not_connected fed.state)) [
        | inl c ↦ holds_to s t (rw c at rest) h
        | inr c ↦ elim (Bool-cases (is_pending fed.state)) [
          | inl d ↦ (let stuck = rw (c, d) at rest in cc)
          | inr d ↦
              update-Preserves id tag _ t (rw (c, d) at rest)
                (put id fed _ s found refl refl refl (λ c. c) h)
        ]
      ]

  pub federate_thread_tcp-Preserves :
      (id : ℕ) (received : Received)
      → IsAboutTags received
      → (s t : RtiInstance) → IsConnected id s
      → federate_thread_tcp id received s ≡ some t
      → P s
      → P t
  unfolding federate_thread_tcp handle_logical_tag_complete handle_next_event_tag
      handle_federate_resign
  federate_thread_tcp-Preserves id timestamp about s t on e h =
      let (fed, found, rest) = >>=-eq-some (get_elem? s.federates id) _ e in
      holds_to _ t rest (put id fed _ s found refl refl refl (λ c. on fed found) h)
  federate_thread_tcp-Preserves id closed about s t on e h =
      let (fed, found, rest) = >>=-eq-some (get_elem? s.federates id) _ e in
      holds_to _ t rest (put id fed _ s found refl refl refl (λ c. cc) h)
  federate_thread_tcp-Preserves id resign about s t on e h =
      let (fed, found, rest) = >>=-eq-some (get_elem? s.federates id) _ e in
      grant_all_downstream-Preserves id _ t rest (put id fed _ s found refl refl refl (λ c. cc) h)
  federate_thread_tcp-Preserves id (tagged_message to tag) about s t on e h =
      record_in_transit-Preserves to tag s t e h
  federate_thread_tcp-Preserves id (next_event tag) about s t on e h =
      update-Preserves id tag s t e h
  federate_thread_tcp-Preserves id (logical_tag_complete tag) about s t on e h =
      let (fed, found, rest) = >>=-eq-some (get_elem? s.federates id) _ e in
      complete_loop-Preserves fed.downstream _ t rest
        (put id fed _ s found refl refl refl (λ c. c) h)
  federate_thread_tcp-Preserves id (stop_request tag) about s t on e h = elim about [ ]
  federate_thread_tcp-Preserves id (stop_request_reply tag) about s t on e h = elim about [ ]
