-- ===== src/Rti/Diamond.antt =====
-- core/federated/RTI/rti.c: a federation in which one federate reaches another by two paths.
use schedule_test_manual.Base.{ℕ, ◌+◌, ◌≡◌, ◌<◌, refl, true, false, some, List, [], ◌∷◌, arith}
use schedule_test_manual.Base.Int.{ℤ, pos, ◌+ℤ◌}
use schedule_test_manual.Tag.{Tag, delay_tag, never, forever_tag, fits}
use schedule_test_manual.Tag.Compare.{is_before, is_at_most, IsBefore}
use schedule_test_manual.MessageRecord.{initialize_in_transit_message_q}
use schedule_test_manual.Rti.{
  Federate, granted, tag_advance_grant, complete, RtiInstance, transitive_next_event, upstream_loop,
  start_from,
}
use schedule_test_manual.Rti.Grant.{
  send_advance_grant_if_safe, completed_loop, completed_step, next_event_loop, next_event_step,
  grant_next_event, send_tag_advance_grant, write_grant,
}

abbrev pub at_time : ℕ → Tag
at_time t = record { time = pos t; microstep = 0 }

-- NEVER_TAG
abbrev pub never_tag : Tag
never_tag = record { time = never; microstep = 0 }

-- a federate that has completed and been granted nothing
abbrev pub fresh : Tag → List (ℕ × ℤ) → List ℕ → Federate
fresh next upstream downstream = record {
  completed = never_tag;
  last_granted = never_tag;
  last_provisionally_granted = never_tag;
  next_event = next;
  in_transit_message_tags = initialize_in_transit_message_q;
  state = granted;
  upstream = upstream;
  downstream = downstream;
  requested_stop = false;
}

-- Federate 0 sends to 1 after the delay `d` and to 2 with none, and both send to 3 with none. Federate 0
-- has an event at `z` and federate 3 one at `n`.
abbrev pub diamond : ℕ → ℕ → ℕ → RtiInstance
diamond z n d = record {
  max_stop_tag = never_tag;
  federates =
      fresh (at_time z) [] (1 ∷ 2 ∷ [])
      ∷ fresh forever_tag ((0, pos d) ∷ []) (3 ∷ [])
      ∷ fresh forever_tag ((0, never) ∷ []) (3 ∷ [])
      ∷ fresh (at_time n) ((1, never) ∷ (2, never) ∷ []) []
      ∷ [];
  num_feds_handling_stop = 0;
  start_time = pos 0;
  stop_granted_already_sent = false;
  sent = [];
  writes = λ _. complete;
}

module _ (z n d : ℕ) (first : z < n) (later : n < z + d) (fits' : z + d < 9223372036854775807) where
  -- the delayed path
  delayed : delay_tag (at_time z) (pos d) ≡ some (at_time (z + d))
  unfolding delay_tag fits ◌+ℤ◌
  delayed = ground arith

  upstream_completed :
      completed_loop (diamond z n d) ((1, never) ∷ (2, never) ∷ []) forever_tag ≡ some never_tag
  unfolding completed_loop completed_step delay_tag is_before
  upstream_completed = refl

  -- the tests that the loops make
  z_forever : is_before (at_time z) forever_tag ≡ true
  unfolding is_before
  z_forever = ground arith

  sum_forever : is_before (at_time (z + d)) forever_tag ≡ true
  unfolding is_before
  sum_forever = ground arith

  never_first : (t : ℕ) → is_before (at_time t) never_tag ≡ false
  unfolding is_before
  never_first t = ground arith

  from_z : start_from (pos 0) (fresh (at_time z) [] (1 ∷ 2 ∷ [])) forever_tag ≡ at_time z
  unfolding is_before
  from_z = ground arith

  from_forever :
      (up : List (ℕ × ℤ))
      → start_from (pos 0) (fresh forever_tag up (3 ∷ [])) forever_tag ≡ forever_tag
  unfolding is_before
  from_forever up = refl

  delayed_path :
      transitive_next_event 5 (diamond z n d) 1 forever_tag (false ∷ false ∷ false ∷ false ∷ [])
      ≡ some (at_time (z + d), true ∷ true ∷ false ∷ false ∷ [])
  unfolding transitive_next_event upstream_loop
  delayed_path =
      rw
        (
          from_forever ((0, pos d) ∷ []),
          from_z,
          never_first z,
          delayed,
          sum_forever,
          never_first (z + d),
        )
        refl

  direct_path :
      transitive_next_event 5 (diamond z n d) 2 forever_tag (true ∷ true ∷ false ∷ false ∷ [])
      ≡ some (forever_tag, true ∷ true ∷ true ∷ false ∷ [])
  unfolding transitive_next_event upstream_loop delay_tag is_before
  direct_path = refl

  no_delay : (t : ℕ) → delay_tag (at_time t) never ≡ some (at_time t)
  unfolding delay_tag
  no_delay t = ground arith

  forever_last : is_before forever_tag (at_time (z + d)) ≡ false
  unfolding is_before
  forever_last = ground arith

  by_delayed :
      next_event_step (diamond z n d) 1 never forever_tag (false ∷ false ∷ false ∷ false ∷ [])
      ≡ some (at_time (z + d), true ∷ true ∷ false ∷ false ∷ [])
  unfolding next_event_step
  by_delayed = rw (delayed_path, no_delay (z + d), sum_forever) refl

  by_direct :
      next_event_step (diamond z n d) 2 never (at_time (z + d)) (true ∷ true ∷ false ∷ false ∷ [])
      ≡ some (at_time (z + d), true ∷ true ∷ true ∷ false ∷ [])
  unfolding next_event_step delay_tag
  by_direct = rw (direct_path, forever_last) refl

  next_events :
      next_event_loop
        (diamond z n d)
        ((1, never) ∷ (2, never) ∷ [])
        forever_tag
        (false ∷ false ∷ false ∷ false ∷ [])
      ≡ some (at_time (z + d))
  unfolding next_event_loop
  next_events = rw (by_delayed, by_direct) refl

  n-IsBefore : IsBefore (at_time n) (at_time (z + d))
  unfolding is_before
  n-IsBefore = ground arith

  n_after : is_at_most (at_time n) never_tag ≡ false
  unfolding is_at_most
  n_after = ground arith

  never_before : (t : ℕ) → is_before never_tag (at_time t) ≡ true
  unfolding is_before
  never_before t = ground arith

  never_never : is_before never_tag never_tag ≡ false
  unfolding is_before
  never_never = refl

  abbrev federate_3 : Federate
  federate_3 = fresh (at_time n) ((1, never) ∷ (2, never) ∷ []) []

  abbrev after_grant : RtiInstance
  after_grant =
      (write_grant 3 (tag_advance_grant (at_time n)) federate_3
        (record federate_3 { last_granted = at_time n }) (diamond z n d)).0

  sends : send_tag_advance_grant 3 (at_time n) (diamond z n d) ≡ some after_grant
  unfolding send_tag_advance_grant
  sends = rw (n_after, never_first n) refl

  decides : grant_next_event 3 federate_3 (at_time (z + d)) (diamond z n d) ≡ some after_grant
  unfolding grant_next_event
  decides = rw (n-IsBefore, never_first (z + d), never_before (z + d)) sends

  grants : send_advance_grant_if_safe 3 (diamond z n d) ≡ some after_grant
  unfolding send_advance_grant_if_safe
  grants = rw (upstream_completed, never_never, next_events) decides

-- The recursion over the upstream federates marks each federate once, and a federate that is reached
-- again counts as if it had no event. Where federate 0, which is to have an event at `z`, reaches
-- federate 3 first with the delay `d` and then with none, federate 3 is granted any tag `n` that it
-- asks for after `z` and before `z + d` (below FOREVER), although a message at `z`, before `n`, can
-- still reach it on the second path.
pub diamond_unsafe :
    (z n d : ℕ)
    → z < n
    → n < z + d
    → z + d < 9223372036854775807
    → ((t : RtiInstance) × (send_advance_grant_if_safe 3 (diamond z n d) ≡ some t)
        × (t.sent ≡ (3, tag_advance_grant (at_time n)) ∷ []))
      × (delay_tag (at_time z) never ≡ some (at_time z))
      × IsBefore (at_time z) (at_time n)
unfolding write_grant is_before
diamond_unsafe z n d first later fits' = (
  (after_grant z n d first later fits', grants z n d first later fits', refl),
  no_delay z n d first later fits' z,
  ground arith,
)
