-- ===== src/Rti/Waiting.antt =====
-- core/federated/RTI/rti.c: send_tag_advance_grant after its wait for the start time of a PENDING
-- federate. The wait releases the mutex, so that other threads come to the same wait meanwhile.
use schedule_test_manual.Base.{
  ℕ, zero, suc, ◌≡◌, refl, false, Option, none, some, ◌∷◌, get_elem?, set, if◌then◌else◌,
  lt_of_get_elem?, get_elem?-set_self,
}
use schedule_test_manual.Tag.{Tag}
use schedule_test_manual.Tag.Compare.{is_before, is_at_most}
use schedule_test_manual.Net.{◌>>=◌}
use schedule_test_manual.Rti.{
  Federate, pending, granted, put_federate, tag_advance_grant, complete, RtiInstance, is_pending,
}
use schedule_test_manual.Rti.Grant.{write_grant, send_tag_advance_grant}
use schedule_test_manual.Rti.Thread.{timestamp, federate_thread_tcp}

-- send_tag_advance_grant from its wait on: the federate is PENDING no more, and the conditions at the
-- start of the function are not looked at again
unfoldable pub resume_tag_advance_grant : ℕ → Tag → RtiInstance → Option RtiInstance
unfolding write_grant
resume_tag_advance_grant id tag rti = get_elem? rti.federates id >>= λ fed.
    if is_pending fed.state
    then none
    else some (write_grant id (tag_advance_grant tag) fed (record fed { last_granted = tag }) rti).0

-- what is written, whole
resume_writes :
    (id : ℕ) (tag : Tag) (fed : Federate) (s : RtiInstance)
    → get_elem? s.federates id ≡ some fed
    → is_pending fed.state ≡ false
    → s.writes zero ≡ complete
    → resume_tag_advance_grant id tag s
      ≡ some (record s {
        federates = set s.federates id (record fed { last_granted = tag });
        writes = λ n. s.writes (suc n);
        sent = (id, tag_advance_grant tag) ∷ s.sent;
      })
unfolding resume_tag_advance_grant write_grant
resume_writes id tag fed s found started whole = rw (found, started, whole, write_grant) refl

-- Two threads that wait for the start time of the same PENDING federate, each with a tag that may be
-- granted when it starts to wait, both send their TAG once the federate has its start time (the writes
-- succeeding), in either order and whatever the tags are: the same tag twice, or the later one first.
pub waiting-grants :
    (id : ℕ) (a b : Tag) (fed : Federate) (s : RtiInstance)
    → get_elem? s.federates id ≡ some fed
    → fed.state ≡ pending
    → (is_at_most a fed.last_granted ≡ false) × (is_at_most b fed.last_granted ≡ false)
    → (is_before a fed.last_provisionally_granted ≡ false)
      × (is_before b fed.last_provisionally_granted ≡ false)
    → (s.writes 0 ≡ complete) × (s.writes 1 ≡ complete)
    → (send_tag_advance_grant id a s ≡ none)
      × (send_tag_advance_grant id b s ≡ none)
      × (t : RtiInstance) × ((federate_thread_tcp id timestamp s >>= λ u.
            resume_tag_advance_grant id a u >>= resume_tag_advance_grant id b)
          ≡ some t)
      × (t.sent ≡ (id, tag_advance_grant b) ∷ (id, tag_advance_grant a) ∷ s.sent)
unfolding send_tag_advance_grant federate_thread_tcp
waiting-grants id a b fed s found waits fresh later whole =
    let lt = lt_of_get_elem? s.federates id fed found in
    let fed1 : Federate = record fed { state = granted } in
    let s1 = put_federate id fed1 s in
    let found1 = get_elem?-set_self s.federates id fed1 lt in
    let fed2 : Federate = record fed1 { last_granted = a } in
    let lt1 = lt_of_get_elem? s1.federates id fed1 found1 in
    let found2 = get_elem?-set_self s1.federates id fed2 lt1 in
    let s2 : RtiInstance = record s1 {
      federates = set s1.federates id fed2;
      writes = λ n. s.writes (suc n);
      sent = (id, tag_advance_grant a) ∷ s.sent;
    } in
    let s3 : RtiInstance = record s2 {
      federates = set s2.federates id (record fed2 { last_granted = b });
      writes = λ n. s.writes (suc (suc n));
      sent = (id, tag_advance_grant b) ∷ (id, tag_advance_grant a) ∷ s.sent;
    } in
    let step1 = resume_writes id a fed1 s1 found1 refl whole.0 in
    let step2 = resume_writes id b fed2 s2 found2 refl whole.1 in
    (
      rw (found, waits, fresh.0, later.0) refl,
      rw (found, waits, fresh.1, later.1) refl,
      s3,
      rw (found, step1, step2) refl,
      refl,
    )
