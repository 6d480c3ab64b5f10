-- ===== src/Rti/Agreement/Answer.antt =====
-- core/federated/RTI/rti.c: what the last answer to a stop request leads to.
use mathlib.Core.Path.{subst}
use schedule_test_manual.Base.{
  ℕ, suc, ◌+◌, ◌≡◌, refl, ap, ◌∙◌, true, false, some, ◌==◌, length, get_elem?, set, inl, inr, arith,
  if_true, if_false, Bool-cases, length-set,
}
use schedule_test_manual.Tag.{Tag}
use schedule_test_manual.Tag.Compare.{is_before, AtMost, AtMost-refl, IsBefore-AtMost, not_before}
use schedule_test_manual.Rti.{Federate, stop_granted, RtiInstance, is_not_connected}
use schedule_test_manual.Rti.Stop.{
  broadcast_loop, broadcast_stop_time, count_request, answer_when_all,
  mark_federate_requesting_stop, handle_stop_request_reply,
}
use schedule_test_manual.Rti.Agreement.{IsAgreed}
use schedule_test_manual.Rti.Agreement.Broadcast.{Has, Granted, broadcast_loop-Granted}

-- the last federate to be counted
last_marked :
    (id : ℕ) (fed : Federate) (s : RtiInstance)
    → get_elem? s.federates id ≡ some fed
    → fed.requested_stop ≡ false
    → IsAgreed s
    → suc s.num_feds_handling_stop ≡ length s.federates
    → (t : RtiInstance) × (mark_federate_requesting_stop id s ≡ some t)
      × (t.max_stop_tag ≡ s.max_stop_tag)
      × ((i : ℕ) (f : Federate)
          → get_elem? t.federates i ≡ some f
          → Granted t.max_stop_tag i t.sent f)
unfolding mark_federate_requesting_stop count_request answer_when_all broadcast_stop_time
last_marked id fed s found new h last =
    let fresh : s.stop_granted_already_sent ≡ false =
      elim (Bool-cases s.stop_granted_already_sent) [
        | inl sent ↦ let all = h.answered sent in absurd (omega arith)
        | inr fresh ↦ fresh
      ] in
    let feds = set s.federates id (record fed { requested_stop = true }) in
    let size = length-set s.federates id (record fed { requested_stop = true }) in
    let all : (s.num_feds_handling_stop + 1 == length feds) ≡ true = ground arith in
    let b = broadcast_loop s.max_stop_tag 0 feds s.sent in
    let counted : RtiInstance = record s {
      federates = feds;
      num_feds_handling_stop = s.num_feds_handling_stop + 1;
    } in
    let done : RtiInstance = record counted {
      federates = b.0;
      sent = b.1;
      stop_granted_already_sent = true;
    } in
    let steps : answer_when_all (count_request id fed s) ≡ done =
      ap answer_when_all (if_false fed.requested_stop s counted new)
      ∙ if_true _ _ counted all
      ∙ if_false s.stop_granted_already_sent counted done fresh in
    (
      done,
      rw found (ap some steps),
      refl,
      λ i f e.
          let z : 0 + i ≡ i = omega arith in
          subst (λ (n : ℕ). Granted s.max_stop_tag n b.1 f) z
            (broadcast_loop-Granted s.max_stop_tag 0 feds s.sent i f e),
    )

-- Once every other federate has requested or answered a stop, the answer of the last one sends every
-- connected federate a stop tag that is not before the tag it proposes, nor before the greatest stop
-- tag recorded until then (max_stop_tag), and leaves no connected federate with a next event after it.
pub last_reply-grants :
    (id : ℕ) (tag : Tag) (fed : Federate) (s : RtiInstance)
    → get_elem? s.federates id ≡ some fed
    → fed.requested_stop ≡ false
    → IsAgreed s
    → suc s.num_feds_handling_stop ≡ length s.federates
    → (t : RtiInstance) × (handle_stop_request_reply id tag s ≡ some t)
      × AtMost tag t.max_stop_tag
      × AtMost s.max_stop_tag t.max_stop_tag
      × ((i : ℕ) (f : Federate)
          → get_elem? t.federates i ≡ some f
          → is_not_connected f.state ≡ false
          → Has i (stop_granted t.max_stop_tag) t.sent × AtMost f.next_event t.max_stop_tag)
unfolding handle_stop_request_reply
last_reply-grants id tag fed s found new h last = elim (Bool-cases (is_before s.max_stop_tag tag)) [
  | inl later ↦
      let raised : RtiInstance = record s { max_stop_tag = tag } in
      let (t, marked, same, all) =
        last_marked id fed raised found new
          (record {
            tally = h.tally;
            answered = h.answered;
            told = h.told;
            complete = h.complete;
            once = h.once;
          })
          last in
      (
        t,
        ap (mark_federate_requesting_stop id) (if_true _ raised s later) ∙ marked,
        rw same (AtMost-refl tag),
        rw same (IsBefore-AtMost s.max_stop_tag tag later),
        all,
      )
  | inr earlier ↦
      let (t, marked, same, all) = last_marked id fed s found new h last in
      (
        t,
        ap (mark_federate_requesting_stop id) (if_false _ _ s earlier) ∙ marked,
        rw same (not_before s.max_stop_tag tag earlier),
        rw same (AtMost-refl s.max_stop_tag),
        all,
      )
]
