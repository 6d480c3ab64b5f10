-- ===== src/Rti/Agreement/Marking.antt =====
-- core/federated/RTI/rti.c: the handlers of stop requests against the tally.
use mathlib.Core.Path.{subst}
use mathlib.Core.Option.{some-injective}
use native.Mathlib.Decide.{ℕ_discrete}
use schedule_test_manual.Base.{
  ℕ, suc, ◌+◌, ◌≡◌, ◌≤◌, ◌<◌, refl, sym, ap, ◌∙◌, true, false, Option, some, List, [], ◌∷◌, ◌==◌,
  length, get_elem?, inl, inr, arith, if◌then◌else◌, if_true, if_false, Bool-cases,
}
use schedule_test_manual.Tag.{Tag}
use schedule_test_manual.Rti.{
  Federate, Message, stop_granted, RtiInstance, is_not_connected, >>=-eq-some,
}
use schedule_test_manual.Rti.Stop.{
  broadcast_loop, broadcast_stop_time, count_request, answer_when_all,
  mark_federate_requesting_stop,
}
use schedule_test_manual.Rti.Agreement.Broadcast.{broadcast_loop-told}
use schedule_test_manual.Rti.Agreement.{requesters, stops, IsAgreed, requesters-set, requesters-lt}

broadcast_loop-requesters :
    (tag : Tag) (i : ℕ) (feds : List Federate) (sent : List (ℕ × Message))
    → (requesters (broadcast_loop tag i feds sent).0 ≡ requesters feds)
      × (length (broadcast_loop tag i feds sent).0 ≡ length feds)
unfolding broadcast_loop requesters
broadcast_loop-requesters tag i [] sent = (refl, refl)
broadcast_loop-requesters tag i (fed ∷ feds) sent =
    let gone = is_not_connected fed.state in
    let sent' = if gone then sent else (i, stop_granted tag) ∷ sent in
    let rest = broadcast_loop-requesters tag (suc i) feds sent' in (ground arith, ap suc rest.1)

-- the broadcast sends the federates from `k` on at most one stop tag each, and none to those before
broadcast_loop-stops :
    (tag : Tag) (k : ℕ) (feds : List Federate) (sent : List (ℕ × Message)) (i : ℕ)
    → (i < k → stops i (broadcast_loop tag k feds sent).1 ≡ stops i sent)
      × (stops i (broadcast_loop tag k feds sent).1 ≤ stops i sent + 1)
unfolding broadcast_loop stops
broadcast_loop-stops tag k [] sent i = (λ h. refl, omega arith)
broadcast_loop-stops tag k (fed ∷ feds) sent i = elim (Bool-cases (is_not_connected fed.state)) [
  | inl e ↦
      let rest = broadcast_loop-stops tag (suc k) feds sent i in
      rw e ((λ h. rest.0 (omega arith)), rest.1)
  | inr e ↦
      let rest = broadcast_loop-stops tag (suc k) feds ((k, stop_granted tag) ∷ sent) i in
      rw e (elim (ℕ_discrete k i) [
        | yes here ↦ let one = rest.0 (omega arith) in ((λ h. absurd (omega arith)), ground arith)
        | no there ↦
            let none' : (k == i) ≡ false = ground arith in
            let le = rest.1 in
            ((λ h. let same = rest.0 (omega arith) in ground arith), ground arith)
      ])
]

broadcast_stop_time-IsAgreed :
    (s : RtiInstance)
    → s.num_feds_handling_stop ≡ requesters s.federates
    → s.num_feds_handling_stop ≡ length s.federates
    → s.stop_granted_already_sent ≡ false
    → ((i : ℕ) → stops i s.sent ≡ 0)
    → IsAgreed (broadcast_stop_time s)
unfolding broadcast_stop_time
broadcast_stop_time-IsAgreed s tally all fresh none' =
    let (same, size) = broadcast_loop-requesters s.max_stop_tag 0 s.federates s.sent in
    rw fresh (record {
      tally = tally ∙ sym same;
      answered = λ e. all ∙ sym size;
      told = λ e i fed found c. broadcast_loop-told s.max_stop_tag s.federates s.sent i fed found c;
      complete = λ e. refl;
      once = λ i.
          let one = broadcast_loop-stops s.max_stop_tag 0 s.federates s.sent i in
          let none'' = none' i in let le = one.1 in omega arith;
    })

answered_already : (s : RtiInstance) → IsAgreed s → IsAgreed (answer_when_all s)
unfolding answer_when_all broadcast_stop_time
answered_already s h = elim (Bool-cases (s.num_feds_handling_stop == length s.federates)) [
  | inl all ↦
      let sent = h.complete (ground arith) in
      subst IsAgreed (sym (if_true _ _ s all ∙ if_true s.stop_granted_already_sent s _ sent)) h
  | inr some' ↦ subst IsAgreed (sym (if_false _ _ s some')) h
]

-- a federate more in the tally, before the answer
first_answer :
    (s : RtiInstance)
    → s.num_feds_handling_stop ≡ requesters s.federates
    → s.stop_granted_already_sent ≡ false
    → ((i : ℕ) → stops i s.sent ≡ 0)
    → IsAgreed (answer_when_all s)
unfolding answer_when_all
first_answer s tally fresh none' =
    elim (Bool-cases (s.num_feds_handling_stop == length s.federates)) [
      | inl all ↦
          subst IsAgreed (sym (if_true _ _ s all))
            (broadcast_stop_time-IsAgreed s tally (ground arith) fresh none')
      | inr some' ↦ subst IsAgreed (sym (if_false _ _ s some')) (record {
        tally = tally;
        answered = λ e. cc;
        told = λ e. cc;
        complete = λ e. ground arith;
        once = λ i. let zero' = none' i in omega arith;
      })
    ]

mark-IsAgreed :
    (id : ℕ) (fed : Federate) (s : RtiInstance)
    → get_elem? s.federates id ≡ some fed
    → IsAgreed s
    → IsAgreed (answer_when_all (count_request id fed s))
unfolding count_request
mark-IsAgreed id fed s found h = elim (Bool-cases fed.requested_stop) [
  | inl old ↦
      subst (λ (u : RtiInstance). IsAgreed (answer_when_all u)) (sym (if_true _ s _ old))
        (answered_already s h)
  | inr new ↦
      let more = requesters-set s.federates id fed (record fed { requested_stop = true }) found in
      let more' = rw new at more in
      let few = requesters-lt s.federates id fed found new in
      let tally = h.tally in
      let fresh : s.stop_granted_already_sent ≡ false =
        elim (Bool-cases s.stop_granted_already_sent) [
          | inl sent ↦ let all = h.answered sent in absurd (omega arith)
          | inr fresh ↦ fresh
        ] in
      let none' : (i : ℕ) → stops i s.sent ≡ 0 =
        λ i. let le = h.once i in let le' = rw fresh at le in omega arith in
      subst (λ (u : RtiInstance). IsAgreed (answer_when_all u)) (sym (if_false _ s _ new))
        (first_answer _ (omega arith) fresh none')
]

-- a step that keeps the agreement
abbrev pub KeepsAgreed : (RtiInstance → Option RtiInstance) → Type 0
KeepsAgreed step = (s t : RtiInstance) → step s ≡ some t → IsAgreed s → IsAgreed t

pub IsAgreed-to : (s t : RtiInstance) → some s ≡ some t → IsAgreed s → IsAgreed t
IsAgreed-to s t e h = subst IsAgreed (some-injective _ _ e) h

pub mark_federate_requesting_stop-IsAgreed :
    (id : ℕ) → KeepsAgreed (mark_federate_requesting_stop id)
unfolding mark_federate_requesting_stop
mark_federate_requesting_stop-IsAgreed id s t e h =
    let (fed, found, rest) = >>=-eq-some (get_elem? s.federates id) _ e in
    IsAgreed-to _ t rest (mark-IsAgreed id fed s found h)
