-- ===== src/Rti/Keeps/Stop.antt =====
-- core/federated/RTI/rti.c: the handlers of stop requests against the records of the grants.
use schedule_test_manual.Base.{
  ℕ, zero, suc, ◌≡◌, refl, true, not, ◌&&◌, Option, some, List, [], ◌∷◌, ◌==◌, get_elem?, length,
  inl, inr, arith, Bool-cases, if_both,
}
use schedule_test_manual.Tag.{Tag}
use schedule_test_manual.Tag.Compare.{is_before}
use schedule_test_manual.Rti.{
  Federate, Message, stop_request, RtiInstance, is_not_connected, >>=-eq-some,
}
use schedule_test_manual.Rti.Stop.{
  broadcast_loop, broadcast_stop_time, mark_federate_requesting_stop, request_loop, request_step,
  count_request, answer_when_all, raise_stop_tag, handle_stop_request_message,
  handle_stop_request_reply,
}
use schedule_test_manual.Rti.Keeps.{
  StopsAdded, same, request, grant, AllKept, Keeps, Keeps-refl, Keeps-trans, put_federate-Keeps,
}

broadcast_loop-log :
    (tag : Tag) (i : ℕ) (feds : List Federate) (log sent : List (ℕ × Message))
    → StopsAdded log sent
    → StopsAdded log (broadcast_loop tag i feds sent).1
unfolding broadcast_loop
broadcast_loop-log tag i [] log sent h = h
broadcast_loop-log tag i (fed ∷ feds) log sent h = elim (Bool-cases (is_not_connected fed.state)) [
  | inl e ↦ rw e (broadcast_loop-log tag (suc i) feds log sent h)
  | inr e ↦ rw e (broadcast_loop-log tag (suc i) feds log _ (grant i tag h))
]

broadcast_loop-AllKept :
    (tag : Tag) (i : ℕ) (feds : List Federate) (sent : List (ℕ × Message))
    → AllKept feds (broadcast_loop tag i feds sent).0
unfolding broadcast_loop
broadcast_loop-AllKept tag i [] sent id fed' e = cc
broadcast_loop-AllKept tag i (fed ∷ feds) sent zero fed' e = (fed, refl, ground arith, ground arith)
broadcast_loop-AllKept tag i (fed ∷ feds) sent (suc id) fed' e =
    broadcast_loop-AllKept tag (suc i) feds _ id fed' e

broadcast_stop_time-Keeps : (s : RtiInstance) → Keeps s (broadcast_stop_time s)
unfolding broadcast_stop_time
broadcast_stop_time-Keeps s = if_both (Keeps s) s.stop_granted_already_sent (Keeps-refl s) (record {
  records = broadcast_loop-AllKept s.max_stop_tag 0 s.federates s.sent;
  log = broadcast_loop-log s.max_stop_tag 0 s.federates s.sent s.sent same;
})

-- a step written as a function keeps the records of grants
abbrev pub KeepsAll : (RtiInstance → Option RtiInstance) → Type 0
KeepsAll step = (s t : RtiInstance) → step s ≡ some t → Keeps s t

pub Keeps-to : (s t t' : RtiInstance) → some t ≡ some t' → Keeps s t → Keeps s t'
Keeps-to s t t' e k = let p : t ≡ t' = ground arith in rw (← p) k

count_request-Keeps :
    (id : ℕ) (fed : Federate) (s : RtiInstance)
    → get_elem? s.federates id ≡ some fed
    → Keeps s (count_request id fed s)
unfolding count_request
count_request-Keeps id fed s found =
    let put = put_federate-Keeps id fed (record fed { requested_stop = true }) s found refl refl in
    if_both (Keeps s) fed.requested_stop (Keeps-refl s)
      (record { records = put.records; log = put.log })

mark_federate_requesting_stop-Keeps : (id : ℕ) → KeepsAll (mark_federate_requesting_stop id)
unfolding mark_federate_requesting_stop answer_when_all
mark_federate_requesting_stop-Keeps id s t e =
    let (fed, found, rest) = >>=-eq-some (get_elem? s.federates id) _ e in
    let counted = count_request id fed s in
    let first = count_request-Keeps id fed s found in
    let second = Keeps-trans s counted _ first (broadcast_stop_time-Keeps counted) in
    Keeps-to s _ t rest
      (if_both (Keeps s) (counted.num_feds_handling_stop == length counted.federates) second first)

request_step-Keeps : (id : ℕ) (tag : Tag) (i : ℕ) → KeepsAll (request_step id tag i)
unfolding request_step
request_step-Keeps id tag i s t e =
    let (fed, found, rest) = >>=-eq-some (get_elem? s.federates i) _ e in
    elim (Bool-cases (not (i == id) && not fed.requested_stop)) [
      | inr a ↦ Keeps-to s s t (ground arith) (Keeps-refl s)
      | inl a ↦ elim (Bool-cases (is_not_connected fed.state)) [
        | inl b ↦ mark_federate_requesting_stop-Keeps i s t (ground arith)
        | inr b ↦
            Keeps-to s (record s { sent = (i, stop_request tag) ∷ s.sent }) t (ground arith)
              (record { records = (Keeps-refl s).records; log = request i tag same })
      ]
    ]

request_loop-Keeps : (id : ℕ) (tag : Tag) (n i : ℕ) → KeepsAll (request_loop id tag n i)
unfolding request_loop
request_loop-Keeps id tag zero i s t e = Keeps-to s s t e (Keeps-refl s)
request_loop-Keeps id tag (suc n) i s t e =
    let (mid, first, rest) = >>=-eq-some (request_step id tag i s) _ e in
    Keeps-trans s mid t (request_step-Keeps id tag i s mid first)
      (request_loop-Keeps id tag n (suc i) mid t rest)

raise_stop_tag-Keeps : (tag : Tag) (s : RtiInstance) → Keeps s (raise_stop_tag tag s)
raise_stop_tag-Keeps tag s =
    if_both (Keeps s) (is_before s.max_stop_tag tag)
      (record { records = (Keeps-refl s).records; log = same }) (Keeps-refl s)

pub handle_stop_request_reply-Keeps :
    (id : ℕ) (tag : Tag) → KeepsAll (handle_stop_request_reply id tag)
unfolding handle_stop_request_reply
handle_stop_request_reply-Keeps id tag s t e =
    Keeps-trans s (raise_stop_tag tag s) t (raise_stop_tag-Keeps tag s)
      (mark_federate_requesting_stop-Keeps id (raise_stop_tag tag s) t e)

pub handle_stop_request_message-Keeps :
    (id : ℕ) (tag : Tag) → KeepsAll (handle_stop_request_message id tag)
unfolding handle_stop_request_message handle_stop_request_reply
handle_stop_request_message-Keeps id tag s t e =
    let (fed, found, rest) = >>=-eq-some (get_elem? s.federates id) _ e in
    elim (Bool-cases fed.requested_stop) [
      | inl a ↦ Keeps-to s s t (ground arith) (Keeps-refl s)
      | inr a ↦
          let more = rw a at rest in
          let (mid, first, last) =
            >>=-eq-some (mark_federate_requesting_stop id (raise_stop_tag tag s)) _ more in
          let marked = handle_stop_request_reply-Keeps id tag s mid first in
          elim (Bool-cases (mid.num_feds_handling_stop == length mid.federates)) [
            | inl b ↦ Keeps-to s mid t (ground arith) marked
            | inr b ↦ Keeps-trans s mid t marked (
                request_loop-Keeps id mid.max_stop_tag (length mid.federates) 0 mid t
                  (ground arith))
          ]
    ]
