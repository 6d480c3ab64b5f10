-- ===== src/Rti/Agreement.antt =====
-- core/federated/RTI/rti.c: the tally of the federates that handle a stop, and the stop tags sent.
pub mod Answer
pub mod Broadcast
pub mod Marking
pub mod Run
use mathlib.Core.Path.{subst}
use schedule_test_manual.Base.{
  ℕ, zero, suc, ◌+◌, ◌≡◌, ◌≤◌, ◌<◌, refl, Bool, true, false, ◌&&◌, some, List, [], ◌∷◌, ◌==◌,
  length, get_elem?, set, inl, inr, arith, if◌then◌else◌, length-set, get_elem?-set_inv,
}
use schedule_test_manual.Rti.{
  Federate, not_connected, Message, tag_advance_grant, provisional_tag_advance_grant, stop_request,
  stop_granted, RtiInstance, put_federate, is_not_connected,
}
use schedule_test_manual.Rti.Grant.{write_grant}
use schedule_test_manual.Rti.Steps.{Grants, done, tag_step, provisional_grant_step}
use schedule_test_manual.Rti.Order.{Write-cases}

-- the federates that have requested a stop or have answered a request
unfoldable pub requesters : List Federate → ℕ
requesters [] = 0
requesters (fed ∷ feds) = (if fed.requested_stop then 1 else 0) + requesters feds

abbrev pub is_stop_granted : Message → Bool
is_stop_granted (stop_granted tag) = true
is_stop_granted _ = false

-- how many stop tags a federate has been sent
unfoldable pub stops : ℕ → List (ℕ × Message) → ℕ
stops i [] = 0
stops i ((to, message) ∷ older) =
    (if to == i && is_stop_granted message then 1 else 0) + stops i older

-- The tally is exact; the flag that the stop tag has been sent is set if and only if every federate is
-- counted; once it is, every connected federate has been sent a stop tag; and no federate has been sent
-- more than one, or any before.
pub record IsAgreed (s : RtiInstance) : Type 0 where
  pub tally : s.num_feds_handling_stop ≡ requesters s.federates
  pub answered : s.stop_granted_already_sent ≡ true → s.num_feds_handling_stop ≡ length s.federates
  pub told :
      s.stop_granted_already_sent ≡ true
      → (i : ℕ) (fed : Federate) → get_elem? s.federates i ≡ some fed
      → is_not_connected fed.state ≡ false
      → 0 < stops i s.sent
  pub complete : s.num_feds_handling_stop ≡ length s.federates → s.stop_granted_already_sent ≡ true
  pub once : (i : ℕ) → stops i s.sent ≤ (if s.stop_granted_already_sent then 1 else 0)

pub requesters-set :
    (feds : List Federate) (id : ℕ) (fed new : Federate)
    → get_elem? feds id ≡ some fed
    → requesters (set feds id new) + (if fed.requested_stop then 1 else 0)
      ≡ requesters feds + (if new.requested_stop then 1 else 0)
unfolding requesters
requesters-set [] id fed new e = cc
requesters-set (f ∷ feds) zero fed new e =
    let same : f ≡ fed = ground arith in rw same (omega arith)
requesters-set (f ∷ feds) (suc id) fed new e = omega (arith, requesters-set feds id fed new e)

pub requesters-le : (feds : List Federate) → requesters feds ≤ length feds
unfolding requesters
requesters-le [] = omega arith
requesters-le (f ∷ feds) = ground (arith, requesters-le feds)

-- a federate that is not counted
pub requesters-lt :
    (feds : List Federate) (id : ℕ) (fed : Federate)
    → get_elem? feds id ≡ some fed
    → fed.requested_stop ≡ false
    → requesters feds < length feds
unfolding requesters
requesters-lt [] id fed e r = cc
requesters-lt (f ∷ feds) zero fed e r =
    let same : f ≡ fed = ground arith in let le = requesters-le feds in rw (same, r) (omega arith)
requesters-lt (f ∷ feds) (suc id) fed e r = ground (arith, requesters-lt feds id fed e r)

-- replacing a federate by one that is counted alike
pub same_requesters :
    (feds : List Federate) (id : ℕ) (fed new : Federate)
    → get_elem? feds id ≡ some fed
    → fed.requested_stop ≡ new.requested_stop
    → requesters (set feds id new) ≡ requesters feds
same_requesters feds id fed new e r =
    let h = requesters-set feds id fed new e in let k = rw r at h in omega arith

-- a federate that is connected afterwards was before
abbrev pub KeepsGone : Federate → Federate → Type 0
KeepsGone fed new = is_not_connected new.state ≡ false → is_not_connected fed.state ≡ false

pub put_federate-IsAgreed :
    (id : ℕ) (fed new : Federate) (s : RtiInstance)
    → get_elem? s.federates id ≡ some fed
    → fed.requested_stop ≡ new.requested_stop
    → KeepsGone fed new
    → IsAgreed s
    → IsAgreed (put_federate id new s)
put_federate-IsAgreed id fed new s found r gone h =
    let same = same_requesters s.federates id fed new found r in
    let size = length-set s.federates id new in
    record {
      tally = rw same h.tally;
      answered = rw size h.answered;
      told = λ e i fed' found' c. elim (get_elem?-set_inv s.federates id i new fed' found') [
        | inl (here, same) ↦
            h.told e i fed (subst (λ (n : ℕ). get_elem? s.federates n ≡ some fed) here found)
              (gone (subst (λ (f : Federate). is_not_connected f.state ≡ false) same c))
        | inr (there, old) ↦ h.told e i fed' old c
      ];
      complete = rw size h.complete;
      once = h.once;
    }

-- a message that is not the stop tag
pub one_more :
    (i id : ℕ) (m : Message) (log : List (ℕ × Message)) {k : ℕ}
    → is_stop_granted m ≡ false
    → stops i log ≤ k
    → stops i ((id, m) ∷ log) ≤ k
unfolding stops
one_more i id m log other h = rw other (ground arith)

-- and a stop tag sent stays sent
pub stops-cons :
    (i : ℕ) (m : ℕ × Message) (log : List (ℕ × Message)) → 0 < stops i log → 0 < stops i (m ∷ log)
unfolding stops
stops-cons i (id, m) log lt = omega arith

-- a grant changes neither
write_grant-IsAgreed :
    (id : ℕ) (m : Message) (fed fed' : Federate) (s : RtiInstance)
    → get_elem? s.federates id ≡ some fed
    → fed.requested_stop ≡ fed'.requested_stop
    → KeepsGone fed fed'
    → is_stop_granted m ≡ false
    → IsAgreed s
    → IsAgreed (write_grant id m fed fed' s).0
unfolding write_grant
write_grant-IsAgreed id m fed fed' s found r keeps other h =
    let put = put_federate-IsAgreed id fed fed' s found r keeps h in
    let gone =
      put_federate-IsAgreed id fed (record fed { state = not_connected }) s found refl (λ c. cc)
        h in
    elim (Write-cases (s.writes zero)) [
      | inl e ↦
          rw (e, write_grant)
            (record {
              tally = put.tally;
              answered = put.answered;
              told = λ e' i f q c. stops-cons i (id, m) s.sent (put.told e' i f q c);
              complete = put.complete;
              once = λ i. one_more i id m s.sent other (h.once i);
            })
      | inr (inl e) ↦
          rw (e, write_grant)
            (record {
              tally = h.tally;
              answered = h.answered;
              told = h.told;
              complete = h.complete;
              once = h.once;
            })
      | inr (inr e) ↦
          rw (e, write_grant)
            (record {
              tally = gone.tally;
              answered = gone.answered;
              told = gone.told;
              complete = gone.complete;
              once = h.once;
            })
    ]

pub Grants-IsAgreed : (s t : RtiInstance) → Grants s t → IsAgreed s → IsAgreed t
Grants-IsAgreed s t done h = h
Grants-IsAgreed s t (tag_step id tag fed found c a b rest) h = Grants-IsAgreed _ t rest (
    write_grant-IsAgreed id (tag_advance_grant tag) fed (record fed { last_granted = tag }) s found
      refl (λ c. c) refl h)
Grants-IsAgreed s t (provisional_grant_step id tag fed found c a b rest) h =
    Grants-IsAgreed _ t rest (
      write_grant-IsAgreed id (provisional_tag_advance_grant tag) fed
        (record fed { last_provisionally_granted = tag }) s found refl (λ c. c) refl h)
