-- ===== src/Rti/Total/Decision.antt =====
-- core/federated/RTI/rti.c: the decision on a grant, run on a federation.
use schedule_test_manual.Base.{
  ℕ, ◌≡◌, ◌≤◌, ◌<◌, refl, ◌∙◌, Bool, false, not, ◌&&◌, Option, some, List, [], ◌∷◌, length, inl,
  inr, arith, Bool-cases, if_both, get_elem?_of_lt, length-replicate,
}
use schedule_test_manual.Base.Int.{ℤ}
use schedule_test_manual.Tag.{Tag, forever_tag}
use schedule_test_manual.Tag.Compare.{is_before, is_at_most, earlier}
use schedule_test_manual.Rti.{Federate, RtiInstance, is_not_connected, depth, unvisited}
use schedule_test_manual.Rti.Grant.{
  completed_step, completed_loop, next_event_step, next_event_loop, grant_next_event,
  send_advance_grant_if_safe,
}
use schedule_test_manual.Rti.Formed.{
  AreUpstream, IsFederation, IsDelay-total, unseen, unseen-replicate,
}
use schedule_test_manual.Rti.Next.{transitive_next_event-total}
use schedule_test_manual.Rti.Total.{awaiting-le, Leaves}
use schedule_test_manual.Rti.Total.Grants.{
  send_tag_advance_grant-total, send_provisional_tag_advance_grant-Ends, Ends,
}

-- a federation of as many federates
pub record Stays (s t : RtiInstance) : Type 0 where
  pub federation : IsFederation t
  pub size : length t.federates ≡ length s.federates

pub Stays-refl : (s : RtiInstance) → IsFederation s → Stays s s
Stays-refl s h = record { federation = h; size = refl }

pub Stays-trans : (s t u : RtiInstance) → Stays s t → Stays t u → Stays s u
Stays-trans s t u h k = record { federation = k.federation; size = k.size ∙ h.size }

Leaves-Stays : (tag : Tag) (s t : RtiInstance) → Leaves tag s t → Stays s t
Leaves-Stays tag s t l = record { federation = l.federation; size = l.size }

completed_loop-total :
    (s : RtiInstance)
    → IsFederation s
    → (upstream : List (ℕ × ℤ)) (least : Tag) → AreUpstream (length s.federates) upstream
    → (r : Tag) × (completed_loop s upstream least ≡ some r)
unfolding completed_loop completed_step
completed_loop-total s h [] least ok = (least, refl)
completed_loop-total s h ((u, d) ∷ more) least ok =
    let (fed, found) = get_elem?_of_lt s.federates u ok.0 in
    let f = h.federate u fed found in
    elim (Bool-cases (is_not_connected fed.state)) [
      | inl c ↦ let (r, rest) = completed_loop-total s h more least ok.2 in (r, rw (found, c) rest)
      | inr c ↦
          let (t, delayed, range) = IsDelay-total fed.completed d f.completed_time ok.1 in
          let (r, rest) = completed_loop-total s h more (earlier t least) ok.2 in
          (r, rw (found, c, delayed) rest)
    ]

next_event_loop-total :
    (s : RtiInstance)
    → IsFederation s
    → (upstream : List (ℕ × ℤ)) (t_d : Tag) (visited : List Bool)
    → AreUpstream (length s.federates) upstream
    → length visited ≡ length s.federates
    → unseen visited ≤ length s.federates
    → (r : Tag) × (next_event_loop s upstream t_d visited ≡ some r)
unfolding next_event_loop next_event_step
next_event_loop-total s h [] t_d visited ok len few = (t_d, refl)
next_event_loop-total s h ((u, d) ∷ more) t_d visited ok len few =
    let (fed, found) = get_elem?_of_lt s.federates u ok.0 in
    let f = h.federate u fed found in
    elim (Bool-cases (is_not_connected fed.state)) [
      | inl c ↦
          let (r, rest) = next_event_loop-total s h more t_d visited ok.2 len few in
          (r, rw (found, c) rest)
      | inr c ↦
          let (n, next, is) =
            transitive_next_event-total s (depth s) u fed.next_event visited h ok.0 f.next_time len
              (omega arith) in
          let (t, delayed, range) = IsDelay-total n.0 d is.in_range ok.1 in
          let left = is.left in
          let (r, rest) =
            next_event_loop-total s h more (earlier t t_d) n.1 ok.2 is.size (omega arith) in
          (r, rw (found, c, next, delayed) rest)
    ]

-- a step that ends on every federation, for a federate of it
abbrev pub EndsAt : (ℕ → RtiInstance → Option RtiInstance) → Type 0
EndsAt step =
    (id : ℕ) (s : RtiInstance)
    → IsFederation s
    → id < length s.federates
    → (t : RtiInstance) × (step id s ≡ some t) × Stays s t

grant_next_event-total :
    (fed : Federate) (t_d : Tag) → EndsAt (λ id s. grant_next_event id fed t_d s)
unfolding grant_next_event Ends
grant_next_event-total fed t_d id s h below =
    let (t, sent, l) = send_tag_advance_grant-total id fed.next_event s h below in
    let le = awaiting-le t_d s.federates in
    let (t', sent', l') =
      send_provisional_tag_advance_grant-Ends (length s.federates) t_d (depth s) id s h refl below
        (omega arith) in
    if_both (λ (o : Option RtiInstance). (r : RtiInstance) × (o ≡ some r) × Stays s r)
      (is_before fed.next_event t_d
        && not (is_before t_d fed.last_provisionally_granted)
        && is_before fed.last_granted t_d)
      (t, sent, Leaves-Stays fed.next_event s t l)
      (if_both (λ (o : Option RtiInstance). (r : RtiInstance) × (o ≡ some r) × Stays s r)
        ((is_at_most t_d fed.next_event && is_at_most fed.next_event t_d)
          && is_before fed.last_provisionally_granted t_d
          && is_before fed.last_granted t_d)
        (t', sent', Leaves-Stays t_d s t' l') (s, refl, Stays-refl s h))

pub send_advance_grant_if_safe-total : EndsAt send_advance_grant_if_safe
unfolding send_advance_grant_if_safe
send_advance_grant_if_safe-total id s h below =
    let (fed, found) = get_elem?_of_lt s.federates id below in
    let f = h.federate id fed found in
    let (least, first) = completed_loop-total s h fed.upstream forever_tag f.connections in
    elim (Bool-cases (is_before fed.last_granted least)) [
      | inl b ↦
          let (t, sent, l) = send_tag_advance_grant-total id least s h below in
          (t, rw (found, first, b) sent, Leaves-Stays least s t l)
      | inr b ↦
          let u = unseen-replicate (length s.federates) in
          let (t_d, second) =
            next_event_loop-total s h fed.upstream forever_tag (unvisited s) f.connections
              (length-replicate _ false) (omega arith) in
          let (t, sent, st) = grant_next_event-total fed t_d id s h below in
          (t, rw (found, first, b, second) sent, st)
    ]
