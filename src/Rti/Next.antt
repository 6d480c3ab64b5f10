-- ===== src/Rti/Next.antt =====
-- core/federated/RTI/rti.c: transitive_next_event ends, and its result is bounded.
use schedule_test_manual.Base.{
  ℕ, zero, suc, ◌≡◌, ◌≤◌, ◌<◌, refl, ◌∙◌, Bool, true, false, ◌||◌, Option, some, List, [], ◌∷◌,
  length, get_elem?, set, inl, inr, arith, Bool-cases, if◌then◌else◌, if_both, get_elem?_of_lt,
  length-set,
}
use schedule_test_manual.Base.Int.{ℤ, ltb_ℤ}
use schedule_test_manual.Tag.{Tag}
use schedule_test_manual.Tag.Compare.{is_before, earlier}
use schedule_test_manual.Tag.Delay.{InRange}
use schedule_test_manual.Rti.{
  Federate, RtiInstance, is_not_connected, start_from, upstream_loop, transitive_next_event,
}
use schedule_test_manual.Rti.Formed.{AreUpstream, IsFederation, IsDelay-total, unseen, unseen-set}

-- a result of the recursion among `n` federates, from `visited` on
pub record IsResult (n : ℕ) (visited : List Bool) (r : Tag × List Bool) : Type 0 where
  pub in_range : InRange r.0.time
  pub size : length r.1 ≡ n
  pub left : unseen r.1 ≤ unseen visited

IsResult-from :
    (n : ℕ) (v w : List Bool) (r : Tag × List Bool)
    → unseen w ≤ unseen v
    → IsResult n w r
    → IsResult n v r
IsResult-from n v w r h k = record {
  in_range = k.in_range;
  size = k.size;
  left = let l = k.left in omega arith;
}

-- a call that gives a result for every federate, as long as it has `k` rounds for the federates left
abbrev Total : ℕ → ℕ → (ℕ → Tag → List Bool → Option (Tag × List Bool)) → Type 0
Total n k next =
    (id : ℕ) (candidate : Tag) (visited : List Bool)
    → id < n
    → InRange candidate.time
    → length visited ≡ n
    → unseen visited < k
    → (r : Tag × List Bool) × (next id candidate visited ≡ some r) × IsResult n visited r

pub earlier-InRange : (a b : Tag) → InRange a.time → InRange b.time → InRange (earlier a b).time
earlier-InRange a b = if_both (λ (t : Tag). InRange t.time) (is_before a b)

upstream_loop-Total :
    (n k : ℕ) (next : ℕ → Tag → List Bool → Option (Tag × List Bool))
    → Total n k next
    → (upstream : List (ℕ × ℤ)) (result : Tag) (visited : List Bool) → AreUpstream n upstream
    → InRange result.time
    → length visited ≡ n
    → unseen visited < k
    → (r : Tag × List Bool) × (upstream_loop next upstream result visited ≡ some r)
      × IsResult n visited r
unfolding upstream_loop
upstream_loop-Total n k next total [] result visited ok range len few =
    ((result, visited), refl, record { in_range = range; size = len; left = omega arith })
upstream_loop-Total n k next total ((u, d) ∷ more) result visited ok range len few =
    let (r, found, is) = total u result visited ok.0 range len few in
    let (t, delayed, in_range) = IsDelay-total r.0 d is.in_range ok.1 in
    let left = is.left in
    let (end, rest, is') =
      upstream_loop-Total n k next total more (earlier t result) r.1 ok.2
        (earlier-InRange t result in_range range) is.size (omega arith) in
    (end, rw (found, delayed) rest, IsResult-from n visited r.1 end left is')

start_from-InRange :
    (start : ℤ) (fed : Federate) (candidate : Tag)
    → InRange start
    → InRange fed.next_event.time
    → InRange candidate.time
    → InRange (start_from start fed candidate).time
start_from-InRange start fed candidate s f c =
    if_both (λ (t : Tag). InRange t.time) (ltb_ℤ (earlier candidate fed.next_event).time start) s
      (earlier-InRange candidate fed.next_event c f)

transitive_next_event-Total :
    (s : RtiInstance)
    → IsFederation s
    → (fuel : ℕ) → Total (length s.federates) fuel (transitive_next_event fuel s)
unfolding transitive_next_event
transitive_next_event-Total s h zero id candidate visited below range len few = absurd (omega arith)
transitive_next_event-Total s h (suc fuel) id candidate visited below range len few =
    let n = length s.federates in
    let (fed, found) = get_elem?_of_lt s.federates id below in
    let (seen, looked) = get_elem?_of_lt visited id (omega arith) in
    let formed = h.federate id fed found in
    elim (Bool-cases (seen || is_not_connected fed.state)) [
      | inl stop ↦ (
        (candidate, visited),
        rw (found, looked, stop) refl,
        record { in_range = range; size = len; left = omega arith },
      )
      | inr go ↦
          let fresh : get_elem? visited id ≡ some false = ground arith in
          let fewer = unseen-set visited id fresh in
          let result = start_from s.start_time fed candidate in
          let (r, looped, is) =
            upstream_loop-Total n fuel (transitive_next_event fuel s)
              (transitive_next_event-Total s h fuel) fed.upstream result (set visited id true)
              formed.connections
              (start_from-InRange s.start_time fed candidate h.start formed.next_time range)
              (length-set visited id true ∙ len) (omega arith) in
          let tag = if is_before r.0 fed.completed then fed.completed else r.0 in
          let tag_range =
            if_both (λ (t : Tag). InRange t.time) (is_before r.0 fed.completed)
              formed.completed_time is.in_range in
          let left = is.left in
          (
            (tag, r.1),
            rw (found, looked, go, looped) refl,
            record { in_range = tag_range; size = is.size; left = omega arith },
          )
    ]

-- In a federation whose connections name its federates, with delays that are NEVER or from 0 on and
-- times that are of int64_t, the recursion of transitive_next_event ends with a result within as many
-- nested calls as there are federates that it has not visited, cycles or not, and meets no overflow.
pub transitive_next_event-total :
    (s : RtiInstance) (fuel id : ℕ) (candidate : Tag) (visited : List Bool)
    → IsFederation s
    → id < length s.federates
    → InRange candidate.time
    → length visited ≡ length s.federates
    → unseen visited < fuel
    → (r : Tag × List Bool) × (transitive_next_event fuel s id candidate visited ≡ some r)
      × IsResult (length s.federates) visited r
transitive_next_event-total s fuel id candidate visited h =
    transitive_next_event-Total s h fuel id candidate visited
