-- ===== src/Rti/Total/Grants.antt =====
-- core/federated/RTI/rti.c: the two functions that send a grant, run on a federation.
use mathlib.Core.Path.{subst}
use schedule_test_manual.Base.{
  ℕ, zero, suc, ◌≡◌, ◌<◌, refl, ◌∙◌, Bool, false, ◌||◌, Option, some, List, [], ◌∷◌, length, inl,
  inr, arith, Bool-cases, get_elem?_of_lt, length-replicate,
}
use schedule_test_manual.Base.Int.{ℤ}
use schedule_test_manual.Tag.{Tag}
use schedule_test_manual.Tag.Compare.{is_before, is_at_most, AtMost, AtMost-refl}
use schedule_test_manual.Tag.Delay.{InRange}
use schedule_test_manual.Rti.{
  Federate, tag_advance_grant, provisional_tag_advance_grant, RtiInstance, is_not_connected,
  transitive_next_event, depth, unvisited,
}
use schedule_test_manual.Rti.Grant.{
  write_grant, send_tag_advance_grant, send_provisional_tag_advance_grant, provisional_step,
  provisional_loop,
}
use schedule_test_manual.Rti.Formed.{AreUpstream, IsFederation, unseen-replicate}
use schedule_test_manual.Rti.Next.{transitive_next_event-total, IsResult}
use schedule_test_manual.Rti.Total.{
  waits, awaiting, Leaves, Leaves-refl, Leaves-trans, write_grant-Leaves, write_grant_fewer,
}

-- the next event of a federate can be computed with a fresh array
pub fresh_next :
    (s : RtiInstance)
    → IsFederation s
    → (id : ℕ) (candidate : Tag) → id < length s.federates
    → InRange candidate.time
    → (r : Tag × List Bool) × (transitive_next_event (depth s) s id candidate (unvisited s)
        ≡ some r)
      × IsResult (length s.federates) (unvisited s) r
fresh_next s h id candidate below range =
    transitive_next_event-total s (depth s) id candidate (unvisited s) h below range
      (length-replicate _ false) (let u = unseen-replicate (length s.federates) in omega arith)

pub send_tag_advance_grant-total :
    (id : ℕ) (tag : Tag) (s : RtiInstance)
    → IsFederation s
    → id < length s.federates
    → (t : RtiInstance) × (send_tag_advance_grant id tag s ≡ some t) × Leaves tag s t
unfolding send_tag_advance_grant waits
send_tag_advance_grant-total id tag s h below =
    let (fed, found) = get_elem?_of_lt s.federates id below in
    let f = h.federate id fed found in
    let started = f.started in
    elim (Bool-cases (
      is_not_connected fed.state
      || is_at_most tag fed.last_granted
      || is_before tag fed.last_provisionally_granted)) [
        | inl stop ↦ (s, rw (found, stop) refl, Leaves-refl tag s h)
        | inr go ↦ (
          (write_grant id (tag_advance_grant tag) fed (record fed { last_granted = tag }) s).0,
          rw (found, go, started) refl,
          write_grant-Leaves tag id (tag_advance_grant tag) fed (record fed { last_granted = tag })
              s found h
              (record {
                connections = f.connections;
                downstream_below = f.downstream_below;
                completed_time = f.completed_time;
                next_time = f.next_time;
                transit_times = f.transit_times;
                started = f.started;
              })
              (omega arith),
        )
      ]

waits_one :
    (tag : Tag) (fed : Federate)
    → is_not_connected fed.state ≡ false
    → is_at_most tag fed.last_provisionally_granted ≡ false
    → waits tag fed ≡ 1
unfolding waits
waits_one tag fed c a = ground arith

waits_zero :
    (tag : Tag) (fed : Federate) → AtMost tag fed.last_provisionally_granted → waits tag fed ≡ 0
unfolding waits
waits_zero tag fed a = ground arith

-- a call that ends for every federate, as long as fewer than `k` of `n` federates await the tag
unfoldable pub Ends : ℕ → ℕ → Tag → (ℕ → RtiInstance → Option RtiInstance) → Type 0
Ends n k tag send =
    (id : ℕ) (s : RtiInstance)
    → IsFederation s
    → length s.federates ≡ n
    → id < n
    → awaiting tag s.federates < k
    → (t : RtiInstance) × (send id s ≡ some t) × Leaves tag s t

provisional_step-Ends :
    (n k : ℕ) (tag : Tag) (send : ℕ → RtiInstance → Option RtiInstance)
    → Ends n k tag send
    → Ends n k tag (provisional_step send tag)
unfolding provisional_step Ends
provisional_step-Ends n k tag send ends id s h size below few =
    let (fed, found) = get_elem?_of_lt s.federates id (omega arith) in
    let f = h.federate id fed found in
    elim (Bool-cases (is_not_connected fed.state)) [
      | inl c ↦ (s, rw (found, c) refl, Leaves-refl tag s h)
      | inr c ↦
          let (r, next, is) = fresh_next s h id fed.next_event (omega arith) f.next_time in
          elim (Bool-cases (is_at_most tag r.0)) [
            | inl a ↦
                let (t, sent, leaves) = ends id s h size below few in
                (t, rw (found, c, next, a) sent, leaves)
            | inr a ↦ (s, rw (found, c, next, a) refl, Leaves-refl tag s h)
          ]
    ]

provisional_loop-total :
    (n k : ℕ) (tag : Tag) (send : ℕ → RtiInstance → Option RtiInstance)
    → Ends n k tag send
    → (upstream : List (ℕ × ℤ)) (s : RtiInstance) → AreUpstream n upstream
    → IsFederation s
    → length s.federates ≡ n
    → awaiting tag s.federates < k
    → (t : RtiInstance) × (provisional_loop send tag upstream s ≡ some t) × Leaves tag s t
unfolding provisional_loop Ends
provisional_loop-total n k tag send ends [] s ok h size few = (s, refl, Leaves-refl tag s h)
provisional_loop-total n k tag send ends ((u, d) ∷ more) s ok h size few =
    let (mid, first, l) = provisional_step-Ends n k tag send ends u s h size ok.0 few in
    let fewer = l.fewer in
    let (t, rest, l') =
      provisional_loop-total n k tag send ends more mid ok.2 l.federation (l.size ∙ size)
        (omega arith) in
    (t, rw first rest, Leaves-trans tag s mid t l l')

pub send_provisional_tag_advance_grant-Ends :
    (n : ℕ) (tag : Tag) (fuel : ℕ) → Ends n fuel tag (send_provisional_tag_advance_grant fuel tag)
unfolding send_provisional_tag_advance_grant Ends
send_provisional_tag_advance_grant-Ends n tag zero id s h size below few = absurd (omega arith)
send_provisional_tag_advance_grant-Ends n tag (suc fuel) id s h size below few =
    let (fed, found) = get_elem?_of_lt s.federates id (omega arith) in
    let f = h.federate id fed found in
    let started = f.started in
    elim (Bool-cases (
      is_not_connected fed.state
      || is_at_most tag fed.last_granted
      || is_at_most tag fed.last_provisionally_granted)) [
        | inl stop ↦ (s, rw (found, stop) refl, Leaves-refl tag s h)
        | inr go ↦
            let m = provisional_tag_advance_grant tag in
            let fed' = record fed { last_provisionally_granted = tag } in
            let w = write_grant id m fed fed' s in
            let one : waits tag fed ≡ 1 = waits_one tag fed (ground arith) (ground arith) in
            let zero' : waits tag fed' ≡ 0 = waits_zero tag fed' (AtMost-refl tag) in
            let l =
              write_grant-Leaves tag id m fed fed' s found h
                (record {
                  connections = f.connections;
                  downstream_below = f.downstream_below;
                  completed_time = f.completed_time;
                  next_time = f.next_time;
                  transit_times = f.transit_times;
                  started = f.started;
                })
                (omega arith) in
            elim (Bool-cases w.1) [
              | inl all ↦
                  let fewer = write_grant_fewer tag id m fed fed' s found h one zero' all in
                  let (t, looped, l') =
                    provisional_loop-total n fuel tag (send_provisional_tag_advance_grant fuel tag)
                      (send_provisional_tag_advance_grant-Ends n tag fuel) fed.upstream w.0
                      (subst (λ (k : ℕ). AreUpstream k fed.upstream) size f.connections)
                      l.federation (l.size ∙ size) (omega arith) in
                  (t, rw (found, go, started, all) looped, Leaves-trans tag s w.0 t l l')
              | inr part ↦ (w.0, rw (found, go, started, part) refl, l)
            ]
      ]
