-- ===== src/Rti/Total.antt =====
-- core/federated/RTI/rti.c: the functions that grant tags end, and leave a federation.
pub mod Decision
pub mod Downstream
pub mod Grants
pub mod Handlers
pub mod Run
pub mod Stop
use schedule_test_manual.Base.{
  ℕ, zero, suc, ◌+◌, ◌≡◌, ◌≤◌, ◌<◌, refl, sym, ap, ◌∙◌, Bool, true, false, not, ◌&&◌, ◌||◌, Option,
  some, List, [], ◌∷◌, length, get_elem?, set, inl, inr, arith, Bool-cases, if◌then◌else◌, if_both,
  get_elem?_of_lt, lt_of_get_elem?, length-set, get_elem?-set_inv,
}
use schedule_test_manual.Base.Int.{ℤ}
use schedule_test_manual.Tag.{Tag, delay_tag, forever_tag}
use schedule_test_manual.Tag.Compare.{is_before, is_at_most, earlier, AtMost, AtMost-refl}
use schedule_test_manual.Tag.Delay.{InRange}
use schedule_test_manual.Net.{◌>>=◌}
use schedule_test_manual.Rti.{
  Federate, FedState, not_connected, Message, tag_advance_grant, provisional_tag_advance_grant,
  Write, complete, short, failed, RtiInstance, is_not_connected, is_pending, put_federate,
  transitive_next_event, depth, unvisited,
}
use schedule_test_manual.Rti.Grant.{
  write_grant, send_tag_advance_grant, send_provisional_tag_advance_grant, provisional_step,
  provisional_loop,
}
use schedule_test_manual.Rti.Order.{Write-cases}
use schedule_test_manual.Rti.Formed.{AreUpstream, IsFormed, IsFederation, unseen, unseen-replicate}
use schedule_test_manual.Rti.Next.{transitive_next_event-total}

-- a federate that is written back in form
pub put-IsFederation :
    (id : ℕ) (new : Federate) (s : RtiInstance)
    → IsFormed (length s.federates) new
    → IsFederation s
    → IsFederation (put_federate id new s)
put-IsFederation id new s formed h = record {
  federate = λ id' fed e.
      rw (length-set s.federates id new) (elim (get_elem?-set_inv s.federates id id' new fed e) [
        | inl (p, q) ↦ rw q formed
        | inr (p, q) ↦ h.federate id' fed q
      ]);
  start = h.start;
  stop_time = h.stop_time;
}

-- the federates that are connected and have not been sent `tag` provisionally, nor a later one
pub waits : Tag → Federate → ℕ
waits tag fed =
    if is_not_connected fed.state || is_at_most tag fed.last_provisionally_granted then 0 else 1

pub awaiting : Tag → List Federate → ℕ
unfolding waits
awaiting tag [] = 0
awaiting tag (fed ∷ feds) = waits tag fed + awaiting tag feds

pub awaiting-le : (tag : Tag) (feds : List Federate) → awaiting tag feds ≤ length feds
unfolding awaiting
awaiting-le tag [] = omega arith
awaiting-le tag (fed ∷ feds) = ground (arith, awaiting-le tag feds)

-- what a step of granting leaves: a federation of as many, with no more federates that await the tag
pub record Leaves (tag : Tag) (s t : RtiInstance) : Type 0 where
  pub federation : IsFederation t
  pub size : length t.federates ≡ length s.federates
  pub fewer : awaiting tag t.federates ≤ awaiting tag s.federates

pub Leaves-refl : (tag : Tag) (s : RtiInstance) → IsFederation s → Leaves tag s s
Leaves-refl tag s h = record { federation = h; size = refl; fewer = omega arith }

pub Leaves-trans :
    (tag : Tag) (s t u : RtiInstance) → Leaves tag s t → Leaves tag t u → Leaves tag s u
Leaves-trans tag s t u h k = record {
  federation = k.federation;
  size = k.size ∙ h.size;
  fewer = let a = h.fewer in let b = k.fewer in omega arith;
}

-- one federate is replaced
awaiting-set :
    (tag : Tag) (feds : List Federate) (id : ℕ) (fed new : Federate)
    → get_elem? feds id ≡ some fed
    → awaiting tag (set feds id new) + waits tag fed ≡ awaiting tag feds + waits tag new
unfolding awaiting
awaiting-set tag [] id fed new e = cc
awaiting-set tag (f ∷ feds) zero fed new e =
    let same : f ≡ fed = ground arith in rw same (omega arith)
awaiting-set tag (f ∷ feds) (suc id) fed new e = omega (arith, awaiting-set tag feds id fed new e)

module _ (tag : Tag) (id : ℕ) (m : Message) (fed fed' : Federate) (s : RtiInstance)
    (found : get_elem? s.federates id ≡ some fed) (h : IsFederation s) where
  set-Leaves :
      (new : Federate)
      → IsFormed (length s.federates) new
      → waits tag new ≤ waits tag fed
      → Leaves tag s (put_federate id new s)
  set-Leaves new formed fewer' = record {
    federation = put-IsFederation id new s formed h;
    size = length-set s.federates id new;
    fewer = let e = awaiting-set tag s.federates id fed new found in omega arith;
  }

  pub write_grant-Leaves :
      IsFormed (length s.federates) fed'
      → waits tag fed' ≤ waits tag fed
      → Leaves tag s (write_grant id m fed fed' s).0
  unfolding write_grant waits
  write_grant-Leaves formed fewer' =
      let old = h.federate id fed found in
      elim (Write-cases (s.writes zero)) [
        | inl e ↦
            let l = set-Leaves fed' formed fewer' in
            rw (e, write_grant)
              (record {
                federation = record {
                  federate = l.federation.federate;
                  start = h.start;
                  stop_time = h.stop_time;
                };
                size = l.size;
                fewer = l.fewer;
              })
        | inr (inl e) ↦
            rw (e, write_grant)
              (record {
                federation = record {
                  federate = h.federate;
                  start = h.start;
                  stop_time = h.stop_time;
                };
                size = refl;
                fewer = omega arith;
              })
        | inr (inr e) ↦
            let gone =
              set-Leaves (record fed { state = not_connected })
                (record {
                  connections = old.connections;
                  downstream_below = old.downstream_below;
                  completed_time = old.completed_time;
                  next_time = old.next_time;
                  transit_times = old.transit_times;
                  started = refl;
                })
                (omega arith) in
            rw (e, write_grant)
              (record {
                federation = record {
                  federate = gone.federation.federate;
                  start = h.start;
                  stop_time = h.stop_time;
                };
                size = gone.size;
                fewer = gone.fewer;
              })
      ]

  -- a provisional grant that has been written leaves one fewer that await the tag
  pub write_grant_fewer :
      waits tag fed ≡ 1
      → waits tag fed' ≡ 0
      → (write_grant id m fed fed' s).1 ≡ true
      → suc (awaiting tag (write_grant id m fed fed' s).0.federates) ≡ awaiting tag s.federates
  unfolding write_grant
  write_grant_fewer one none' done =
      let e = awaiting-set tag s.federates id fed fed' found in
      elim (Write-cases (s.writes zero)) [
        | inl w ↦ rw (w, write_grant) (omega arith)
        | inr (inl w) ↦ let f = rw (w, write_grant) at done in cc
        | inr (inr w) ↦ let f = rw (w, write_grant) at done in cc
      ]
