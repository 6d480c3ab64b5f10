-- ===== src/Rti/Total/Downstream.antt =====
-- core/federated/RTI/rti.c: the spread of grants downstream, run on a federation.
use mathlib.Core.Path.{subst}
use schedule_test_manual.Base.{
  ℕ, zero, suc, ◌≡◌, ◌≤◌, refl, ap, ◌∙◌, Bool, true, false, Option, some, List, [], ◌∷◌, length,
  get_elem?, set, inl, inr, arith, Bool-cases, get_elem?_of_lt, lt_of_get_elem?, length-set,
}
use schedule_test_manual.Rti.{RtiInstance}
use schedule_test_manual.Rti.Grant.{
  downstream_step, downstream_loop, send_downstream_advance_grants_if_safe,
}
use schedule_test_manual.Rti.Formed.{AreBelow, IsFederation, unseen, unseen-set}
use schedule_test_manual.Rti.Total.Decision.{
  Stays, Stays-refl, Stays-trans, send_advance_grant_if_safe-total,
}

-- what the recursion downstream among `n` federates leaves
pub record Spread (n : ℕ) (visited : List Bool) (s : RtiInstance) (r : List Bool × RtiInstance)
    : Type 0 where
  pub stays : Stays s r.1
  pub len : length r.0 ≡ n
  pub left : unseen r.0 ≤ unseen visited

-- that recursion, for arrays that leave at most `k` of `n` federates
unfoldable pub Spreads :
    ℕ → ℕ → (ℕ → List Bool → RtiInstance → Option (List Bool × RtiInstance)) → Type 0
Spreads n k next =
    (id : ℕ) (visited : List Bool) (s : RtiInstance)
    → IsFederation s
    → length s.federates ≡ n
    → length visited ≡ n
    → get_elem? visited id ≡ some false
    → unseen visited ≤ k
    → (r : List Bool × RtiInstance) × (next id visited s ≡ some r) × Spread n visited s r

downstream_loop-total :
    (n k : ℕ) (next : ℕ → List Bool → RtiInstance → Option (List Bool × RtiInstance))
    → Spreads n k next
    → (ids : List ℕ) (visited : List Bool) (s : RtiInstance) → AreBelow n ids
    → IsFederation s
    → length s.federates ≡ n
    → length visited ≡ n
    → unseen visited ≤ k
    → (r : List Bool × RtiInstance) × (downstream_loop next ids visited s ≡ some r)
      × Spread n visited s r
unfolding downstream_loop downstream_step Spreads
downstream_loop-total n k next spreads [] visited s ok h size len few =
    ((visited, s), refl, record { stays = Stays-refl s h; len = len; left = omega arith })
downstream_loop-total n k next spreads (id ∷ ids) visited s ok h size len few =
    let (seen, looked) = get_elem?_of_lt visited id (omega arith) in
    elim (Bool-cases seen) [
      | inl e ↦
          let (r, rest, sp) =
            downstream_loop-total n k next spreads ids visited s ok.1 h size len few in
          (r, rw (looked, e) rest, sp)
      | inr e ↦
          let (mid, sent, st) = send_advance_grant_if_safe-total id s h (omega arith) in
          let (r, below, sp) =
            spreads id visited mid st.federation (st.size ∙ size) len (looked ∙ ap some e) few in
          let left = sp.left in
          let st' = sp.stays in
          let (r', rest, sp') =
            downstream_loop-total n k next spreads ids r.0 r.1 ok.1 st'.federation
              (st'.size ∙ st.size ∙ size) sp.len (omega arith) in
          let left' = sp'.left in
          (
            r',
            rw (looked, e, sent, below) rest,
            record {
              stays = Stays-trans s mid r'.1 st (Stays-trans mid r.1 r'.1 st' sp'.stays);
              len = sp'.len;
              left = omega arith;
            },
          )
    ]

pub send_downstream_advance_grants_if_safe-Spreads :
    (n fuel : ℕ) → Spreads n fuel (send_downstream_advance_grants_if_safe fuel)
unfolding send_downstream_advance_grants_if_safe Spreads
send_downstream_advance_grants_if_safe-Spreads n zero id visited s h size len fresh few =
    let e = unseen-set visited id fresh in absurd (omega arith)
send_downstream_advance_grants_if_safe-Spreads n (suc fuel) id visited s h size len fresh few =
    let marked = unseen-set visited id fresh in
    let (fed, found) =
      get_elem?_of_lt s.federates id
        (rw size (rw (← len) (lt_of_get_elem? visited id false fresh))) in
    let f = h.federate id fed found in
    let (r, looped, sp) =
      downstream_loop-total n fuel (send_downstream_advance_grants_if_safe fuel)
        (send_downstream_advance_grants_if_safe-Spreads n fuel) fed.downstream (set visited id true)
        s (subst (λ (k : ℕ). AreBelow k fed.downstream) size f.downstream_below) h size
        (length-set visited id true ∙ len) (omega arith) in
    let left = sp.left in
    (r, rw found looped, record { stays = sp.stays; len = sp.len; left = omega arith })
