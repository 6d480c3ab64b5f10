-- ===== src/Rti/Steps.antt =====
-- core/federated/RTI/rti.c: the grants as steps of the RTI's state. Every function that grants tags
-- performs a sequence of these steps.
use schedule_test_manual.Base.{
  ℕ, zero, suc, ◌≡◌, Bool, false, not, ◌&&◌, Option, some, List, [], ◌∷◌, get_elem?, Bool-cases,
  inl, inr, arith,
}
use schedule_test_manual.Base.Int.{ℤ}
use schedule_test_manual.Tag.{Tag, forever_tag}
use schedule_test_manual.Tag.Compare.{is_before, is_at_most}
use schedule_test_manual.Rti.{
  Federate, tag_advance_grant, provisional_tag_advance_grant, RtiInstance, is_not_connected,
  is_pending, transitive_next_event, depth, unvisited, >>=-eq-some,
}
use schedule_test_manual.Rti.Grant.{
  write_grant, send_tag_advance_grant, send_provisional_tag_advance_grant, provisional_step,
  provisional_loop, grant_next_event, send_advance_grant_if_safe, completed_loop, next_event_loop,
  downstream_step, downstream_loop, send_downstream_advance_grants_if_safe,
}

-- A sequence of grants, each with what its function checks of the federate before.
pub data Grants : RtiInstance → RtiInstance → Type 0 where
  done : {s : RtiInstance} → Grants s s
  tag_step :
      {s t : RtiInstance} (id : ℕ) (tag : Tag) (fed : Federate)
      → get_elem? s.federates id ≡ some fed
      → is_not_connected fed.state ≡ false
      → is_at_most tag fed.last_granted ≡ false
      → is_before tag fed.last_provisionally_granted ≡ false
      → Grants
          (write_grant id (tag_advance_grant tag) fed (record fed { last_granted = tag }) s).0
          t
      → Grants s t
  provisional_grant_step :
      {s t : RtiInstance} (id : ℕ) (tag : Tag) (fed : Federate)
      → get_elem? s.federates id ≡ some fed
      → is_not_connected fed.state ≡ false
      → is_at_most tag fed.last_granted ≡ false
      → is_at_most tag fed.last_provisionally_granted ≡ false
      → Grants
          (write_grant id
            (provisional_tag_advance_grant tag)
            fed
            (record fed { last_provisionally_granted = tag })
            s).0
          t
      → Grants s t

pub Grants-trans : {s t u : RtiInstance} → Grants s t → Grants t u → Grants s u
Grants-trans done h = h
Grants-trans (tag_step id tag fed g c a b r) h = tag_step id tag fed g c a b (Grants-trans r h)
Grants-trans (provisional_grant_step id tag fed g c a b r) h =
    provisional_grant_step id tag fed g c a b (Grants-trans r h)

-- nothing changed
Grants-same : (s t : RtiInstance) → some s ≡ some t → Grants s t
Grants-same s t e = let p : s ≡ t = ground arith in rw (← p) done

pub send_tag_advance_grant-Grants :
    (id : ℕ) (tag : Tag) (s t : RtiInstance) → send_tag_advance_grant id tag s ≡ some t → Grants s t
unfolding send_tag_advance_grant
send_tag_advance_grant-Grants id tag s t e =
    let (fed, found, rest) = >>=-eq-some (get_elem? s.federates id) _ e in
    elim (Bool-cases (is_not_connected fed.state)) [
      | inl c ↦ Grants-same s t (ground arith)
      | inr c ↦ elim (Bool-cases (is_at_most tag fed.last_granted)) [
        | inl a ↦ Grants-same s t (ground arith)
        | inr a ↦ elim (Bool-cases (is_before tag fed.last_provisionally_granted)) [
          | inl b ↦ Grants-same s t (ground arith)
          | inr b ↦ elim (Bool-cases (is_pending fed.state)) [
            | inl p ↦ ground arith
            | inr p ↦ tag_step id tag fed found c a b (Grants-same _ t (ground arith))
          ]
        ]
      ]
    ]

-- a function from a federate and a state that only grants
abbrev OnlyGrants : (ℕ → RtiInstance → Option RtiInstance) → Type 0
OnlyGrants send = (id : ℕ) (s t : RtiInstance) → send id s ≡ some t → Grants s t

provisional_step-Grants :
    (send : ℕ → RtiInstance → Option RtiInstance) (tag : Tag)
    → OnlyGrants send
    → OnlyGrants (provisional_step send tag)
unfolding provisional_step
provisional_step-Grants send tag only id s t e =
    let (fed, found, rest) = >>=-eq-some (get_elem? s.federates id) _ e in
    elim (Bool-cases (is_not_connected fed.state)) [
      | inl c ↦ Grants-same s t (ground arith)
      | inr c ↦
          let more = rw c at rest in
          let (r, next, last) =
            >>=-eq-some (transitive_next_event (depth s) s id fed.next_event (unvisited s)) _
              more in
          elim (Bool-cases (is_at_most tag r.0)) [
            | inl a ↦ only id s t (ground arith)
            | inr a ↦ Grants-same s t (ground arith)
          ]
    ]

provisional_loop-Grants :
    (send : ℕ → RtiInstance → Option RtiInstance) (tag : Tag)
    → OnlyGrants send
    → (upstream : List (ℕ × ℤ)) (s t : RtiInstance) → provisional_loop send tag upstream s ≡ some t
    → Grants s t
unfolding provisional_loop
provisional_loop-Grants send tag only [] s t e = Grants-same s t e
provisional_loop-Grants send tag only ((u, d) ∷ more) s t e =
    let (mid, first, rest) = >>=-eq-some (provisional_step send tag u s) _ e in
    Grants-trans (provisional_step-Grants send tag only u s mid first)
      (provisional_loop-Grants send tag only more mid t rest)

pub send_provisional_tag_advance_grant-Grants :
    (fuel : ℕ) (tag : Tag) → OnlyGrants (send_provisional_tag_advance_grant fuel tag)
unfolding send_provisional_tag_advance_grant
send_provisional_tag_advance_grant-Grants zero tag id s t e = cc
send_provisional_tag_advance_grant-Grants (suc fuel) tag id s t e =
    let (fed, found, rest) = >>=-eq-some (get_elem? s.federates id) _ e in
    let send = send_provisional_tag_advance_grant fuel tag in
    elim (Bool-cases (is_not_connected fed.state)) [
      | inl c ↦ Grants-same s t (ground arith)
      | inr c ↦ elim (Bool-cases (is_at_most tag fed.last_granted)) [
        | inl a ↦ Grants-same s t (ground arith)
        | inr a ↦ elim (Bool-cases (is_at_most tag fed.last_provisionally_granted)) [
          | inl b ↦ Grants-same s t (ground arith)
          | inr b ↦ elim (Bool-cases (is_pending fed.state)) [
            | inl p ↦ ground arith
            | inr p ↦
                let fed' = record fed { last_provisionally_granted = tag } in
                let w = write_grant id (provisional_tag_advance_grant tag) fed fed' s in
                let after : Grants w.0 t = elim (Bool-cases w.1) [
                  | inl all ↦
                      provisional_loop-Grants send tag
                        (send_provisional_tag_advance_grant-Grants fuel tag) fed.upstream w.0 t
                        (ground arith)
                  | inr part ↦ Grants-same w.0 t (ground arith)
                ] in
                provisional_grant_step id tag fed found c a b after
          ]
        ]
      ]
    ]

grant_next_event-Grants :
    (fed : Federate) (t_d : Tag) → OnlyGrants (λ id s. grant_next_event id fed t_d s)
unfolding grant_next_event
grant_next_event-Grants fed t_d id s t e =
    let whole =
      is_before fed.next_event t_d
      && not (is_before t_d fed.last_provisionally_granted)
      && is_before fed.last_granted t_d in
    let part =
      (is_at_most t_d fed.next_event && is_at_most fed.next_event t_d)
      && is_before fed.last_provisionally_granted t_d
      && is_before fed.last_granted t_d in
    elim (Bool-cases whole) [
      | inl a ↦ send_tag_advance_grant-Grants id fed.next_event s t (ground arith)
      | inr a ↦ elim (Bool-cases part) [
        | inl b ↦ send_provisional_tag_advance_grant-Grants (depth s) t_d id s t (ground arith)
        | inr b ↦ Grants-same s t (ground arith)
      ]
    ]

pub send_advance_grant_if_safe-Grants : OnlyGrants send_advance_grant_if_safe
unfolding send_advance_grant_if_safe
send_advance_grant_if_safe-Grants id s t e =
    let (fed, found, rest) = >>=-eq-some (get_elem? s.federates id) _ e in
    let (least, first, more) = >>=-eq-some (completed_loop s fed.upstream forever_tag) _ rest in
    elim (Bool-cases (is_before fed.last_granted least)) [
      | inl b ↦ send_tag_advance_grant-Grants id least s t (ground arith)
      | inr b ↦
          let more' = rw b at more in
          let (t_d, second, last) =
            >>=-eq-some (next_event_loop s fed.upstream forever_tag (unvisited s)) _ more' in
          grant_next_event-Grants fed t_d id s t last
    ]

-- a function as the recursion over the downstream federates takes it, that only grants
abbrev pub OnlyGrantsDownstream :
    (ℕ → List Bool → RtiInstance → Option (List Bool × RtiInstance)) → Type 0
OnlyGrantsDownstream next =
    (id : ℕ) (visited : List Bool) (s : RtiInstance) (r : List Bool × RtiInstance)
    → next id visited s ≡ some r
    → Grants s r.1

downstream_step-Grants :
    (next : ℕ → List Bool → RtiInstance → Option (List Bool × RtiInstance))
    → OnlyGrantsDownstream next
    → OnlyGrantsDownstream (downstream_step next)
unfolding downstream_step
downstream_step-Grants next only id visited s r e =
    let (seen, found, rest) = >>=-eq-some (get_elem? visited id) _ e in
    elim (Bool-cases seen) [
      | inl c ↦ let p : s ≡ r.1 = ground arith in rw (← p) done
      | inr c ↦
          let more = rw c at rest in
          let (mid, first, last) = >>=-eq-some (send_advance_grant_if_safe id s) _ more in
          Grants-trans (send_advance_grant_if_safe-Grants id s mid first)
            (only id visited mid r last)
    ]

downstream_loop-Grants :
    (next : ℕ → List Bool → RtiInstance → Option (List Bool × RtiInstance))
    → OnlyGrantsDownstream next
    → (ids : List ℕ) (visited : List Bool) (s : RtiInstance) (r : List Bool × RtiInstance)
    → downstream_loop next ids visited s ≡ some r
    → Grants s r.1
unfolding downstream_loop
downstream_loop-Grants next only [] visited s r e = let p : s ≡ r.1 = ground arith in rw (← p) done
downstream_loop-Grants next only (id ∷ ids) visited s r e =
    let (mid, first, rest) = >>=-eq-some (downstream_step next id visited s) _ e in
    Grants-trans (downstream_step-Grants next only id visited s mid first)
      (downstream_loop-Grants next only ids mid.0 mid.1 r rest)

pub send_downstream_advance_grants_if_safe-Grants :
    (fuel : ℕ) → OnlyGrantsDownstream (send_downstream_advance_grants_if_safe fuel)
unfolding send_downstream_advance_grants_if_safe
send_downstream_advance_grants_if_safe-Grants zero id visited s r e = cc
send_downstream_advance_grants_if_safe-Grants (suc fuel) id visited s r e =
    let (fed, found, rest) = >>=-eq-some (get_elem? s.federates id) _ e in
    downstream_loop-Grants (send_downstream_advance_grants_if_safe fuel)
      (send_downstream_advance_grants_if_safe-Grants fuel) fed.downstream _ s r rest
