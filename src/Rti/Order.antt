-- ===== src/Rti/Order.antt =====
-- core/federated/RTI/rti.c: the order of the grants that a federate is sent.
use schedule_test_manual.Base.{
  ℕ, zero, ◌≡◌, refl, some, List, [], ◌∷◌, get_elem?, set, inl, inr, get_elem?-set_inv, ◌⊎◌,
}
use schedule_test_manual.Tag.{Tag}
use schedule_test_manual.Tag.Compare.{
  IsBefore, AtMost, AtMost-refl, AtMost-trans, IsBefore-AtMost, not_before, not_at_most,
  AtMost-IsBefore,
}
use schedule_test_manual.Rti.{
  Federate, Message, tag_advance_grant, provisional_tag_advance_grant, stop_request, stop_granted,
  Write, complete, short, failed, RtiInstance,
}
use schedule_test_manual.Rti.Grant.{write_grant}
use schedule_test_manual.Rti.Steps.{Grants, done, tag_step, provisional_grant_step}

-- the messages to a federate all satisfy a predicate
abbrev pub All : (Message → Type 0) → ℕ → List (ℕ × Message) → Type 0
All P id [] = Unit {0}
All P id ((to, message) ∷ older) = (to ≡ id → P message) × All P id older

-- no grant is later than the last one of its kind
abbrev pub Within : Tag → Tag → Message → Type 0
Within last_granted last_provisionally_granted (tag_advance_grant tag) = AtMost tag last_granted
Within last_granted last_provisionally_granted (provisional_tag_advance_grant tag) =
    AtMost tag last_provisionally_granted
Within last_granted last_provisionally_granted (stop_request tag) = Unit {0}
Within last_granted last_provisionally_granted (stop_granted tag) = Unit {0}

-- what may be older than a message: before a TAG, earlier TAGs and no later PTAGs; before a PTAG,
-- earlier TAGs and PTAGs
abbrev pub Follows : Message → Message → Type 0
Follows (tag_advance_grant tag) (tag_advance_grant old) = IsBefore old tag
Follows (tag_advance_grant tag) (provisional_tag_advance_grant old) = AtMost old tag
Follows (provisional_tag_advance_grant tag) (tag_advance_grant old) = IsBefore old tag
Follows (provisional_tag_advance_grant tag) (provisional_tag_advance_grant old) = IsBefore old tag
Follows _ _ = Unit {0}

-- every message follows those sent to the same federate before
abbrev pub InOrder : List (ℕ × Message) → Type 0
InOrder [] = Unit {0}
InOrder ((to, message) ∷ older) = All (Follows message) to older × InOrder older

pub record IsOrdered (s : RtiInstance) : Type 0 where
  pub bounded :
      (id : ℕ) (fed : Federate)
      → get_elem? s.federates id ≡ some fed
      → All (Within fed.last_granted fed.last_provisionally_granted) id s.sent
  pub in_order : InOrder s.sent

pub All-map :
    (P Q : Message → Type 0) (id : ℕ) (log : List (ℕ × Message))
    → ((m : Message) → P m → Q m)
    → All P id log
    → All Q id log
All-map P Q id [] f h = tt
All-map P Q id ((to, m) ∷ older) f h = (λ e. f m (h.0 e), All-map P Q id older f h.1)

Within-Follows_tag :
    (lg lp tag : Tag)
    → IsBefore lg tag
    → AtMost lp tag
    → (m : Message) → Within lg lp m
    → Follows (tag_advance_grant tag) m
Within-Follows_tag lg lp tag b a (tag_advance_grant old) h = AtMost-IsBefore old lg tag h b
Within-Follows_tag lg lp tag b a (provisional_tag_advance_grant old) h = AtMost-trans old lp tag h a
Within-Follows_tag lg lp tag b a (stop_request old) h = tt
Within-Follows_tag lg lp tag b a (stop_granted old) h = tt

Within-Follows_provisional :
    (lg lp tag : Tag)
    → IsBefore lg tag
    → IsBefore lp tag
    → (m : Message) → Within lg lp m
    → Follows (provisional_tag_advance_grant tag) m
Within-Follows_provisional lg lp tag b a (tag_advance_grant old) h = AtMost-IsBefore old lg tag h b
Within-Follows_provisional lg lp tag b a (provisional_tag_advance_grant old) h =
    AtMost-IsBefore old lp tag h a
Within-Follows_provisional lg lp tag b a (stop_request old) h = tt
Within-Follows_provisional lg lp tag b a (stop_granted old) h = tt

Within-mono :
    (lg lp lg' lp' : Tag)
    → AtMost lg lg'
    → AtMost lp lp'
    → (m : Message) → Within lg lp m
    → Within lg' lp' m
Within-mono lg lp lg' lp' g p (tag_advance_grant old) h = AtMost-trans old lg lg' h g
Within-mono lg lp lg' lp' g p (provisional_tag_advance_grant old) h = AtMost-trans old lp lp' h p
Within-mono lg lp lg' lp' g p (stop_request old) h = tt
Within-mono lg lp lg' lp' g p (stop_granted old) h = tt

pub Write-cases : (w : Write) → (w ≡ complete) ⊎ (w ≡ short) ⊎ (w ≡ failed)
Write-cases complete = inl refl
Write-cases short = inr (inl refl)
Write-cases failed = inr (inr refl)

-- a federate of the log `log`
abbrev Bounded : List (ℕ × Message) → ℕ → Federate → Type 0
Bounded log id fed = All (Within fed.last_granted fed.last_provisionally_granted) id log

abbrev AllBounded : List (ℕ × Message) → List Federate → Type 0
AllBounded log feds = (id : ℕ) (fed : Federate) → get_elem? feds id ≡ some fed → Bounded log id fed

-- replacing one federate by one that is bounded
set-AllBounded :
    (log : List (ℕ × Message)) (feds : List Federate) (id : ℕ) (new : Federate)
    → AllBounded log feds
    → Bounded log id new
    → AllBounded log (set feds id new)
set-AllBounded log feds id new all one id' f found =
    elim (get_elem?-set_inv feds id id' new f found) [
      | inl (p, q) ↦ rw (q, ← p) one
      | inr (p, q) ↦ all id' f q
    ]

-- a message more, within the bounds of the federate that it goes to
add-AllBounded :
    (log : List (ℕ × Message)) (feds : List Federate) (id : ℕ) (m : Message)
    → AllBounded log feds
    → ((f : Federate)
        → get_elem? feds id ≡ some f
        → Within f.last_granted f.last_provisionally_granted m)
    → AllBounded ((id, m) ∷ log) feds
add-AllBounded log feds id m all one id' f found = (λ e. one f (rw e found), all id' f found)

-- a grant that all older messages to the federate may precede, and that its new record bounds
module _ (id : ℕ) (m : Message) (fed fed' : Federate) (s : RtiInstance)
    (found : get_elem? s.federates id ≡ some fed)
    (after : (m' : Message)
      → Within fed.last_granted fed.last_provisionally_granted m'
      → Follows m m')
    (wider : (m' : Message)
      → Within fed.last_granted fed.last_provisionally_granted m'
      → Within fed'.last_granted fed'.last_provisionally_granted m')
    (new : Within fed'.last_granted fed'.last_provisionally_granted m) (h : IsOrdered s) where
  all_written : AllBounded ((id, m) ∷ s.sent) (set s.federates id fed')
  all_written =
      let old = All-map _ _ id s.sent wider (h.bounded id fed found) in
      add-AllBounded s.sent (set s.federates id fed') id m
        (set-AllBounded s.sent s.federates id fed' h.bounded old)
        λ f e. elim (get_elem?-set_inv s.federates id id fed' f e) [
          | inl (p, q) ↦ rw q new
          | inr (p, q) ↦ absurd (p refl)
        ]

  write_grant-IsOrdered : IsOrdered (write_grant id m fed fed' s).0
  unfolding write_grant
  write_grant-IsOrdered =
      let old = h.bounded id fed found in
      elim (Write-cases (s.writes zero)) [
        | inl e ↦
            rw (e, write_grant)
              (record {
                bounded = all_written;
                in_order = (All-map _ _ id s.sent after old, h.in_order);
              })
        | inr (inl e) ↦ rw (e, write_grant) (record { bounded = h.bounded; in_order = h.in_order })
        | inr (inr e) ↦
            rw (e, write_grant)
              (record {
                bounded = set-AllBounded s.sent s.federates id _ h.bounded old;
                in_order = h.in_order;
              })
      ]

-- Granting keeps the order, and every federate's records bound what it was sent.
pub Grants-IsOrdered : {s t : RtiInstance} → Grants s t → IsOrdered s → IsOrdered t
Grants-IsOrdered done h = h
Grants-IsOrdered (tag_step {s} {t} id tag fed found c a b rest) h =
    let later = not_at_most tag fed.last_granted a in
    let no_earlier = not_before tag fed.last_provisionally_granted b in
    let lg = fed.last_granted in
    let lp = fed.last_provisionally_granted in
    Grants-IsOrdered rest (
      write_grant-IsOrdered id (tag_advance_grant tag) fed (record fed { last_granted = tag }) s
        found (Within-Follows_tag lg lp tag later no_earlier)
        (Within-mono lg lp tag lp (IsBefore-AtMost lg tag later) (AtMost-refl lp)) (AtMost-refl tag)
        h)
Grants-IsOrdered (provisional_grant_step {s} {t} id tag fed found c a b rest) h =
    let later = not_at_most tag fed.last_granted a in
    let later' = not_at_most tag fed.last_provisionally_granted b in
    let lg = fed.last_granted in
    let lp = fed.last_provisionally_granted in
    Grants-IsOrdered rest (
      write_grant-IsOrdered id (provisional_tag_advance_grant tag) fed
        (record fed { last_provisionally_granted = tag }) s found
        (Within-Follows_provisional lg lp tag later later')
        (Within-mono lg lp lg tag (AtMost-refl lg) (IsBefore-AtMost lp tag later'))
        (AtMost-refl tag) h)
