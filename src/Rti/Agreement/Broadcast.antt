-- ===== src/Rti/Agreement/Broadcast.antt =====
-- core/federated/RTI/rti.c: what the broadcast of the stop tag sends.
use mathlib.Core.Path.{subst}
use mathlib.Core.Option.{some-injective}
use schedule_test_manual.Base.{
  ℕ, zero, suc, ◌+◌, ◌≡◌, ◌<◌, refl, sym, ◌⊎◌, false, not, ◌&&◌, some, List, [], ◌∷◌, get_elem?,
  inl, inr, arith, if_both, Bool-cases,
}
use schedule_test_manual.Tag.{Tag}
use schedule_test_manual.Tag.Compare.{is_at_most, AtMost, AtMost-refl, IsBefore-AtMost, not_at_most}
use schedule_test_manual.Rti.{Federate, Message, stop_granted, is_not_connected}
use schedule_test_manual.Rti.Stop.{stopped, broadcast_loop}
use schedule_test_manual.Rti.Agreement.{stops}

-- a federate has been sent a message
abbrev pub Has : ℕ → Message → List (ℕ × Message) → Type 0
Has i m [] = ⊥
Has i m ((to, m') ∷ older) = (to ≡ i) × (m' ≡ m) ⊎ Has i m older

broadcast_loop-Has :
    (tag : Tag) (k : ℕ) (feds : List Federate) (sent : List (ℕ × Message)) (i : ℕ) (m : Message)
    → Has i m sent
    → Has i m (broadcast_loop tag k feds sent).1
unfolding broadcast_loop
broadcast_loop-Has tag k [] sent i m h = h
broadcast_loop-Has tag k (fed ∷ feds) sent i m h =
    broadcast_loop-Has tag (suc k) feds _ i m
      (if_both (Has i m) (is_not_connected fed.state) h (inr h))

-- the stop tag has been sent to the federate, and its next event is no later
abbrev pub Granted : Tag → ℕ → List (ℕ × Message) → Federate → Type 0
Granted tag i log fed =
    is_not_connected fed.state ≡ false → Has i (stop_granted tag) log × AtMost fed.next_event tag

stopped_state : (tag : Tag) (fed : Federate) → (stopped tag fed).state ≡ fed.state
stopped_state tag fed =
    if_both (λ (f : Federate). f.state ≡ fed.state)
      (not (is_not_connected fed.state) && is_at_most tag fed.next_event) refl refl

stopped-AtMost :
    (tag : Tag) (fed : Federate)
    → is_not_connected fed.state ≡ false
    → AtMost (stopped tag fed).next_event tag
stopped-AtMost tag fed here = elim (Bool-cases (is_at_most tag fed.next_event)) [
  | inl late ↦ rw (here, late) (AtMost-refl tag)
  | inr early ↦
      rw (here, early) (IsBefore-AtMost fed.next_event tag (not_at_most tag fed.next_event early))
]

pub broadcast_loop-Granted :
    (tag : Tag) (k : ℕ) (feds : List Federate) (sent : List (ℕ × Message)) (j : ℕ) (fed' : Federate)
    → get_elem? (broadcast_loop tag k feds sent).0 j ≡ some fed'
    → Granted tag (k + j) (broadcast_loop tag k feds sent).1 fed'
unfolding broadcast_loop
broadcast_loop-Granted tag k [] sent j fed' e c = cc
broadcast_loop-Granted tag k (fed ∷ feds) sent zero fed' e c =
    let same : stopped tag fed ≡ fed' = some-injective _ _ e in
    let state = stopped_state tag fed in
    elim (Bool-cases (is_not_connected fed.state)) [
      | inl gone ↦
          let c' = subst (λ (f : Federate). is_not_connected f.state ≡ false) (sym same) c in
          absurd (ground arith)
      | inr here ↦ (
        rw here (
            broadcast_loop-Has tag (suc k) feds ((k, stop_granted tag) ∷ sent) (k + 0)
              (stop_granted tag) (inl (omega arith, refl))),
        subst (λ (f : Federate). AtMost f.next_event tag) same (stopped-AtMost tag fed here),
      )
    ]
broadcast_loop-Granted tag k (fed ∷ feds) sent (suc j) fed' e c =
    let (has, le) = broadcast_loop-Granted tag (suc k) feds _ j fed' e c in
    let same : suc k + j ≡ k + suc j = omega arith in
    let log = (broadcast_loop tag k (fed ∷ feds) sent).1 in
    (subst (λ (n : ℕ). Has n (stop_granted tag) log) same has, le)

-- which is then counted
Has-stops :
    (i : ℕ) (tag : Tag) (log : List (ℕ × Message)) → Has i (stop_granted tag) log → 0 < stops i log
unfolding stops
Has-stops i tag [] h = elim h [ ]
Has-stops i tag ((to, m) ∷ log) (inl (here, same)) = rw (here, same) (ground arith)
Has-stops i tag ((to, m) ∷ log) (inr h) = let lt = Has-stops i tag log h in omega arith

-- the broadcast sends a stop tag to every connected federate
pub broadcast_loop-told :
    (tag : Tag) (feds : List Federate) (sent : List (ℕ × Message)) (i : ℕ) (fed : Federate)
    → get_elem? (broadcast_loop tag 0 feds sent).0 i ≡ some fed
    → is_not_connected fed.state ≡ false
    → 0 < stops i (broadcast_loop tag 0 feds sent).1
broadcast_loop-told tag feds sent i fed found c =
    let z : 0 + i ≡ i = omega arith in
    let (has, le) = broadcast_loop-Granted tag 0 feds sent i fed found c in
    let log = (broadcast_loop tag 0 feds sent).1 in
    Has-stops i tag log (subst (λ (n : ℕ). Has n (stop_granted tag) log) z has)
