-- ===== src/Rti/Keeps.antt =====
-- core/federated/RTI/rti.c: what the handlers do beside granting keeps the records of the grants.
pub mod Stop
use schedule_test_manual.Base.{
  ℕ, zero, suc, ◌+◌, ◌≡◌, refl, sym, ◌∙◌, Bool, true, false, not, ◌&&◌, Option, none, some, List,
  [], ◌∷◌, ◌==◌, get_elem?, set, length, inl, inr, arith, Bool-cases, get_elem?-set_inv,
  if◌then◌else◌,
}
use schedule_test_manual.Tag.{Tag}
use schedule_test_manual.Tag.Compare.{is_before, is_at_most}
use schedule_test_manual.Net.{◌>>=◌}
use schedule_test_manual.Rti.{
  Federate, Message, tag_advance_grant, provisional_tag_advance_grant, stop_request, stop_granted,
  RtiInstance, put_federate, is_not_connected, >>=-eq-some,
}
use schedule_test_manual.Rti.Stop.{
  broadcast_loop, broadcast_stop_time, mark_federate_requesting_stop, request_loop, raise_stop_tag,
  handle_stop_request_message, handle_stop_request_reply,
}
use schedule_test_manual.Rti.Order.{All, Within, Follows, InOrder, IsOrdered}

-- the log, and messages about the stop tag
pub data StopsAdded : List (ℕ × Message) → List (ℕ × Message) → Type 0 where
  same : {log : List (ℕ × Message)} → StopsAdded log log
  request :
      {log more : List (ℕ × Message)} (i : ℕ) (tag : Tag)
      → StopsAdded log more
      → StopsAdded log ((i, stop_request tag) ∷ more)
  grant :
      {log more : List (ℕ × Message)} (i : ℕ) (tag : Tag)
      → StopsAdded log more
      → StopsAdded log ((i, stop_granted tag) ∷ more)

StopsAdded-trans : {a b c : List (ℕ × Message)} → StopsAdded a b → StopsAdded b c → StopsAdded a c
StopsAdded-trans h same = h
StopsAdded-trans h (request i tag k) = request i tag (StopsAdded-trans h k)
StopsAdded-trans h (grant i tag k) = grant i tag (StopsAdded-trans h k)

-- the federate at an index has the records of grants that the one before had
abbrev pub Kept : List Federate → ℕ → Federate → Type 0
Kept feds id fed' =
    (fed : Federate) × (get_elem? feds id ≡ some fed)
    × (fed.last_granted ≡ fed'.last_granted)
    × (fed.last_provisionally_granted ≡ fed'.last_provisionally_granted)

abbrev pub AllKept : List Federate → List Federate → Type 0
AllKept before after =
    (id : ℕ) (fed' : Federate) → get_elem? after id ≡ some fed' → Kept before id fed'

pub record Keeps (s t : RtiInstance) : Type 0 where
  pub records : AllKept s.federates t.federates
  pub log : StopsAdded s.sent t.sent

AllKept-refl : (feds : List Federate) → AllKept feds feds
AllKept-refl feds id fed e = (fed, e, refl, refl)

pub Keeps-refl : (s : RtiInstance) → Keeps s s
Keeps-refl s = record { records = AllKept-refl s.federates; log = same }

pub Keeps-trans : (s t u : RtiInstance) → Keeps s t → Keeps t u → Keeps s u
Keeps-trans s t u h k = record {
  records = λ id fed e.
      let (fed1, e1, g1, p1) = k.records id fed e in
      let (fed0, e0, g0, p0) = h.records id fed1 e1 in (fed0, e0, g0 ∙ g1, p0 ∙ p1);
  log = StopsAdded-trans h.log k.log;
}

-- a federate written back with the same records of grants
pub put_federate-Keeps :
    (id : ℕ) (fed new : Federate) (s : RtiInstance)
    → get_elem? s.federates id ≡ some fed
    → fed.last_granted ≡ new.last_granted
    → fed.last_provisionally_granted ≡ new.last_provisionally_granted
    → Keeps s (put_federate id new s)
put_federate-Keeps id fed new s found g p = record {
  records = λ id' fed' e. elim (get_elem?-set_inv s.federates id id' new fed' e) [
    | inl (a, b) ↦ rw (← a, b) (fed, found, g, p)
    | inr (a, b) ↦ (fed', b, refl, refl)
  ];
  log = same;
}

All-StopsAdded :
    (lg lp : Tag) (id : ℕ) {a b : List (ℕ × Message)}
    → StopsAdded a b
    → All (Within lg lp) id a
    → All (Within lg lp) id b
All-StopsAdded lg lp id same h = h
All-StopsAdded lg lp id (request i tag k) h = (λ _. tt, All-StopsAdded lg lp id k h)
All-StopsAdded lg lp id (grant i tag k) h = (λ _. tt, All-StopsAdded lg lp id k h)

stop-Follows :
    (tag : Tag) (m : Message) → Follows (stop_request tag) m × Follows (stop_granted tag) m
stop-Follows tag (tag_advance_grant old) = (tt, tt)
stop-Follows tag (provisional_tag_advance_grant old) = (tt, tt)
stop-Follows tag (stop_request old) = (tt, tt)
stop-Follows tag (stop_granted old) = (tt, tt)

All-stop :
    (tag : Tag) (id : ℕ) (log : List (ℕ × Message))
    → All (Follows (stop_request tag)) id log × All (Follows (stop_granted tag)) id log
All-stop tag id [] = (tt, tt)
All-stop tag id ((to, m) ∷ older) =
    let rest = All-stop tag id older in
    let one = stop-Follows tag m in ((λ _. one.0, rest.0), (λ _. one.1, rest.1))

InOrder-StopsAdded : {a b : List (ℕ × Message)} → StopsAdded a b → InOrder a → InOrder b
InOrder-StopsAdded same h = h
InOrder-StopsAdded (request {log} {more} i tag k) h =
    ((All-stop tag i more).0, InOrder-StopsAdded k h)
InOrder-StopsAdded (grant {log} {more} i tag k) h =
    ((All-stop tag i more).1, InOrder-StopsAdded k h)

pub Keeps-IsOrdered : (s t : RtiInstance) → Keeps s t → IsOrdered s → IsOrdered t
Keeps-IsOrdered s t k h = record {
  bounded = λ id fed e.
      let (fed0, e0, g, p) = k.records id fed e in
      let old = h.bounded id fed0 e0 in
      All-StopsAdded fed.last_granted fed.last_provisionally_granted id k.log (rw (g, p) at old);
  in_order = InOrder-StopsAdded k.log h.in_order;
}
