-- ===== src/MessageRecord/Minimum.antt =====
-- core/federated/RTI/message_record: the least tag of the messages in transit.
use mathlib.Core.Path.{subst}
use native.Mathlib.Decide.{ℕ_discrete}
use schedule_test_manual.Base.{
  ℕ, zero, suc, ◌≡◌, ◌≤◌, ◌<◌, refl, sym, ◌∙◌, true, false, not, ◌&&◌, ◌⊎◌, inl, inr, arith,
  if◌then◌else◌, Bool-cases, Option-cases,
}
use schedule_test_manual.Base.Int.{◌≤ℤ◌, ltb_ℤ}
use schedule_test_manual.Tag.{Tag, forever_tag, forever}
use schedule_test_manual.Tag.Compare.{
  is_at_most, is_before, AtMost, AtMost-refl, AtMost-trans, IsBefore, IsBefore-AtMost, not_at_most,
}
use schedule_test_manual.Pqueue.{pqueue_size, pqueue_peek}
use schedule_test_manual.Pqueue.Insert.{count}
use schedule_test_manual.Pqueue.Pour.{IsEmpty, empty_of_size}
use schedule_test_manual.MessageRecord.{
  InTransit, transfer, minimum_loop, get_minimum_in_transit_message_tag,
}
use schedule_test_manual.MessageRecord.Heads.{
  holds, IsRecord, Headed, head-Headed, not_peeked, refill-Refilled,
}

-- the least tag found, among those already transferred
record Least (q : InTransit) (least : Tag) : Type 0 where
  below : (x : ℕ) → 0 < count x q.transfer_queue → AtMost least (q.tag_of x)
  one_of :
      ((least ≡ forever_tag) × IsEmpty q.transfer_queue)
      ⊎ ((x : ℕ) × (0 < count x q.transfer_queue) × (q.tag_of x ≡ least))

-- the least tag of a record, and the record as it is left
pub record Minimum (q : InTransit) (r : Tag × InTransit) : Type 0 where
  pub below : (x : ℕ) → 0 < holds x q → AtMost r.0 (q.tag_of x)
  pub one_of :
      ((r.0 ≡ forever_tag) × ((x : ℕ) → holds x q ≡ 0))
      ⊎ ((x : ℕ) × (0 < holds x q) × (q.tag_of x ≡ r.0))
  pub kept : (x : ℕ) → holds x r.1 ≡ holds x q
  pub tags : r.1.tag_of ≡ q.tag_of
  pub record_after : IsRecord r.1

AtMost-forever : (t : Tag) → t.time ≤ℤ forever → t.microstep ≤ 4294967295 → AtMost t forever_tag
unfolding is_at_most
AtMost-forever t h k = ground arith

-- a tag with a later time
IsBefore-of_time : (a b : Tag) → ltb_ℤ a.time b.time ≡ true → IsBefore a b
unfolding is_before
IsBefore-of_time a b h = ground arith

later_time : (a b c : Tag) → ltb_ℤ a.time b.time ≡ true → b.time ≤ℤ c.time → AtMost a c
later_time a b c h k = IsBefore-AtMost a c (IsBefore-of_time a c (ground arith))

-- the end of the loop, where what is left in the main queue is no earlier
all_seen :
    (q : InTransit) (least : Tag)
    → IsRecord q
    → Least q least
    → ((x : ℕ) → 0 < count x q.main_queue → AtMost least (q.tag_of x))
    → ((least ≡ forever_tag) → IsEmpty q.transfer_queue → IsEmpty q.main_queue)
    → Minimum q (least, q)
all_seen q least h l later none' = record {
  below = λ x inside. elim (ℕ_discrete (count x q.transfer_queue) 0) [
    | yes z ↦ later x (omega arith)
    | no nz ↦ l.below x (omega arith)
  ];
  one_of = elim l.one_of [
    | inl (e, empty) ↦ inl (e, λ x. let a = empty x in let b = none' e empty x in omega arith)
    | inr (x, inside, e) ↦ inr (x, omega arith, e)
  ];
  kept = λ x. refl;
  tags = refl;
  record_after = h;
}

-- one record more is transferred
transfer-Least :
    (q : InTransit) (head : ℕ) (least : Tag)
    → IsRecord q
    → Headed q head
    → Least q least
    → Least (transfer q head) (if is_at_most (q.tag_of head) least then q.tag_of head else least)
transfer-Least q head least h d l =
    let tag = q.tag_of head in
    let own = d.moves head in
    elim (Bool-cases (is_at_most tag least)) [
      | inl e ↦ rw e (record {
        below = λ x inside.
            let m = d.moves x in
            elim (ℕ_discrete head x) [
              | yes same ↦ rw same (AtMost-refl (q.tag_of x))
              | no other ↦ AtMost-trans tag least (q.tag_of x) e (l.below x (ground arith))
            ];
        one_of = inr (head, ground arith, refl);
      })
      | inr e ↦ rw e (record {
        below = λ x inside.
            let m = d.moves x in
            elim (ℕ_discrete head x) [
              | yes same ↦ rw (← same) (IsBefore-AtMost least tag (not_at_most tag least e))
              | no other ↦ l.below x (ground arith)
            ];
        one_of = elim l.one_of [
          | inl (f, empty) ↦
              let late = AtMost-forever tag (h.times head).1 (h.microsteps head) in
              absurd (ground arith)
          | inr (x, inside, f) ↦ inr (x, let m = d.moves x in omega arith, f)
        ];
      })
    ]

Minimum-after :
    (q : InTransit) (head : ℕ) (r : Tag × InTransit)
    → Headed q head
    → Minimum (transfer q head) r
    → Minimum q r
Minimum-after q head r d m =
    let same : (x : ℕ) → holds x (transfer q head) ≡ holds x q =
      λ x. let a = d.moves x in let b = d.takes x in omega arith in
    record {
      below = λ x inside. m.below x (let s = same x in omega arith);
      one_of = elim m.one_of [
        | inl (e, empty) ↦ inl (e, λ x. sym (same x) ∙ empty x)
        | inr (x, inside, e) ↦ inr (x, let s = same x in omega arith, e)
      ];
      kept = λ x. m.kept x ∙ same x;
      tags = m.tags;
      record_after = m.record_after;
    }

minimum_loop-Minimum :
    (fuel : ℕ) (q : InTransit) (least : Tag)
    → IsRecord q
    → Least q least
    → pqueue_size q.main_queue ≤ fuel
    → Minimum q (minimum_loop fuel q least)
unfolding minimum_loop pqueue_size
minimum_loop-Minimum zero q least h l few =
    let started = h.main.started in
    let empty = empty_of_size q.main_queue (omega arith) in
    all_seen q least h l (λ x inside. let z = empty x in absurd (omega arith)) (λ e f. empty)
minimum_loop-Minimum (suc fuel) q least h l few = elim (Option-cases (pqueue_peek q.main_queue)) [
  | inl e ↦
      let empty = empty_of_size q.main_queue (not_peeked q.main_queue e) in
      rw (e, minimum_loop)
        (all_seen q least h l (λ x inside. let z = empty x in absurd (omega arith)) (λ f g. empty))
  | inr (head, e) ↦
      let d = head-Headed q head h e in
      let tag = q.tag_of head in
      let less = d.shorter in
      let rest = Minimum-after q head _ d (
        minimum_loop-Minimum fuel (transfer q head) _ d.record_after
          (transfer-Least q head least h d l) (omega arith)) in
      elim (Bool-cases (not (is_at_most tag least) && ltb_ℤ least.time tag.time)) [
        | inl stop ↦
            let late : ltb_ℤ least.time tag.time ≡ true = ground arith in
            let not_at : is_at_most tag least ≡ false = ground arith in
            rw (e, minimum_loop, stop)
              (all_seen q least h l
                (λ x inside. later_time least tag (q.tag_of x) late (d.earliest x inside))
                (λ f g.
                  let early = AtMost-forever tag (h.times head).1 (h.microsteps head) in
                  let early' = subst (AtMost tag) (sym f) early in absurd (ground arith)))
        | inr go ↦ rw (e, minimum_loop, go) rest
      ]
]

-- For two queues ordered by time that hold no record of a message twice and no NULL, with tags whose
-- times are from 0 to FOREVER and whose microsteps are of uint32_t, and with the transfer queue empty,
-- the result is the least tag of the messages in transit (FOREVER_TAG if there are none), of messages
-- of equal time the one with the least microstep, and the queues hold the same records afterwards, in
-- order again, with the transfer queue empty.
pub Minimum-Minimum :
    (q : InTransit)
    → IsRecord q
    → IsEmpty q.transfer_queue
    → Minimum q (get_minimum_in_transit_message_tag q)
      × IsEmpty (get_minimum_in_transit_message_tag q).1.transfer_queue
unfolding get_minimum_in_transit_message_tag
Minimum-Minimum q h empty =
    let m =
      minimum_loop-Minimum (pqueue_size q.main_queue) q forever_tag h
        (record {
          below = λ x inside. let z = empty x in absurd (omega arith);
          one_of = inl (refl, empty);
        })
        (omega arith) in
    let r = minimum_loop (pqueue_size q.main_queue) q forever_tag in
    let f = refill-Refilled r.1 m.record_after in
    (
      record {
        below = m.below;
        one_of = m.one_of;
        kept = λ x. f.same x ∙ m.kept x;
        tags = m.tags;
        record_after = f.record_after;
      },
      f.empty,
    )
