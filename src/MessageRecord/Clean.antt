-- ===== src/MessageRecord/Clean.antt =====
-- core/federated/RTI/message_record: the messages that a completed tag removes.
use mathlib.Core.Path.{subst}
use native.Mathlib.Decide.{ℕ_discrete}
use schedule_test_manual.Base.{
  ℕ, zero, suc, ◌≡◌, ◌≤◌, refl, ◌∙◌, true, false, inl, inr, arith, Bool-cases, Option-cases,
}
use schedule_test_manual.Base.Int.{◌≤ℤ◌, ltb_ℤ}
use schedule_test_manual.Tag.{Tag}
use schedule_test_manual.Tag.Compare.{is_at_most}
use schedule_test_manual.Pqueue.{pqueue_size, pqueue_peek}
use schedule_test_manual.Pqueue.Insert.{count}
use schedule_test_manual.Pqueue.Pour.{IsEmpty, empty_of_size}
use schedule_test_manual.MessageRecord.{
  InTransit, transfer, clean_loop, discard, clean_in_transit_message_record_up_to_tag,
}
use schedule_test_manual.MessageRecord.Heads.{
  holds, IsRecord, Headed, head-Headed, not_peeked, refill-Refilled,
}

-- what cleaning up to `tag` leaves: the records of later tags
pub record Cleaned (q : InTransit) (tag : Tag) (r : InTransit) : Type 0 where
  pub kept : (x : ℕ) → is_at_most (q.tag_of x) tag ≡ false → holds x r ≡ holds x q
  pub gone : (x : ℕ) → is_at_most (q.tag_of x) tag ≡ true → holds x r ≡ 0
  pub tags : r.tag_of ≡ q.tag_of
  pub record_after : IsRecord r

-- what has been transferred is later
abbrev Later : InTransit → Tag → Type 0
Later q tag = (x : ℕ) → is_at_most (q.tag_of x) tag ≡ true → count x q.transfer_queue ≡ 0

-- the end of the loop, where what is left in the main queue is later as well
all-Later :
    (q : InTransit) (tag : Tag)
    → IsRecord q
    → Later q tag
    → ((x : ℕ) → is_at_most (q.tag_of x) tag ≡ true → count x q.main_queue ≡ 0)
    → Cleaned q tag q
all-Later q tag h l rest = record {
  kept = λ x e. refl;
  gone = λ x e. let a = l x e in let b = rest x e in omega arith;
  tags = refl;
  record_after = h;
}

discard-IsRecord : (q : InTransit) (head : ℕ) → IsRecord q → Headed q head → IsRecord (discard q)
discard-IsRecord q head h d = record {
  main = d.record_after.main;
  transferred = h.transferred;
  once = λ x. let a = d.takes x in let b = h.once x in omega arith;
  no_null = let a = d.takes 0 in let b = h.no_null in omega arith;
  times = h.times;
  microsteps = h.microsteps;
}

-- after the head has been discarded
after_discard :
    (q : InTransit) (head : ℕ) (tag : Tag) (r : InTransit)
    → Headed q head
    → is_at_most (q.tag_of head) tag ≡ true
    → Cleaned (discard q) tag r
    → Cleaned q tag r
after_discard q head tag r d early c = record {
  kept = λ x e.
      let t = d.takes x in
      let k = c.kept x e in
      elim (ℕ_discrete head x) [
        | yes same ↦
            let f = subst (λ (y : ℕ). is_at_most (q.tag_of y) tag ≡ true) same early in
            absurd (ground arith)
        | no other ↦ ground arith
      ];
  gone = c.gone;
  tags = c.tags;
  record_after = c.record_after;
}

-- after the head has been transferred
after_transfer :
    (q : InTransit) (head : ℕ) (tag : Tag) (r : InTransit)
    → Headed q head
    → Cleaned (transfer q head) tag r
    → Cleaned q tag r
after_transfer q head tag r d c = record {
  kept = λ x e. let t = d.takes x in let m = d.moves x in let k = c.kept x e in omega arith;
  gone = c.gone;
  tags = c.tags;
  record_after = c.record_after;
}

transfer-Later :
    (q : InTransit) (head : ℕ) (tag : Tag)
    → Headed q head
    → is_at_most (q.tag_of head) tag ≡ false
    → Later q tag
    → Later (transfer q head) tag
transfer-Later q head tag d late l x e =
    let m = d.moves x in
    let z = l x e in
    elim (ℕ_discrete head x) [
      | yes same ↦
          let f = subst (λ (y : ℕ). is_at_most (q.tag_of y) tag ≡ false) same late in
          absurd (ground arith)
      | no other ↦ ground arith
    ]

later_time : (a b c : Tag) → ltb_ℤ a.time b.time ≡ true → b.time ≤ℤ c.time → is_at_most c a ≡ false
unfolding is_at_most
later_time a b c h k = ground arith

clean_loop-Cleaned :
    (fuel : ℕ) (q : InTransit) (tag : Tag)
    → IsRecord q
    → Later q tag
    → pqueue_size q.main_queue ≤ fuel
    → Cleaned q tag (clean_loop fuel q tag)
unfolding clean_loop pqueue_size
clean_loop-Cleaned zero q tag h l few =
    let started = h.main.started in
    let empty = empty_of_size q.main_queue (omega arith) in all-Later q tag h l (λ x e. empty x)
clean_loop-Cleaned (suc fuel) q tag h l few = elim (Option-cases (pqueue_peek q.main_queue)) [
  | inl e ↦
      let empty = empty_of_size q.main_queue (not_peeked q.main_queue e) in
      rw (e, clean_loop) (all-Later q tag h l (λ x f. empty x))
  | inr (head, e) ↦
      let d = head-Headed q head h e in
      let less = d.shorter in
      elim (Bool-cases (ltb_ℤ tag.time (q.tag_of head).time)) [
        | inl stop ↦
            rw (e, clean_loop, stop)
              (all-Later q tag h l (λ x f. elim (ℕ_discrete (count x q.main_queue) 0) [
                | yes z ↦ z
                | no nz ↦
                    let late =
                      later_time tag (q.tag_of head) (q.tag_of x) stop
                        (d.earliest x (omega arith)) in
                    absurd (ground arith)
              ]))
        | inr go ↦ elim (Bool-cases (is_at_most (q.tag_of head) tag)) [
          | inl early ↦
              rw (e, clean_loop, go, early)
                (after_discard q head tag _ d early (
                  clean_loop-Cleaned fuel (discard q) tag (discard-IsRecord q head h d) l
                    (omega arith)))
          | inr late ↦
              rw (e, clean_loop, go, late)
                (after_transfer q head tag _ d (
                  clean_loop-Cleaned fuel (transfer q head) tag d.record_after
                    (transfer-Later q head tag d late l) (omega arith)))
        ]
      ]
]

-- For two queues ordered by time that hold no record of a message twice and no NULL, with tags whose
-- times are from 0 to FOREVER and whose microsteps are of uint32_t, and with the transfer queue empty,
-- cleaning up to a tag removes exactly the records of messages with that tag or an earlier one; the
-- others are still held, in order, with the transfer queue empty.
pub clean-Cleaned :
    (q : InTransit) (tag : Tag)
    → IsRecord q
    → IsEmpty q.transfer_queue
    → let r = clean_in_transit_message_record_up_to_tag q tag in
      Cleaned q tag r × IsEmpty r.transfer_queue
unfolding clean_in_transit_message_record_up_to_tag
clean-Cleaned q tag h empty =
    let c = clean_loop-Cleaned (pqueue_size q.main_queue) q tag h (λ x e. empty x) (omega arith) in
    let f = refill-Refilled (clean_loop (pqueue_size q.main_queue) q tag) c.record_after in
    (
      record {
        kept = λ x e. f.same x ∙ c.kept x e;
        gone = λ x e. f.same x ∙ c.gone x e;
        tags = c.tags;
        record_after = f.record_after;
      },
      f.empty,
    )
