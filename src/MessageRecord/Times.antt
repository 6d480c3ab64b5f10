-- ===== src/MessageRecord/Times.antt =====
-- core/federated/RTI/message_record: the operations keep the tags of the records.
use schedule_test_manual.Base.{
  ℕ, zero, suc, ◌≡◌, refl, ◌∙◌, not, ◌&&◌, inl, inr, arith, ◌==◌, Option-cases, if◌then◌else◌,
  if_both,
}
use schedule_test_manual.Base.Int.{ltb_ℤ}
use schedule_test_manual.Tag.{Tag, forever_tag}
use schedule_test_manual.Tag.Compare.{is_at_most}
use schedule_test_manual.Tag.Delay.{InRange}
use schedule_test_manual.Pqueue.{pqueue_peek, pqueue_size}
use schedule_test_manual.MessageRecord.{
  InTransit, add_in_transit_message_record, clean_in_transit_message_record_up_to_tag,
  get_minimum_in_transit_message_tag, minimum_loop, clean_loop, transfer, discard,
}

-- the records of the messages in transit keep their tags
clean_loop-tag_of :
    (fuel : ℕ) (q : InTransit) (tag : Tag) → (clean_loop fuel q tag).tag_of ≡ q.tag_of
unfolding clean_loop
clean_loop-tag_of zero q tag = refl
clean_loop-tag_of (suc fuel) q tag = elim (Option-cases (pqueue_peek q.main_queue)) [
  | inl e ↦ rw (e, clean_loop) refl
  | inr (head, e) ↦
      let late = is_at_most (q.tag_of head) tag in
      let next : InTransit = if late then discard q else transfer q head in
      let kept : next.tag_of ≡ q.tag_of =
        if_both (λ (r : InTransit). r.tag_of ≡ q.tag_of) late refl refl in
      let rest = clean_loop-tag_of fuel next tag ∙ kept in
      rw (e, clean_loop)
        (if_both (λ (r : InTransit). r.tag_of ≡ q.tag_of)
          (not (ltb_ℤ tag.time (q.tag_of head).time)) rest refl)
]

unfoldable pub TagsInRange : (ℕ → Tag) → Type 0
TagsInRange tag_of = (p : ℕ) → InRange (tag_of p).time

minimum_loop-InRange :
    (fuel : ℕ) (q : InTransit) (least : Tag)
    → TagsInRange q.tag_of
    → InRange least.time
    → InRange (minimum_loop fuel q least).0.time × ((minimum_loop fuel q least).1.tag_of ≡ q.tag_of)
unfolding minimum_loop TagsInRange
minimum_loop-InRange zero q least all one = (one, refl)
minimum_loop-InRange (suc fuel) q least all one = elim (Option-cases (pqueue_peek q.main_queue)) [
  | inl e ↦ rw (e, minimum_loop) (one, refl)
  | inr (head, e) ↦
      let tag = q.tag_of head in
      let next = if_both (λ (t : Tag). InRange t.time) (is_at_most tag least) (all head) one in
      let rest = minimum_loop-InRange fuel (transfer q head) _ all next in
      rw (e, minimum_loop)
        (if_both (λ (r : Tag × InTransit). InRange r.0.time × (r.1.tag_of ≡ q.tag_of))
          (not (is_at_most tag least) && ltb_ℤ least.time tag.time) (one, refl) rest)
]

module _ (q : InTransit) (all : TagsInRange q.tag_of) where
  pub get_minimum-InRange :
      InRange (get_minimum_in_transit_message_tag q).0.time
      × TagsInRange (get_minimum_in_transit_message_tag q).1.tag_of
  unfolding get_minimum_in_transit_message_tag
  get_minimum-InRange =
      let (least, same) =
        minimum_loop-InRange (pqueue_size q.main_queue) q forever_tag all (omega arith) in
      (least, rw same all)

  pub clean-InRange :
      (tag : Tag) → TagsInRange (clean_in_transit_message_record_up_to_tag q tag).tag_of
  unfolding clean_in_transit_message_record_up_to_tag
  clean-InRange tag = rw (clean_loop-tag_of (pqueue_size q.main_queue) q tag) all

  pub add-InRange :
      (tag : Tag) → InRange tag.time → TagsInRange (add_in_transit_message_record q tag).tag_of
  unfolding add_in_transit_message_record TagsInRange
  add-InRange tag one p = if_both (λ (t : Tag). InRange t.time) (q.next_pointer == p) one (all p)
