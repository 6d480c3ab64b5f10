-- ===== src/MessageRecord/Heads.antt =====
-- core/federated/RTI/message_record: the two queues of a record, and the head of the first.
use mathlib.Core.Path.{subst}
use schedule_test_manual.Base.{
  ℕ, suc, ◌+◌, ◌≡◌, ◌≤◌, ◌<◌, refl, none, some, ◌==◌, arith, if◌then◌else◌,
}
use schedule_test_manual.Base.Int.{pos, ◌≤ℤ◌}
use schedule_test_manual.Tag.{Tag, forever}
use schedule_test_manual.Pqueue.{Pqueue, Order, pqueue_size, pqueue_pop, pqueue_peek}
use schedule_test_manual.Pqueue.Insert.{IsQueue, count, pqueue_insert_adds}
use schedule_test_manual.Pqueue.Pop.{pqueue_pop_least}
use schedule_test_manual.Pqueue.Pour.{IsEmpty, pop_size, pqueue_empty_into-Poured}
use schedule_test_manual.MessageRecord.{
  InTransit, order, get_message_record_index, transfer, refill,
}

-- how often a record is in one of the two queues
abbrev pub holds : ℕ → InTransit → ℕ
holds x q = count x q.main_queue + count x q.transfer_queue

-- two queues ordered by time that hold no record twice and not NULL, and tags of messages: times
-- of int64_t from 0 on, and microsteps of uint32_t
pub record IsRecord (q : InTransit) : Type 0 where
  pub main : IsQueue (get_message_record_index q.tag_of) q.main_queue
  pub transferred : IsQueue (get_message_record_index q.tag_of) q.transfer_queue
  pub once : (x : ℕ) → holds x q ≤ 1
  pub no_null : holds 0 q ≡ 0
  pub times : (x : ℕ) → (pos 0 ≤ℤ (q.tag_of x).time) × ((q.tag_of x).time ≤ℤ forever)
  pub microsteps : (x : ℕ) → (q.tag_of x).microstep ≤ 4294967295

-- the order of the queues is that of the times
index-le :
    (tag_of : ℕ → Tag) (x y : ℕ)
    → (pos 0 ≤ℤ (tag_of x).time) × ((tag_of x).time ≤ℤ forever)
    → (pos 0 ≤ℤ (tag_of y).time) × ((tag_of y).time ≤ℤ forever)
    → get_message_record_index tag_of x ≤ get_message_record_index tag_of y
    → (tag_of x).time ≤ℤ (tag_of y).time
index-le tag_of x y a b h = ground arith

-- the head of the main queue
pub record Headed (q : InTransit) (head : ℕ) : Type 0 where
  pub inside : 0 < count head q.main_queue
  pub earliest : (x : ℕ) → 0 < count x q.main_queue → (q.tag_of head).time ≤ℤ (q.tag_of x).time
  pub shorter : pqueue_size q.main_queue ≡ suc (pqueue_size (transfer q head).main_queue)
  pub record_after : IsRecord (transfer q head)
  pub moves :
      (x : ℕ)
      → count x (transfer q head).transfer_queue
        ≡ count x q.transfer_queue + (if head == x then 1 else 0)
  pub takes :
      (x : ℕ)
      → count x q.main_queue ≡ count x (transfer q head).main_queue + (if head == x then 1 else 0)

peeked : (q : Pqueue) (head : ℕ) → pqueue_peek q ≡ some head → 0 < q.size → 0 < pqueue_size q
unfolding pqueue_peek pqueue_size
peeked q head e s = ground arith

peek-pop :
    (o : Order) (q : Pqueue) (head : ℕ) → pqueue_peek q ≡ some head → (pqueue_pop o q).0 ≡ some head
unfolding pqueue_peek pqueue_pop
peek-pop o q head e = ground arith

pub not_peeked : (q : Pqueue) → pqueue_peek q ≡ none → q.size ≡ 1
unfolding pqueue_peek
not_peeked q e = ground arith

pub head-Headed :
    (q : InTransit) (head : ℕ) → IsRecord q → pqueue_peek q.main_queue ≡ some head → Headed q head
unfolding pqueue_size
head-Headed q head h e =
    let o = order q in
    let pri = get_message_record_index q.tag_of in
    let more = peeked q.main_queue head e h.main.started in
    let p = pqueue_pop_least pri q.main_queue h.main more in
    let same : p.top ≡ head = ground (arith, p.given, peek-pop o q.main_queue head e) in
    let rest = (pqueue_pop o q.main_queue).1 in
    let takes : (x : ℕ) → count x q.main_queue ≡ count x rest + (if head == x then 1 else 0) = λ x.
      subst (λ (t : ℕ). count x q.main_queue ≡ count x rest + (if t == x then 1 else 0)) same
        (p.takes x) in
    let own = takes head in
    let inside : 0 < count head q.main_queue = ground arith in
    let one = h.once head in
    let i = pqueue_insert_adds pri q.transfer_queue head h.transferred (omega arith) in
    let size = pop_size o q.main_queue more in
    record {
      inside = inside;
      earliest = λ x there.
          index-le q.tag_of head x (h.times head) (h.times x)
            (subst (λ (t : ℕ). pri t ≤ pri x) same (p.least x there));
      shorter = omega arith;
      record_after = record {
        main = p.queue;
        transferred = i.queue;
        once = λ x. let t = takes x in let a = i.adds x in let le = h.once x in omega arith;
        no_null = let t = takes 0 in let a = i.adds 0 in let z = h.no_null in omega arith;
        times = h.times;
        microsteps = h.microsteps;
      };
      moves = i.adds;
      takes = takes;
    }

-- what the refilled queues are
pub record Refilled (q r : InTransit) : Type 0 where
  pub record_after : IsRecord r
  pub empty : IsEmpty r.transfer_queue
  pub same : (x : ℕ) → holds x r ≡ holds x q
  pub tags : r.tag_of ≡ q.tag_of

pub refill-Refilled : (q : InTransit) → IsRecord q → Refilled q (refill q)
refill-Refilled q h =
    let p =
      pqueue_empty_into-Poured (get_message_record_index q.tag_of) q.main_queue q.transfer_queue
        h.main h.transferred h.once h.no_null in
    record {
      record_after = record {
        main = p.filled_queue;
        transferred = p.drained_queue;
        once = λ x. let a = p.holds x in let b = p.drained x in let c = h.once x in omega arith;
        no_null = let a = p.holds 0 in let b = p.drained 0 in let c = h.no_null in omega arith;
        times = h.times;
        microsteps = h.microsteps;
      };
      empty = p.drained;
      same = λ x. let a = p.holds x in let b = p.drained x in omega arith;
      tags = refl;
    }
