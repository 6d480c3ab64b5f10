-- ===== src/Net/StartTime/Agreement.antt =====
-- The start times that the federates of core/federated/RTI/rti.c read.
use mathlib.Core.Option.{some-injective}
use mathlib.Core.List.{reverse}
use schedule_test_manual.Base.{
  ℕ, suc, ◌+◌, ◌%◌, ◌≡◌, ◌<◌, true, some, List, [], ◌∷◌, length, replicate, if◌then◌else◌, arith,
  refl, sym, ◌∙◌, Bool-cases, inl, inr,
}
use schedule_test_manual.Base.Int.{ℤ, pos, ◌+ℤ◌, ◌≤ℤ◌, ltb_ℤ, +ℤ_parts}
use schedule_test_manual.Tag.{fits, forever}
use schedule_test_manual.Tag.Delay.{InRange}
use schedule_test_manual.Net.{
  Host, little_endian, big_endian, value, loaded, signed, unsigned, word64, low_first,
  extract_int64, swap_bytes_if_big_endian_int64, byte, host_is_big_endian,
}
use schedule_test_manual.Net.RoundTrip.{reads_int64, encode_int64-writes}
use schedule_test_manual.Net.Bytes.{bytes8}
use schedule_test_manual.Net.StartTime.{
  msg_type_timestamp, delay_start, Rti, send_time, handle_timestamp, all_proposed,
  start_time_message, get_start_time_from_rti, propose_all,
}

-- the largest of the proposals and `m`
abbrev pub largest : ℤ → List ℤ → ℤ
largest m [] = m
largest m (t ∷ ts) = largest (if ltb_ℤ m t then t else m) ts

abbrev pub AllInRange : List ℤ → Type 0
AllInRange [] = Unit
AllInRange (t ∷ ts) = InRange t × AllInRange ts

send_time-writes :
    (type : ℕ) (x : ℤ) → type < 256 → send_time type x ≡ some (type ∷ bytes8 (unsigned word64 x))
unfolding send_time
send_time-writes type x b =
    let small : type % 256 ≡ type = omega arith in
    let w = encode_int64-writes x (replicate 8 0) (omega arith) in rw (small, w) refl

extract_int64-memcpy :
    (h : Host) (c0 c1 c2 c3 c4 c5 c6 c7 : ℕ)
    → let c = c0 ∷ c1 ∷ c2 ∷ c3 ∷ c4 ∷ c5 ∷ c6 ∷ c7 ∷ [] in
      extract_int64 h c ≡ some (swap_bytes_if_big_endian_int64 h (signed word64 (loaded h c)))
unfolding extract_int64
extract_int64-memcpy h c0 c1 c2 c3 c4 c5 c6 c7 = refl

handle_timestamp-takes :
    (h : Host) (t : ℤ) (rti : Rti)
    → InRange t
    → handle_timestamp h (bytes8 (unsigned word64 t)) rti
      ≡ some (record rti {
        num_feds_proposed_start = rti.num_feds_proposed_start + 1;
        max_start_time = if ltb_ℤ rti.max_start_time t then t else rti.max_start_time;
      })
unfolding handle_timestamp
handle_timestamp-takes h t rti r =
    let u = unsigned word64 t in
    let e =
      extract_int64-memcpy h (byte u 0) (byte u 8) (byte u 16) (byte u 24) (byte u 32) (byte u 40)
        (byte u 48) (byte u 56) in
    let f = reads_int64 h t [] r in let g = some-injective _ _ (sym e ∙ f) in rw g refl

propose_all-largest :
    (h : Host) (ts : List ℤ) (rti : Rti)
    → AllInRange ts
    → propose_all h ts rti
      ≡ some (record rti {
        num_feds_proposed_start = rti.num_feds_proposed_start + length ts;
        max_start_time = largest rti.max_start_time ts;
      })
unfolding propose_all
propose_all-largest h [] rti all =
    let none' : rti.num_feds_proposed_start + 0 ≡ rti.num_feds_proposed_start = omega arith in
    rw none' refl
propose_all-largest h (t ∷ ts) rti all =
    let one = handle_timestamp-takes h t rti all.0 in
    let rti' : Rti = record rti {
      num_feds_proposed_start = rti.num_feds_proposed_start + 1;
      max_start_time = if ltb_ℤ rti.max_start_time t then t else rti.max_start_time;
    } in
    let rest = propose_all-largest h ts rti' all.1 in
    let count : rti.num_feds_proposed_start + suc (length ts)
        ≡ rti.num_feds_proposed_start + 1 + length ts =
      omega arith in
    rw (send_time-writes msg_type_timestamp t (omega arith), one, rest, count) refl

-- every element is at most `m`
abbrev pub AllAtMost : ℤ → List ℤ → Type 0
AllAtMost m [] = Unit
AllAtMost m (t ∷ ts) = (t ≤ℤ m) × AllAtMost m ts

largest-ge : (m : ℤ) (ts : List ℤ) → m ≤ℤ largest m ts
largest-ge m [] = omega arith
largest-ge m (t ∷ ts) = elim (Bool-cases (ltb_ℤ m t)) [
  | inl less ↦ let r = largest-ge t ts in rw less (ground arith)
  | inr more ↦ let r = largest-ge m ts in rw more (omega arith)
]

largest-AllAtMost : (m : ℤ) (ts : List ℤ) → AllAtMost (largest m ts) ts
largest-AllAtMost m [] = _
largest-AllAtMost m (t ∷ ts) =
    let m' = if ltb_ℤ m t then t else m in
    let r = largest-ge m' ts in
    let s : t ≤ℤ m' = ground arith in (omega arith, largest-AllAtMost m' ts)

fits-InRange : (t : ℤ) → InRange t → fits t ≡ true
unfolding fits
fits-InRange t r = ground arith

-- an answer that the federate reads
start_time_message-reads :
    (f : Host) (rti : Rti)
    → pos 0 ≤ℤ rti.max_start_time
    → rti.max_start_time +ℤ delay_start ≤ℤ forever
    → (message : List ℕ) × (start_time_message little_endian rti ≡ some message)
      × (get_start_time_from_rti f message ≡ some (rti.max_start_time +ℤ delay_start))
unfolding start_time_message get_start_time_from_rti swap_bytes_if_big_endian_int64
    host_is_big_endian
start_time_message-reads f rti l u =
    let start = rti.max_start_time +ℤ delay_start in
    let p = +ℤ_parts rti.max_start_time delay_start in
    let fit = fits-InRange start (omega arith, omega arith) in
    let w = encode_int64-writes start (replicate 8 0) (omega arith) in
    (
      msg_type_timestamp ∷ bytes8 (unsigned word64 start),
      rw (fit, w) refl,
      reads_int64 f start [] (omega arith, omega arith),
    )

-- Where the RTI runs on a little-endian host and its sum fits in an int64_t, the proposals of all
-- federates, in any order, let the RTI answer: each federate, on a host of either byte order, reads the
-- largest proposal (at least 0) plus a second, and no proposal is above that largest one.
pub start_time_agreed :
    (ts : List ℤ)
    → AllInRange ts
    → largest (pos 0) ts +ℤ delay_start ≤ℤ forever
    → let start : Rti = record {
      number_of_federates = length ts;
      num_feds_proposed_start = 0;
      max_start_time = pos 0;
    } in
      (rti : Rti) × (propose_all little_endian ts start ≡ some rti)
      × (all_proposed rti ≡ true)
      × (rti.max_start_time ≡ largest (pos 0) ts)
      × AllAtMost rti.max_start_time ts
      × ((f : Host)
          → (message : List ℕ) × (start_time_message little_endian rti ≡ some message)
            × (get_start_time_from_rti f message ≡ some (rti.max_start_time +ℤ delay_start)))
unfolding all_proposed
start_time_agreed ts all u =
    let start : Rti = record {
      number_of_federates = length ts;
      num_feds_proposed_start = 0;
      max_start_time = pos 0;
    } in
    let rti : Rti = record start {
      num_feds_proposed_start = 0 + length ts;
      max_start_time = largest (pos 0) ts;
    } in
    (
      rti,
      propose_all-largest little_endian ts start all,
      ground arith,
      refl,
      largest-AllAtMost (pos 0) ts,
      λ f. start_time_message-reads f rti (largest-ge (pos 0) ts) u,
    )

signed-InRange : (v : ℕ) → v < word64 → InRange (signed word64 v)
signed-InRange v b = ground arith

-- Where the RTI runs on a big-endian host, and the start time (the maximum of the proposals, which is not
-- negative, with DELAY_START) is at most FOREVER, each federate reads the number whose eight bytes are
-- those of the start time in the opposite order.
pub start_time-reversed :
    (f : Host) (rti : Rti)
    → pos 0 ≤ℤ rti.max_start_time
    → rti.max_start_time +ℤ delay_start ≤ℤ forever
    → (message : List ℕ) × (start_time_message big_endian rti ≡ some message)
      × (get_start_time_from_rti f message
          ≡ some (
              signed word64 (
                value
                  (reverse (low_first 8 (unsigned word64 (rti.max_start_time +ℤ delay_start)))))))
unfolding start_time_message get_start_time_from_rti swap_bytes_if_big_endian_int64
    host_is_big_endian
start_time-reversed f rti l u =
    let start = rti.max_start_time +ℤ delay_start in
    let p = +ℤ_parts rti.max_start_time delay_start in
    let fit = fits-InRange start (omega arith, omega arith) in
    let wrong = swap_bytes_if_big_endian_int64 big_endian start in
    let w = encode_int64-writes wrong (replicate 8 0) (omega arith) in
    (
      msg_type_timestamp ∷ bytes8 (unsigned word64 wrong),
      rw (fit, w) refl,
      reads_int64 f wrong []
          (signed-InRange (value (reverse (low_first 8 (unsigned word64 start)))) (omega arith)),
    )
