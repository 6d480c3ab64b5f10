-- ===== src/Net/StartTime.antt =====
-- core/federated/RTI/rti.c and federate.c: the agreement on the start time. Every federate proposes a
-- time, and when all have, the RTI answers each with the largest plus a second.
pub mod Agreement
use mathlib.Core.Option.{some-injective}
use mathlib.Core.List.{reverse}
use schedule_test_manual.Base.{
  ℕ, zero, suc, ◌+◌, ◌%◌, ◌≡◌, ◌≤◌, ◌<◌, Bool, true, false, Option, none, some, List, [], ◌∷◌, ◌++◌,
  length, replicate, ◌==◌, if◌then◌else◌, arith, refl, ap, sym, ◌∙◌, drop, ltb, Bool-cases, inl,
  inr,
}
use schedule_test_manual.Base.Int.{ℤ, pos, negsuc, ◌+ℤ◌, ◌≤ℤ◌, ltb_ℤ, +ℤ_parts}
use schedule_test_manual.Tag.{fits, forever, never}
use schedule_test_manual.Tag.Delay.{InRange}
use schedule_test_manual.Net.{
  Host, little_endian, big_endian, ◌>>=◌, value, loaded, signed, unsigned, word64, low_first,
  write_at, memcpy, pointer, encode_int64, extract_int64, swap_bytes_if_big_endian_int64, byte,
  host_is_big_endian,
}
use schedule_test_manual.Net.Send.{put_type}
use schedule_test_manual.Net.RoundTrip.{reads_int64, encode_int64-writes}
use schedule_test_manual.Net.Bytes.{bytes8}

abbrev pub msg_type_timestamp : ℕ
msg_type_timestamp = 2

-- SEC(1)
abbrev pub delay_start : ℤ
delay_start = pos 1000000000

-- the part of the RTI's state that this handshake uses
pub record Rti : Type 0 where
  pub number_of_federates : ℕ
  pub num_feds_proposed_start : ℕ
  pub max_start_time : ℤ

-- _lf_send_time: the bytes that a federate writes
unfoldable pub send_time : ℕ → ℤ → Option (List ℕ)
send_time type time = put_type type (replicate 9 0) >>= λ b. write_at 1 (encode_int64 time) b

-- handle_timestamp, up to the wait: `buffer` holds the eight bytes after the type
unfoldable pub handle_timestamp : Host → List ℕ → Rti → Option Rti
handle_timestamp h buffer rti = memcpy 8 buffer >>= λ c.
    let timestamp = swap_bytes_if_big_endian_int64 h (signed word64 (loaded h c)) in
    some (record rti {
      num_feds_proposed_start = rti.num_feds_proposed_start + 1;
      max_start_time = if ltb_ℤ rti.max_start_time timestamp then timestamp else rti.max_start_time;
    })

-- the condition that the threads of the RTI wait for
unfoldable pub all_proposed : Rti → Bool
all_proposed rti = rti.num_feds_proposed_start == rti.number_of_federates

-- handle_timestamp, after the wait: the answer; `none` is signed overflow
unfoldable pub start_time_message : Host → Rti → Option (List ℕ)
start_time_message h rti =
    let start_time = rti.max_start_time +ℤ delay_start in
    if fits start_time
    then (put_type msg_type_timestamp (replicate 9 0) >>= λ b.
        write_at 1 (encode_int64 (swap_bytes_if_big_endian_int64 h start_time)) b)
    else none

-- get_start_time_from_rti, after the request; `none` is the exit on another message
unfoldable pub get_start_time_from_rti : Host → List ℕ → Option ℤ
get_start_time_from_rti h [] = none
get_start_time_from_rti h (t ∷ bytes) =
    if t == msg_type_timestamp then extract_int64 h bytes else none

-- every federate proposes a time, in some order
unfoldable pub propose_all : Host → List ℤ → Rti → Option Rti
propose_all h [] rti = some rti
propose_all h (t ∷ ts) rti = send_time msg_type_timestamp t >>= λ bytes.
    pointer 1 bytes >>= λ buffer. handle_timestamp h buffer rti >>= λ r. propose_all h ts r
