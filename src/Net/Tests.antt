-- ===== src/Net/Tests.antt =====
-- The byte order, the messages and the start time at concrete values.
use schedule_test_manual.Base.{
  ℕ, ◌≡◌, some, List, [], ◌∷◌, ◌++◌, length, refl, arith, inr, true, replicate,
}
use schedule_test_manual.Base.Int.{ℤ, pos, negsuc, ◌+ℤ◌, ◌-ℤ◌}
use mathlib.Core.List.{reverse}
use schedule_test_manual.Fs.Exec.{is_tag_after_stop_tag}
use schedule_test_manual.Tag.{Tag, delay_tag, fits, tag_compare}
use schedule_test_manual.Net.{
  Host, little_endian, big_endian, extract_timed_header, received, low_first, value, signed,
  unsigned, word64, extract_tag, encode_tag,
}
use schedule_test_manual.Net.RoundTrip.{extract_tag-encode_tag, Overwritten}
use schedule_test_manual.Net.Send.{Federate, sent, send_timed_message, socket_for}
use schedule_test_manual.Net.Delivery.{header_of, send_timed_message-delivers}
use schedule_test_manual.Net.StartTime.{
  Rti, delay_start, propose_all, all_proposed, start_time_message, get_start_time_from_rti,
}
use schedule_test_manual.Net.StartTime.Agreement.{AllAtMost, start_time_agreed, start_time-reversed}

abbrev at_one : Tag
at_one = record { time = negsuc 299; microstep = 70000 }

extract_tag-encode_tag_example :
    (r : List ℕ) × (encode_tag (replicate 13 9) at_one ≡ some r)
    × Overwritten (replicate 13 9) r 12
    × (extract_tag big_endian r ≡ some at_one)
extract_tag-encode_tag_example =
    extract_tag-encode_tag big_endian at_one (replicate 13 9) (omega arith, omega arith)
      (omega arith) (omega arith)

abbrev fed : Federate
fed = record {
  sockets_for_outbound_p2p_connections = pos 7 ∷ pos 8 ∷ [];
  socket_tcp_rti = pos 3;
  current_tag = record { time = pos 1000; microstep = 2 };
  stop_tag = record { time = pos 5000; microstep = 0 };
}

abbrev later : Tag
later = record { time = pos 1300; microstep = 0 }

send_timed_message-delivers_example :
    (header : List ℕ) × (send_timed_message fed (pos 300) 17 258 1 2 (10 ∷ 20 ∷ 30 ∷ [])
      ≡ sent (pos 8) ((17 ∷ header) ++ 10 ∷ 20 ∷ []))
    × (length header ≡ 20)
    × ((h : Host) → extract_timed_header h header ≡ some (received (header_of 258 1 2, later)))
unfolding socket_for delay_tag is_tag_after_stop_tag ◌+ℤ◌ ◌-ℤ◌ fits tag_compare
send_timed_message-delivers_example =
    send_timed_message-delivers fed (pos 300) 17 258 1 2 (10 ∷ 20 ∷ 30 ∷ []) (10 ∷ 20 ∷ []) 8 later
      (inr refl) refl (omega arith) (omega arith) (omega arith) refl (omega arith, omega arith)
      (omega arith) (omega arith) (omega arith) refl refl

abbrev proposals : List ℤ
proposals = pos 100 ∷ pos 300 ∷ pos 200 ∷ []

start_time_agreed_example :
    (rti : Rti) × (propose_all little_endian proposals
        (record { number_of_federates = 3; num_feds_proposed_start = 0; max_start_time = pos 0 })
      ≡ some rti)
    × (all_proposed rti ≡ true)
    × (rti.max_start_time ≡ pos 300)
    × AllAtMost rti.max_start_time proposals
    × ((f : Host)
        → (message : List ℕ) × (start_time_message little_endian rti ≡ some message)
          × (get_start_time_from_rti f message ≡ some (rti.max_start_time +ℤ delay_start)))
unfolding ◌+ℤ◌
start_time_agreed_example =
    start_time_agreed proposals
      ((omega arith, omega arith), ((omega arith, omega arith), ((omega arith, omega arith), _)))
      (omega arith)

abbrev proposed : Rti
proposed = record { number_of_federates = 1; num_feds_proposed_start = 1; max_start_time = pos 0 }

-- the start time 1000000000 is read as a time 146 years away
start_time-reversed_example :
    (message : List ℕ) × (start_time_message big_endian proposed ≡ some message)
    × (get_start_time_from_rti big_endian message
        ≡ some (
            signed word64 (value (reverse (low_first 8 (unsigned word64 (pos 0 +ℤ delay_start)))))))
unfolding ◌+ℤ◌
start_time-reversed_example = start_time-reversed big_endian proposed (omega arith) (omega arith)
