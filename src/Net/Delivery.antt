-- ===== src/Net/Delivery.antt =====
-- send_timed_message of core/federated/federate.c against extract_timed_header of net_util.c.
use mathlib.Core.Option.{some-injective}
use mathlib.Core.Path.{subst}
use schedule_test_manual.Base.{
  ℕ, ◌%◌, ◌≡◌, ◌<◌, false, some, List, ◌∷◌, ◌++◌, length, replicate, arith, refl, sym, ◌∙◌, ◌==◌,
  ◌⊎◌, not, ◌&&◌, inl, inr,
}
use schedule_test_manual.Base.Int.{ℤ, pos, ◌≤ℤ◌, ltb_ℤ}
use schedule_test_manual.Tag.{Tag, forever, delay_tag}
use schedule_test_manual.Tag.Delay.{InRange, delay_tag_total, delay_tag-microstep}
use schedule_test_manual.Fs.Exec.{is_tag_after_stop_tag}
use schedule_test_manual.Net.{
  Host, unsigned, signed, word32, byte, memcpy, encode_uint16, encode_int32, extract_header,
  extract_timed_header, Header, received, extract_int32, extract_tag, little_endian,
}
use schedule_test_manual.Net.RoundTrip.{reads_uint16, reads_int32, extract_tag-encode_tag}
use schedule_test_manual.Net.Bytes.{bytes4}
use schedule_test_manual.Net.Send.{
  Federate, sent, put_header, put_timed_header, socket_for, transmit, send_timed_message,
  msg_type_tagged_message, msg_type_p2p_tagged_message,
}

-- the eight bytes of port, federate and length
abbrev header_bytes : ℕ → ℕ → ℕ → List ℕ
header_bytes port federate size =
    byte port 0 ∷ byte port 8 ∷ byte federate 0 ∷ byte federate 8 ∷ bytes4 size

signed_size : (n : ℕ) → n < 2147483648 → signed word32 (n % word32) ≡ pos n
signed_size n h = ground arith

put_header-writes :
    (message_type port federate size : ℕ) (rest : List ℕ)
    → message_type < 256
    → size < 2147483648
    → put_header message_type port federate size (replicate 9 0 ++ rest)
      ≡ some (message_type ∷ header_bytes port federate size ++ rest)
unfolding put_header encode_uint16 encode_int32
put_header-writes message_type port federate size rest m l =
    let small : message_type % 256 ≡ message_type = omega arith in
    let same : size % word32 ≡ size = omega arith in rw (signed_size size l, small, same) refl

-- what the header says
abbrev pub header_of : ℕ → ℕ → ℕ → Header
header_of port federate size = record { port_id = port; federate_id = federate; length = size }

extract_header-reads :
    (h : Host) (port federate size : ℕ) (rest : List ℕ)
    → port < 65536
    → federate < 65536
    → size < 2147483648
    → extract_header h (header_bytes port federate size ++ rest)
      ≡ some (received (header_of port federate size))
unfolding extract_header
extract_header-reads h port federate size rest p f l =
    let one = reads_uint16 h port (byte federate 0 ∷ byte federate 8 ∷ bytes4 size ++ rest) p in
    let two = reads_uint16 h federate (bytes4 size ++ rest) f in
    let same : unsigned word32 (pos size) ≡ size = omega arith in
    let three =
      subst (λ u. extract_int32 h (bytes4 u ++ rest) ≡ some (pos size)) same
        (reads_int32 h (pos size) rest (omega arith, omega arith)) in
    rw (one, two, three) refl

put_timed_header-writes :
    (message_type port federate size : ℕ) (tag : Tag)
    → message_type < 256
    → size < 2147483648
    → InRange tag.time
    → tag.microstep < word32
    → (t : List ℕ) × (put_timed_header message_type port federate size tag (replicate 21 0)
        ≡ some (message_type ∷ header_bytes port federate size ++ t))
      × (length t ≡ 12)
      × ((h : Host) → extract_tag h t ≡ some tag)
unfolding put_timed_header
put_timed_header-writes message_type port federate size tag m l t b =
    let room : List ℕ = replicate 12 0 in
    let first = put_header-writes message_type port federate size room m l in
    let round = λ (h : Host). extract_tag-encode_tag h tag room t b (omega arith) in
    let e = round little_endian in
    let written = e.1 in
    (
      e.0,
      rw (first, written) refl,
      e.2.0,
      λ h.
          let f = round h in
          subst (λ r. extract_tag h r ≡ some tag) (some-injective _ _ (sym f.1 ∙ written)) f.3,
    )

transmits :
    (fed : Federate) (message_type federate size : ℕ) (header message body : List ℕ) (socket : ℕ)
    → socket_for fed message_type federate ≡ some (pos socket)
    → memcpy size message ≡ some body
    → transmit fed message_type federate size header message ≡ sent (pos socket) (header ++ body)
unfolding transmit
transmits fed mt federate size header message body socket s m =
    let up : ltb_ℤ (pos socket) (pos 0) ≡ false = ground arith in rw (transmit, s, up, m) refl

-- what is sent, from what each part of the function gives
sends :
    (fed : Federate) (delay : ℤ) (message_type port federate size : ℕ)
    (message body header : List ℕ) (socket : ℕ) (tag : Tag)
    → (not (message_type == msg_type_tagged_message)
        && not (message_type == msg_type_p2p_tagged_message))
      ≡ false
    → delay_tag fed.current_tag delay ≡ some tag
    → put_timed_header message_type port federate size tag (replicate 21 0) ≡ some header
    → is_tag_after_stop_tag fed.stop_tag tag ≡ false
    → socket_for fed message_type federate ≡ some (pos socket)
    → memcpy size message ≡ some body
    → send_timed_message fed delay message_type port federate size message
      ≡ sent (pos socket) (header ++ body)
unfolding send_timed_message
sends fed delay mt port federate size message body header socket tag valid d w e s m =
    rw (valid, d, w, e) (transmits fed mt federate size header message body socket s m)

-- A tagged message of either type is sent if its socket is open, its port and federate fit in 16 bits,
-- its length is below 2^31 and that many bytes are there, the current tag is one of an int64_t and a
-- uint32_t, the delay is from 0 to FOREVER, and the delayed tag is not after the stop tag. What is written
-- is the type byte, a header of 20 bytes and the message. On a host of either byte order extract_timed_header reads
-- from that header the port, the federate, the length and the sender's tag delayed by the given delay.
pub send_timed_message-delivers :
    (fed : Federate) (delay : ℤ) (message_type port federate size : ℕ) (message body : List ℕ)
    (socket : ℕ) (tag : Tag)
    → (message_type ≡ msg_type_tagged_message) ⊎ (message_type ≡ msg_type_p2p_tagged_message)
    → socket_for fed message_type federate ≡ some (pos socket)
    → port < 65536
    → federate < 65536
    → size < 2147483648
    → memcpy size message ≡ some body
    → InRange fed.current_tag.time
    → fed.current_tag.microstep < word32
    → pos 0 ≤ℤ delay
    → delay ≤ℤ forever
    → delay_tag fed.current_tag delay ≡ some tag
    → is_tag_after_stop_tag fed.stop_tag tag ≡ false
    → (header : List ℕ) × (send_timed_message fed delay message_type port federate size message
        ≡ sent (pos socket) ((message_type ∷ header) ++ body))
      × (length header ≡ 20)
      × ((h : Host)
          → extract_timed_header h header ≡ some (received (header_of port federate size, tag)))
unfolding extract_timed_header
send_timed_message-delivers fed delay mt port federate size message body socket tag type s p f l m r
      b d0 d1 d e =
    let small : mt < 256 = elim type [ inl q ↦ omega arith | inr q ↦ omega arith ] in
    let valid : (not (mt == msg_type_tagged_message) && not (mt == msg_type_p2p_tagged_message))
        ≡ false =
      elim type [ inl q ↦ rw q refl | inr q ↦ rw q refl ] in
    let total = delay_tag_total fed.current_tag delay r d0 d1 in
    let range : InRange tag.time =
      subst (λ (x : Tag). InRange x.time) (some-injective _ _ (sym total.1 ∙ d)) total.2 in
    let w =
      put_timed_header-writes mt port federate size tag small l range
        (delay_tag-microstep fed.current_tag tag delay b d) in
    (
      header_bytes port federate size ++ w.0,
      sends fed delay mt port federate size message body
          (mt ∷ header_bytes port federate size ++ w.0) socket tag valid d w.1 e s m,
      rw w.2 refl,
      λ h. rw (extract_header-reads h port federate size w.0 p f l, w.3 h) refl,
    )
