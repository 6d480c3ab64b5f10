-- ===== src/Net/Send.antt =====
-- core/federated/federate.c: the messages between federates. Writing to the socket is not modelled: a
-- result names the socket and the bytes written. The bytes that a local array starts with, all of them
-- overwritten, are 0.
use schedule_test_manual.Base.{
  ℕ, ◌%◌, not, ◌&&◌, ◌||◌, Option, none, some, List, [], ◌∷◌, ◌++◌, ◌==◌, if◌then◌else◌, get_elem?,
  replicate,
}
use schedule_test_manual.Base.Int.{ℤ, pos, ltb_ℤ}
use schedule_test_manual.Tag.{Tag, delay_tag}
use schedule_test_manual.Fs.Exec.{is_tag_after_stop_tag}
use schedule_test_manual.Net.{
  ◌>>=◌, write_at, memcpy, encode_uint16, encode_int32, encode_tag, signed, word32,
}

abbrev pub msg_type_message : ℕ
msg_type_message = 3

abbrev pub msg_type_tagged_message : ℕ
msg_type_tagged_message = 5

abbrev pub msg_type_p2p_message : ℕ
msg_type_p2p_message = 16

abbrev pub msg_type_p2p_tagged_message : ℕ
msg_type_p2p_tagged_message = 17

-- the sockets of the federate, and its tags
pub record Federate : Type 0 where
  pub sockets_for_outbound_p2p_connections : List ℤ
  pub socket_tcp_rti : ℤ
  pub current_tag : Tag
  pub stop_tag : Tag

-- What a send function does: return 0 with nothing written, or write the bytes to the socket and return
-- 1. The rest is undefined behaviour: signed overflow, or an access out of range.
pub data Sending : Type 0 where
  dropped : Sending
  sent : ℤ → List ℕ → Sending
  undefined : Sending

-- `buffer[0] = (unsigned char)type`
abbrev pub put_type : ℕ → List ℕ → Option (List ℕ)
put_type message_type [] = none
put_type message_type (b ∷ bs) = some (message_type % 256 ∷ bs)

-- what both messages start with: the type, the port, the federate and the length
unfoldable pub put_header : ℕ → ℕ → ℕ → ℕ → List ℕ → Option (List ℕ)
put_header message_type port federate length buffer = put_type message_type buffer >>= λ b0.
    write_at 1 (encode_uint16 port) b0 >>= λ b1. write_at 3 (encode_uint16 federate) b1 >>= λ b2.
    write_at 5 (encode_int32 (signed word32 (length % word32))) b2

-- the socket for a message: that of the federate, or of the RTI; none is an access out of range
unfoldable pub socket_for : Federate → ℕ → ℕ → Option ℤ
socket_for fed message_type federate =
    if message_type == msg_type_p2p_message || message_type == msg_type_p2p_tagged_message
    then get_elem? fed.sockets_for_outbound_p2p_connections federate
    else some fed.socket_tcp_rti

-- the end of both send functions: the header and `length` bytes of the message go to the socket
unfoldable pub transmit : Federate → ℕ → ℕ → ℕ → List ℕ → List ℕ → Sending
transmit fed message_type federate length header message =
    elim (socket_for fed message_type federate) [
      | none ↦ undefined
      | some s ↦ if ltb_ℤ s (pos 0) then dropped else (elim (memcpy length message) [
        | none ↦ undefined
        | some body ↦ sent s (header ++ body)
      ])
    ]

-- send_message
unfoldable pub send_message : Federate → ℕ → ℕ → ℕ → ℕ → List ℕ → Sending
send_message fed message_type port federate length message =
    if not (message_type == msg_type_message) && not (message_type == msg_type_p2p_message)
    then dropped
    else (elim (put_header message_type port federate length (replicate 9 0)) [
      | none ↦ undefined
      | some header ↦ transmit fed message_type federate length header message
    ])

-- the header of a tagged message
unfoldable pub put_timed_header : ℕ → ℕ → ℕ → ℕ → Tag → List ℕ → Option (List ℕ)
put_timed_header message_type port federate length tag buffer =
    put_header message_type port federate length buffer >>= λ b.
    write_at 9 (λ c. encode_tag c tag) b

-- send_timed_message
unfoldable pub send_timed_message : Federate → ℤ → ℕ → ℕ → ℕ → ℕ → List ℕ → Sending
send_timed_message fed additional_delay message_type port federate length message =
    if not (message_type == msg_type_tagged_message)
      && not (message_type == msg_type_p2p_tagged_message)
    then dropped
    else (elim (delay_tag fed.current_tag additional_delay) [
      | none ↦ undefined
      | some intended_tag ↦
          elim (put_timed_header message_type port federate length intended_tag (replicate 21 0)) [
            | none ↦ undefined
            | some header ↦
                if is_tag_after_stop_tag fed.stop_tag intended_tag
                then dropped
                else transmit fed message_type federate length header message
          ]
    ])
