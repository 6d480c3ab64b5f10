-- ===== src/Rti/Chunks.antt =====
-- core/federated/RTI/rti.c: handle_timed_message cuts a message into chunks that fit its buffer, which
-- read_from_socket_errexit of core/federated/net_util.c fills.
pub mod Joined
use schedule_test_manual.Base.{
  ℕ, zero, suc, ◌+◌, ◌-◌, ◌≤◌, Option, none, some, List, [], ◌∷◌, ◌++◌, ltb, ◌==◌, if◌then◌else◌,
  length,
}
use schedule_test_manual.Net.{◌>>=◌}
use schedule_test_manual.Rti.{FedState, is_not_connected, is_pending}

-- FED_COM_BUFFER_SIZE
abbrev pub fed_com_buffer_size : ℕ
fed_com_buffer_size = 256

-- header_size: type, port, federate, length and tag
abbrev pub header_size : ℕ
header_size = 21

-- The socket that a federate sends on: the bytes that come from it to the end of the file, and how many
-- bytes each call of read() gives at most, 0 for a call that would block (EAGAIN, EWOULDBLOCK).
pub record Socket : Type 0 where
  pub bytes : List ℕ
  pub reads : List ℕ

-- what read() gives of the bytes to come when it gives `k`, or all if there are fewer, and what is left
unfoldable pub given : ℕ → List ℕ → List ℕ × List ℕ
given zero bytes = ([], bytes)
given (suc k) [] = ([], [])
given (suc k) (byte ∷ bytes) = let (front, back) = given k bytes in (byte ∷ front, back)

-- read_from_socket_errexit on an open socket, by its calls of read(): a call that would block is made
-- again, no byte is the end of the file, which is the exit, and others add to the buffer. `none` is the
-- exit, or that the call waits for ever.
unfoldable pub read_from_socket_errexit : List ℕ → ℕ → List ℕ → Option (List ℕ × Socket)
unfolding given
read_from_socket_errexit reads zero bytes = some ([], record { bytes = bytes; reads = reads })
read_from_socket_errexit [] (suc n) bytes = none
read_from_socket_errexit (zero ∷ reads) (suc n) bytes = read_from_socket_errexit reads (suc n) bytes
read_from_socket_errexit (suc k ∷ reads) (suc n) bytes =
    let (more, left) = given (if ltb n k then suc n else suc k) bytes in
    if length more == 0
    then none
    else (read_from_socket_errexit reads (suc n - length more) left >>= λ r.
        some (more ++ r.0, r.1))

-- the bytes of the next chunk of a message of which `remaining` are left
abbrev pub bytes_to_read : ℕ → ℕ → ℕ
bytes_to_read room remaining = if ltb room remaining then room else remaining

-- a round of the loop of handle_timed_message, for the rest of the loop `next`
unfoldable pub forward_chunk :
    (ℕ → Socket → Option (List (List ℕ) × Socket)) → ℕ → Socket → Option (List (List ℕ) × Socket)
forward_chunk next remaining socket =
    read_from_socket_errexit socket.reads (bytes_to_read fed_com_buffer_size remaining) socket.bytes
    >>= λ r. next (remaining - bytes_to_read fed_com_buffer_size remaining) r.1 >>= λ q.
        some (r.0 ∷ q.0, q.1)

-- the loop of handle_timed_message; each round reads a byte at least
unfoldable pub forward_loop : ℕ → ℕ → Socket → Option (List (List ℕ) × Socket)
forward_loop zero remaining socket = none
forward_loop (suc fuel) remaining socket =
    if remaining == 0 then some ([], socket) else forward_chunk (forward_loop fuel) remaining socket

-- handle_timed_message, for the state of the destination: the chunks that it writes, the first with the
-- header, and what is left to read. `none` is the exit of a read, or the wait for the destination's
-- start time; the writes exit if they fail.
unfoldable pub forward : FedState → List ℕ → ℕ → Socket → Option (List (List ℕ) × Socket)
forward destination header length' socket =
    let first = bytes_to_read (fed_com_buffer_size - header_size) length' in
    read_from_socket_errexit socket.reads first socket.bytes >>= λ r.
    if is_not_connected destination
    then some ([], r.1)
    else if is_pending destination
    then none
    else (forward_loop (suc length') (length' - first) r.1 >>= λ q.
        some ((header ++ r.0) ∷ q.0, q.1))

-- how many of the calls of read() do not block
abbrev pub ready : List ℕ → ℕ
ready [] = 0
ready (zero ∷ reads) = ready reads
ready (suc k ∷ reads) = suc (ready reads)

-- the bytes of the chunks, one after the other
pub joined : List (List ℕ) → List ℕ
joined [] = []
joined (chunk ∷ chunks) = chunk ++ joined chunks

-- chunks that fit the buffer
abbrev pub Fit : List (List ℕ) → Type 0
Fit [] = Unit {0}
Fit (chunk ∷ chunks) = (length chunk ≤ fed_com_buffer_size) × Fit chunks
