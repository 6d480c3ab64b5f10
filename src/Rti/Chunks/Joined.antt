-- ===== src/Rti/Chunks/Joined.antt =====
-- core/federated/RTI/rti.c: what handle_timed_message forwards.
use schedule_test_manual.Base.{
  ℕ, zero, suc, false, ◌+◌, ◌-◌, ◌≡◌, ◌≤◌, ◌<◌, refl, sym, ap, ◌∙◌, some, List, [], ◌∷◌, ◌++◌, ltb,
  ◌==◌, if◌then◌else◌, length, drop, arith, length-append,
}
use schedule_test_manual.Rti.{not_connected, granted}
use schedule_test_manual.Rti.Chunks.{
  fed_com_buffer_size, header_size, given, read_from_socket_errexit, bytes_to_read, forward_chunk,
  forward_loop, forward, ready, joined, Fit,
}

append_assoc : (xs ys zs : List ℕ) → (xs ++ ys) ++ zs ≡ xs ++ (ys ++ zs)
append_assoc [] ys zs = refl
append_assoc (x ∷ xs) ys zs = ap (λ (l : List ℕ). x ∷ l) (append_assoc xs ys zs)

-- what a call gives of bytes that are there
given_part :
    (n : ℕ) (bytes rest : List ℕ)
    → n ≤ length bytes
    → (a : List ℕ) × (b : List ℕ) × (given n (bytes ++ rest) ≡ (a, b ++ rest))
      × (bytes ≡ a ++ b)
      × (length a ≡ n)
      × (length b + n ≡ length bytes)
unfolding given
given_part zero bytes rest le = ([], bytes, refl, refl, refl, omega arith)
given_part (suc n) [] rest le = absurd (omega arith)
given_part (suc n) (x ∷ bytes) rest le =
    let (a, b, done, split, la, lb) = given_part n bytes rest (omega arith) in
    (x ∷ a, b, rw done refl, ap (λ (l : List ℕ). x ∷ l) split, ap suc la, omega arith)

-- what is read of bytes that are there, when enough calls do not block
read_part :
    (reads : List ℕ) (n : ℕ) (bytes rest : List ℕ)
    → n ≤ length bytes
    → n ≤ ready reads
    → (a : List ℕ) × (b : List ℕ) × (reads' : List ℕ) × (read_from_socket_errexit reads n
          (bytes ++ rest)
        ≡ some (a, record { bytes = b ++ rest; reads = reads' }))
      × (bytes ≡ a ++ b)
      × (length a ≡ n)
      × (length b + n ≡ length bytes)
      × (ready reads ≤ ready reads' + n)
unfolding read_from_socket_errexit
read_part reads zero bytes rest le enough =
    ([], bytes, reads, refl, refl, refl, omega arith, omega arith)
read_part [] (suc n) bytes rest le enough = absurd (omega arith)
read_part (zero ∷ reads) (suc n) bytes rest le enough = read_part reads (suc n) bytes rest le enough
read_part (suc k ∷ reads) (suc n) bytes rest le enough =
    let m = if ltb n k then suc n else suc k in
    let bound : m ≤ suc n = ground arith in
    let some' : 0 < m = ground arith in
    let (a, b, first, split, la, lb) = given_part m bytes rest (omega arith) in
    let nonempty : (length a == 0) ≡ false = ground arith in
    let (a', b', reads', done, split', la', lb', enough') =
      read_part reads (suc n - length a) b rest (omega arith) (omega arith) in
    (
      a ++ a',
      b',
      reads',
      rw (first, nonempty, done) refl,
      split ∙ ap (λ (l : List ℕ). a ++ l) split' ∙ sym (append_assoc a a' b'),
      length-append a a' ∙ omega arith,
      omega arith,
      omega arith,
    )

bytes_to_read_lem :
    (room remaining : ℕ)
    → 0 < room
    → (bytes_to_read room remaining ≤ room)
      × (bytes_to_read room remaining ≤ remaining)
      × (0 < remaining → 0 < bytes_to_read room remaining)
bytes_to_read_lem room remaining lt = (ground arith, ground arith, λ p. ground arith)

loop_forwards :
    (fuel : ℕ) (reads bytes rest : List ℕ)
    → length bytes < fuel
    → length bytes ≤ ready reads
    → (chunks : List (List ℕ)) × (reads' : List ℕ) × (forward_loop fuel
          (length bytes)
          (record { bytes = bytes ++ rest; reads = reads })
        ≡ some (chunks, record { bytes = rest; reads = reads' }))
      × (joined chunks ≡ bytes)
      × Fit chunks
unfolding forward_loop forward_chunk joined
loop_forwards zero reads bytes rest few enough = absurd (omega arith)
loop_forwards (suc fuel) reads [] rest few enough = ([], reads, refl, refl, tt)
loop_forwards (suc fuel) reads (x ∷ bytes) rest few enough =
    let all : List ℕ = x ∷ bytes in
    let n = bytes_to_read fed_com_buffer_size (length all) in
    let (small, le, some') = bytes_to_read_lem fed_com_buffer_size (length all) (omega arith) in
    let more = some' (omega arith) in
    let (a, b, reads', done, split, la, lb, ok) = read_part reads n all rest le (omega arith) in
    let (chunks, reads'', looped, whole, fit) =
      loop_forwards fuel reads' b rest (omega arith) (omega arith) in
    let left : length all - n ≡ length b = omega arith in
    let nonempty : (length all == 0) ≡ false = ground arith in
    (
      a ∷ chunks,
      reads'',
      rw (nonempty, done, left, looped) refl,
      ap (λ (l : List ℕ). a ++ l) whole ∙ sym split,
      (omega arith, fit),
    )

-- what is left after a first part of `n` bytes, or of all
drop-append :
    (n : ℕ) (a b : List ℕ) → length a ≤ n → (0 < length b → length a ≡ n) → drop n (a ++ b) ≡ b
drop-append zero [] b le full = refl
drop-append zero (x ∷ a) b le full = absurd (omega arith)
drop-append (suc n) [] [] le full = refl
drop-append (suc n) [] (y ∷ b) le full = let e = full (omega arith) in absurd (omega arith)
drop-append (suc n) (x ∷ a) b le full =
    drop-append n a b (omega arith) (λ lt. let e = full lt in omega arith)

-- A message whose bytes all come, by calls of read() of which as many do not block as it has bytes, is
-- forwarded to its end to a destination that is GRANTED, in chunks that fit the buffer, the bytes of
-- the header (21) and of the payload each once and in order, and no byte after the message is read. To
-- a destination that is NOT_CONNECTED nothing is written, and of the message only the first chunk is
-- read: the bytes from the 236th of the payload on are left to be read.
pub forward-joined :
    (header payload rest reads : List ℕ)
    → length header ≡ header_size
    → length payload ≤ ready reads
    → ((chunks : List (List ℕ)) × (reads' : List ℕ) × (forward granted header
            (length payload)
            (record { bytes = payload ++ rest; reads = reads })
          ≡ some (chunks, record { bytes = rest; reads = reads' }))
        × (joined chunks ≡ header ++ payload)
        × Fit chunks)
      × (reads' : List ℕ) × (forward not_connected header
            (length payload)
            (record { bytes = payload ++ rest; reads = reads })
          ≡ some ([], record { bytes = drop 235 payload ++ rest; reads = reads' }))
unfolding forward joined
forward-joined header payload rest reads size enough =
    let room = fed_com_buffer_size - header_size in
    let n = bytes_to_read room (length payload) in
    let (small, le, some') = bytes_to_read_lem room (length payload) (omega arith) in
    let (a, b, reads', done, split, la, lb, ok) = read_part reads n payload rest le (omega arith) in
    let (chunks, reads'', looped, whole, fit) =
      loop_forwards (suc (length payload)) reads' b rest (omega arith) (omega arith) in
    let left : length payload - n ≡ length b = omega arith in
    let sum = length-append header a in
    let unread : drop 235 payload ≡ b =
      ap (drop 235) split ∙ drop-append 235 a b (omega arith) (λ lt. ground arith) in
    let dropped : forward not_connected header (length payload)
          (record { bytes = payload ++ rest; reads = reads })
        ≡ some ([], record { bytes = b ++ rest; reads = reads' }) =
      rw done refl in
    (
      (
        (header ++ a) ∷ chunks,
        reads'',
        rw (done, left, looped) refl,
        append_assoc header a (joined chunks)
            ∙ ap (λ (l : List ℕ). header ++ l) (ap (λ (l : List ℕ). a ++ l) whole ∙ sym split),
        (omega arith, fit),
      ),
      reads',
      dropped
          ∙ ap (λ (l : List ℕ). some ([], record { bytes = l ++ rest; reads = reads' }))
              (sym unread),
    )
