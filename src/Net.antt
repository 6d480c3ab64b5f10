-- ===== src/Net.antt =====
-- core/federated/net_util.c: numbers and tags as bytes on the wire, low byte first. A pointer into a
-- buffer is the list of the bytes from there to the end of the buffer, and an access past the end gives
-- `none`. A value of n bits is kept as the number that its bits spell.
pub mod Bytes
pub mod RoundTrip
pub mod Send
pub mod Delivery
pub mod StartTime
mod Tests
use mathlib.Core.List.{reverse}
use schedule_test_manual.Base.{
  ℕ, zero, suc, ◌+◌, ◌-◌, ◌*◌, ◌/◌, ◌%◌, ◌^◌, Bool, not, Option, none, some, List, [], ◌∷◌, ltb,
  ◌==◌, if◌then◌else◌, get_or, set,
}
use schedule_test_manual.Base.Int.{ℤ, pos, negsuc, ltb_ℤ}
use schedule_test_manual.Tag.{Tag}

pub data Host : Type 0 where
  little_endian big_endian : Host

-- the low `n` bytes of a number, low byte first, and the number that bytes spell in this order
abbrev pub low_first : ℕ → ℕ → List ℕ
low_first zero u = []
low_first (suc n) u = u % 256 ∷ low_first n (u / 256)

abbrev pub value : List ℕ → ℕ
value [] = 0
value (b ∷ bs) = b + 256 * value bs

-- how the host lays a number out in memory, and reads it back: the unions of the code
abbrev pub stored : Host → ℕ → ℕ → List ℕ
stored little_endian n u = low_first n u
stored big_endian n u = reverse (low_first n u)

abbrev pub loaded : Host → List ℕ → ℕ
loaded little_endian bs = value bs
loaded big_endian bs = value (reverse bs)

-- a signed number as the unsigned one with the same bits, and back; `m` is 2 to the width
abbrev pub unsigned : ℕ → ℤ → ℕ
unsigned m (pos n) = n % m
unsigned m (negsuc n) = m - n % m - 1

abbrev pub signed : ℕ → ℕ → ℤ
signed m u = if ltb u (m / 2) then pos u else negsuc (m - u - 1)

abbrev pub word32 : ℕ
word32 = 4294967296

abbrev pub word64 : ℕ
word64 = 18446744073709551616

-- the value of an Option of bytes, used for a result
infixl 5 ◌>>=◌
abbrev pub ◌>>=◌ {ℓ κ} : {A : Type ℓ} {B : Type κ} → Option A → (A → Option B) → Option B
some a >>= f = f a
none >>= f = none

-- `&(buffer[k])`, to read from there
abbrev pub pointer : ℕ → List ℕ → Option (List ℕ)
pointer zero bs = some bs
pointer (suc k) [] = none
pointer (suc k) (b ∷ bs) = pointer k bs

-- `write(&(buffer[k]))`, for a function that writes from there on
abbrev pub write_at : ℕ → (List ℕ → Option (List ℕ)) → List ℕ → Option (List ℕ)
write_at zero write bs = write bs
write_at (suc k) write [] = none
write_at (suc k) write (b ∷ bs) = write_at k write bs >>= λ r. some (b ∷ r)

-- memcpy of `n` bytes into a union
abbrev pub memcpy : ℕ → List ℕ → Option (List ℕ)
memcpy zero bs = some []
memcpy (suc n) [] = none
memcpy (suc n) (b ∷ bs) = memcpy n bs >>= λ r. some (b ∷ r)

-- host_is_big_endian
unfoldable pub host_is_big_endian : Host → Bool
host_is_big_endian h = get_or (stored h 4 1) 3 0 == 1

-- `(unsigned char)((data & (0xff << shift)) >> shift)`
abbrev pub byte : ℕ → ℕ → ℕ
byte data_ shift = data_ / 2 ^ shift % 256

-- the loop of encode_int64, from byte `i` on, for `n` more bytes
abbrev pub encode_loop : ℕ → ℕ → ℕ → List ℕ → Option (List ℕ)
encode_loop zero data_ shift bs = some bs
encode_loop (suc n) data_ shift [] = none
encode_loop (suc n) data_ shift (b ∷ bs) =
    encode_loop n data_ (shift + 8) bs >>= λ r. some (byte data_ shift ∷ r)

-- encode_int64
unfoldable pub encode_int64 : ℤ → List ℕ → Option (List ℕ)
encode_int64 data_ buffer = encode_loop 8 (unsigned word64 data_) 0 buffer

-- encode_uint32
unfoldable pub encode_uint32 : ℕ → List ℕ → Option (List ℕ)
encode_uint32 data_ (b0 ∷ b1 ∷ b2 ∷ b3 ∷ bs) =
    some (byte data_ 0 ∷ byte data_ 8 ∷ byte data_ 16 ∷ byte data_ 24 ∷ bs)
encode_uint32 data_ _ = none

-- encode_int32
unfoldable pub encode_int32 : ℤ → List ℕ → Option (List ℕ)
encode_int32 data_ (b0 ∷ b1 ∷ b2 ∷ b3 ∷ bs) =
    let u = unsigned word32 data_ in some (byte u 0 ∷ byte u 8 ∷ byte u 16 ∷ byte u 24 ∷ bs)
encode_int32 data_ _ = none

-- encode_uint16
unfoldable pub encode_uint16 : ℕ → List ℕ → Option (List ℕ)
encode_uint16 data_ (b0 ∷ b1 ∷ bs) = some (byte data_ 0 ∷ byte data_ 8 ∷ bs)
encode_uint16 data_ _ = none

-- `c = x.c[i]; x.c[i] = x.c[j]; x.c[j] = c`
abbrev pub exchange : ℕ → ℕ → List ℕ → List ℕ
exchange i j c = set (set c i (get_or c j 0)) j (get_or c i 0)

-- swap_bytes_if_big_endian_uint16
unfoldable pub swap_bytes_if_big_endian_uint16 : Host → ℕ → ℕ
unfolding host_is_big_endian
swap_bytes_if_big_endian_uint16 h src =
    if not (host_is_big_endian h) then src else loaded h (exchange 0 1 (stored h 2 src))

-- swap_bytes_if_big_endian_uint32
unfoldable pub swap_bytes_if_big_endian_uint32 : Host → ℕ → ℕ
unfolding host_is_big_endian
swap_bytes_if_big_endian_uint32 h src =
    if not (host_is_big_endian h)
    then src
    else loaded h (exchange 1 2 (exchange 0 3 (stored h 4 src)))

-- swap_bytes_if_big_endian_int32
unfoldable pub swap_bytes_if_big_endian_int32 : Host → ℤ → ℤ
unfolding host_is_big_endian
swap_bytes_if_big_endian_int32 h src =
    if not (host_is_big_endian h)
    then src
    else signed word32 (loaded h (exchange 1 2 (exchange 0 3 (stored h 4 (unsigned word32 src)))))

-- swap_bytes_if_big_endian_int64
unfoldable pub swap_bytes_if_big_endian_int64 : Host → ℤ → ℤ
unfolding host_is_big_endian
swap_bytes_if_big_endian_int64 h src =
    if not (host_is_big_endian h)
    then src
    else signed word64 (
        loaded h (
          exchange 3 4
            (exchange 2 5 (exchange 1 6 (exchange 0 7 (stored h 8 (unsigned word64 src)))))))

-- extract_uint16, extract_uint32, extract_int32, extract_int64
unfoldable pub extract_uint16 : Host → List ℕ → Option ℕ
unfolding swap_bytes_if_big_endian_uint16
extract_uint16 h bytes =
    memcpy 2 bytes >>= λ c. some (swap_bytes_if_big_endian_uint16 h (loaded h c))

unfoldable pub extract_uint32 : Host → List ℕ → Option ℕ
unfolding swap_bytes_if_big_endian_uint32
extract_uint32 h bytes =
    memcpy 4 bytes >>= λ c. some (swap_bytes_if_big_endian_uint32 h (loaded h c))

unfoldable pub extract_int32 : Host → List ℕ → Option ℤ
unfolding swap_bytes_if_big_endian_int32
extract_int32 h bytes =
    memcpy 4 bytes >>= λ c. some (swap_bytes_if_big_endian_int32 h (signed word32 (loaded h c)))

unfoldable pub extract_int64 : Host → List ℕ → Option ℤ
unfolding swap_bytes_if_big_endian_int64
extract_int64 h bytes =
    memcpy 8 bytes >>= λ c. some (swap_bytes_if_big_endian_int64 h (signed word64 (loaded h c)))

-- encode_tag
unfoldable pub encode_tag : List ℕ → Tag → Option (List ℕ)
encode_tag buffer tag =
    encode_int64 tag.time buffer >>= λ b. write_at 8 (encode_uint32 tag.microstep) b

-- extract_tag
unfoldable pub extract_tag : Host → List ℕ → Option Tag
extract_tag h buffer = extract_int64 h buffer >>= λ time. pointer 8 buffer >>= λ p.
    extract_uint32 h p >>= λ microstep. some (record { time = time; microstep = microstep })

-- what the functions that read a header store, and what they do: exit on a negative length
pub record Header : Type 0 where
  pub port_id : ℕ
  pub federate_id : ℕ
  pub length : ℕ

pub data Received {ℓ} (A : Type ℓ) : Type ℓ where
  received : A → Received A
  exits : Received A

-- extract_header; `none` is a read past the end of the buffer
unfoldable pub extract_header : Host → List ℕ → Option (Received Header)
extract_header h buffer = extract_uint16 h buffer >>= λ port. pointer 2 buffer >>= λ p.
    extract_uint16 h p >>= λ federate. pointer 4 buffer >>= λ q.
    extract_int32 h q >>= λ local_length. elim local_length [
      | pos n ↦ some (received (record { port_id = port; federate_id = federate; length = n }))
      | negsuc n ↦ some exits
    ]

-- extract_timed_header
unfoldable pub extract_timed_header : Host → List ℕ → Option (Received (Header × Tag))
extract_timed_header h buffer = extract_header h buffer >>= λ r. elim r [
  | received header ↦
      pointer 8 buffer >>= λ p. extract_tag h p >>= λ tag. some (received (header, tag))
  | exits ↦ some exits
]
