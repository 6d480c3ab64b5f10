-- ===== src/Net/RoundTrip.antt =====
-- The encode functions of core/federated/net_util.c against the extract functions.
use mathlib.Core.List.{reverse}
use schedule_test_manual.Base.{
  ℕ, zero, suc, ◌+◌, ◌≡◌, ◌≤◌, ◌<◌, some, List, [], ◌∷◌, length, drop, length-drop, ◌++◌, arith,
  refl, ap, sym, ◌∙◌,
}
use schedule_test_manual.Base.Int.{ℤ, pos, negsuc, ◌≤ℤ◌}
use schedule_test_manual.Tag.{Tag}
use schedule_test_manual.Tag.Delay.{InRange}
use schedule_test_manual.Net.{
  Host, little_endian, big_endian, value, stored, loaded, unsigned, signed, word32, word64, byte,
  encode_loop, encode_int64, encode_uint32, exchange, extract_uint16, extract_uint32, extract_int32,
  extract_int64, encode_tag, extract_tag, host_is_big_endian, swap_bytes_if_big_endian_int32,
  swap_bytes_if_big_endian_int64, swap_bytes_if_big_endian_uint32, swap_bytes_if_big_endian_uint16,
}
use schedule_test_manual.Net.Bytes.{
  bytes4, bytes8, value-bytes4, value-bytes8, swapped4, swapped8, signed-unsigned32,
  signed-unsigned64, unsigned-signed32, unsigned-signed64, unsigned-word64, unsigned-word32,
  value-bound4, value-bound8, byte-small,
}

-- what the encode functions have written is read back, whatever follows it in the buffer
pub reads_uint16 :
    (h : Host) (u : ℕ) (rest : List ℕ)
    → u < 65536
    → extract_uint16 h (byte u 0 ∷ byte u 8 ∷ rest) ≡ some u
unfolding extract_uint16 swap_bytes_if_big_endian_uint16 host_is_big_endian
reads_uint16 little_endian u rest b = ap some (omega arith)
reads_uint16 big_endian u rest b = ap some (omega arith)

pub reads_uint32 :
    (h : Host) (u : ℕ) (rest : List ℕ)
    → u < word32
    → extract_uint32 h (byte u 0 ∷ byte u 8 ∷ byte u 16 ∷ byte u 24 ∷ rest) ≡ some u
unfolding extract_uint32 swap_bytes_if_big_endian_uint32 host_is_big_endian
reads_uint32 little_endian u rest b = ap some (value-bytes4 u b)
reads_uint32 big_endian u rest b = ap some (
    swapped4 (byte u 0) (byte u 8) (byte u 16) (byte u 24) (omega arith) (omega arith) (omega arith)
      (omega arith)
    ∙ value-bytes4 u b)

-- a signed number that fits in 32 bits
abbrev pub InRange32 : ℤ → Type 0
InRange32 x = (negsuc 2147483647 ≤ℤ x) × (x ≤ℤ pos 2147483647)

pub reads_int32 :
    (h : Host) (x : ℤ) (rest : List ℕ)
    → InRange32 x
    → let u = unsigned word32 x in
      extract_int32 h (byte u 0 ∷ byte u 8 ∷ byte u 16 ∷ byte u 24 ∷ rest) ≡ some x
unfolding extract_int32 swap_bytes_if_big_endian_int32 host_is_big_endian
reads_int32 little_endian x rest b =
    let u = unsigned word32 x in
    ap some (ap (signed word32) (value-bytes4 u (unsigned-word32 x)) ∙ signed-unsigned32 x b.0 b.1)
reads_int32 big_endian x rest b =
    let u = unsigned word32 x in
    let v = value (reverse (bytes4 u)) in
    let back = unsigned-signed32 v (
      value-bound4 (byte u 24) (byte u 16) (byte u 8) (byte u 0) (omega arith) (omega arith)
        (omega arith) (omega arith)) in
    ap some (
      ap
        (λ k.
          signed word32 (loaded big_endian (exchange 1 2 (exchange 0 3 (stored big_endian 4 k)))))
        back
      ∙ ap (signed word32) (
          swapped4 (byte u 0) (byte u 8) (byte u 16) (byte u 24) (omega arith) (omega arith)
            (omega arith) (omega arith)
          ∙ value-bytes4 u (unsigned-word32 x))
      ∙ signed-unsigned32 x b.0 b.1)

pub reads_int64 :
    (h : Host) (x : ℤ) (rest : List ℕ)
    → InRange x
    → let u = unsigned word64 x in
      extract_int64 h (
        byte u 0
        ∷ byte u 8
        ∷ byte u 16
        ∷ byte u 24
        ∷ byte u 32
        ∷ byte u 40
        ∷ byte u 48
        ∷ byte u 56
        ∷ rest)
      ≡ some x
unfolding extract_int64 swap_bytes_if_big_endian_int64 host_is_big_endian
reads_int64 little_endian x rest b =
    let u = unsigned word64 x in
    ap some (ap (signed word64) (value-bytes8 u (unsigned-word64 x)) ∙ signed-unsigned64 x b)
reads_int64 big_endian x rest b =
    let u = unsigned word64 x in
    let v = value (reverse (bytes8 u)) in
    let back = unsigned-signed64 v (value-bound8 u) in
    let small = byte-small u in
    ap some (
      ap
        (λ k. signed word64 (
          loaded big_endian
            (exchange 3 4 (exchange 2 5 (exchange 1 6 (exchange 0 7 (stored big_endian 8 k)))))))
        back
      ∙ ap (signed word64) (
          swapped8 (byte u 0) (byte u 8) (byte u 16) (byte u 24) (byte u 32) (byte u 40) (byte u 48)
            (byte u 56)
            (
              small 56,
              (small 48, (small 40, (small 32, (small 24, (small 16, (small 8, (small 0, _))))))),
            )
          ∙ value-bytes8 u (unsigned-word64 x))
      ∙ signed-unsigned64 x b)

-- what encode_loop writes
abbrev pub spelled : ℕ → ℕ → ℕ → List ℕ
spelled zero u shift = []
spelled (suc n) u shift = byte u shift ∷ spelled n u (shift + 8)

encode_loop-writes :
    (n u shift : ℕ) (bs : List ℕ)
    → n ≤ length bs
    → encode_loop n u shift bs ≡ some (spelled n u shift ++ drop n bs)
encode_loop-writes zero u shift bs h = refl
encode_loop-writes (suc n) u shift [] h = absurd (omega arith)
encode_loop-writes (suc n) u shift (b ∷ bs) h =
    rw (encode_loop-writes n u (shift + 8) bs (omega arith)) refl

pub encode_int64-writes :
    (x : ℤ) (bs : List ℕ)
    → 8 ≤ length bs
    → encode_int64 x bs ≡ some (bytes8 (unsigned word64 x) ++ drop 8 bs)
unfolding encode_int64
encode_int64-writes x bs h = encode_loop-writes 8 (unsigned word64 x) 0 bs h

pub encode_uint32-writes :
    (u : ℕ) (bs : List ℕ) → 4 ≤ length bs → encode_uint32 u bs ≡ some (bytes4 u ++ drop 4 bs)
unfolding encode_uint32
encode_uint32-writes u (b0 ∷ b1 ∷ b2 ∷ b3 ∷ bs) h = refl
encode_uint32-writes u (b0 ∷ b1 ∷ b2 ∷ []) h = absurd (omega arith)
encode_uint32-writes u (b0 ∷ b1 ∷ []) h = absurd (omega arith)
encode_uint32-writes u (b0 ∷ []) h = absurd (omega arith)
encode_uint32-writes u [] h = absurd (omega arith)

length-drop4 : (bs : List ℕ) → 12 ≤ length bs → 4 ≤ length (drop 8 bs)
length-drop4 bs h = rw (length-drop 8 bs) (omega arith)

-- a buffer that `bytes` were written over, and what follows them kept
abbrev pub Overwritten : List ℕ → List ℕ → ℕ → Type 0
Overwritten before after n = (length after ≡ length before) × (drop n after ≡ drop n before)

length-over : (n : ℕ) (bs : List ℕ) → n ≤ length bs → n + length (drop n bs) ≡ length bs
length-over n bs h = rw (length-drop n bs) (omega arith)

abbrev no_bytes : List ℕ
no_bytes = []

drop-nil : (k : ℕ) → drop k no_bytes ≡ no_bytes
drop-nil zero = refl
drop-nil (suc k) = refl

drop-drop : (k n : ℕ) (bs : List ℕ) → drop k (drop n bs) ≡ drop (n + k) bs
drop-drop k zero bs = ap (λ i. drop i bs) (omega arith)
drop-drop k (suc n) [] = drop-nil k ∙ sym (drop-nil (suc n + k))
drop-drop k (suc n) (b ∷ bs) =
    let e : suc n + k ≡ suc (n + k) = omega arith in rw e (drop-drop k n bs)

-- In any buffer of at least 12 bytes, encode_tag writes 12 bytes and leaves the rest, and on hosts of
-- both byte orders extract_tag reads back the tag, for each tag of an int64_t and a uint32_t.
pub extract_tag-encode_tag :
    (h : Host) (tag : Tag) (buffer : List ℕ)
    → InRange tag.time
    → tag.microstep < word32
    → 12 ≤ length buffer
    → (r : List ℕ) × (encode_tag buffer tag ≡ some r)
      × Overwritten buffer r 12
      × (extract_tag h r ≡ some tag)
unfolding encode_tag extract_tag
extract_tag-encode_tag h tag buffer t m l =
    let u = unsigned word64 tag.time in
    let rest = drop 8 buffer in
    let long = length-drop4 buffer l in
    let first = encode_int64-writes tag.time buffer (omega arith) in
    let second = encode_uint32-writes tag.microstep rest long in
    (
      bytes8 u ++ bytes4 tag.microstep ++ drop 4 rest,
      rw (first, second) refl,
      (
        (let a = length-over 8 buffer (omega arith) in
            let b = length-over 4 rest long in omega arith),
        drop-drop 4 8 buffer,
      ),
      rw
          (
            reads_int64 h tag.time (bytes4 tag.microstep ++ drop 4 rest) t,
            reads_uint32 h tag.microstep (drop 4 rest) m,
          )
          refl,
    )
