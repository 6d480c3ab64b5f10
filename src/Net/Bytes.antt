-- ===== src/Net/Bytes.antt =====
-- Numbers as bytes, and the exchange of bytes on a big-endian host (core/federated/net_util.c).
use mathlib.Core.List.{reverse}
use schedule_test_manual.Base.{
  ℕ, ◌+◌, ◌*◌, ◌/◌, ◌%◌, ◌≡◌, ◌<◌, List, [], ◌∷◌, length, arith, refl, ap,
}
use schedule_test_manual.Base.Int.{ℤ, pos, negsuc, ◌≤ℤ◌}
use schedule_test_manual.Tag.Delay.{InRange}
use schedule_test_manual.Net.{
  big_endian, low_first, value, stored, loaded, unsigned, signed, word32, word64, byte, exchange,
}

-- every element is below 256
abbrev AreBytes : List ℕ → Type 0
AreBytes [] = Unit
AreBytes (b ∷ bs) = (b < 256) × AreBytes bs

low_first-value : (bs : List ℕ) → AreBytes bs → low_first (length bs) (value bs) ≡ bs
low_first-value [] h = refl
low_first-value (b ∷ bs) h =
    let h0 = h.0 in
    let low : (b + 256 * value bs) % 256 ≡ b = omega arith in
    let high : (b + 256 * value bs) / 256 ≡ value bs = omega arith in
    rw (low, high) (ap (◌∷◌ b) (low_first-value bs h.1))

-- the bytes that an encode function writes
abbrev pub bytes4 : ℕ → List ℕ
bytes4 u = byte u 0 ∷ byte u 8 ∷ byte u 16 ∷ byte u 24 ∷ []

abbrev pub bytes8 : ℕ → List ℕ
bytes8 u =
    byte u 0 ∷ byte u 8 ∷ byte u 16 ∷ byte u 24 ∷ byte u 32 ∷ byte u 40 ∷ byte u 48 ∷ byte u 56 ∷ []

pub value-bytes4 : (u : ℕ) → u < word32 → value (bytes4 u) ≡ u
value-bytes4 u h = omega arith

pub value-bytes8 : (u : ℕ) → u < word64 → value (bytes8 u) ≡ u
value-bytes8 u h = omega arith

-- On a big-endian host, storing and exchanging turns what memory spells into what the bytes spell.
pub swapped4 :
    (a b c d : ℕ)
    → a < 256
    → b < 256
    → c < 256
    → d < 256
    → let v = value (d ∷ c ∷ b ∷ a ∷ []) in
      loaded big_endian (exchange 1 2 (exchange 0 3 (stored big_endian 4 v)))
      ≡ value (a ∷ b ∷ c ∷ d ∷ [])
swapped4 a b c d p q r s =
    let same = low_first-value (d ∷ c ∷ b ∷ a ∷ []) (s, (r, (q, (p, _)))) in
    ap (λ bs. loaded big_endian (exchange 1 2 (exchange 0 3 (reverse bs)))) same

pub swapped8 :
    (a b c d e f g h : ℕ)
    → AreBytes (h ∷ g ∷ f ∷ e ∷ d ∷ c ∷ b ∷ a ∷ [])
    → let v = value (h ∷ g ∷ f ∷ e ∷ d ∷ c ∷ b ∷ a ∷ []) in
      loaded big_endian
        (exchange 3 4 (exchange 2 5 (exchange 1 6 (exchange 0 7 (stored big_endian 8 v)))))
      ≡ value (a ∷ b ∷ c ∷ d ∷ e ∷ f ∷ g ∷ h ∷ [])
swapped8 a b c d e f g h all =
    let same = low_first-value (h ∷ g ∷ f ∷ e ∷ d ∷ c ∷ b ∷ a ∷ []) all in
    ap
      (λ bs.
        loaded big_endian (exchange 3 4 (exchange 2 5 (exchange 1 6 (exchange 0 7 (reverse bs))))))
      same

pub signed-unsigned32 :
    (x : ℤ) → negsuc 2147483647 ≤ℤ x → x ≤ℤ pos 2147483647 → signed word32 (unsigned word32 x) ≡ x
signed-unsigned32 x l h = ground arith

pub signed-unsigned64 : (x : ℤ) → InRange x → signed word64 (unsigned word64 x) ≡ x
signed-unsigned64 x h = ground arith

pub unsigned-signed64 : (u : ℕ) → u < word64 → unsigned word64 (signed word64 u) ≡ u
unsigned-signed64 u h = ground arith

pub unsigned-signed32 : (u : ℕ) → u < word32 → unsigned word32 (signed word32 u) ≡ u
unsigned-signed32 u h = ground arith

pub unsigned-word64 : (x : ℤ) → unsigned word64 x < word64
unsigned-word64 x = ground arith

pub unsigned-word32 : (x : ℤ) → unsigned word32 x < word32
unsigned-word32 x = ground arith

pub value-bound4 :
    (a b c d : ℕ) → a < 256 → b < 256 → c < 256 → d < 256 → value (a ∷ b ∷ c ∷ d ∷ []) < word32
value-bound4 a b c d p q r s = omega arith

pub byte-small : (u k : ℕ) → byte u k < 256
byte-small u k = omega arith

pub value-bound8 : (u : ℕ) → value (reverse (bytes8 u)) < word64
value-bound8 u = omega arith
