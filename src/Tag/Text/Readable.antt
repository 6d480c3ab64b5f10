-- ===== src/Tag/Text/Readable.antt =====
-- lf_readable_time of core/tag.c for times of up to a minute.
use schedule_test_manual.Base.{
  ℕ, ◌*◌, ◌/◌, ◌%◌, ◌≡◌, ◌≢◌, ◌<◌, ◌≤◌, true, false, some, List, [], ◌++◌, arith, ltb, length, ◌==◌,
  if◌then◌else◌, ◌∙◌, lt→ltb,
}
use mathlib.Core.Option
use schedule_test_manual.Base.Int.{pos}
use schedule_test_manual.Tag.Text.{
  Line, codes, comma_separated_time, clause, last_clause, readable_time, amount,
}

skip : (limit : ℕ) (word : List ℕ) (l : Line) → l.time ≤ limit → clause limit word l ≡ some l
unfolding clause
skip limit word l h = ground arith

short :
    (t : ℕ)
    → t ≤ 1000000000
    → readable_time (pos t) ≡ last_clause (record { text = []; lead = false; time = t })
unfolding readable_time
short t h =
    let l : Line = record { text = []; lead = false; time = t } in
    rw (
      skip 604800000000000 (codes " weeks") l (omega arith),
      skip 86400000000000 (codes " days") l (omega arith),
      skip 3600000000000 (codes " hours") l (omega arith),
      skip 60000000000 (codes " minutes") l (omega arith),
      skip 1000000000 (codes " seconds") l h,
    )

-- the last clause of a text that has no other
last_units :
    (t : ℕ)
    → 0 < t
    → last_clause (record { text = []; lead = false; time = t }) ≡ (
        let millis = t % 1000000 == 0 in
        let micros = t % 1000 == 0 in
        let units =
          if millis
          then codes " milliseconds"
          else if micros
          then codes " microseconds"
          else codes " nanoseconds" in
        let left = if millis then t % 1000000 else if micros then t % 1000 else t in
        Option.map (λ written. (written, length written)) (amount left units))
unfolding last_clause
last_units t p = rw (lt→ltb 0 t p)

whole_seconds :
    (k : ℕ) (digits : List ℕ)
    → 1 < k
    → comma_separated_time (pos k) ≡ some digits
    → clause 1000000000
        (codes " seconds")
        (record { text = []; lead = false; time = k * 1000000000 })
      ≡ some (record { text = digits ++ codes " seconds"; lead = true; time = 0 })
unfolding clause
whole_seconds k digits lo d =
    let more : ltb 1000000000 (k * 1000000000) ≡ true = ground arith in
    let q : k * 1000000000 / 1000000000 ≡ k = omega arith in
    let r : k * 1000000000 % 1000000000 ≡ 0 = omega arith in rw (more, q, r, d)

-- Every whole number of milliseconds up to a second is written as "0 milliseconds": the remainder is
-- printed in the place of the quotient.
pub readable_time_millis :
    (t : ℕ)
    → 0 < t
    → t ≤ 1000000000
    → t % 1000000 ≡ 0
    → readable_time (pos t) ≡ some (codes "0 milliseconds", 14)
readable_time_millis t p h m =
    let whole : (t % 1000000 == 0) ≡ true = ground arith in
    short t h ∙ last_units t p ∙ (unfold comma_separated_time in rw (whole, m))

-- Every whole number of microseconds up to a second that is no whole number of milliseconds is
-- written as "0 microseconds".
pub readable_time_micros :
    (t : ℕ)
    → t ≤ 1000000000
    → t % 1000000 ≢ 0
    → t % 1000 ≡ 0
    → readable_time (pos t) ≡ some (codes "0 microseconds", 14)
readable_time_micros t h n m =
    let p : 0 < t = omega arith in
    let broken : (t % 1000000 == 0) ≡ false = ground arith in
    let whole : (t % 1000 == 0) ≡ true = ground arith in
    short t h ∙ last_units t p ∙ (unfold comma_separated_time in rw (broken, whole, m))

-- Any other time up to a second is written in nanoseconds, with the digits of
-- lf_comma_separated_time, and the result is the length of the text.
pub readable_time_nanos :
    (t : ℕ) (digits : List ℕ)
    → t ≤ 1000000000
    → t % 1000 ≢ 0
    → comma_separated_time (pos t) ≡ some digits
    → readable_time (pos t)
      ≡ some (digits ++ codes " nanoseconds", length (digits ++ codes " nanoseconds"))
readable_time_nanos t digits h n d =
    let p : 0 < t = omega arith in
    let broken : (t % 1000000 == 0) ≡ false = ground arith in
    let broken' : (t % 1000 == 0) ≡ false = ground arith in
    short t h ∙ last_units t p ∙ rw (broken, broken', d)

-- From two seconds to a minute, a whole number of seconds is written with a "0" behind it, which the
-- result does not count.
pub readable_time_seconds :
    (k : ℕ) (digits : List ℕ)
    → 1 < k
    → k ≤ 60
    → comma_separated_time (pos k) ≡ some digits
    → readable_time (pos (k * 1000000000))
      ≡ some ((digits ++ codes " seconds") ++ codes "0", length (digits ++ codes " seconds"))
unfolding readable_time
readable_time_seconds k digits lo hi d =
    let l : Line = record { text = []; lead = false; time = k * 1000000000 } in
    rw (
      skip 604800000000000 (codes " weeks") l (omega arith),
      skip 86400000000000 (codes " days") l (omega arith),
      skip 3600000000000 (codes " hours") l (omega arith),
      skip 60000000000 (codes " minutes") l (omega arith),
      whole_seconds k digits lo d,
    )
