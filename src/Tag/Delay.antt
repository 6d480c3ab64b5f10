-- ===== src/Tag/Delay.antt =====
-- _lf_delay_tag of core/tag.c against the order of tags.
use schedule_test_manual.Base.{
  zero, suc, ◌≡◌, ◌≢◌, ◌+◌, ◌%◌, ◌≤◌, ◌<◌, true, false, some, inl, inr, arith, if◌then◌else◌,
  Bool-cases,
}
use schedule_test_manual.Base.Int.{ℤ, pos, negsuc, ◌+ℤ◌, ◌-ℤ◌, ◌<ℤ◌, ◌≤ℤ◌, ltb_ℤ, eqb_ℤ}
use schedule_test_manual.Tag.{Tag, tag_compare, delay_tag, never, forever, microstep_mod}

-- the values of int64_t
abbrev pub InRange : ℤ → Type 0
InRange t = (never ≤ℤ t) × (t ≤ℤ forever)

-- a sum that saturates at FOREVER
saturate : ℤ → ℤ → ℤ
unfolding ◌+ℤ◌ ◌-ℤ◌
saturate t d = if ltb_ℤ (forever -ℤ d) t then forever else t +ℤ d

saturate_mono : (s t d : ℤ) → pos 0 ≤ℤ d → s ≤ℤ t → saturate s d ≤ℤ saturate t d
unfolding saturate
saturate_mono s t d l h = ground arith

saturate-ge : (t d : ℤ) → pos 0 ≤ℤ d → t ≤ℤ forever → t ≤ℤ saturate t d
unfolding saturate
saturate-ge t d l h = ground arith

-- the result of a delay where nothing overflows
abbrev delayed : Tag → ℤ → Tag
delayed t d =
    if eqb_ℤ t.time never
    then t
    else if eqb_ℤ d (pos 0)
    then record t { microstep = (t.microstep + 1) % microstep_mod }
    else record { time = saturate t.time d; microstep = 0 }

delay_tag-eq-delayed :
    (t : Tag) (d : ℤ)
    → InRange t.time
    → pos 0 ≤ℤ d
    → d ≤ℤ forever
    → delay_tag t d ≡ some (delayed t d)
unfolding delay_tag saturate
delay_tag-eq-delayed t d h l u = ground arith

delayed-InRange :
    (t : Tag) (d : ℤ) → InRange t.time → pos 0 ≤ℤ d → d ≤ℤ forever → InRange (delayed t d).time
unfolding saturate
delayed-InRange t d h l u = ground arith

pub delay_tag-microstep :
    (t r : Tag) (d : ℤ)
    → t.microstep < microstep_mod
    → delay_tag t d ≡ some r
    → r.microstep < microstep_mod
unfolding delay_tag
delay_tag-microstep t r d b h = ground arith

-- For every tag whose time is an int64_t and every delay from 0 to FOREVER, the computation meets no
-- signed overflow, and the time of the result is an int64_t again.
pub delay_tag_total :
    (t : Tag) (d : ℤ)
    → InRange t.time
    → pos 0 ≤ℤ d
    → d ≤ℤ forever
    → (r : Tag) × (delay_tag t d ≡ some r) × InRange r.time
delay_tag_total t d h l u = (delayed t d, delay_tag-eq-delayed t d h l u, delayed-InRange t d h l u)

-- A tag delayed by 0 to FOREVER is strictly later, if its time is strictly between NEVER and FOREVER and
-- its microstep can grow.
pub delay_tag-later :
    (t r : Tag) (d : ℤ)
    → never <ℤ t.time
    → t.time <ℤ forever
    → t.microstep + 1 < microstep_mod
    → pos 0 ≤ℤ d
    → d ≤ℤ forever
    → delay_tag t d ≡ some r
    → tag_compare t r ≡ negsuc 0
unfolding delay_tag tag_compare
delay_tag-later t r d lo hi m l u e = ground arith

time_le : (s t : Tag) → tag_compare s t ≢ pos 1 → s.time ≤ℤ t.time
unfolding tag_compare
time_le s t o = ground arith

not_after : (s t : Tag) → s.time ≤ℤ t.time → s.microstep ≤ t.microstep → tag_compare s t ≢ pos 1
unfolding tag_compare
not_after s t h k = ground arith

not_after_of_lt : (s t : Tag) → s.time <ℤ t.time → tag_compare s t ≢ pos 1
unfolding tag_compare
not_after_of_lt s t h = ground arith

delayed_mono :
    (s t : Tag) (d : ℤ)
    → InRange s.time
    → InRange t.time
    → s.microstep + 1 < microstep_mod
    → t.microstep + 1 < microstep_mod
    → pos 0 ≤ℤ d
    → tag_compare s t ≢ pos 1
    → tag_compare (delayed s d) (delayed t d) ≢ pos 1
delayed_mono s t (pos zero) hs ht ms mt l o = step
  where
    step : tag_compare (delayed s (pos zero)) (delayed t (pos zero)) ≢ pos 1
    step = unfold tag_compare in (ground arith)
delayed_mono s t (pos (suc n)) hs ht ms mt l o =
    let d = pos (suc n) in
    let sr : Tag = record { time = saturate s.time d; microstep = 0 } in
    let tr : Tag = record { time = saturate t.time d; microstep = 0 } in
    let le = time_le s t o in
    let ed : eqb_ℤ d (pos 0) ≡ false = ground arith in
    elim (Bool-cases (eqb_ℤ t.time never)) [
      | inl et ↦ let es : eqb_ℤ s.time never ≡ true = ground arith in rw (es, et) o
      | inr et ↦ elim (Bool-cases (eqb_ℤ s.time never)) [
        | inl es ↦ rw (es, et, ed) (not_after_of_lt s tr (ground (arith, saturate-ge t.time d)))
        | inr es ↦
            rw (es, et, ed) (not_after sr tr (saturate_mono s.time t.time d l le) (omega arith))
      ]
    ]
delayed_mono s t (negsuc n) hs ht ms mt l o = absurd (omega arith)

-- The same delay, from 0 to FOREVER, keeps the order of two tags whose times are int64_t and whose
-- microsteps can grow: if the first is not after the second, the first delayed is not after the second
-- delayed.
pub delay_tag_mono :
    (s t s' t' : Tag) (d : ℤ)
    → InRange s.time
    → InRange t.time
    → s.microstep + 1 < microstep_mod
    → t.microstep + 1 < microstep_mod
    → pos 0 ≤ℤ d
    → d ≤ℤ forever
    → tag_compare s t ≢ pos 1
    → delay_tag s d ≡ some s'
    → delay_tag t d ≡ some t'
    → tag_compare s' t' ≢ pos 1
delay_tag_mono s t s' t' d hs ht ms mt l u o es et =
    let es' : delayed s d ≡ s' = cc (delay_tag-eq-delayed s d hs l u) in
    let et' : delayed t d ≡ t' = cc (delay_tag-eq-delayed t d ht l u) in
    rw (← es', ← et') (delayed_mono s t d hs ht ms mt l o)
