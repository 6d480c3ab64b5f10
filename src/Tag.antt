-- ===== src/Tag.antt =====
-- core/tag.c: superdense time. A time is an exact integer (instant_t is an int64_t); where the C
-- code would overflow a signed number, the model returns `none`.
pub mod Order
pub mod Clock
pub mod Compare
pub mod Delay
pub mod Text
mod Tests
use schedule_test_manual.Base.{
  ℕ, suc, ◌+◌, ◌-◌, ◌%◌, ◌^◌, ◌<◌, ◌≡◌, Bool, Option, none, some, ltb, ◌&&◌, ◌||◌, ◌==◌,
  if◌then◌else◌,
}
use schedule_test_manual.Base.Int.{ℤ, pos, negsuc, ◌+ℤ◌, ◌-ℤ◌, ◌≤ℤ◌, ltb_ℤ, eqb_ℤ}

-- NEVER is LLONG_MIN, FOREVER is LLONG_MAX.
abbrev pub never : ℤ
never = negsuc 9223372036854775807

abbrev pub forever : ℤ
forever = pos 9223372036854775807

-- microstep_t is a uint32_t
abbrev pub microstep_mod : ℕ
microstep_mod = 4294967296

pub record Tag : Type 0 where
  pub time : ℤ
  pub microstep : ℕ

abbrev pub forever_tag : Tag
forever_tag = record { time = forever; microstep = 4294967295 }

-- lf_tag_compare, whose result is -1, 0 or 1
unfoldable pub tag_compare : Tag → Tag → ℤ
tag_compare tag1 tag2 =
    if ltb_ℤ tag1.time tag2.time
    then negsuc 0
    else if ltb_ℤ tag2.time tag1.time
    then pos 1
    else if ltb tag1.microstep tag2.microstep
    then negsuc 0
    else if ltb tag2.microstep tag1.microstep
    then pos 1
    else pos 0

-- whether `FOREVER - interval` is a value of int64_t
unfoldable pub fits : ℤ → Bool
fits t = (ltb_ℤ never t || eqb_ℤ never t) && (ltb_ℤ t forever || eqb_ℤ t forever)

-- _lf_delay_tag; `none` is signed overflow, which C leaves undefined
unfoldable pub delay_tag : Tag → ℤ → Option Tag
unfolding ◌+ℤ◌ ◌-ℤ◌ fits
delay_tag tag interval =
    if eqb_ℤ tag.time never || eqb_ℤ interval never
    then some tag
    else if eqb_ℤ interval (pos 0)
    then some (record tag { microstep = (tag.microstep + 1) % microstep_mod })
    else if fits (forever -ℤ interval)
    then if ltb_ℤ (forever -ℤ interval) tag.time
      then some (record { time = forever; microstep = 0 })
      else if fits (tag.time +ℤ interval)
      then some (record { time = tag.time +ℤ interval; microstep = 0 })
      else none
    else none
