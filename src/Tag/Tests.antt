-- ===== src/Tag/Tests.antt =====
-- Tags, the clock and the texts at concrete values.
use schedule_test_manual.Base.{◌≡◌, ◌↔◌, some, List, [], ◌∷◌, refl, arith}
use schedule_test_manual.Base.Int.{pos, negsuc, ◌+ℤ◌, ◌-ℤ◌}
use schedule_test_manual.Tag.{Tag, tag_compare, delay_tag, fits}
use schedule_test_manual.Tag.Order.{Before, tag_compare-decides}
use schedule_test_manual.Tag.Delay.{InRange, delay_tag_total, delay_tag-later}
use schedule_test_manual.Tag.Clock.{
  Clock, Use, ask, offset, synchronize, reports, Ascends, physical_time_monotone,
}
use schedule_test_manual.Tag.Text.{readable_time, codes}
use schedule_test_manual.Tag.Text.Readable.{readable_time_millis}

abbrev early : Tag
early = record { time = negsuc 4; microstep = 7 }

abbrev late : Tag
late = record { time = pos 5; microstep = 0 }

tag_compare-decides_example :
    ((tag_compare early late ≡ negsuc 0) ↔ Before early late)
    × ((tag_compare early late ≡ pos 0) ↔ (early ≡ late))
    × ((tag_compare early late ≡ pos 1) ↔ Before late early)
tag_compare-decides_example = tag_compare-decides early late

delay_tag_total_example : (r : Tag) × (delay_tag late (pos 3) ≡ some r) × InRange r.time
delay_tag_total_example =
    delay_tag_total late (pos 3) (omega arith, omega arith) (omega arith) (omega arith)

abbrev moved : Tag
moved = record { time = pos 8; microstep = 0 }

abbrev early_moved : Tag
early_moved = record { time = negsuc 1; microstep = 0 }

delay_tag-later_example : tag_compare late moved ≡ negsuc 0
unfolding delay_tag fits ◌+ℤ◌ ◌-ℤ◌
delay_tag-later_example =
    delay_tag-later late moved (pos 3) (omega arith) (omega arith) (omega arith) (omega arith)
      (omega arith) refl

abbrev clock : Clock
clock = record {
  current_tag = late;
  start_time = pos 1;
  physical_start_time = pos 2;
  physical_clock_offset = pos 0;
  test_physical_clock_offset = pos 0;
  last_reported = pos 10;
  last_reported_unadjusted = pos 10;
}

abbrev uses : List Use
uses = ask (pos 20) ∷ synchronize (negsuc 14) ∷ ask (pos 21) ∷ offset (pos 3) ∷ ask (pos 30) ∷ []

physical_time_monotone_example : Ascends (pos 10) (reports uses clock)
physical_time_monotone_example = physical_time_monotone uses clock

readable_time_millis_example : readable_time (pos 5000000) ≡ some (codes "0 milliseconds", 14)
readable_time_millis_example = readable_time_millis 5000000 (omega arith) (omega arith) refl
