-- ===== src/Tag/Order.antt =====
-- lf_tag_compare of core/tag.c against the lexicographic order.
use schedule_test_manual.Base.{◌≡◌, ◌↔◌, ◌⊎◌, ◌<◌, arith}
use schedule_test_manual.Base.Int.{pos, negsuc, ◌<ℤ◌, eq_of_parts}
use schedule_test_manual.Tag.{Tag, tag_compare}

-- the lexicographic order that the comparison stands for
abbrev pub Before : Tag → Tag → Type 0
Before a b = (a.time <ℤ b.time) ⊎ ((a.time ≡ b.time) × (a.microstep < b.microstep))

-- The comparison is -1, 0 or 1 exactly when the first tag is lexicographically before, equal to or
-- after the second.
pub tag_compare-decides :
    (a b : Tag)
    → ((tag_compare a b ≡ negsuc 0) ↔ Before a b)
      × ((tag_compare a b ≡ pos 0) ↔ (a ≡ b))
      × ((tag_compare a b ≡ pos 1) ↔ Before b a)
unfolding tag_compare
tag_compare-decides a b = ground (arith, eq_of_parts a.time b.time)
