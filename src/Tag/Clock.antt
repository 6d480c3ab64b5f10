-- ===== src/Tag/Clock.antt =====
-- _lf_physical_time, _lf_time and lf_set_physical_clock_offset of core/tag.c. The platform's clock is
-- the argument `reading`: what lf_clock_gettime leaves in the variable. Times are exact integers.
use schedule_test_manual.Base.{List, [], ◌∷◌, if◌then◌else◌, arith, Bool-cases, inl, inr}
use schedule_test_manual.Base.Int.{ℤ, ◌+ℤ◌, ◌-ℤ◌, ◌≤ℤ◌, ltb_ℤ}
use schedule_test_manual.Tag.{Tag, never}

-- the global variables of tag.c
pub record Clock : Type 0 where
  pub current_tag : Tag
  pub start_time : ℤ
  pub physical_start_time : ℤ
  pub physical_clock_offset : ℤ
  pub test_physical_clock_offset : ℤ
  pub last_reported : ℤ
  pub last_reported_unadjusted : ℤ

-- _lf_physical_time
unfoldable pub physical_time : ℤ → Clock → ℤ × Clock
physical_time reading c =
    let adjusted = reading +ℤ c.physical_clock_offset +ℤ c.test_physical_clock_offset in
    let reported = if ltb_ℤ c.last_reported adjusted then adjusted else c.last_reported in
    (reported, record c { last_reported = reported; last_reported_unadjusted = reading })

-- _lf_time_type, and a number that is none of its values
pub data TimeType : Type 0 where
  logical physical elapsed_logical elapsed_physical start other : TimeType

-- _lf_time
unfoldable pub lf_time : TimeType → ℤ → Clock → ℤ × Clock
unfolding physical_time
lf_time logical reading c = (c.current_tag.time, c)
lf_time physical reading c = physical_time reading c
lf_time elapsed_logical reading c = (c.current_tag.time -ℤ c.start_time, c)
lf_time elapsed_physical reading c =
    let (t, c') = physical_time reading c in (t -ℤ c.physical_start_time, c')
lf_time start reading c = (c.start_time, c)
lf_time other reading c = (never, c)

-- lf_set_physical_clock_offset
unfoldable pub set_physical_clock_offset : ℤ → Clock → Clock
set_physical_clock_offset offset c = record c {
  test_physical_clock_offset = c.test_physical_clock_offset +ℤ offset;
}

-- Uses of the clock: a request for the physical time, a change of the offset, and a change of the
-- offset that clock synchronization keeps.
pub data Use : Type 0 where
  ask : ℤ → Use
  offset : ℤ → Use
  synchronize : ℤ → Use

-- the physical times that a sequence of uses reports
unfoldable pub reports : List Use → Clock → List ℤ
unfolding physical_time set_physical_clock_offset
reports [] c = []
reports (ask reading ∷ us) c = let (t, c') = physical_time reading c in t ∷ reports us c'
reports (offset o ∷ us) c = reports us (set_physical_clock_offset o c)
reports (synchronize o ∷ us) c = reports us (record c { physical_clock_offset = o })

-- no entry is below the one before it, nor below the bound
abbrev pub Ascends : ℤ → List ℤ → Type 0
Ascends low [] = Unit
Ascends low (t ∷ ts) = (low ≤ℤ t) × Ascends t ts

last_reported-le : (reading : ℤ) (c : Clock) → c.last_reported ≤ℤ (physical_time reading c).0
unfolding physical_time
last_reported-le reading c =
    let adjusted = reading +ℤ c.physical_clock_offset +ℤ c.test_physical_clock_offset in
    elim (Bool-cases (ltb_ℤ c.last_reported adjusted)) [
      | inl e ↦ rw e (ground arith)
      | inr e ↦ rw e (omega arith)
    ]

-- Physical time never goes back: whatever the platform's clock reads and however the offsets are
-- changed in between, the times that are reported ascend from the last one reported before.
pub physical_time_monotone : (us : List Use) (c : Clock) → Ascends c.last_reported (reports us c)
unfolding reports
physical_time_monotone [] c = tt
physical_time_monotone (ask reading ∷ us) c =
    (last_reported-le reading c, physical_time_monotone us (physical_time reading c).1)
physical_time_monotone (offset o ∷ us) c = physical_time_monotone us (set_physical_clock_offset o c)
physical_time_monotone (synchronize o ∷ us) c =
    physical_time_monotone us (record c { physical_clock_offset = o })
