-- ===== src/Tag/Compare.antt =====
-- The two tests that the code makes of lf_tag_compare of core/tag.c, `< 0` and `<= 0`, and the laws of
-- the order that they read.
use schedule_test_manual.Base.{
  ◌≡◌, ◌≤◌, ◌<◌, ◌↔◌, ◌⊎◌, inl, inr, Bool, true, false, not, arith, if◌then◌else◌, Bool-cases,
}
use schedule_test_manual.Base.Int.{pos, ◌≤ℤ◌, ◌<ℤ◌, ltb_ℤ, eq_of_parts}
use schedule_test_manual.Tag.{Tag, tag_compare}

-- `lf_tag_compare(a, b) < 0`
unfoldable pub is_before : Tag → Tag → Bool
unfolding tag_compare
is_before a b = ltb_ℤ (tag_compare a b) (pos 0)

-- `lf_tag_compare(a, b) <= 0`
unfoldable pub is_at_most : Tag → Tag → Bool
unfolding tag_compare
is_at_most a b = not (ltb_ℤ (pos 0) (tag_compare a b))

abbrev pub IsBefore : Tag → Tag → Type 0
IsBefore a b = is_before a b ≡ true

abbrev pub AtMost : Tag → Tag → Type 0
AtMost a b = is_at_most a b ≡ true

-- the assignment `if (lf_tag_compare(a, b) < 0) b = a`
abbrev pub earlier : Tag → Tag → Tag
earlier a b = if is_before a b then a else b

-- the tests read as orders on the parts, which `omega` adds up
AtMost-reads :
    (a b : Tag)
    → AtMost a b ↔ ((a.time <ℤ b.time) ⊎ (a.time ≤ℤ b.time) × (a.microstep ≤ b.microstep))
unfolding is_at_most
AtMost-reads a b = ground arith

IsBefore-reads :
    (a b : Tag)
    → IsBefore a b ↔ ((a.time <ℤ b.time) ⊎ (a.time ≤ℤ b.time) × (a.microstep < b.microstep))
unfolding is_before
IsBefore-reads a b = ground arith

pub AtMost-refl : (a : Tag) → AtMost a a
AtMost-refl a = (AtMost-reads a a).1 (omega arith)

pub AtMost-trans : (a b c : Tag) → AtMost a b → AtMost b c → AtMost a c
AtMost-trans a b c h k =
    let p = (AtMost-reads a b).0 h in
    let q = (AtMost-reads b c).0 k in (AtMost-reads a c).1 (omega arith)

pub IsBefore-AtMost : (a b : Tag) → IsBefore a b → AtMost a b
IsBefore-AtMost a b h = let p = (IsBefore-reads a b).0 h in (AtMost-reads a b).1 (omega arith)

pub IsBefore-of_AtMost : (a b c : Tag) → IsBefore a b → AtMost b c → IsBefore a c
IsBefore-of_AtMost a b c h k =
    let p = (IsBefore-reads a b).0 h in
    let q = (AtMost-reads b c).0 k in (IsBefore-reads a c).1 (omega arith)

pub AtMost-IsBefore : (a b c : Tag) → AtMost a b → IsBefore b c → IsBefore a c
AtMost-IsBefore a b c h k =
    let p = (AtMost-reads a b).0 h in
    let q = (IsBefore-reads b c).0 k in (IsBefore-reads a c).1 (omega arith)

pub not_before : (a b : Tag) → is_before a b ≡ false → AtMost b a
unfolding is_at_most is_before
not_before a b h = ground arith

pub not_at_most : (a b : Tag) → is_at_most a b ≡ false → IsBefore b a
unfolding is_at_most is_before
not_at_most a b h = ground arith

pub IsBefore-irrefl : (a : Tag) → ¬ IsBefore a a
IsBefore-irrefl a h = let p = (IsBefore-reads a a).0 h in absurd (omega arith)

pub AtMost-antisym : (a b : Tag) → AtMost a b → AtMost b a → a ≡ b
AtMost-antisym a b h k =
    let p = (AtMost-reads a b).0 h in
    let q = (AtMost-reads b a).0 k in
    let t = eq_of_parts a.time b.time (omega arith) in
    let m : a.microstep ≡ b.microstep = omega arith in cc

-- what the assignment keeps is no later than either tag, and is one of them
pub earlier_left : (a b : Tag) → AtMost (earlier a b) a
earlier_left a b = elim (Bool-cases (is_before a b)) [
  | inl e ↦ rw e (AtMost-refl a)
  | inr e ↦ rw e (not_before a b e)
]

pub earlier_right : (a b : Tag) → AtMost (earlier a b) b
earlier_right a b = elim (Bool-cases (is_before a b)) [
  | inl e ↦ rw e (IsBefore-AtMost a b e)
  | inr e ↦ rw e (AtMost-refl b)
]

pub earlier_one : (a b : Tag) → (earlier a b ≡ a) ⊎ (earlier a b ≡ b)
earlier_one a b = ground arith
