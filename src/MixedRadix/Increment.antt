-- ===== src/MixedRadix/Increment.antt =====
-- mixed_radix_incr of core/mixed_radix.c against the number that the digits stand for.
use native.Mathlib.Nat.{mul-suc, mul-zero}
use schedule_test_manual.Base.{
  ℕ, zero, suc, ◌+◌, ◌-◌, ◌*◌, ◌≡◌, ◌≢◌, ◌≤◌, ◌<◌, some, List, length, set, get_or, leb, arith,
  refl, ap, sym, ◌∙◌, ◌⊎◌, inl, inr, Bool-cases, length-set, lt→ltb,
}
use schedule_test_manual.MixedRadix.{MixedRadixInt, incr_loop, mixed_radix_incr}
use schedule_test_manual.MixedRadix.Number.{
  digit-set, get_elem?-in_range, scale, Next, place, value, numbers, IsValid, value-below,
  value-agree,
}

module _ (perm rs : List ℕ) where
  -- what the loop leaves
  pub record Incremented (n i : ℕ) (ds es : List ℕ) : Type 0 where
    pub next : Next (value perm rs n i ds) (value perm rs n i es) (numbers perm rs n i)
    pub size : length es ≡ length ds
    pub kept :
        (q : ℕ)
        → ((j : ℕ) → i ≤ j → j < i + n → place perm rs j ≢ q)
        → (get_or es q 0 ≡ get_or ds q 0) ⊎ (get_or es q 0 ≡ 0)

  -- the digit of this round is cleared before the next round
  cleared-IsValid :
      (n i : ℕ) (ds : List ℕ)
      → IsValid perm rs (suc n) i ds
      → IsValid perm rs n (i + 1) (set ds (place perm rs i) 0)
  cleared-IsValid n i ds h =
      let l1 = (h.entries i (omega arith) (omega arith)).1 in
      let size = length-set ds (place perm rs i) 0 in
      let room = h.inside in
      record {
        entries = λ j q s.
            let e = h.entries j (omega arith) (omega arith) in
            let e1 = e.1 in
            let e3 = e.3 in
            let f = digit-set ds (place perm rs i) 0 (place perm rs j) l1 in
            let ne = h.distinct i j (omega arith) (omega arith) (omega arith) in
            (e.0, omega arith, e.2, ground arith);
        distinct = λ j k q s t. h.distinct j k (omega arith) s (omega arith);
        some_digits = omega arith;
        inside = omega arith;
      }

  -- what an increment of the other digits makes of all of them
  carry :
      (n i : ℕ) (ds es : List ℕ)
      → IsValid perm rs (suc n) i ds
      → get_or ds (place perm rs i) 0 + 1 ≡ get_or rs (place perm rs i) 0
      → Incremented n (i + 1) (set ds (place perm rs i) 0) es
      → Incremented (suc n) i ds es
  unfolding value numbers
  carry n i ds es h full rest =
      let here = h.entries i (omega arith) (omega arith) in
      let p = place perm rs i in
      let r = get_or rs p 0 in
      let l1 = here.1 in
      let w = value perm rs n (i + 1) ds in
      let v = value perm rs n (i + 1) es in
      let size = length-set ds p 0 in
      let cleared = digit-set ds p 0 p l1 in
      let own : get_or es p 0 ≡ 0 =
        elim (rest.kept p
          (λ j q s e. h.distinct i j (omega arith) (omega arith) (omega arith) (sym e))) [
            | inl k ↦ ground arith
            | inr k ↦ k
          ] in
      let same = value-agree perm rs n (i + 1) (set ds p 0) ds (λ j q s.
        let e = digit-set ds p 0 (place perm rs j) l1 in
        let ne = h.distinct i j (omega arith) (omega arith) (omega arith) in ground arith) in
      let step = mul-suc r w in
      record {
        next = elim rest.next [
          | inl up ↦
              let more : v ≡ suc w = (let u = up.0 in omega arith) in
              let grown : r * v ≡ r * w + r = ap (λ k. r * k) more ∙ step in
              let below : v < numbers perm rs n (i + 1) = (let u = up.1 in omega arith) in
              let room = scale r v (numbers perm rs n (i + 1)) below in
              inl (omega arith, omega arith)
          | inr wraps ↦
              let zero' : r * v ≡ 0 = ap (λ k. r * k) wraps.0 ∙ mul-zero r in
              let all : suc w ≡ numbers perm rs n (i + 1) = (let u = wraps.1 in omega arith) in
              let total : r * w + r ≡ r * numbers perm rs n (i + 1) =
                sym step ∙ ap (λ k. r * k) all in
              inr (omega arith, omega arith)
        ];
        size = rest.size ∙ size;
        kept = λ q away.
            let e = digit-set ds p 0 q l1 in
            let ne = away i (omega arith) (omega arith) in
            elim (rest.kept q (λ j a b. away j (omega arith) (omega arith))) [
              | inl k ↦ inl (ground arith)
              | inr k ↦ inr k
            ];
      }

  pub incr_loop-Incremented :
      (n i : ℕ) (ds : List ℕ)
      → IsValid perm rs n i ds
      → (es : List ℕ) × (incr_loop n i perm rs ds ≡ some es) × Incremented n i ds es
  unfolding incr_loop value numbers
  incr_loop-Incremented zero i ds h =
      let pos = h.some_digits in
      let room = h.inside in
      let l : i - 1 < length ds = omega arith in
      (
        set ds (i - 1) 0,
        rw (lt→ltb (i - 1) (length ds) l) refl,
        record {
          next = inr (refl, refl);
          size = length-set ds (i - 1) 0;
          kept = λ q _. let e = digit-set ds (i - 1) 0 q l in ground arith;
        },
      )
  incr_loop-Incremented (suc n) i ds h =
      let here = h.entries i (omega arith) (omega arith) in
      let p = place perm rs i in
      let d = get_or ds p 0 in
      let r = get_or rs p 0 in
      let l0 = here.0 in
      let l1 = here.1 in
      let l2 = here.2 in
      let low = here.3 in
      let a = get_elem?-in_range perm i l0 in
      let b = get_elem?-in_range ds p l1 in
      let c = get_elem?-in_range rs p l2 in
      let fits = lt→ltb p (length ds) l1 in
      let w = value perm rs n (i + 1) ds in
      let bound =
        scale r w (numbers perm rs n (i + 1)) (
          value-below perm rs n (i + 1) ds
            (λ j p q. (h.entries j (omega arith) (omega arith)).3)) in
      elim (Bool-cases (leb r (d + 1))) [
        | inl carries ↦
            let full : d + 1 ≡ r = ground arith in
            let ih = incr_loop-Incremented n (i + 1) (set ds p 0) (cleared-IsValid n i ds h) in
            let es = ih.0 in
            (es, rw (a, b, c, fits, carries, ih.1) refl, carry n i ds es h full ih.2)
        | inr stops ↦
            let more : d + 1 < r = ground arith in
            let same = value-agree perm rs n (i + 1) (set ds p (d + 1)) ds (λ j q s.
              let e = digit-set ds p (d + 1) (place perm rs j) l1 in
              let ne = h.distinct i j (omega arith) (omega arith) (omega arith) in ground arith) in
            let own = digit-set ds p (d + 1) p l1 in
            (
              set ds p (d + 1),
              rw (a, b, c, fits, stops) refl,
              record {
                next = inl (rw same (ground arith), omega arith);
                size = length-set ds p (d + 1);
                kept = λ q away.
                    let e = digit-set ds p (d + 1) q l1 in
                    let ne = away i (omega arith) (omega arith) in ground arith;
              },
            )
      ]

-- what the digits stand for, in the order of the permutation, and how many numbers there are
abbrev pub number : MixedRadixInt → ℕ
number m = value m.permutation m.radixes m.size 0 m.digits

abbrev pub total : MixedRadixInt → ℕ
total m = numbers m.permutation m.radixes m.size 0

abbrev pub Valid : MixedRadixInt → Type 0
Valid m = IsValid m.permutation m.radixes m.size 0 m.digits

-- An increment of a number with at least one digit, whose permutation names different digits, all below
-- their radixes, never accesses anything out of range. It adds one to what the digits stand for in the
-- order of the permutation, or wraps from the largest such number to zero.
pub mixed_radix_incr-Next :
    (m : MixedRadixInt)
    → Valid m
    → (r : MixedRadixInt) × (mixed_radix_incr m ≡ some r) × Next (number m) (number r) (total m)
unfolding mixed_radix_incr
mixed_radix_incr-Next m h =
    let g = incr_loop-Incremented m.permutation m.radixes m.size 0 m.digits h in
    (record m { digits = g.0 }, rw g.1 refl, g.2.next)
