-- ===== src/Vector/Pop.antt =====
-- vector_pop of core/utils/vector.c.
use schedule_test_manual.Base.{
  ℕ, zero, suc, ◌-◌, ◌/◌, ◌≡◌, ◌<◌, true, false, Option, some, List, [], ◌∷◌, ◌++◌, ltb, leb, ◌==◌,
  if◌then◌else◌, get_elem?, take, arith, ap, ◌∙◌, sym, Bool-cases, inl, inr, get_elem?_of_lt, ◌&&◌,
}
use schedule_test_manual.Vector.{Vector, capacity, vector_pop}
use schedule_test_manual.Vector.Refine.{contents, IsValid, resize_keeps}

take-snoc :
    (cells : List (Option ℕ)) (i : ℕ) (c : Option ℕ)
    → get_elem? cells i ≡ some c
    → take (suc i) cells ≡ take i cells ++ c ∷ []
take-snoc [] i c h = absurd (cc)
take-snoc (d ∷ cells) zero c h = ground arith
take-snoc (d ∷ cells) (suc i) c h = ap (◌∷◌ d) (take-snoc cells i c h)

-- Popping a valid vector that has elements returns the last one and removes it.
pub pop_last :
    (v : Vector)
    → IsValid v
    → 0 < v.size
    → (w : Vector) × (c : Option ℕ) × (vector_pop v ≡ some (w, c))
      × IsValid w
      × (contents v ≡ contents w ++ c ∷ [])
unfolding vector_pop
pop_last v valid p =
    let (c, e) = get_elem?_of_lt v.cells (v.size - 1) (omega (arith, valid.fits)) in
    let some_left : (v.size == 0) ≡ false = ground arith in
    let step : suc (v.size - 1) ≡ v.size = omega arith in
    (
      record v { size = v.size - 1 },
      c,
      rw (some_left, e),
      record { fits = omega (arith, valid.fits); some_room = valid.some_room },
      ap (λ n. take n v.cells) (sym step) ∙ take-snoc v.cells (v.size - 1) c e,
    )

-- Popping an empty valid vector returns NULL and leaves it valid and empty, with its capacity the
-- same or, if the votes suffice and it stays above zero, halved.
pub pop-empty :
    (v : Vector)
    → IsValid v
    → v.size ≡ 0
    → (w : Vector) × (vector_pop v ≡ some (w, some 0))
      × IsValid w
      × (w.size ≡ 0)
      × (capacity w ≡ (
          if leb v.votes_required v.votes && ltb 0 (capacity v / 2)
          then capacity v / 2
          else capacity v))
unfolding vector_pop
pop-empty v valid z =
    let nothing : (v.size == 0) ≡ true = ground arith in
    elim (Bool-cases (leb v.votes_required v.votes && ltb 0 (capacity v / 2))) [
      | inl shrinks ↦
          let half : 0 < capacity v / 2 = ground arith in
          let (w, e, s, c, _) = resize_keeps (capacity v / 2) v valid half (omega arith) in
          (
            w,
            rw (nothing, shrinks, e),
            record { fits = omega arith; some_room = omega arith },
            s ∙ z,
            rw shrinks c,
          )
      | inr stays ↦ (v, rw (nothing, stays), valid, z, rw stays)
    ]
