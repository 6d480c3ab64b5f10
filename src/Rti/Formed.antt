-- ===== src/Rti/Formed.antt =====
-- core/federated/RTI/rti.c: a federation that the RTI's loops can be run on.
use schedule_test_manual.Base.{
  ℕ, zero, suc, ◌≡◌, ◌<◌, refl, ◌⊎◌, inl, inr, Bool, true, false, some, List, [], ◌∷◌, length,
  get_elem?, set, replicate, arith,
}
use schedule_test_manual.Base.Int.{ℤ, pos, ◌≤ℤ◌}
use schedule_test_manual.Tag.{Tag, delay_tag, never, forever}
use schedule_test_manual.Tag.Delay.{InRange, delay_tag_total}
use schedule_test_manual.Rti.{Federate, RtiInstance, is_pending}

-- the delay of a connection: NEVER for none, otherwise from 0 on
abbrev pub IsDelay : ℤ → Type 0
IsDelay d = (d ≡ never) ⊎ ((pos 0 ≤ℤ d) × (d ≤ℤ forever))

-- connections from federates below `n`
abbrev pub AreUpstream : ℕ → List (ℕ × ℤ) → Type 0
AreUpstream n [] = Unit {0}
AreUpstream n ((u, d) ∷ more) = (u < n) × IsDelay d × AreUpstream n more

abbrev pub AreBelow : ℕ → List ℕ → Type 0
AreBelow n [] = Unit {0}
AreBelow n (i ∷ more) = (i < n) × AreBelow n more

-- a federate among `n`, with the start time sent, and with times that are of int64_t
pub record IsFormed (n : ℕ) (fed : Federate) : Type 0 where
  pub connections : AreUpstream n fed.upstream
  pub downstream_below : AreBelow n fed.downstream
  pub completed_time : InRange fed.completed.time
  pub next_time : InRange fed.next_event.time
  pub transit_times : (p : ℕ) → InRange (fed.in_transit_message_tags.tag_of p).time
  pub started : is_pending fed.state ≡ false

pub record IsFederation (s : RtiInstance) : Type 0 where
  pub federate :
      (id : ℕ) (fed : Federate)
      → get_elem? s.federates id ≡ some fed
      → IsFormed (length s.federates) fed
  pub start : InRange s.start_time
  pub stop_time : InRange s.max_stop_tag.time

pub IsDelay-total :
    (t : Tag) (d : ℤ)
    → InRange t.time
    → IsDelay d
    → (r : Tag) × (delay_tag t d ≡ some r) × InRange r.time
unfolding delay_tag
IsDelay-total t d h (inl e) = (t, rw e (ground arith), h)
IsDelay-total t d h (inr (l, u)) = delay_tag_total t d h l u

-- the federates that an array `visited` leaves
unfoldable pub unseen : List Bool → ℕ
unseen [] = 0
unseen (true ∷ v) = unseen v
unseen (false ∷ v) = suc (unseen v)

pub unseen-set :
    (v : List Bool) (i : ℕ) → get_elem? v i ≡ some false → suc (unseen (set v i true)) ≡ unseen v
unfolding unseen
unseen-set [] i e = cc
unseen-set (false ∷ v) zero e = refl
unseen-set (true ∷ v) zero e = cc
unseen-set (true ∷ v) (suc i) e = unseen-set v i e
unseen-set (false ∷ v) (suc i) e = omega (arith, unseen-set v i e)

pub unseen-replicate : (n : ℕ) → unseen (replicate n false) ≡ n
unfolding unseen
unseen-replicate zero = refl
unseen-replicate (suc n) = omega (arith, unseen-replicate n)
