-- ===== src/Fs/Induction.antt =====
-- From one turn of one worker to every interleaving.
use mathlib.Core.Path.{subst}
use schedule_test_manual.Base.{
  ℕ, ◌≡◌, List, [], ◌∷◌, refl, some, get_elem?, set, inl, inr, Option-cases,
}
use schedule_test_manual.Base.Int.{ℤ}
use schedule_test_manual.Fs.{
  Inst, Run, ok, blocked, fault, ◌>>=◌, Ensures, Ensures-bind, Ensures-ok,
}
use schedule_test_manual.Fs.System.{
  Worker, System, turn_at, turn, perform, Event, runs, triggers, update_status, triggered, Reach,
  here, next, run,
}

-- a turn keeps what it keeps for the worker that takes it
pub turn-Ensures {κ} :
    (P : System → Type κ) (now : ℤ) (n : ℕ) (y : System)
    → ((w : Worker) (code : List Inst)
        → get_elem? y.workers n ≡ some w
        → get_elem? y.schedules n ≡ some code
        → Ensures
            (λ (s, w'). P (record y { sched = s; workers = set y.workers n w' }))
            (turn_at w.place now code y.sched w))
    → Ensures P (turn now n y)
unfolding turn
turn-Ensures P now n y h = elim (Option-cases (get_elem? y.workers n)) [
  | inl e ↦ rw (e, turn) tt
  | inr (w, e) ↦ elim (Option-cases (get_elem? y.schedules n)) [
    | inl d ↦ rw (e, d, turn) tt
    | inr (code, d) ↦
        rw (e, d, turn)
          (Ensures-bind (λ (s, w'). P (record y { sched = s; workers = set y.workers n w' })) P
            (turn_at w.place now code y.sched w)
            (λ (s, w'). ok (record y { sched = s; workers = set y.workers n w' })) (h w code e d)
            (λ _ p. p))
  ]
]

-- what every turn and every trigger keeps holds in every state that is reached
pub Reach-induction {κ} :
    (P : System → Type κ) {x y : System}
    → ((now : ℤ) (n : ℕ) (y : System) → P y → Ensures P (turn now n y))
    → ((r : ℕ) (y : System) → P y → P (record y { sched = update_status triggered r y.sched }))
    → P x
    → Reach x y
    → P y
unfolding perform
Reach-induction P on_turn on_trigger p here = p
Reach-induction P on_turn on_trigger p (next {y = y} r (runs now n) e) =
    Ensures-ok P (turn now n y) (on_turn now n y (Reach-induction P on_turn on_trigger p r)) e
Reach-induction P on_turn on_trigger p (next {y = y} r (triggers t) e) =
    Ensures-ok P (ok (record y { sched = update_status triggered t y.sched }))
      (on_trigger t y (Reach-induction P on_turn on_trigger p r)) e

-- a composed run that ends well has a first half that does
bind-ok :
    (m : Run System) (k : System → Run System) (z : System)
    → (m >>= k) ≡ ok z
    → (y : System) × (m ≡ ok y) × (k y ≡ ok z)
bind-ok (ok y) k z h = (y, refl, h)
bind-ok blocked k z h = absurd (cc)
bind-ok (fault e) k z h = absurd (cc)

-- a sequence of events that runs through leads to a reachable state
pub run-Reach : (es : List Event) {x y z : System} → Reach x y → run es y ≡ ok z → Reach x z
unfolding run
run-Reach [] {x} {y} {z} r e = let same : y ≡ z = cc in subst (Reach x) same r
run-Reach (e ∷ es) {x} {y} {z} r h =
    let b = bind-ok (perform e y) (run es) z h in run-Reach es (next r e b.1) b.2
