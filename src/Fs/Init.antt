-- ===== src/Fs/Init.antt =====
-- lf_sched_init of core/threaded/scheduler_FS.c and init_sched_instance of
-- include/core/threaded/scheduler_instance.h: the state in which the workers start.
use schedule_test_manual.Base.{
  [], ◌∷◌, ap, ◌∙◌, ℕ, zero, suc, ◌<◌, ◌≡◌, ◌≤◌, List, replicate, length, length-replicate,
  get_elem?, get_elem?_of_lt, some, true, false, refl, arith, inl,
}
use schedule_test_manual.Base.Int.{ℤ, pos}
use schedule_test_manual.Tag.{Tag}
use schedule_test_manual.Fs.{Inst, inactive, Sched}
use schedule_test_manual.Fs.System.{Place, fetching, Worker, System}
use schedule_test_manual.Fs.Check.{Sizes, check_codes, check_codes-get_elem?, check_code-pos}
use schedule_test_manual.Fs.Safety.Paths.{IsSafe}
use schedule_test_manual.Fs.Barrier.Counts.{is_waiting, is_last, total, IsCounted}

-- the loop over the tags of the reactors that are counted; a tag that it leaves is as calloc gives it
unfoldable pub start_tags : ℕ → Tag → List Tag → List Tag
start_tags zero start tags = tags
start_tags (suc n) start [] = []
start_tags (suc n) start (tag ∷ tags) = start ∷ start_tags n start tags

-- The arrays are those of the parameters: `z.reactors` tags of reactors and `z.flags` stop flags, of
-- which lf_sched_init is told `z.counted`. The second call of lf_sched_init finds the instance there and
-- sets the tags of these reactors to the start time, which the first call does not know yet; this is the
-- state after both.
unfoldable pub init_sched : Sizes → ℕ → ℤ → ℤ → Tag → Sched
init_sched z number_of_workers start_time physical_start_time stop_tag = record {
  number_of_workers = number_of_workers;
  number_of_idle_workers = 0;
  semaphore = 0;
  counters = replicate z.counters 0;
  reactor_tags =
      start_tags z.counted (record { time = start_time; microstep = 0 })
        (replicate z.reactors (record { time = pos 0; microstep = 0 }));
  reached_stop_tag = replicate z.flags false;
  num_reactor_self_instances = z.counted;
  reactions = replicate z.reactions inactive;
  stop_tag = stop_tag;
  physical_start_time = physical_start_time;
}

-- a worker at the first line of its schedule
abbrev pub new_worker : Worker
new_worker = record { pc = 0; iteration = 0; place = fetching }

unfoldable pub init : Sizes → List (List Inst) → ℕ → ℤ → ℤ → Tag → System
unfolding init_sched
init z schedules number_of_workers start_time physical_start_time stop_tag = record {
  sched = init_sched z number_of_workers start_time physical_start_time stop_tag;
  schedules = schedules;
  workers = replicate number_of_workers new_worker;
}

pub get_elem?-replicate {ℓ} :
    {A : Type ℓ} (n i : ℕ) (a b : A) → get_elem? (replicate n a) i ≡ some b → (b ≡ a) × (i < n)
get_elem?-replicate zero i a b e = absurd (cc)
get_elem?-replicate (suc n) zero a b e = (cc, omega arith)
get_elem?-replicate (suc n) (suc i) a b e =
    let (p, q) = get_elem?-replicate n i a b e in (p, omega arith)

total-new : (f : Place → ℕ) (n : ℕ) → f fetching ≡ 0 → total f (replicate n new_worker) ≡ 0
unfolding total
total-new f zero e = refl
total-new f (suc n) e = omega (arith, total-new f n e)

length-start_tags :
    (n : ℕ) (start : Tag) (tags : List Tag) → length (start_tags n start tags) ≡ length tags
unfolding start_tags
length-start_tags zero start tags = refl
length-start_tags (suc n) start [] = refl
length-start_tags (suc n) start (tag ∷ tags) = ap suc (length-start_tags n start tags)

-- A system that starts with checked schedules, one for each worker, and with flags for the reactors
-- that are counted, is safe.
pub init-IsSafe :
    (z : Sizes) (schedules : List (List Inst)) (n : ℕ) (start physical : ℤ) (stop : Tag)
    → check_codes z schedules ≡ true
    → n ≤ length schedules
    → z.counted ≤ z.flags
    → IsSafe z (init z schedules n start physical stop)
unfolding init
init-IsSafe z schedules n start physical stop c h fit = record {
  checked = c;
  sizes = record {
    counters = length-replicate _ _;
    reactors = length-start_tags z.counted _ (replicate z.reactors _) ∙ length-replicate _ _;
    counted = let q = length-replicate z.flags false in omega arith;
    reactions = length-replicate _ _;
  };
  inside = λ m w e.
      let (p, q) = get_elem?-replicate n m new_worker w e in
      let (code, d) = get_elem?_of_lt schedules m (omega arith) in
      let good = check_codes-get_elem? z m schedules code c d in
      (code, d, rw p (check_code-pos z code good));
}

-- At the start, with at least one worker, the counts of the barrier agree.
pub init-IsCounted :
    (z : Sizes) (schedules : List (List Inst)) (n : ℕ) (start physical : ℤ) (stop : Tag)
    → 0 < n
    → IsCounted (init z schedules n start physical stop)
unfolding init
init-IsCounted z schedules n start physical stop h =
    let none_waiting = total-new is_waiting n refl in
    let none_last = total-new is_last n refl in
    record {
      workers = length-replicate n new_worker;
      counted = omega arith;
      phase = inl (none_last, h);
    }
