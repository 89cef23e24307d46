-- ===== src/Net/Permits.antt =====
-- crates/filesec-gui/src/net/concurrency.rs: the semaphore of the listener, with its workers. A worker
-- acts in steps, each of them one access of the shared counter, and a schedule says who acts next.
use file_sec.Prelude.{
  ℕ, zero, suc, ◌+◌, ◌%◌, ◌<◌, ◌≡◌, refl, sym, ap, ◌∙◌, Bool, ◌&&◌, none, some, List, [], ◌∷◌,
  get_elem?, set, replicate, if◌then◌else◌, ◌==◌, ==_iff, Bool-cases, Option-cases, and-eq-true,
  inl, inr, arith,
}

-- Outside, in the loop of `try_acquire` with the counter as it saw it, or with a permit.
pub data Worker : Type 0 where
  idle : Worker
  loaded : ℕ → Worker
  holding : Worker

-- `exchange` says whether the weak exchange succeeds where it can; it may fail without a reason.
pub data Move : Type 0 where
  start : Move
  exchange : Bool → Move
  release : Move

-- The drop of a permit: `fetch_add` on the counter.
abbrev pub give_back : ℕ → ℕ
give_back available = (available + 1) % 18446744073709551616

-- One step of a worker, with the counter before and after it.
unfoldable pub act : Move → Worker → ℕ → Worker × ℕ
act start idle available = (loaded available, available)
act (exchange succeeds) (loaded zero) available = (idle, available)
act (exchange succeeds) (loaded (suc current)) available =
    if (available == suc current) && succeeds
    then (holding, current)
    else (loaded available, available)
act release holding available = (idle, give_back available)
act _ worker available = (worker, available)

pub record Semaphore : Type 0 where
  pub available : ℕ  -- usize
  pub workers : List Worker

unfoldable pub new_semaphore : ℕ → ℕ → Semaphore
new_semaphore capacity workers = record { available = capacity; workers = replicate workers idle }

abbrev pub acted : ℕ → Semaphore → Worker × ℕ → Semaphore
acted index s (worker, available) = record {
  available = available;
  workers = set s.workers index worker;
}

unfoldable pub step : Semaphore → ℕ → Move → Semaphore
unfolding act
step s index move = elim (get_elem? s.workers index) [
  | none ↦ s
  | some worker ↦ acted index s (act move worker s.available)
]

unfoldable pub run_schedule : Semaphore → List (ℕ × Move) → Semaphore
unfolding step
run_schedule s [] = s
run_schedule s ((index, move) ∷ rest) = run_schedule (step s index move) rest

abbrev pub permits : Worker → ℕ
permits holding = 1
permits _ = 0

abbrev pub in_flight : List Worker → ℕ
in_flight [] = 0
in_flight (w ∷ ws) = permits w + in_flight ws

act_lem :
    (capacity others : ℕ) (move : Move) (w : Worker) (available : ℕ)
    → capacity < 18446744073709551616
    → available + (permits w + others) ≡ capacity
    → (act move w available).1 + (permits (act move w available).0 + others) ≡ capacity
unfolding act
act_lem capacity others start idle available h b = b
act_lem capacity others start (loaded c) available h b = b
act_lem capacity others start holding available h b = b
act_lem capacity others (exchange s) idle available h b = b
act_lem capacity others (exchange s) holding available h b = b
act_lem capacity others (exchange s) (loaded zero) available h b = b
act_lem capacity others (exchange s) (loaded (suc c)) available h b =
    elim (Bool-cases ((available == suc c) && s)) [
      | inr n ↦ rw (n) b
      | inl y ↦
          let same = (==_iff available (suc c)).0 (and-eq-true (available == suc c) s y).0 in
          rw (y) (omega arith)
    ]
act_lem capacity others release idle available h b = b
act_lem capacity others release (loaded c) available h b = b
act_lem capacity others release holding available h b = omega arith

-- The permits of the workers but one.
in_flight-set :
    (ws : List Worker) (index : ℕ) (w : Worker)
    → get_elem? ws index ≡ some w
    → (others : ℕ) × (in_flight ws ≡ permits w + others)
      × ((x : Worker) → in_flight (set ws index x) ≡ permits x + others)
in_flight-set [] index w h = absurd cc
in_flight-set (v ∷ ws) zero w h =
    let same : v ≡ w = cc in (in_flight ws, ap (λ x. permits x + in_flight ws) same, (λ x. refl))
in_flight-set (v ∷ ws) (suc index) w h =
    let (others, now, later) = in_flight-set ws index w h in
    (permits v + others, omega (arith, now), (λ x. omega (arith, later x)))

in_flight_idle : (n : ℕ) → in_flight (replicate n idle) ≡ 0
in_flight_idle zero = refl
in_flight_idle (suc n) = omega (arith, in_flight_idle n)

abbrev pub IsBalanced : ℕ → Semaphore → Type 0
IsBalanced capacity s = s.available + in_flight s.workers ≡ capacity

step-IsBalanced :
    (capacity : ℕ) (s : Semaphore) (index : ℕ) (move : Move)
    → capacity < 18446744073709551616
    → IsBalanced capacity s
    → IsBalanced capacity (step s index move)
unfolding step
step-IsBalanced capacity s index move h b = elim (Option-cases (get_elem? s.workers index)) [
  | inl missing ↦ rw (step, missing) b
  | inr (w, found) ↦
      let (others, now, later) = in_flight-set s.workers index w found in
      let moved =
        act_lem capacity others move w s.available h (ap (λ n. s.available + n) (sym now) ∙ b) in
      rw (step, found)
        (ap (λ n. (act move w s.available).1 + n) (later (act move w s.available).0) ∙ moved)
]

run-IsBalanced :
    (capacity : ℕ) (s : Semaphore) (schedule : List (ℕ × Move))
    → capacity < 18446744073709551616
    → IsBalanced capacity s
    → IsBalanced capacity (run_schedule s schedule)
unfolding run_schedule
run-IsBalanced capacity s [] h b = b
run-IsBalanced capacity s ((index, move) ∷ rest) h b =
    run-IsBalanced capacity (step s index move) rest h (step-IsBalanced capacity s index move h b)

-- In whatever order the accesses of any number of workers to the counter interleave, and however often a
-- weak exchange fails, the free permits and the ones that are held make the capacity: there are never
-- more connections in flight than that, and no permit is lost.
pub run_schedule-IsBalanced :
    (capacity workers : ℕ) (schedule : List (ℕ × Move))
    → capacity < 18446744073709551616
    → IsBalanced capacity (run_schedule (new_semaphore capacity workers) schedule)
unfolding new_semaphore
run_schedule-IsBalanced capacity workers schedule h =
    run-IsBalanced capacity (new_semaphore capacity workers) schedule h
      (omega (arith, in_flight_idle workers))
