-- ===== src/Retry/Examples.antt =====
-- A database that is locked for its first calls, under the retry policy of
-- cad_harness/persistence/retry.py.
use autocad_mechanical_harne.Base.{ℕ, ◌+◌, ◌*◌, ◌≤◌, ◌≡◌, refl, Bool, true, false, ltb, arith}
use autocad_mechanical_harne.Errors.{ok, err, harness_error}
use autocad_mechanical_harne.Retry.{
  Outcome, returned, locked, RetryPolicy, delay_after, gives_up, after_attempt, attempts_from, run,
}
use autocad_mechanical_harne.Retry.Bounds.{Measured, Counted, run_bounded, run_counted, run_locked}

record Meter : Type 0 where
  clock : ℕ
  tries : ℕ
  slept : ℕ

abbrev policy : RetryPolicy Meter
policy = record {
  max_attempts = 5;
  budget = 2_000_000;
  initial_delay = 50_000;
  backoff_multiplier = 2;
  clock = λ m. m.clock;
  sleep = λ d m. record m { clock = m.clock + d; slept = m.slept + d };
}

abbrev free_after : Bool → Outcome ℕ
free_after true = locked
free_after false = returned 7

-- Locked twice; a call takes a millisecond.
abbrev busy : Meter → Outcome ℕ × Meter
busy m = (free_after (ltb m.tries 2), record m { clock = m.clock + 1_000; tries = m.tries + 1 })

abbrev stuck : Meter → Outcome ℕ × Meter
stuck m = (locked, record m { clock = m.clock + 1_000_000; tries = m.tries + 1 })

abbrev began : Meter
began = record { clock = 10; tries = 0; slept = 0 }

busy_runs : run policy busy began ≡ (ok 7, record { clock = 153_010; tries = 3; slept = 150_000 })
unfolding run attempts_from after_attempt gives_up delay_after
busy_runs = refl

stuck_runs : (run policy stuck began).1 ≡ record { clock = 2_050_010; tries = 2; slept = 50_000 }
unfolding run attempts_from after_attempt gives_up delay_after
stuck_runs = refl

abbrev busy_measured : Measured policy busy (λ m. m.tries) (λ m. m.slept)
busy_measured = record {
  tried = λ s. refl;
  awake = λ s. refl;
  onwards = λ s. omega arith;
  idle = λ d s. refl;
  asleep = λ d s. refl;
  passed = λ d s. omega arith;
}

run_bounded_example :
    ((run policy busy began).1.tries ≤ 0 + 5) × ((run policy busy began).1.slept ≤ 0 + 2_000_000)
run_bounded_example = run_bounded policy busy (λ m. m.tries) (λ m. m.slept) busy_measured began

run_locked_example : (run policy stuck began).0 ≡ err harness_error
run_locked_example = run_locked policy stuck began (λ t. refl) (omega arith)

-- A clock that goes back while a call runs, and a sleep that it does not see.
abbrev frozen : RetryPolicy Meter
frozen = record policy { sleep = λ d m. record m { slept = m.slept + d } }

abbrev backwards : Meter → Outcome ℕ × Meter
backwards m = (locked, record m { clock = 0; tries = m.tries + 1 })

abbrev backwards_counted : Counted frozen backwards (λ m. m.tries) (λ m. m.slept)
backwards_counted = record {
  tried = λ s. refl;
  awake = λ s. refl;
  idle = λ d s. refl;
  asleep = λ d s. refl;
}

run_counted_example :
    ((run frozen backwards began).1.tries ≤ 0 + 5)
    × ((run frozen backwards began).1.slept ≤ 0 + 5 * 2_000_000)
run_counted_example =
    run_counted frozen backwards (λ m. m.tries) (λ m. m.slept) backwards_counted began
