-- ===== src/Retry/Bounds.antt =====
-- How long RetryPolicy.run of cad_harness/persistence/retry.py goes on. The number of calls and the time
-- slept are read off the world by functions that the operation and `sleep` advance.
use autocad_mechanical_harne.Base.{ℕ, zero, suc, ◌+◌, ◌-◌, ◌*◌, ◌≤◌, ◌<◌, ◌≡◌, false, arith}
use autocad_mechanical_harne.Errors.{Result, err, harness_error}
use autocad_mechanical_harne.Retry.{
  Outcome, returned, locked, failed, RetryPolicy, delay_after, gives_up, after_attempt,
  attempts_from, run,
}

delay_within :
    {S A : Type 0} (policy : RetryPolicy S) (operation : S → Outcome A × S) (attempt elapsed : ℕ)
    → delay_after policy operation attempt elapsed ≤ policy.budget - elapsed
unfolding delay_after
delay_within policy operation attempt elapsed = omega arith

not_given_up :
    {S A : Type 0} (policy : RetryPolicy S) (operation : S → Outcome A × S) (attempt elapsed : ℕ)
    → gives_up policy operation attempt elapsed ≡ false
    → attempt < policy.max_attempts
unfolding gives_up
not_given_up policy operation attempt elapsed e = ground (arith, e)

-- A world in which calls and sleeps are counted and the clock does not run backwards; it runs for
-- what is slept at least.
pub record Measured {S A : Type 0} (policy : RetryPolicy S) (operation : S → Outcome A × S)
    (tries slept : S → ℕ) : Type 0 where
  pub tried : (s : S) → tries (operation s).1 ≡ tries s + 1
  pub awake : (s : S) → slept (operation s).1 ≡ slept s
  pub onwards : (s : S) → policy.clock s ≤ policy.clock (operation s).1
  pub idle : (d : ℕ) (s : S) → tries (policy.sleep d s) ≡ tries s
  pub asleep : (d : ℕ) (s : S) → slept (policy.sleep d s) ≡ slept s + d
  pub passed : (d : ℕ) (s : S) → policy.clock s + d ≤ policy.clock (policy.sleep d s)

module _ {S A : Type 0} (policy : RetryPolicy S) (operation : S → Outcome A × S)
    (tries slept : S → ℕ) (measured : Measured policy operation tries slept) where
  attempts_bounded :
      (started attempt rounds slept0 : ℕ) (s : S)
      → slept s ≤ slept0 + policy.budget
      → started + slept s ≤ slept0 + policy.clock s
      → (tries (attempts_from policy operation started attempt rounds s).1 ≤ tries s + rounds)
        × (slept (attempts_from policy operation started attempt rounds s).1
            ≤ slept0 + policy.budget)
  unfolding attempts_from after_attempt
  attempts_bounded started attempt zero slept0 s h k = (omega arith, h)
  attempts_bounded started attempt (suc rounds) slept0 s h k =
      let after = (operation s).1 in
      let d = delay_after policy operation attempt (policy.clock after - started) in
      ground (
        arith,
        measured.tried s,
        measured.awake s,
        measured.onwards s,
        delay_within policy operation attempt (policy.clock after - started),
        measured.idle d after,
        measured.asleep d after,
        measured.passed d after,
        attempts_bounded started (attempt + 1) rounds slept0 (policy.sleep d after),
      )

  -- While the clock never goes back, and runs on by at least what is slept, whatever the operation
  -- comes to: it is called `max_attempts` times at most, and the sleeps between the calls add up to the
  -- budget at most.
  pub run_bounded :
      (s : S)
      → (tries (run policy operation s).1 ≤ tries s + policy.max_attempts)
        × (slept (run policy operation s).1 ≤ slept s + policy.budget)
  unfolding run
  run_bounded s =
      attempts_bounded (policy.clock s) 1 policy.max_attempts (slept s) s (omega arith)
        (omega arith)

-- A world in which calls and sleeps are counted; nothing is said of its clock.
pub record Counted {S A : Type 0} (policy : RetryPolicy S) (operation : S → Outcome A × S)
    (tries slept : S → ℕ) : Type 0 where
  pub tried : (s : S) → tries (operation s).1 ≡ tries s + 1
  pub awake : (s : S) → slept (operation s).1 ≡ slept s
  pub idle : (d : ℕ) (s : S) → tries (policy.sleep d s) ≡ tries s
  pub asleep : (d : ℕ) (s : S) → slept (policy.sleep d s) ≡ slept s + d

module _ {S A : Type 0} (policy : RetryPolicy S) (operation : S → Outcome A × S)
    (tries slept : S → ℕ) (counted : Counted policy operation tries slept) where
  attempts_counted :
      (started attempt rounds : ℕ) (s : S)
      → (tries (attempts_from policy operation started attempt rounds s).1 ≤ tries s + rounds)
        × (slept (attempts_from policy operation started attempt rounds s).1
            ≤ slept s + rounds * policy.budget)
  unfolding attempts_from after_attempt
  attempts_counted started attempt zero s = (omega arith, omega arith)
  attempts_counted started attempt (suc rounds) s =
      let after = (operation s).1 in
      let d = delay_after policy operation attempt (policy.clock after - started) in
      let step : suc rounds * policy.budget ≡ rounds * policy.budget + policy.budget =
        omega arith in
      ground (
        arith,
        step,
        counted.tried s,
        counted.awake s,
        delay_within policy operation attempt (policy.clock after - started),
        counted.idle d after,
        counted.asleep d after,
        attempts_counted started (attempt + 1) rounds (policy.sleep d after),
      )

  -- Whatever the operation and the clock do, also where the clock stands still or goes back: the
  -- operation is called `max_attempts` times at most, and the sleeps add up to the budget for each of
  -- these calls at most.
  pub run_counted :
      (s : S)
      → (tries (run policy operation s).1 ≤ tries s + policy.max_attempts)
        × (slept (run policy operation s).1 ≤ slept s + policy.max_attempts * policy.budget)
  unfolding run
  run_counted s = attempts_counted (policy.clock s) 1 policy.max_attempts s

module _ {S A : Type 0} (policy : RetryPolicy S) (operation : S → Outcome A × S) where
  after_locked :
      (started attempt : ℕ) (made : Outcome A × S) (rest : S → Result A × S)
      → made.0 ≡ locked
      → ((t : S) → attempt < policy.max_attempts → (rest t).0 ≡ err harness_error)
      → (after_attempt policy operation started attempt made rest).0 ≡ err harness_error
  unfolding after_attempt
  after_locked started attempt (locked, t) rest e h =
      let elapsed = policy.clock t - started in
      ground (
        arith,
        not_given_up policy operation attempt elapsed,
        h (policy.sleep (delay_after policy operation attempt elapsed) t),
      )
  after_locked started attempt (returned a, t) rest e h = cc
  after_locked started attempt (failed raised, t) rest e h = cc

  attempts_locked :
      (started attempt rounds : ℕ) (s : S)
      → ((t : S) → (operation t).0 ≡ locked)
      → attempt + rounds ≡ policy.max_attempts + 1
      → 0 < rounds
      → (attempts_from policy operation started attempt rounds s).0 ≡ err harness_error
  unfolding attempts_from
  attempts_locked started attempt zero s stuck e pos = absurd (omega arith)
  attempts_locked started attempt (suc rounds) s stuck e pos =
      after_locked started attempt (operation s) _ (stuck s)
        λ t more. attempts_locked started (attempt + 1) rounds t stuck (omega arith) (omega arith)

  -- While the database stays locked, a run of a policy that allows an attempt ends, and in the
  -- HarnessError that tells that the retries are used up: neither the lock's own error nor the
  -- assertion after the loop is reached.
  pub run_locked :
      (s : S)
      → ((t : S) → (operation t).0 ≡ locked)
      → 0 < policy.max_attempts
      → (run policy operation s).0 ≡ err harness_error
  unfolding run
  run_locked s stuck pos =
      attempts_locked (policy.clock s) 1 policy.max_attempts s stuck (omega arith) pos
