-- ===== src/Retry.antt =====
-- cad_harness/persistence/retry.py: the bounded retry of a database operation. Durations are whole
-- microseconds and the multiplier is a natural number, as the defaults are. `S` is the world that the
-- operation works on; the clock reads it, and sleeping changes it.
pub mod Bounds
mod Examples
use Prim.Native.Nat.{◌^◌, min}
use autocad_mechanical_harne.Base.{
  ℕ, zero, suc, ◌+◌, ◌-◌, ◌*◌, Bool, true, false, ◌||◌, leb, nat_eq, if◌then◌else◌,
}
use autocad_mechanical_harne.Errors.{HarnessError, Result, ok, err, harness_error, assertion_error}

-- What a call of the operation comes to: a value, the OperationalError of a locked database, or
-- another exception (an OperationalError of another kind is one).
pub data Outcome (A : Type 0) : Type 0 where
  returned : A → Outcome A
  locked : Outcome A
  failed : HarnessError → Outcome A

pub record RetryPolicy (S : Type 0) : Type 0 where
  pub max_attempts : ℕ
  pub budget : ℕ
  pub initial_delay : ℕ
  pub backoff_multiplier : ℕ
  pub clock : S → ℕ
  pub sleep : ℕ → S → S

module _ {S : Type 0} {A : Type 0} (policy : RetryPolicy S) (operation : S → Outcome A × S) where
  -- min(requested_delay, budget - elapsed); at 0 the source's `delay <= 0.0` holds.
  unfoldable pub delay_after : ℕ → ℕ → ℕ
  delay_after attempt elapsed =
      min (policy.initial_delay * policy.backoff_multiplier ^ (attempt - 1))
        (policy.budget - elapsed)

  -- `attempt >= max_attempts or elapsed >= budget`, and `delay <= 0.0` after it: both give up.
  unfoldable pub gives_up : ℕ → ℕ → Bool
  unfolding delay_after
  gives_up attempt elapsed =
      (leb policy.max_attempts attempt || leb policy.budget elapsed)
      || nat_eq (delay_after attempt elapsed) 0

  -- What follows an attempt: its result, or the rest of the loop after a sleep.
  unfoldable pub after_attempt : ℕ → ℕ → Outcome A × S → (S → Result A × S) → Result A × S
  unfolding gives_up delay_after
  after_attempt started attempt (returned a, s) rest = (ok a, s)
  after_attempt started attempt (failed e, s) rest = (err e, s)
  after_attempt started attempt (locked, s) rest =
      let elapsed = policy.clock s - started in
      if gives_up attempt elapsed
      then (err harness_error, s)
      else rest (policy.sleep (delay_after attempt elapsed) s)

  -- for attempt in range(attempt, attempt + rounds)
  unfoldable pub attempts_from : ℕ → ℕ → ℕ → S → Result A × S
  unfolding after_attempt
  attempts_from started attempt zero s = (err assertion_error, s)
  attempts_from started attempt (suc rounds) s =
      after_attempt started attempt (operation s) (attempts_from started (attempt + 1) rounds)

  unfoldable pub run : S → Result A × S
  unfolding attempts_from
  run s = attempts_from (policy.clock s) 1 policy.max_attempts s
