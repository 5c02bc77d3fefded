-- ===== src/Errors.antt =====
-- internal/errors/errors.go: the error types and RetryOperation. The operation is a function from
-- the number of the attempt to its error; `time.Sleep` is a log of the delays, and the product of
-- a delay with the float64 backoff is a parameter.
pub mod Retry
pub mod Tests
use mcbeproxy.Base.{
  ℕ, zero, suc, ◌+◌, ◌-◌, Bool, true, false, ◌||◌, List, [], ◌∷◌, ◌++◌, Option, none, some, ltb,
  leb, if◌then◌else◌,
}

pub data ErrorType : Type 0 where
  network protocol database config auth : ErrorType

-- An error value: a ProxyError of some type, or any other error.
pub data Failure : Type 0 where
  proxy_error : ErrorType → Failure
  other_error : ℕ → Failure

unfoldable pub is_auth_error : Option Failure → Bool
is_auth_error (some (proxy_error auth)) = true
is_auth_error _ = false

unfoldable pub is_retryable : Option Failure → Bool
is_retryable none = false
is_retryable (some (other_error e)) = true
is_retryable (some (proxy_error network)) = true
is_retryable (some (proxy_error database)) = true
is_retryable (some (proxy_error _)) = false

pub record ErrorHandler : Type 0 where
  pub max_retries : ℕ
  pub retry_delay : ℕ

abbrev pub new_error_handler : ErrorHandler
new_error_handler = record { max_retries = 3; retry_delay = 100000000 }

-- What a run leaves: the calls made, the delays slept, and whether it returned nil or the error
-- that wraps the last one.
pub record Outcome : Type 0 where
  pub calls : ℕ
  pub slept : List ℕ
  pub success : Bool
  pub last_error : Option Failure

module _ (backoff : ℕ → ℕ) (fn : ℕ → Option Failure) where
  -- The loop from `attempt` on, `left` attempts being left.
  unfoldable pub retry_loop : ℕ → ℕ → ℕ → Option Failure → Outcome
  retry_loop zero attempt delay last = record {
    calls = 0;
    slept = [];
    success = false;
    last_error = last;
  }
  retry_loop (suc left) attempt delay last =
      let slow = retry_loop left (attempt + 1) (backoff delay) (fn attempt) in
      let final = retry_loop left (attempt + 1) delay (fn attempt) in
      elim (fn attempt) [
        | none ↦ record { calls = 1; slept = []; success = true; last_error = none }
        | some e ↦
            (if ltb 0 left
              then record slow { calls = slow.calls + 1; slept = delay ∷ slow.slept }
              else record final { calls = final.calls + 1 })
      ]

  unfoldable pub retry_operation : ErrorHandler → Outcome
  retry_operation h = retry_loop h.max_retries 1 h.retry_delay none
