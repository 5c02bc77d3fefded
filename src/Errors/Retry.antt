-- ===== src/Errors/Retry.antt =====
-- RetryOperation of internal/errors/errors.go.
use mcbeproxy.Base.{
  ℕ, zero, suc, ◌+◌, ◌-◌, ◌<◌, ◌≡◌, ◌≢◌, refl, ap, ◌∙◌, true, false, Option, none, arith, length,
  Option-cases, inl, inr,
}
use mcbeproxy.Errors.{Failure, ErrorHandler, retry_loop, retry_operation}

-- The attempts from `attempt` on, `n` of them, all fail.
abbrev pub AllFail : (ℕ → Option Failure) → ℕ → ℕ → Type 0
AllFail fn attempt zero = Unit
AllFail fn attempt (suc n) = (fn attempt ≢ none) × AllFail fn (attempt + 1) n

module _ (backoff : ℕ → ℕ) (fn : ℕ → Option Failure) where
  retry_loop-fails :
      (left attempt delay : ℕ) (last : Option Failure)
      → AllFail fn attempt left
      → ((retry_loop backoff fn left attempt delay last).calls ≡ left)
        × (length (retry_loop backoff fn left attempt delay last).slept ≡ left - 1)
        × ((retry_loop backoff fn left attempt delay last).success ≡ false)
  unfolding retry_loop
  retry_loop-fails zero attempt delay last h = (refl, refl, refl)
  retry_loop-fails (suc left) attempt delay last h = elim (Option-cases (fn attempt)) [
    | inl none_left ↦ absurd (h.0 none_left)
    | inr (e, failed) ↦
        (let slow = retry_loop-fails left (attempt + 1) (backoff delay) (fn attempt) h.1 in
          let final = retry_loop-fails left (attempt + 1) delay (fn attempt) h.1 in
          ground (arith, failed, slow, final))
  ]

  retry_loop-succeeds :
      (n left attempt delay : ℕ) (last : Option Failure)
      → n < left
      → AllFail fn attempt n
      → fn (attempt + n) ≡ none
      → ((retry_loop backoff fn left attempt delay last).calls ≡ n + 1)
        × (length (retry_loop backoff fn left attempt delay last).slept ≡ n)
        × ((retry_loop backoff fn left attempt delay last).success ≡ true)
  unfolding retry_loop
  retry_loop-succeeds n zero attempt delay last k h s = absurd (omega arith)
  retry_loop-succeeds zero (suc left) attempt delay last k h s =
      let here : fn attempt ≡ none = ap fn (omega arith) ∙ s in ground (arith, here)
  retry_loop-succeeds (suc n) (suc left) attempt delay last k h s =
      elim (Option-cases (fn attempt)) [
        | inl none_left ↦ absurd (h.0 none_left)
        | inr (e, failed) ↦
            (let later : fn (attempt + 1 + n) ≡ none = ap fn (omega arith) ∙ s in
              let slow =
                retry_loop-succeeds n left (attempt + 1) (backoff delay) (fn attempt) (omega arith)
                  h.1 later in
              ground (arith, failed, slow))
      ]

  -- If every attempt up to the handler's number fails, RetryOperation makes exactly that many
  -- calls, sleeps between them and returns an error.
  pub retry_operation-fails :
      (h : ErrorHandler)
      → AllFail fn 1 h.max_retries
      → ((retry_operation backoff fn h).calls ≡ h.max_retries)
        × (length (retry_operation backoff fn h).slept ≡ h.max_retries - 1)
        × ((retry_operation backoff fn h).success ≡ false)
  unfolding retry_operation
  retry_operation-fails h f = retry_loop-fails h.max_retries 1 h.retry_delay none f

  -- If the operation succeeds for the first time after `n` failures, fewer than the handler's
  -- number of attempts, RetryOperation stops there: it calls it `n + 1` times, sleeps `n` times and
  -- returns no error.
  pub retry_operation-succeeds :
      (h : ErrorHandler) (n : ℕ)
      → n < h.max_retries
      → AllFail fn 1 n
      → fn (1 + n) ≡ none
      → ((retry_operation backoff fn h).calls ≡ n + 1)
        × (length (retry_operation backoff fn h).slept ≡ n)
        × ((retry_operation backoff fn h).success ≡ true)
  unfolding retry_operation
  retry_operation-succeeds h n k f s =
      retry_loop-succeeds n h.max_retries 1 h.retry_delay none k f s
