-- ===== src/Errors/Tests.antt =====
-- The theorems on RetryOperation at an operation that fails twice, and at one that never succeeds.
use mcbeproxy.Base.{ℕ, ◌*◌, ◌≡◌, refl, true, Option, none, some, arith, leb, if◌then◌else◌, length}
use mcbeproxy.Errors.{Failure, other_error, new_error_handler, retry_operation}
use mcbeproxy.Errors.Retry.{retry_operation-succeeds}

abbrev twice : ℕ → Option Failure
twice n = if leb n 2 then some (other_error n) else none

abbrev never : ℕ → Option Failure
never n = some (other_error n)

retry_operation-succeeds_example :
    ((retry_operation (λ t. 2 * t) twice new_error_handler).calls ≡ 3)
    × (length (retry_operation (λ t. 2 * t) twice new_error_handler).slept ≡ 2)
    × ((retry_operation (λ t. 2 * t) twice new_error_handler).success ≡ true)
retry_operation-succeeds_example =
    retry_operation-succeeds (λ t. 2 * t) twice new_error_handler 2 (omega arith)
      ((λ e. ground arith), ((λ e. ground arith), tt)) refl
