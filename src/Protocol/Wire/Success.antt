-- ===== src/Protocol/Wire/Success.antt =====
-- Inversion of a chain of Go calls that succeeded.
use mcbeproxy.Base.{◌≡◌, refl, Bool, true, false}
use mcbeproxy.Protocol.Wire.{Result, Error, ok, err, panic, ◌>>=◌, ◌>>◌, guard}

-- The check passed, and what follows gave the result.
pub guard-eq-ok {ℓ} :
    {A : Type ℓ} (t : Bool) (x : Error) (k : Result A) {a : A}
    → (guard t x >> k) ≡ ok a
    → (t ≡ true) × (k ≡ ok a)
guard-eq-ok true x k h = (refl, h)
guard-eq-ok false x k h = cc

-- The first call gave a value, and the second a result from it.
pub >>=-eq-ok {ℓ κ} :
    {A : Type ℓ} {B : Type κ} (call : Result A) (next : A → Result B) {result : B}
    → (call >>= next) ≡ ok result
    → (value : A) × (call ≡ ok value) × (next value ≡ ok result)
>>=-eq-ok panic next e = cc
>>=-eq-ok (err x) next e = cc
>>=-eq-ok (ok value) next e = (value, refl, e)
