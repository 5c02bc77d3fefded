-- ===== src/Protocol/Wire/Panics.antt =====
-- Rules for showing that a chain of Go calls cannot panic.
use mcbeproxy.Base.{ℕ, ◌≤◌, ◌<◌, ◌≡◌, ◌≢◌, refl, Bool, true, false, List, if◌then◌else◌, length}
use mcbeproxy.Protocol.Wire.{Result, Error, ok, err, panic, ◌>>=◌, ◌>>◌, guard, at, slice}
use mcbeproxy.Protocol.Wire.Laws.{at-ok, slice-ok}

abbrev pub NoPanic {ℓ} : {A : Type ℓ} → Result A → Type ℓ
NoPanic r = r ≢ panic

pub >>=-NoPanic {ℓ κ} :
    {A : Type ℓ} {B : Type κ} (m : Result A) (f : A → Result B)
    → NoPanic m
    → ((a : A) → m ≡ ok a → NoPanic (f a))
    → NoPanic (m >>= f)
>>=-NoPanic (ok a) f h k = k a refl
>>=-NoPanic (err x) f h k = λ e. cc
>>=-NoPanic panic f h k = absurd (h refl)

pub guard-NoPanic {ℓ} :
    {A : Type ℓ} (b : Bool) (x : Error) (k : Result A)
    → (b ≡ true → NoPanic k)
    → NoPanic (guard b x >> k)
guard-NoPanic true x k h = h refl
guard-NoPanic false x k h = λ e. cc

pub if-NoPanic {ℓ} :
    {A : Type ℓ} (b : Bool) (r s : Result A)
    → (b ≡ true → NoPanic r)
    → (b ≡ false → NoPanic s)
    → NoPanic (if b then r else s)
if-NoPanic true r s h k = h refl
if-NoPanic false r s h k = k refl

pub at-NoPanic : (d : List ℕ) (i : ℕ) → i < length d → NoPanic (at d i)
at-NoPanic d i h = λ e. let (b, e') = at-ok d i h in cc

pub slice-NoPanic : (d : List ℕ) (lo hi : ℕ) → lo ≤ hi → hi ≤ length d → NoPanic (slice d lo hi)
slice-NoPanic d lo hi h k = λ e. cc (slice-ok d lo hi h k)
