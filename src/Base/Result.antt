-- ===== src/Base/Result.antt =====
-- Python exceptions as values: a call returns, or raises one of the exceptions that the source
-- tells apart.
use Prim.Native.Nat.{ℕ}
use Prim.Native.String.{String}
use mathlib.Core.Path.{◌≡◌, refl}
use mathlib.Core.Logic.{◌⊎◌, inl, inr}

pub data Exc : Type 0 where
  -- retry_and_deadline.BudgetExhausted: what, spent, budget (thousandths of a second)
  budget_exhausted : String → ℕ → ℕ → Exc
  -- worker_client.WorkerUnavailable
  worker_unavailable : String → Exc
  -- an exception of a client library that carries a `status_code`: its class, code and text
  http_error : String → ℕ → String → Exc
  -- any other exception: its class and text
  other_error : String → String → Exc

pub data Result {ℓ} (A : Type ℓ) : Type ℓ where
  ok : A → Result A
  raised : Exc → Result A

infixl 5 ◌>>=◌
abbrev pub ◌>>=◌ {ℓ κ} : {A : Type ℓ} {B : Type κ} → Result A → (A → Result B) → Result B
ok a >>= f = f a
raised e >>= f = raised e

-- A call made at a reading of the monotonic clock, and the reading when it ends.
abbrev pub Timed {ℓ} : Type ℓ → Type ℓ
Timed A = Result A × ℕ

-- The rest of a block, run at the time the call before it ended.
abbrev pub then_timed {ℓ κ} : {A : Type ℓ} {B : Type κ} → Timed A → (A → ℕ → Timed B) → Timed B
then_timed (ok a, now) f = f a now
then_timed (raised e, now) f = (raised e, now)

-- What holds of an exception, and of the rest of the block on a value, holds of the block.
pub by_reply {ℓ κ μ} :
    {A : Type ℓ} {B : Type κ} (P : Timed B → Type μ) (r : Result A) (now : ℕ) (f : A → ℕ → Timed B)
    → ((e : Exc) → r ≡ raised e → P (raised e, now))
    → ((a : A) → r ≡ ok a → P (f a now))
    → P (then_timed (r, now) f)
by_reply P (ok a) now f h k = k a refl
by_reply P (raised e) now f h k = h e refl

pub Result-cases {ℓ} :
    {A : Type ℓ} (r : Result A) → ((a : A) × (r ≡ ok a)) ⊎ ((e : Exc) × (r ≡ raised e))
Result-cases (ok a) = inl (a, refl)
Result-cases (raised e) = inr (e, refl)

-- The first step of a block that returns, and the rest on what the step returned.
pub first_step {ℓ κ} :
    {A : Type ℓ} {B : Type κ} (step : Result A) (rest : A → Result B) {out : B}
    → (step >>= rest) ≡ ok out
    → (value : A) × (rest value ≡ ok out) × (step ≡ ok value)
first_step (raised e) rest returns = absurd cc
first_step (ok value) rest returns = (value, returns, refl)
