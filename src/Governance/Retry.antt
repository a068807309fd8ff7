-- ===== src/Governance/Retry.antt =====
-- retry_and_deadline.py: bounded retries at the model boundary.
pub mod Bounds
pub mod Outcome
use supervisor_agent.Base.{
  ℕ, zero, suc, ◌+◌, ◌-◌, ◌*◌, ◌/◌, ◌%◌, ◌^◌, String, ◌<>◌, Bool, false, not, ◌&&◌, ◌||◌, Option,
  none, some, max, ltb, leb, eqb, if◌then◌else◌,
}
use supervisor_agent.Base.Text.{lower, is_in, fixed0, fixed1, truthy}
use supervisor_agent.Base.Result.{
  Exc, budget_exhausted, worker_unavailable, http_error, other_error, Result, ok, raised, Timed,
  then_timed,
}
use supervisor_agent.Governance.Deadline.{Deadline, remaining, at_most, ensure_some}

-- A call that leaves the process: how long it took, how it ended, and the thousandths of the
-- number that `random.random()` draws if a pause follows it.
pub record Attempt (A : Type 0) : Type 0 where
  pub elapsed : ℕ
  pub reply : Result A
  pub draw : ℕ

unfoldable pub jittered : ℕ → ℕ → ℕ
jittered delay draw = delay / 2 + (delay - delay / 2) * (draw % 1000) / 1000

-- `str(exc)`
unfoldable pub exc_text : Exc → String
exc_text (budget_exhausted what spent budget) =
    "turn budget of "
    <> (fixed0 budget
        <> ("s exhausted"
            <> ((if truthy what then " before " <> what else "")
                <> (" (spent " <> (fixed1 spent <> "s)")))))
exc_text (worker_unavailable text) = text
exc_text (http_error name status text) = text
exc_text (other_error name text) = text

-- `type(exc).__name__`
unfoldable pub exc_name : Exc → String
exc_name (budget_exhausted what spent budget) = "BudgetExhausted"
exc_name (worker_unavailable text) = "WorkerUnavailable"
exc_name (http_error name status text) = name
exc_name (other_error name text) = name

transient_text : String → Bool
transient_text text =
    is_in "timeout" (lower text)
    || is_in "timed out" (lower text)
    || is_in "connection" (lower text)

unfoldable pub is_transient : Exc → Bool
unfolding transient_text
is_transient (http_error name status text) = eqb status 429 || (leb 500 status && ltb status 600)
is_transient other = transient_text (exc_text other)

-- Whether `deadline is not None and deadline.remaining() <= delay`.
abbrev pub too_late : Option Deadline → ℕ → ℕ → Bool
too_late none now delay = false
too_late (some d) now delay = at_most (remaining d now) delay

-- `deadline.ensure(what)` on every attempt but the first
abbrev gate : String → Option Deadline → ℕ → ℕ → Result (Unit {0})
gate what deadline zero now = ok tt
gate what deadline (suc attempt) now = ensure_some what deadline now

module _ {A : Type 0} (what : String) (deadline : Option Deadline) (attempts : ℕ)
    (initial_backoff : ℕ) (call : ℕ → ℕ → Attempt A) where
  -- What follows an attempt: return, raise, or sleep and go round again.
  after_attempt : ℕ → Attempt A → ℕ → (ℕ → ℕ → Timed A) → Timed A
  after_attempt attempt a now again = elim a.reply [
    | ok value ↦ (ok value, now)
    | raised (budget_exhausted w s b) ↦ (raised (budget_exhausted w s b), now)
    | raised e ↦
        if not (is_transient e) || leb attempts (attempt + 1)
        then (raised e, now)
        else let delay = jittered (initial_backoff * 2 ^ attempt) a.draw in
          if too_late deadline now delay then (raised e, now) else again (attempt + 1) (now + delay)
  ]

  -- The loop, on the rounds that are left.
  pub retry_loop : ℕ → ℕ → ℕ → Timed A
  retry_loop zero attempt now = (
    raised (other_error "RuntimeError" ("unreachable: " <> (what <> " exited its retry loop"))),
    now,
  )
  retry_loop (suc rounds) attempt now =
      then_timed (gate what deadline attempt now, now)
        (λ _ t.
          after_attempt attempt (call attempt t) (t + (call attempt t).elapsed) (retry_loop rounds))

-- `attempts` is that of the caller, or of `_default_attempts`; `backoff_factor` is 2 in every call.
unfoldable pub invoke_with_retries :
    {A : Type 0} → String → Option Deadline → ℕ → ℕ → (ℕ → ℕ → Attempt A) → ℕ → Timed A
unfolding retry_loop after_attempt
invoke_with_retries what deadline attempts initial_backoff call now =
    retry_loop what deadline (max 1 attempts) initial_backoff call (max 1 attempts) 0 now

-- `_default_attempts`: the variable GOVERNANCE_LLM_ATTEMPTS as `int` reads it, `none` where it
-- raises ValueError.
unfoldable pub default_attempts : Option ℕ → ℕ
default_attempts none = 3
default_attempts (some n) = max 1 n
