-- ===== src/Governance/Deadline.antt =====
-- retry_and_deadline.py: the turn's time budget. Times and durations are thousandths of a second;
-- a reading of the monotonic clock is an argument.
use supervisor_agent.Base.{
  ℕ, ◌-◌, String, Bool, true, false, not, ◌&&◌, Option, none, some, ltb, leb, eqb, if◌then◌else◌,
}
use supervisor_agent.Base.Result.{Result, ok, raised, budget_exhausted}
use supervisor_agent.Governance.Environment.{Environ, is_local_environment}

pub record Deadline : Type 0 where
  pub started_at : ℕ
  pub budget_seconds : ℕ

-- `remaining()`: infinity, an amount that is left, or the amount by which the budget is overrun.
pub data Remaining : Type 0 where
  unbounded : Remaining
  left : ℕ → Remaining
  over : ℕ → Remaining

unfoldable pub from_context : ℕ → ℕ → Deadline
from_context turn_started_at budget_seconds =
    if eqb turn_started_at 0
    then record { started_at = 0; budget_seconds = 0 }
    else record { started_at = turn_started_at; budget_seconds = budget_seconds }

abbrev pub enabled : Deadline → Bool
enabled d = ltb 0 d.budget_seconds && ltb 0 d.started_at

unfoldable pub spent : Deadline → ℕ → ℕ
spent d now = if enabled d then now - d.started_at else 0

unfoldable pub remaining : Deadline → ℕ → Remaining
unfolding spent
remaining d now =
    if not (enabled d)
    then unbounded
    else if leb (spent d now) d.budget_seconds
    then left (d.budget_seconds - spent d now)
    else over (spent d now - d.budget_seconds)

-- `remaining() <= delay`
abbrev pub at_most : Remaining → ℕ → Bool
at_most unbounded delay = false
at_most (left r) delay = leb r delay
at_most (over r) delay = true

unfoldable pub exhausted : Deadline → ℕ → Bool
unfolding remaining
exhausted d now = at_most (remaining d now) 0

unfoldable pub ensure : String → Deadline → ℕ → Result (Unit {0})
unfolding exhausted
ensure what d now =
    if enabled d && exhausted d now
    then raised (budget_exhausted what (spent d now) d.budget_seconds)
    else ok tt

-- `deadline.ensure(what)` where the deadline may be None
abbrev pub ensure_some : String → Option Deadline → ℕ → Result (Unit {0})
ensure_some what none now = ok tt
ensure_some what (some d) now = ensure what d now

-- The clock that the context carries, the budget and environment of the settings.
unfoldable pub deadline_for : Environ → ℕ → ℕ → String → ℕ → Deadline
unfolding from_context
deadline_for env turn_started_at budget environment now =
    let d = from_context turn_started_at budget in
    if not (enabled d) && ltb 0 budget && not (is_local_environment env (some environment))
    then record { started_at = now; budget_seconds = budget }
    else d
