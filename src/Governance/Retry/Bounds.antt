-- ===== src/Governance/Retry/Bounds.antt =====
-- invoke_with_retries: how long a call with retries takes, and what it can come to.
use supervisor_agent.Base.{
  max, ℕ, zero, suc, ◌+◌, ◌≤◌, String, Bool, true, false, ◌≡◌, if◌then◌else◌, by_test, some, arith,
}
use supervisor_agent.Base.Result.{
  Exc, budget_exhausted, worker_unavailable, http_error, other_error, Result, ok, raised, Timed,
  by_reply,
}
use supervisor_agent.Governance.Deadline.{Deadline, remaining, spent, enabled}
use supervisor_agent.Governance.Retry.{
  invoke_with_retries, Attempt, retry_loop, after_attempt, gate, too_late,
}

-- The moment at which the budget runs out.
abbrev pub ends_at : Deadline → ℕ
ends_at d = d.started_at + d.budget_seconds

-- A pause that the deadline allows ends before the budget does.
pub in_time_of_not_late :
    (d : Deadline) (now delay : ℕ)
    → enabled d ≡ true
    → too_late (some d) now delay ≡ false
    → now + delay ≤ ends_at d
unfolding remaining spent
in_time_of_not_late d now delay on h = ground arith

module _ {A : Type 0} (what : String) (d : Deadline) (attempts backoff limit M : ℕ)
    (call : ℕ → ℕ → Attempt A) (on : enabled d ≡ true) (e : ends_at d ≤ M) where
  abbrev Within : Timed A → Type 0
  Within r = r.1 ≤ M + limit

  -- A stop at once, a stop because the pause is too long, or the next round.
  pause_bound :
      (n now delay : ℕ) (stop : Bool) (x : Exc) (again : ℕ → ℕ → Timed A)
      → now ≤ M + limit
      → ((t : ℕ) → t ≤ M → (again (n + 1) t).1 ≤ M + limit)
      → Within (
          if stop
          then (raised x, now)
          else if too_late (some d) now delay
          then (raised x, now)
          else again (n + 1) (now + delay))
  pause_bound n now delay stop x again h k =
      by_test Within stop _ _ (λ _. h)
        (λ _.
          by_test Within (too_late (some d) now delay) _ _ (λ _. h)
            (λ late.
              k (now + delay) (let f = in_time_of_not_late d now delay on late in omega arith)))

  -- What follows one attempt keeps the bound that the rounds after it keep.
  after_attempt_bound :
      (n elapsed draw now : ℕ) (reply : Result A) (again : ℕ → ℕ → Timed A)
      → now ≤ M + limit
      → ((t : ℕ) → t ≤ M → (again (n + 1) t).1 ≤ M + limit)
      → (after_attempt what
          (some d)
          attempts
          backoff
          call
          n
          (record { elapsed = elapsed; reply = reply; draw = draw })
          now
          again).1
        ≤ M + limit
  unfolding after_attempt
  after_attempt_bound n elapsed draw now (ok value) again h k = h
  after_attempt_bound n elapsed draw now (raised (budget_exhausted w s b)) again h k = h
  after_attempt_bound n elapsed draw now (raised (worker_unavailable w)) again h k =
      pause_bound n now _ _ _ again h k
  after_attempt_bound n elapsed draw now (raised (http_error w s b)) again h k =
      pause_bound n now _ _ _ again h k
  after_attempt_bound n elapsed draw now (raised (other_error w s)) again h k =
      pause_bound n now _ _ _ again h k

  loop_bound :
      (rounds n now : ℕ)
      → ((i t : ℕ) → (call i t).elapsed ≤ limit)
      → now ≤ M
      → (retry_loop what (some d) attempts backoff call rounds n now).1 ≤ M + limit
  unfolding retry_loop
  loop_bound zero n now h k = omega arith
  loop_bound (suc rounds) n now h k =
      by_reply Within (gate what (some d) n now) now _ (λ x _. omega arith)
        (λ _ _.
          after_attempt_bound n _ _ _ _ _ (let c = h n now in omega arith)
            (λ t m. loop_bound rounds (n + 1) t h m))

-- With a deadline that is enabled, and attempts that take no longer than `limit`, a call with
-- retries ends no later than `limit` after the budget does, or after its start if that is later:
-- however many attempts are allowed and however long the pauses between them would be.
pub invoke_with_retries_in_time :
    {A : Type 0} (what : String) (d : Deadline) (attempts backoff limit : ℕ)
    (call : ℕ → ℕ → Attempt A) (now : ℕ)
    → enabled d ≡ true
    → ((n t : ℕ) → (call n t).elapsed ≤ limit)
    → (invoke_with_retries what (some d) attempts backoff call now).1 ≤ max now (ends_at d) + limit
unfolding invoke_with_retries
invoke_with_retries_in_time what d attempts backoff limit call now on h =
    loop_bound what d (max 1 attempts) backoff limit (max now (ends_at d)) call on (omega arith)
      (max 1 attempts) 0 now h (omega arith)
