-- ===== src/Governance/Retry/Outcome.antt =====
-- invoke_with_retries: what a call with retries can come to.
use supervisor_agent.Base.{
  ◌&&◌, sym, ℕ, zero, suc, ◌+◌, ◌<◌, String, Bool, ◌≡◌, refl, ◌⊎◌, inl, inr, Option, none, some,
  max, leb, ◌||◌, arith, if◌then◌else◌, by_test,
}
use supervisor_agent.Base.Result.{
  Exc, budget_exhausted, worker_unavailable, http_error, other_error, Result, ok, raised, Timed,
}
use supervisor_agent.Governance.Deadline.{exhausted, enabled, Deadline, ensure, spent}
use supervisor_agent.Governance.Retry.{
  Attempt, retry_loop, after_attempt, gate, too_late, invoke_with_retries,
}

-- The reply of one of the first `attempts` attempts, or the budget's exhaustion before one.
abbrev pub IsReplyOf : {A : Type 0} → String → ℕ → (ℕ → ℕ → Attempt A) → Result A → Type 0
IsReplyOf what attempts call r =
    ((n : ℕ) × (t : ℕ) × (n < attempts) × (r ≡ (call n t).reply))
    ⊎ ((s : ℕ) × (b : ℕ) × (r ≡ raised (budget_exhausted what s b)))

gate_budget :
    (what : String) (deadline : Option Deadline) (n now : ℕ)
    → (gate what deadline n now ≡ ok tt)
      ⊎ ((s : ℕ) × (b : ℕ) × (gate what deadline n now ≡ raised (budget_exhausted what s b)))
unfolding ensure
gate_budget what deadline zero now = inl refl
gate_budget what none (suc n) now = inl refl
gate_budget what (some d) (suc n) now =
    by_test (λ g. (g ≡ ok tt) ⊎ ((s : ℕ) × (b : ℕ) × (g ≡ raised (budget_exhausted what s b))))
      (enabled d && exhausted d now) (raised (budget_exhausted what (spent d now) d.budget_seconds))
      (ok tt) (λ _. inr (spent d now, d.budget_seconds, refl)) (λ _. inl refl)

module _ {A : Type 0} (what : String) (deadline : Option Deadline) (attempts backoff : ℕ)
    (call : ℕ → ℕ → Attempt A) where
  abbrev Told : Timed A → Type 0
  Told r = IsReplyOf what attempts call r.0

  after_attempt_lem :
      (n t now : ℕ) (again : ℕ → ℕ → Timed A)
      → n < attempts
      → ((t' : ℕ) → n + 1 < attempts → Told (again (n + 1) t'))
      → Told (after_attempt what deadline attempts backoff call n (call n t) now again)
  unfolding after_attempt
  after_attempt_lem n t now again h k = go (call n t).reply refl
    where
      tail :
          (x : Exc) (stop : Bool) (delay : ℕ)
          → (call n t).reply ≡ raised x
          → Told (
              if stop || leb attempts (n + 1)
              then (raised x, now)
              else if too_late deadline now delay
              then (raised x, now)
              else again (n + 1) (now + delay))
      tail x stop delay e =
          by_test Told (stop || leb attempts (n + 1)) _ _ (λ _. inl (n, t, h, sym e))
            (λ early.
              by_test Told (too_late deadline now delay) _ _ (λ _. inl (n, t, h, sym e))
                (λ _. k (now + delay) (ground arith)))

      go :
          (r : Result A)
          → (call n t).reply ≡ r
          → Told (
              after_attempt what deadline attempts backoff call n
                (record (call n t) { reply = r })
                now
                again)
      go (ok value) e = inl (n, t, h, sym e)
      go (raised (budget_exhausted w s b)) e = inl (n, t, h, sym e)
      go (raised (worker_unavailable w)) e = tail _ _ _ e
      go (raised (http_error w s b)) e = tail _ _ _ e
      go (raised (other_error w s)) e = tail _ _ _ e

  loop_lem :
      (rounds n now : ℕ)
      → n + rounds ≡ attempts
      → 0 < rounds
      → Told (retry_loop what deadline attempts backoff call rounds n now)
  unfolding retry_loop
  loop_lem zero n now h k = absurd (omega arith)
  loop_lem (suc rounds) n now h k = elim (gate_budget what deadline n now) [
    | inl opened ↦ rw opened (
        after_attempt_lem n now _ _ (omega arith)
          (λ t' h'. loop_lem rounds (n + 1) t' (omega arith) (omega arith)))
    | inr (s, b, shut) ↦ rw shut (inr (s, b, refl))
  ]

-- Every outcome of a call with retries is the reply of one of its own attempts, and of one among
-- the number allowed (at least one), or the exhaustion of the budget before a further attempt: the
-- error after the loop, which the source calls unreachable, is never what the caller gets.
invoke_with_retries-IsReplyOf :
    {A : Type 0} (what : String) (deadline : Option Deadline) (attempts backoff : ℕ)
    (call : ℕ → ℕ → Attempt A) (now : ℕ)
    → IsReplyOf what
        (max 1 attempts)
        call
        (invoke_with_retries what deadline attempts backoff call now).0
unfolding invoke_with_retries
invoke_with_retries-IsReplyOf what deadline attempts backoff call now =
    loop_lem what deadline (max 1 attempts) backoff call (max 1 attempts) 0 now (omega arith)
      (omega arith)
