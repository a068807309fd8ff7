-- ===== src/Worker/Client/Bounds.antt =====
-- WorkerClient.invoke: how long a governed dispatch takes.
use supervisor_agent.Base.{
  ◌*◌, ◌^◌, ◌<>◌, ℕ, zero, suc, ◌+◌, ◌≤◌, String, true, ◌≡◌, inl, inr, Option, none, some, max, leb,
  not, arith, by_test,
}
use supervisor_agent.Base.Result.{Exc, Result, ok, raised, Result-cases}
use supervisor_agent.Governance.Deadline.{Deadline, enabled, ensure_some}
use supervisor_agent.Governance.Retry.{Attempt, too_late, jittered, is_transient}
use supervisor_agent.Governance.Retry.Bounds.{ends_at, in_time_of_not_late}
use supervisor_agent.Worker.Json.{Json}
use supervisor_agent.Worker.Registry.{WorkerAgent}
use supervisor_agent.Worker.Breaker.{CircuitBreaker, ensure_closed}
use supervisor_agent.Worker.Client.{
  decimal, Called, give_up, pause_or_stop, after_post, attempt_loop, invoke,
}

module _ (max_attempts backoff : ℕ) (repr : Json → String) (agent : WorkerAgent) (d : Deadline)
    (post : ℕ → ℕ → Attempt Json) (limit M : ℕ) (on : enabled d ≡ true) (e : ends_at d ≤ M) where
  abbrev Within : Called → Type 0
  Within c = c.now ≤ M + limit

  pause_bound :
      (n : ℕ) (x : Exc) (draw : ℕ) (b : CircuitBreaker) (now : ℕ)
      (again : CircuitBreaker → ℕ → Called)
      → now ≤ M + limit
      → ((b' : CircuitBreaker) (t : ℕ) → t ≤ M → Within (again b' t))
      → Within (pause_or_stop max_attempts backoff repr agent (some d) post n x draw b now again)
  unfolding pause_or_stop give_up
  pause_bound n x draw b now again h k =
      by_test Within (too_late (some d) now (jittered (backoff * 2 ^ n) draw)) _ _
        (λ _. elim (Result-cases (ensure_some ("retrying " <> agent.id) (some d) now)) [
          | inl (a, r) ↦ rw r h
          | inr (y, r) ↦ rw r h
        ])
        (λ late. k b _ (
          let f = in_time_of_not_late d now (jittered (backoff * 2 ^ n) draw) on late in
          omega arith))

  after_post_bound :
      (n elapsed draw : ℕ) (reply : Result Json) (b : CircuitBreaker) (now : ℕ)
      (again : Option Exc → CircuitBreaker → ℕ → Called)
      → now ≤ M + limit
      → ((x : Option Exc) (b' : CircuitBreaker) (t : ℕ) → t ≤ M → Within (again x b' t))
      → (max_attempts ≤ n + 1 → (x : Option Exc) (b' : CircuitBreaker) → Within (again x b' now))
      → Within (
          after_post max_attempts backoff repr agent
            (some d)
            post
            n
            (record { elapsed = elapsed; reply = reply; draw = draw })
            b
            now
            again)
  unfolding after_post
  after_post_bound n elapsed draw (ok raw) b now again h k l = h
  after_post_bound n elapsed draw (raised x) b now again h k l =
      by_test Within (not (is_transient x)) _ _ (λ _. h)
        (λ _.
          by_test Within (not (leb max_attempts (n + 1))) _ _
            (λ _. pause_bound n x draw b now (again (some x)) h (k (some x)))
            (λ last. l (ground arith) (some x) b))

  -- The call that gives up takes no time.
  no_rounds_bound :
      (rounds n : ℕ) (x : Option Exc) (b : CircuitBreaker) (now : ℕ)
      → rounds ≡ 0
      → now ≤ M + limit
      → Within (attempt_loop max_attempts backoff repr agent (some d) post rounds n x b now)
  unfolding attempt_loop give_up
  no_rounds_bound zero n x b now z h = h
  no_rounds_bound (suc rounds) n x b now z h = omega arith

  loop_bound :
      (rounds n : ℕ) (x : Option Exc) (b : CircuitBreaker) (now : ℕ)
      → ((i t : ℕ) → (post i t).elapsed ≤ limit)
      → n + rounds ≡ max_attempts
      → now ≤ M
      → Within (attempt_loop max_attempts backoff repr agent (some d) post rounds n x b now)
  unfolding attempt_loop give_up
  loop_bound zero n x b now h s k = omega arith
  loop_bound (suc rounds) n x b now h s k =
      elim (Result-cases
        (ensure_some ("attempt " <> (decimal (n + 1) <> (" to " <> agent.id))) (some d) now)) [
          | inr (y, r) ↦ rw (attempt_loop, r) (omega arith)
          | inl (a, r) ↦
              rw (attempt_loop, r)
                (after_post_bound n _ _ _ b _ _ (let c = h n now in omega arith)
                  (λ y b' t m. loop_bound rounds (n + 1) y b' t h (omega arith) m)
                  (λ last y b'.
                    no_rounds_bound rounds (n + 1) y b' _ (omega arith)
                      (let c = h n now in omega arith)))
        ]

-- With a deadline that is enabled, and requests that take no longer than `limit`, a dispatch ends
-- no later than `limit` after the budget does, or after its start if that is later: whatever the
-- number of attempts, the pauses between them and the state of the circuit breaker.
pub invoke_in_time :
    (max_attempts backoff : ℕ) (repr : Json → String) (agent : WorkerAgent) (d : Deadline)
    (post : ℕ → ℕ → Attempt Json) (limit : ℕ) (b : CircuitBreaker) (now : ℕ)
    → enabled d ≡ true
    → ((n t : ℕ) → (post n t).elapsed ≤ limit)
    → (invoke max_attempts backoff repr agent (some d) post b now).now ≤ max now (ends_at d) + limit
unfolding invoke
invoke_in_time max_attempts backoff repr agent d post limit b now on h =
    elim (Result-cases (ensure_closed b agent.id now)) [
      | inr (x, r) ↦ rw (invoke, r) (omega arith)
      | inl (a, r) ↦
          rw (invoke, r)
            (loop_bound max_attempts backoff repr agent d post limit (max now (ends_at d)) on
              (omega arith) max_attempts 0 none b now h (omega arith) (omega arith))
    ]
