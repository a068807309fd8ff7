-- ===== src/Worker/Client/Accounting.antt =====
-- WorkerClient.invoke: what one dispatch counts for the circuit breaker.
use supervisor_agent.Base.{
  ℕ, zero, suc, ◌+◌, ◌*◌, ◌^◌, String, ◌<>◌, inl, inr, Option, none, some, leb, not, by_test,
}
use supervisor_agent.Base.Text.{decimal}
use supervisor_agent.Base.Result.{Exc, Result, ok, raised, Result-cases}
use supervisor_agent.Governance.Deadline.{Deadline, ensure_some}
use supervisor_agent.Governance.Retry.{Attempt, too_late, jittered, is_transient}
use supervisor_agent.Worker.Json.{Json}
use supervisor_agent.Worker.Registry.{WorkerAgent}
use supervisor_agent.Worker.Response.{parse_worker_response}
use supervisor_agent.Worker.Breaker.{CircuitBreaker, ensure_closed, record_success, record_failure}
use supervisor_agent.Worker.Client.{
  Called, fields_of, give_up, pause_or_stop, after_post, attempt_loop, invoke,
}

-- The three ways in which a dispatch may end: refused before or between attempts, with the breaker
-- as it was; answered, with a success recorded; failed, with one failure recorded.
pub data Counted (repr : Json → String) (id : String) (b : CircuitBreaker) : Called → Type 0 where
  refused :
      (x : Exc) (t : ℕ) → Counted repr id b (record { reply = raised x; breaker = b; now = t })
  answered :
      (raw : Json) (t : ℕ)
      → Counted repr id b (record {
        reply = parse_worker_response repr (fields_of raw);
        breaker = record_success b id;
        now = t;
      })
  failed :
      (x : Exc) (t : ℕ)
      → Counted repr id b (record { reply = raised x; breaker = record_failure b id t; now = t })

module _ (max_attempts backoff : ℕ) (repr : Json → String) (agent : WorkerAgent)
    (deadline : Option Deadline) (post : ℕ → ℕ → Attempt Json) (b : CircuitBreaker) where
  abbrev Tallied : Called → Type 0
  Tallied = Counted repr agent.id b

  pause_or_stop-Counted :
      (n : ℕ) (x : Exc) (draw now : ℕ) (again : CircuitBreaker → ℕ → Called)
      → ((t : ℕ) → Tallied (again b t))
      → Tallied (pause_or_stop max_attempts backoff repr agent deadline post n x draw b now again)
  unfolding pause_or_stop give_up
  pause_or_stop-Counted n x draw now again k =
      by_test Tallied (too_late deadline now (jittered (backoff * 2 ^ n) draw)) _ _
        (λ _. elim (Result-cases (ensure_some ("retrying " <> agent.id) deadline now)) [
          | inl (a, r) ↦ rw r (failed _ now)
          | inr (y, r) ↦ rw r (refused y now)
        ])
        (λ late. k _)

  after_post-Counted :
      (n elapsed draw : ℕ) (reply : Result Json) (now : ℕ)
      (again : Option Exc → CircuitBreaker → ℕ → Called)
      → ((x : Option Exc) (t : ℕ) → Tallied (again x b t))
      → Tallied (
          after_post max_attempts backoff repr agent deadline post n
            (record { elapsed = elapsed; reply = reply; draw = draw })
            b
            now
            again)
  unfolding after_post
  after_post-Counted n elapsed draw (ok raw) now again k = answered raw now
  after_post-Counted n elapsed draw (raised x) now again k =
      by_test Tallied (not (is_transient x)) _ _ (λ _. failed x now)
        (λ _.
          by_test Tallied (not (leb max_attempts (n + 1))) _ _
            (λ _. pause_or_stop-Counted n x draw now (again (some x)) (k (some x)))
            (λ last. k (some x) now))

  attempt_loop-Counted :
      (rounds n : ℕ) (x : Option Exc) (now : ℕ)
      → Tallied (attempt_loop max_attempts backoff repr agent deadline post rounds n x b now)
  unfolding attempt_loop give_up
  attempt_loop-Counted zero n x now = failed _ now
  attempt_loop-Counted (suc rounds) n x now =
      elim (Result-cases
        (ensure_some ("attempt " <> (decimal (n + 1) <> (" to " <> agent.id))) deadline now)) [
          | inr (y, r) ↦ rw (attempt_loop, r) (refused y now)
          | inl (a, r) ↦
              rw (attempt_loop, r)
                (after_post-Counted n _ _ _ _ _ (λ y t. attempt_loop-Counted rounds (n + 1) y t))
        ]

  -- However many attempts it makes, a dispatch counts at most once: the breaker is as it was and
  -- the call raised, or one success is recorded and the reply is the parsed payload, or one
  -- failure is recorded and the call raised.
  pub invoke-Counted :
      (now : ℕ) → Tallied (invoke max_attempts backoff repr agent deadline post b now)
  unfolding invoke
  invoke-Counted now = elim (Result-cases (ensure_closed b agent.id now)) [
    | inr (x, r) ↦ rw (invoke, r) (refused x now)
    | inl (a, r) ↦ rw (invoke, r) (attempt_loop-Counted max_attempts 0 none now)
  ]
