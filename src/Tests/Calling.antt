-- ===== src/Tests/Calling.antt =====
-- Witnesses on calls that leave the process: retries, the circuit breaker, the worker client.
use supervisor_agent.Base.{
  eqb, if◌then◌else◌, ℕ, suc, ◌≤◌, ◌<◌, ◌+◌, String, ◌==◌, true, false, ◌≡◌, ◌↔◌, refl, none, some,
  List, [], ◌∷◌, arith, max, inl, inr, In,
}
use supervisor_agent.Base.Result.{ok, raised, other_error}
use supervisor_agent.Governance.Retry.{Attempt, invoke_with_retries}
use supervisor_agent.Governance.Retry.Bounds.{ends_at, invoke_with_retries_in_time}
use supervisor_agent.Worker.Json.{Json, obj, field, str, end}
use supervisor_agent.Worker.Breaker.{CircuitBreaker, count_of}
use supervisor_agent.Worker.Breaker.Threshold.{fail_times, opens_at_threshold}
use supervisor_agent.Base.Text.{truthy}
use supervisor_agent.Worker.Registry.{ApprovalRule, WorkerAgent, approval_reason}
use supervisor_agent.Worker.Registry.Approval.{Demands, approval_reason_lem}
use supervisor_agent.Worker.Client.{invoke}
use supervisor_agent.Worker.Client.Bounds.{invoke_in_time}
use supervisor_agent.Worker.Client.Accounting.{Counted, invoke-Counted}
use supervisor_agent.Tests.Fixtures.{closed_breaker, minute, story_agent, plain_regex}

-- A call that times out once and then answers.
abbrev flaky : ℕ → ℕ → Attempt ℕ
flaky n t = record {
  elapsed = 300;
  reply = if eqb n 0 then raised (other_error "Timeout" "request timed out") else ok 7;
  draw = 0;
}

invoke_with_retries_in_time_example :
    (invoke_with_retries "the test" (some minute) 3 500 flaky 5000).1
    ≤ max 5000 (ends_at minute) + 300
invoke_with_retries_in_time_example =
    invoke_with_retries_in_time "the test" minute 3 500 300 flaky 5000 refl (λ n t. omega arith)

no_failure : count_of closed_breaker.failures "story" ≡ 0
unfolding supervisor_agent.Base.Dict.lookup
no_failure = refl

opens_at_threshold_example :
    ((n : ℕ) → n < 2 → (fail_times n closed_breaker "story" (λ i. 100)).open_until ≡ [])
    × (count_of (fail_times 2 closed_breaker "story" (λ i. 100)).open_until "story" ≡ 100 + 30000)
opens_at_threshold_example = opens_at_threshold closed_breaker "story" (λ i. 100) 1 no_failure refl

abbrev opened : CircuitBreaker
opened = record closed_breaker { open_until = ("story", 40000) ∷ [] }

abbrev payload : Json
payload = obj (field "output_text" (str "done") end)

abbrev posting : ℕ → ℕ → Attempt Json
posting n t = record { elapsed = 400; reply = ok payload; draw = 0 }

invoke_in_time_example :
    (invoke 3 500 (λ j. "") story_agent (some minute) posting closed_breaker 5000).now
    ≤ max 5000 (ends_at minute) + 400
invoke_in_time_example =
    invoke_in_time 3 500 (λ j. "") story_agent minute posting 400 closed_breaker 5000 refl
      (λ n t. omega arith)

invoke-Counted_example :
    Counted
      (λ j. "")
      "story"
      closed_breaker
      (invoke 3 500 (λ j. "") story_agent (some minute) posting closed_breaker 5000)
invoke-Counted_example =
    invoke-Counted 3 500 (λ j. "") story_agent (some minute) posting closed_breaker 5000

-- The first rule has no pattern, and the second has no reason.
abbrev careful_agent : WorkerAgent
careful_agent = record {
  id = "careful";
  name = "Careful agent";
  description = "Releases";
  endpoint = "careful-endpoint";
  domain_scope = "releases";
  required_context = [];
  deny_patterns = [];
  model = "";
  approval_patterns =
      record { pattern = none; reason = some "never" }
      ∷ record { pattern = some "Production"; reason = none }
      ∷ [];
  risk_level = "high";
}

approval_reason_lem_example :
    (truthy (approval_reason plain_regex (some careful_agent) "deploy to production") ≡ true) ↔ (
      (truthy "deploy to production" ≡ true)
      × ((rule : ApprovalRule) × In rule careful_agent.approval_patterns
          × Demands plain_regex "deploy to production" rule))
approval_reason_lem_example = approval_reason_lem plain_regex careful_agent "deploy to production"
