-- ===== src/Worker/Breaker.antt =====
-- `CircuitBreaker` of worker_client.py. The monotonic clock is an argument, in thousandths of a
-- second.
pub mod Threshold
use supervisor_agent.Base.{ℕ, ◌+◌, ◌-◌, String, ◌<>◌, [], none, some, max, ltb, leb, if◌then◌else◌}
use supervisor_agent.Base.Text.{fixed0}
use supervisor_agent.Base.Dict.{Dict, lookup, insert, erase}
use supervisor_agent.Base.Result.{Result, ok, raised, worker_unavailable}

pub record CircuitBreaker : Type 0 where
  pub threshold : ℕ
  pub cooldown : ℕ
  pub failures : Dict ℕ
  pub open_until : Dict ℕ

unfoldable pub new : ℕ → ℕ → CircuitBreaker
new threshold cooldown_seconds = record {
  threshold = max 1 threshold;
  cooldown = cooldown_seconds;
  failures = [];
  open_until = [];
}

-- `d.get(key, 0)`
abbrev pub count_of : Dict ℕ → String → ℕ
count_of d key = elim (lookup key d) [ none ↦ 0 | some n ↦ n ]

unfoldable pub ensure_closed : CircuitBreaker → String → ℕ → Result (Unit {0})
ensure_closed b key now =
    if ltb now (count_of b.open_until key)
    then raised (
        worker_unavailable (
          "circuit open for '"
          <> (key
              <> ("' after repeated failures; retrying after "
                  <> (fixed0 (count_of b.open_until key - now) <> "s")))))
    else ok tt

unfoldable pub record_success : CircuitBreaker → String → CircuitBreaker
record_success b key = record b {
  failures = erase key b.failures;
  open_until = erase key b.open_until;
}

unfoldable pub record_failure : CircuitBreaker → String → ℕ → CircuitBreaker
record_failure b key now =
    let seen = count_of b.failures key + 1 in
    if leb b.threshold seen
    then record b {
      failures = insert key 0 b.failures;
      open_until = insert key (now + b.cooldown) b.open_until;
    }
    else record b { failures = insert key seen b.failures }
