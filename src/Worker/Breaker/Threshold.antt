-- ===== src/Worker/Breaker/Threshold.antt =====
-- CircuitBreaker: when a circuit opens, and what a success or the end of the cooldown does.
use supervisor_agent.Base.{
  ltb→ge, inr, inl, Bool-cases, ◌↔◌, ℕ, zero, suc, ◌+◌, ◌≤◌, ◌<◌, String, ◌==◌, false, ◌≡◌, refl,
  some, leb, ltb, arith, eq_iff, by_test,
}
use supervisor_agent.Base.Dict.{Dict, lookup, insert, lookup-insert, lookup-erase}
use supervisor_agent.Base.Result.{ok}
use supervisor_agent.Worker.Breaker.{
  CircuitBreaker, count_of, ensure_closed, record_success, record_failure,
}

lookup-insert_same : (k : String) (n : ℕ) (d : Dict ℕ) → lookup k (insert k n d) ≡ some n
lookup-insert_same k n d = rw (lookup-insert k k n d) (ground (arith, eq_iff k k))

count_of-insert_same : (k : String) (n : ℕ) (d : Dict ℕ) → count_of (insert k n d) k ≡ n
count_of-insert_same k n d = rw (lookup-insert_same k n d, count_of) refl

-- A failure below the threshold counts, and one that reaches it opens the circuit.
record_failure_below :
    (b : CircuitBreaker) (key : String) (now : ℕ)
    → count_of b.failures key + 1 < b.threshold
    → record_failure b key now
      ≡ record b { failures = insert key (count_of b.failures key + 1) b.failures }
unfolding record_failure
record_failure_below b key now h =
    by_test (λ c. c ≡ record b { failures = insert key (count_of b.failures key + 1) b.failures })
      (leb b.threshold (count_of b.failures key + 1)) _ _ (λ t. absurd (ground arith)) (λ _. refl)

record_failure_at :
    (b : CircuitBreaker) (key : String) (now : ℕ)
    → b.threshold ≤ count_of b.failures key + 1
    → count_of (record_failure b key now).open_until key ≡ now + b.cooldown
unfolding record_failure
record_failure_at b key now h =
    by_test (λ (c : CircuitBreaker). count_of c.open_until key ≡ now + b.cooldown)
      (leb b.threshold (count_of b.failures key + 1)) _ _
      (λ _. count_of-insert_same key (now + b.cooldown) b.open_until) (λ t. absurd (ground arith))

-- `n` failures in a row at the times that `at` gives.
abbrev pub fail_times : ℕ → CircuitBreaker → String → (ℕ → ℕ) → CircuitBreaker
fail_times zero b key times = b
fail_times (suc n) b key times = record_failure (fail_times n b key times) key (times n)

pub failures-fail_times :
    (n : ℕ) (b : CircuitBreaker) (key : String) (times : ℕ → ℕ)
    → count_of b.failures key ≡ 0
    → n < b.threshold
    → (count_of (fail_times n b key times).failures key ≡ n)
      × ((fail_times n b key times).open_until ≡ b.open_until)
      × ((fail_times n b key times).threshold ≡ b.threshold)
      × ((fail_times n b key times).cooldown ≡ b.cooldown)
failures-fail_times zero b key times h k = (h, refl, refl, refl)
failures-fail_times (suc n) b key times h k =
    let (c, o, t, d) = failures-fail_times n b key times h (omega arith) in
    let below : count_of (fail_times n b key times).failures key + 1
        < (fail_times n b key times).threshold =
      rw (c, t) (omega arith) in
    rw (record_failure_below (fail_times n b key times) key (times n) below) (
      rw
          (count_of-insert_same key (count_of (fail_times n b key times).failures key + 1)
            (fail_times n b key times).failures)
          (omega arith),
      o,
      t,
      d,
    )

-- `threshold` failures in a row, from a count of 0, and no fewer, open a circuit: before the last
-- of them the moments until which circuits are open are as they were, and after it this circuit
-- is open until the end of the cooldown that starts there.
pub opens_at_threshold :
    (b : CircuitBreaker) (key : String) (times : ℕ → ℕ) (last : ℕ)
    → count_of b.failures key ≡ 0
    → b.threshold ≡ suc last
    → ((n : ℕ) → n < b.threshold → (fail_times n b key times).open_until ≡ b.open_until)
      × (count_of (fail_times (suc last) b key times).open_until key ≡ times last + b.cooldown)
opens_at_threshold b key times last h t =
    let (c, o, t', d) = failures-fail_times last b key times h (omega arith) in
    let at_last : (fail_times last b key times).threshold
        ≤ count_of (fail_times last b key times).failures key + 1 =
      omega arith in
    (
      λ n below. (let (c', o', t', d') = failures-fail_times n b key times h below in o'),
      rw (record_failure_at (fail_times last b key times) key (times last) at_last, d) refl,
    )

closed_of_count :
    (b : CircuitBreaker) (key : String) (now : ℕ)
    → count_of b.open_until key ≤ now
    → ensure_closed b key now ≡ ok tt
unfolding ensure_closed
closed_of_count b key now h =
    by_test (λ r. r ≡ ok tt) (ltb now (count_of b.open_until key)) _ _ (λ t. absurd (ground arith))
      (λ _. refl)

count_of_closed :
    (b : CircuitBreaker) (key : String) (now : ℕ)
    → ensure_closed b key now ≡ ok tt
    → count_of b.open_until key ≤ now
unfolding ensure_closed
count_of_closed b key now h = elim (Bool-cases (ltb now (count_of b.open_until key))) [
  | inl t ↦ absurd (let h' = rw t at h in cc)
  | inr f ↦ ltb→ge _ _ f
]

-- While a circuit is open a call is refused, and from the end of the cooldown on it is let
-- through; a success closes the circuit, whatever came before it, and changes no other circuit.
ensure_closed_lem :
    (b : CircuitBreaker) (key : String) (now : ℕ)
    → (ensure_closed b key now ≡ ok tt ↔ count_of b.open_until key ≤ now)
      × (ensure_closed (record_success b key) key now ≡ ok tt)
      × ((other : String)
          → (other == key) ≡ false
          → ensure_closed (record_success b key) other now ≡ ensure_closed b other now)
unfolding ensure_closed record_success
ensure_closed_lem b key now = (
  (λ h. count_of_closed b key now h, λ h. closed_of_count b key now h),
  closed_of_count (record_success b key) key now
      (rw (count_of, lookup-erase key key b.open_until) (ground (arith, eq_iff key key))),
  λ other h. rw (count_of, lookup-erase other key b.open_until, h) refl,
)
