-- ===== src/Settings/Startup.antt =====
-- src/supervisor/settings.py: what a deployed environment that starts can rely on.
use supervisor_agent.Base.{
  if◌then◌else◌, ◌<>◌, String, Bool, true, false, not, ◌&&◌, ◌||◌, List, [], ◌∷◌, is_empty, some,
  ◌≡◌, ◌↔◌, refl, sym, ap, ◌∙◌, arith, All, Bool-cases, inl, inr, if-true, if-false,
}
use supervisor_agent.Base.Int.{ℤ, pos, ◌≤ℤ◌, leℤ}
use supervisor_agent.Base.Float.{Float, nan, minus_infinity, finite, infinity, units, whole, le, lt}
use supervisor_agent.Base.Text.{join}
use supervisor_agent.Base.Result.{ok, raised, other_error}
use supervisor_agent.Governance.Environment.{Environ, is_local_environment}
use supervisor_agent.Settings.{Settings, ltℤ, checks, flagged, validate, enforce}

-- More than nothing, or NaN, which every comparison lets pass.
abbrev pub PositiveOrNan : Float → Type 0
PositiveOrNan nan = Unit
PositiveOrNan minus_infinity = ⊥
PositiveOrNan (finite n) = pos 1 ≤ℤ n
PositiveOrNan infinity = Unit

-- A finite number between two numbers of units.
abbrev pub Within : ℤ → ℤ → Float → Type 0
Within low high (finite n) = (low ≤ℤ n) × (n ≤ℤ high)
Within low high _ = ⊥

-- No less than another float, or one of the two is NaN.
abbrev pub NotLess : Float → Float → Type 0
NotLess nan b = Unit
NotLess a nan = Unit
NotLess a minus_infinity = Unit
NotLess infinity b = Unit
NotLess (finite a) (finite b) = b ≤ℤ a
NotLess (finite a) infinity = ⊥
NotLess minus_infinity b = ⊥

-- No safety-critical setting is disabled or out of its range, but for a NaN where the source only
-- asks whether a time is at most nothing, or less than another.
pub record IsSound (s : Settings) : Type 0 where
  pub turn_budget : PositiveOrNan s.turn_budget_seconds
  pub clarifications : pos 1 ≤ℤ s.max_clarifications
  pub margin : Within (pos 0) (units 1) s.routing_contested_margin
  pub decisive : Within (pos 1) (units 1) s.routing_decisive_confidence
  pub decisive_above : NotLess s.routing_decisive_confidence s.guardrail_confidence_threshold
  pub threshold : Within (pos 1) (units 1) s.guardrail_confidence_threshold
  pub session_age : PositiveOrNan s.session_max_age_seconds
  pub approval_age : NotLess s.approval_max_age_seconds s.session_max_age_seconds
  pub memory_ttl : PositiveOrNan s.long_term_memory_ttl_seconds
  pub output_chars : pos 1 ≤ℤ s.worker_output_max_chars
  pub input_chars : pos 1 ≤ℤ s.input_max_chars
  pub streak : pos 1 ≤ℤ s.guardrail_block_streak_limit
  pub routing_timeout : PositiveOrNan s.routing_llm_timeout_seconds
  pub worker_timeout : PositiveOrNan s.worker_timeout_seconds
  pub worker_attempts : pos 1 ≤ℤ s.worker_max_attempts
  pub governance_attempts : pos 1 ≤ℤ s.governance_llm_attempts
  pub recursion : pos 6 ≤ℤ s.graph_recursion_limit

abbrev Passed : List (Bool × String) → Type 0
Passed cs = All (λ c. c.0 ≡ false) cs

flagged-nil : (cs : List (Bool × String)) → flagged cs ≡ [] → Passed cs
flagged-nil [] h = tt
flagged-nil ((true, f) ∷ cs) h = absurd cc
flagged-nil ((false, f) ∷ cs) h = (refl, flagged-nil cs h)

flagged-Passed : (cs : List (Bool × String)) → Passed cs → flagged cs ≡ []
flagged-Passed [] h = refl
flagged-Passed ((true, f) ∷ cs) (h, hs) = absurd cc
flagged-Passed ((false, f) ∷ cs) (h, hs) = flagged-Passed cs hs

infixr 2 ◌also◌
abbrev ◌also◌ : {P Q : Type 0} → P → Q → P × Q
p also q = (p, q)

-- A test that does not fire, and the bound that it is of.
at_least_one : (a : ℤ) → (leℤ a (pos 0) ≡ false) ↔ (pos 1 ≤ℤ a)
at_least_one a = (λ h. ground arith, λ h. ground arith)

not_below : (a b : ℤ) → (ltℤ a b ≡ false) ↔ (b ≤ℤ a)
not_below a b = (λ h. ground arith, λ h. ground arith)

between : (a x b : ℤ) → (not (leℤ a x && leℤ x b) ≡ false) ↔ ((a ≤ℤ x) × (x ≤ℤ b))
between a x b = (λ h. ground arith, λ h. ground arith)

above_zero :
    (x b : ℤ)
    → (not ((if leℤ x (pos 0) then false else true) && leℤ x b) ≡ false) ↔ ((pos 1 ≤ℤ x) × (x ≤ℤ b))
above_zero x b = (λ h. ground arith, λ h. ground arith)

positive : (x : Float) → (le x (whole 0) ≡ false) ↔ PositiveOrNan x
positive nan = (λ h. tt, λ h. refl)
positive minus_infinity = (λ h. absurd cc, λ h. absurd h)
positive (finite n) = at_least_one n
positive infinity = (λ h. tt, λ h. refl)

not_less : (a b : Float) → (lt a b ≡ false) ↔ NotLess a b
not_less nan nan = (λ h. tt, λ h. refl)
not_less nan minus_infinity = (λ h. tt, λ h. refl)
not_less nan (finite n) = (λ h. tt, λ h. refl)
not_less nan infinity = (λ h. tt, λ h. refl)
not_less minus_infinity nan = (λ h. tt, λ h. refl)
not_less minus_infinity minus_infinity = (λ h. tt, λ h. refl)
not_less minus_infinity (finite n) = (λ h. absurd cc, λ h. absurd h)
not_less minus_infinity infinity = (λ h. absurd cc, λ h. absurd h)
not_less (finite m) nan = (λ h. tt, λ h. refl)
not_less (finite m) minus_infinity = (λ h. tt, λ h. refl)
not_less (finite m) (finite n) = (λ h. ground arith, λ h. ground arith)
not_less (finite m) infinity = (λ h. absurd cc, λ h. absurd h)
not_less infinity nan = (λ h. tt, λ h. refl)
not_less infinity minus_infinity = (λ h. tt, λ h. refl)
not_less infinity (finite n) = (λ h. tt, λ h. refl)
not_less infinity infinity = (λ h. tt, λ h. refl)

within : (x : Float) → (not (le (whole 0) x && le x (whole 1)) ≡ false) ↔ Within (pos 0) (units 1) x
within nan = (λ h. absurd cc, λ h. absurd h)
within minus_infinity = (λ h. absurd cc, λ h. absurd h)
within (finite n) = between (pos 0) n (units 1)
within infinity = (λ h. absurd cc, λ h. absurd h)

Within-above :
    (x : Float) → (not (lt (whole 0) x && le x (whole 1)) ≡ false) ↔ Within (pos 1) (units 1) x
Within-above nan = (λ h. absurd cc, λ h. absurd h)
Within-above minus_infinity = (λ h. absurd cc, λ h. absurd h)
Within-above (finite n) = above_zero n (units 1)
Within-above infinity = (λ h. absurd cc, λ h. absurd h)

neither : (p q : Bool) → ((p || q) ≡ false) ↔ ((p ≡ false) × (q ≡ false))
neither true q = (λ h. absurd cc, λ h. absurd cc)
neither false q = (λ h. (refl, h), λ h. h.1)

Passed-IsSound : (s : Settings) → Passed (checks s) → IsSound s
Passed-IsSound s (a, (b, (c, (d, (e, (f, (g, (h, (i, (j, (k, (l, (m, (n, (o, rest))))))))))))))) =
    let timeouts = (neither _ _).0 m in
    let attempts = (neither _ _).0 n in
    record {
      turn_budget = (positive s.turn_budget_seconds).0 a;
      clarifications = (not_below s.max_clarifications (pos 1)).0 b;
      margin = (within s.routing_contested_margin).0 c;
      decisive = (Within-above s.routing_decisive_confidence).0 d;
      decisive_above =
          (not_less s.routing_decisive_confidence s.guardrail_confidence_threshold).0 e;
      threshold = (Within-above s.guardrail_confidence_threshold).0 f;
      session_age = (positive s.session_max_age_seconds).0 g;
      approval_age = (not_less s.approval_max_age_seconds s.session_max_age_seconds).0 h;
      memory_ttl = (positive s.long_term_memory_ttl_seconds).0 i;
      output_chars = (at_least_one s.worker_output_max_chars).0 j;
      input_chars = (at_least_one s.input_max_chars).0 k;
      streak = (not_below s.guardrail_block_streak_limit (pos 1)).0 l;
      routing_timeout = (positive s.routing_llm_timeout_seconds).0 timeouts.0;
      worker_timeout = (positive s.worker_timeout_seconds).0 timeouts.1;
      worker_attempts = (not_below s.worker_max_attempts (pos 1)).0 attempts.0;
      governance_attempts = (not_below s.governance_llm_attempts (pos 1)).0 attempts.1;
      recursion = (not_below s.graph_recursion_limit (pos 6)).0 o;
    }

IsSound-Passed : (s : Settings) → IsSound s → Passed (checks s)
IsSound-Passed s w =
    (positive s.turn_budget_seconds).1 w.turn_budget
    also (not_below s.max_clarifications (pos 1)).1 w.clarifications
    also (within s.routing_contested_margin).1 w.margin
    also (Within-above s.routing_decisive_confidence).1 w.decisive
    also (not_less s.routing_decisive_confidence s.guardrail_confidence_threshold).1
        w.decisive_above
    also (Within-above s.guardrail_confidence_threshold).1 w.threshold
    also (positive s.session_max_age_seconds).1 w.session_age
    also (not_less s.approval_max_age_seconds s.session_max_age_seconds).1 w.approval_age
    also (positive s.long_term_memory_ttl_seconds).1 w.memory_ttl
    also (at_least_one s.worker_output_max_chars).1 w.output_chars
    also (at_least_one s.input_max_chars).1 w.input_chars
    also (not_below s.guardrail_block_streak_limit (pos 1)).1 w.streak
    also (neither _ _).1 (
      (positive s.routing_llm_timeout_seconds).1 w.routing_timeout,
      (positive s.worker_timeout_seconds).1 w.worker_timeout,
    )
    also (neither _ _).1 (
      (not_below s.worker_max_attempts (pos 1)).1 w.worker_attempts,
      (not_below s.governance_llm_attempts (pos 1)).1 w.governance_attempts,
    )
    also (not_below s.graph_recursion_limit (pos 6)).1 w.recursion
    also tt

is_empty-nil : {A : Type 0} (xs : List A) → is_empty xs ≡ true → xs ≡ []
is_empty-nil [] h = refl
is_empty-nil (x ∷ xs) h = absurd cc

refused :
    (env : Environ) (s : Settings)
    → is_local_environment env (some s.environment) ≡ false
    → is_empty (validate s) ≡ false
    → enforce env s
      ≡ raised (
          other_error "RuntimeError" (
            "refusing to serve with safety-critical settings disabled: " <> join "; " (validate s)))
unfolding enforce
refused env s deployed n = if-false (is_empty (validate s)) _ _ n ∙ rw deployed refl

-- A deployed environment starts exactly with settings that are sound: the confidences are numbers in
-- their ranges and the decisive one is no less than the threshold; the clarifications, the sizes of
-- messages, the repeated blocks, the attempts and the steps of the graph reach their least values;
-- and each of the
-- turn's budget, the timeouts and the ages of sessions and memory is more than nothing or NaN, which
-- the validation lets pass, and the age of approvals is no less than that of sessions or one of the
-- two is NaN.
pub enforce_deployed :
    (env : Environ) (s : Settings)
    → is_local_environment env (some s.environment) ≡ false
    → (enforce env s ≡ ok []) ↔ IsSound s
unfolding enforce
enforce_deployed env s deployed = (
  λ started. elim (Bool-cases (is_empty (validate s))) [
    | inl e ↦ Passed-IsSound s (flagged-nil (checks s) (is_empty-nil (validate s) e))
    | inr n ↦ absurd (let e = sym (refused env s deployed n) ∙ started in cc)
  ],
  λ w.
      if-true (is_empty (validate s)) _ _
        (ap is_empty (flagged-Passed (checks s) (IsSound-Passed s w))),
)
