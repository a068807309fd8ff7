-- ===== src/Governance/PolicySuite/Gate.antt =====
-- What it means that a policy suite passes.
use supervisor_agent.Base.{
  by_test, String, Bool, true, false, not, List, [], ◌∷◌, map, keep, elem, is_empty, All,
  Bool-cases, inl, inr, ◌≡◌, ◌↔◌, refl, ◌==◌, eq_iff,
}
use supervisor_agent.Base.Text.{truthy}
use supervisor_agent.Base.Result.{ok}
use supervisor_agent.Worker.Json.{Json}
use supervisor_agent.Governance.DenyRules.{Regex, DenyRule, compile_rules, first_match}
use supervisor_agent.Governance.Sensitive.{Matches}
use supervisor_agent.Governance.OutputGuard.{
  policy_from_mapping, new, OutputGuard, screen, action_text,
}
use supervisor_agent.Governance.Validators.{validate_guardrails}
use supervisor_agent.Governance.Validators.Documents.{raw_rules}
use supervisor_agent.Governance.Validators.Rules.{validated-AsPublished}
use supervisor_agent.Governance.PolicySuite.{
  canaries_of, section_of, Case, CaseResult, Report, passed, failures, decided, missing,
  input_result, output_result, case_result, guard_of, evaluate,
}

-- The policy does with a case what the corpus expects: a reply is screened to the expected action
-- and every expected label is reported, a message meets the expected decision of the first rule.
abbrev pub Met : List DenyRule → OutputGuard → Case → Type 0
Met rules guard case =
    (truthy case.reply ≡ true
      → (action_text (screen guard case.reply).action ≡ case.expect)
        × All (λ label. elem label (screen guard case.reply).labels ≡ true) case.labels)
    × (truthy case.reply ≡ false → decided (first_match guard.re rules case.text) ≡ case.expect)

none_dropped :
    {A : Type 0} (p : A → Bool) (labels : List A)
    → is_empty (keep (λ l. not (p l)) labels) ≡ true
    → All (λ l. p l ≡ true) labels
none_dropped p [] h = tt
none_dropped p (l ∷ labels) h = elim (Bool-cases (p l)) [
  | inl t ↦ (t, none_dropped p labels (let h' = rw t at h in h'))
  | inr f ↦ absurd (let h' = rw f at h in cc)
]

none_missing :
    {A : Type 0} (p : A → Bool) (labels : List A)
    → All (λ l. p l ≡ true) labels
    → is_empty (keep (λ l. not (p l)) labels) ≡ true
none_missing p [] h = refl
none_missing p (l ∷ labels) (t, h) = rw t (none_missing p labels h)

output-Met :
    (guard : OutputGuard) (case : Case)
    → (output_result guard case).passed ≡ true
    → (action_text (screen guard case.reply).action ≡ case.expect)
      × All (λ label. elem label (screen guard case.reply).labels ≡ true) case.labels
unfolding output_result
output-Met guard case h =
    elim (Bool-cases (action_text (screen guard case.reply).action == case.expect)) [
      | inr f ↦ absurd (let h' = rw (output_result, f) at h in cc)
      | inl t ↦ elim (Bool-cases (is_empty (missing case (screen guard case.reply)))) [
        | inr f ↦ absurd (let h' = rw (output_result, t, f) at h in cc)
        | inl e ↦ ((eq_iff _ case.expect).0 t, none_dropped _ case.labels e)
      ]
    ]

passed_reply :
    (guard : OutputGuard) (case : Case)
    → action_text (screen guard case.reply).action ≡ case.expect
    → All (λ label. elem label (screen guard case.reply).labels ≡ true) case.labels
    → (output_result guard case).passed ≡ true
unfolding output_result
passed_reply guard case e ls =
    rw (output_result, (eq_iff _ case.expect).1 e, none_missing _ case.labels ls) refl

case-Met :
    (rules : List DenyRule) (guard : OutputGuard) (case : Case)
    → (case_result rules guard case).passed ≡ true
    → Met rules guard case
unfolding case_result input_result
case-Met rules guard case h = (
  (λ t. output-Met guard case (let h' = rw (case_result, t) at h in h')),
  (λ f. (eq_iff _ case.expect).0 (let h' = rw (case_result, f) at h in h')),
)

passed_case :
    (rules : List DenyRule) (guard : OutputGuard) (case : Case)
    → Met rules guard case
    → (case_result rules guard case).passed ≡ true
unfolding case_result input_result
passed_case rules guard case (replies, texts) = elim (Bool-cases (truthy case.reply)) [
  | inl t ↦ rw (case_result, t) (passed_reply guard case (replies t).0 (replies t).1)
  | inr f ↦ rw (case_result, f) ((eq_iff _ case.expect).1 (texts f))
]

suite-Met :
    (rules : List DenyRule) (guard : OutputGuard) (cases : List Case)
    → All (λ r. r.passed ≡ true) (map (case_result rules guard) cases)
    → All (Met rules guard) cases
suite-Met rules guard [] h = tt
suite-Met rules guard (case ∷ cases) (h, hs) =
    (case-Met rules guard case h, suite-Met rules guard cases hs)

passed_suite :
    (rules : List DenyRule) (guard : OutputGuard) (cases : List Case)
    → All (Met rules guard) cases
    → All (λ r. r.passed ≡ true) (map (case_result rules guard) cases)
passed_suite rules guard [] h = tt
passed_suite rules guard (case ∷ cases) (h, hs) =
    (passed_case rules guard case h, passed_suite rules guard cases hs)

result-case :
    (rules : List DenyRule) (guard : OutputGuard) (case : Case)
    → (case_result rules guard case).case ≡ case
unfolding case_result output_result input_result
result-case rules guard case =
    by_test (λ (r : CaseResult). r.case ≡ case) (truthy case.reply) _ _
      (λ _. by_test (λ (r : CaseResult). r.case ≡ case) _ _ _ (λ _. refl) (λ _. refl)) (λ _. refl)

report-cases :
    (rules : List DenyRule) (guard : OutputGuard) (cases : List Case)
    → map (λ r. r.case) (map (case_result rules guard) cases) ≡ cases
report-cases rules guard [] = refl
report-cases rules guard (case ∷ cases) =
    rw (result-case rules guard case, report-cases rules guard cases) refl

-- A policy suite is a complete gate for a guardrails document that the validators accept: the
-- evaluation returns, with exactly one result for each case, in order; and the report passes if
-- and only if every case is met, where a message must meet the expected decision of the first
-- compiled rule that matches it, and a reply must be screened to exactly the expected action with
-- each expected label reported.
pub evaluate_gate :
    (re : Regex) (error_text : String → String) (matches : Matches) (process_canary : String)
    (document : Json) (cases : List Case) (mask_pii : Bool)
    → validate_guardrails re error_text document ≡ ok tt
    → (rules : List DenyRule) × (guard : OutputGuard) × (report : Report) × (compile_rules re
          "matched a blocked pattern"
          (raw_rules document "global_deny_patterns")
        ≡ ok rules)
      × (guard_of re matches process_canary document mask_pii ≡ ok guard)
      × (evaluate re matches process_canary document cases mask_pii ≡ ok report)
      × (map (λ r. r.case) report ≡ cases)
      × ((passed report ≡ true) ↔ All (Met rules guard) cases)
unfolding evaluate guard_of passed failures
evaluate_gate re error_text matches process_canary document cases mask_pii h =
    let ((rules, made, _), _) =
      validated-AsPublished re error_text "matched a blocked pattern" document h in
    let (_, (outbound, built, _)) =
      validated-AsPublished re error_text "matched an output policy rule" document h in
    let guard =
      new re matches outbound (policy_from_mapping (section_of document) mask_pii)
        (canaries_of document) process_canary [] in
    (
      rules,
      guard,
      map (case_result rules guard) cases,
      made,
      rw (guard_of, built) refl,
      rw (evaluate, made, guard_of, built) refl,
      report-cases rules guard cases,
      (
        (λ p. suite-Met rules guard cases (none_dropped _ _ p)),
        (λ m. none_missing _ _ (passed_suite rules guard cases m)),
      ),
    )
