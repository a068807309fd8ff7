-- ===== src/Worker/Registry/Approval.antt =====
-- AgentRegistry.approval_reason: the requests that need sign-off.
use supervisor_agent.Base.{
  String, true, Bool, ◌≡◌, refl, List, [], ◌∷◌, by_test, inl, inr, In, some, Bool-cases, ◌↔◌,
}
use supervisor_agent.Base.Text.{truthy, or_text}
use supervisor_agent.Governance.DenyRules.{Regex}
use supervisor_agent.Worker.Registry.{
  ApprovalRule, WorkerAgent, text_or, rule_matches, first_approval, approval_reason,
}

-- A rule demands sign-off of a text: it has a pattern, which compiles and is found in the text.
abbrev pub Demands : Regex → String → ApprovalRule → Type 0
Demands re query rule =
    (truthy (text_or rule.pattern "") ≡ true)
    × (re.compiles (text_or rule.pattern "") ≡ true)
    × (re.search_i (text_or rule.pattern "") query ≡ true)

abbrev pub stated_reason : ApprovalRule → String
stated_reason rule = or_text (text_or rule.reason "") "the request matches an approval rule"

module _ (re : Regex) (query : String) where
  rule_matches_lem :
      (rule : ApprovalRule) → Demands re query rule → rule_matches re rule query ≡ true
  unfolding rule_matches
  rule_matches_lem rule (p, c, s) = rw p (rw c s)

  abbrev Told : ApprovalRule → Bool → Type 0
  Told rule b = b ≡ true → Demands re query rule

  rule_matches-Demands : (rule : ApprovalRule) → Told rule (rule_matches re rule query)
  unfolding rule_matches
  rule_matches-Demands rule =
      by_test (Told rule) (truthy (text_or rule.pattern "")) _ _
        (λ p.
          by_test (Told rule) (re.compiles (text_or rule.pattern "")) _ _ (λ c s. (p, c, s))
            (λ _ h. absurd cc))
        (λ _ h. absurd cc)

  stated : (rule : ApprovalRule) → truthy (stated_reason rule) ≡ true
  stated rule =
      by_test (λ t. truthy t ≡ true) (truthy (text_or rule.reason "")) _ _ (λ h. h) (λ _. refl)

  first_approval_demanded :
      (rules : List ApprovalRule) (rule : ApprovalRule)
      → In rule rules
      → Demands re query rule
      → truthy (first_approval re rules query) ≡ true
  unfolding first_approval
  first_approval_demanded [] rule i d = absurd i
  first_approval_demanded (r ∷ rules) rule i d =
      by_test (λ t. truthy t ≡ true) (rule_matches re r query) _ _ (λ _. stated r)
        (λ n. elim i [
          | inl e ↦ absurd (let m = rule_matches_lem rule d in let u = rw e at m in cc)
          | inr j ↦ first_approval_demanded rules rule j d
        ])

  first_approval_given :
      (rules : List ApprovalRule)
      → truthy (first_approval re rules query) ≡ true
      → (rule : ApprovalRule) × In rule rules × Demands re query rule
  unfolding first_approval
  first_approval_given [] h = absurd cc
  first_approval_given (r ∷ rules) shown = elim (Bool-cases (rule_matches re r query)) [
    | inl m ↦ (r, inl refl, rule_matches-Demands r m)
    | inr n ↦ let (rule, i, d) = first_approval_given rules (rw n at shown) in (rule, inr i, d)
  ]

-- `approval_reason` gives a reason that is not empty exactly where the query is not empty and one of
-- the agent's rules demands sign-off of it: has a pattern that is not empty, compiles and is found
-- in the query. Rules without a pattern and rules whose pattern does not compile are passed over,
-- wherever they stand.
pub approval_reason_lem :
    (re : Regex) (agent : WorkerAgent) (query : String)
    → (truthy (approval_reason re (some agent) query) ≡ true) ↔ (
        (truthy query ≡ true)
        × ((rule : ApprovalRule) × In rule agent.approval_patterns × Demands re query rule))
unfolding approval_reason
approval_reason_lem re agent query = (
  by_test
      (λ t.
        truthy t ≡ true
        → (truthy query ≡ true)
          × ((rule : ApprovalRule) × In rule agent.approval_patterns × Demands re query rule))
      (truthy query) _ _ (λ q h. (q, first_approval_given re query agent.approval_patterns h))
      (λ _ h. absurd cc),
  λ (q, (rule, i, d)). rw q (first_approval_demanded re query agent.approval_patterns rule i d),
)
