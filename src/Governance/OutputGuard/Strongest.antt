-- ===== src/Governance/OutputGuard/Strongest.antt =====
-- OutputGuard.screen: the action that the findings of a text earn together.
use supervisor_agent.Base.{
  ◌&&◌, Bool, ◌<◌, ℕ, String, ◌≤◌, false, ◌≡◌, refl, List, [], ◌∷◌, All, ltb, leb, length, arith,
  by_test,
}
use supervisor_agent.Governance.Sensitive.{Category, Finding}
use supervisor_agent.Governance.OutputGuard.{
  mask, block, is_withheld, Action, allow, escalate, severity, OutputPolicy, Strongest, raise_to,
  categories_of, bulk, over_categories, over_findings, strongest_of,
}

-- The severities end at the escalation, and a text that is not withheld was at most masked.
severity-escalate : (a : Action) → 3 ≤ severity a → a ≡ escalate
severity-escalate allow h = absurd (omega arith)
severity-escalate mask h = absurd (omega arith)
severity-escalate block h = absurd (omega arith)
severity-escalate escalate h = refl

severity_max : (a : Action) → severity a ≤ 3
severity_max allow = omega arith
severity_max mask = omega arith
severity_max block = omega arith
severity_max escalate = omega arith

pub severity_of_delivered : (a : Action) → is_withheld a ≡ false → severity a ≤ 1
severity_of_delivered allow h = omega arith
severity_of_delivered mask h = omega arith
severity_of_delivered block h = absurd cc
severity_of_delivered escalate h = absurd cc

module _ (p : OutputPolicy) where
  -- No category of a list, and none of the findings' categories, calls for more than `n`.
  abbrev pub Covered : ℕ → List Category → Type 0
  Covered n = All (λ c. severity (p.action_for c) ≤ n)

  abbrev pub CoveredFindings : ℕ → List Finding → Type 0
  CoveredFindings n = All (λ f. Covered n (categories_of f))

  pub Covered-mono : (m n : ℕ) (cs : List Category) → m ≤ n → Covered m cs → Covered n cs
  Covered-mono m n [] h k = tt
  Covered-mono m n (c ∷ cs) h (k, l) = (omega arith, Covered-mono m n cs h l)

  pub CoveredFindings-mono :
      (m n : ℕ) (fs : List Finding) → m ≤ n → CoveredFindings m fs → CoveredFindings n fs
  CoveredFindings-mono m n [] h k = tt
  CoveredFindings-mono m n (f ∷ fs) h (k, l) =
      (Covered-mono m n (categories_of f) h k, CoveredFindings-mono m n fs h l)

  raise_to_max :
      (label : String) (s : Strongest) (c : Category)
      → (severity s.0 ≤ severity (raise_to p label s c).0)
        × (severity (p.action_for c) ≤ severity (raise_to p label s c).0)
  raise_to_max label (a, l) c = ground arith

  over_categories-Covered :
      (label : String) (s : Strongest) (cs : List Category)
      → (severity s.0 ≤ severity (over_categories p label s cs).0)
        × Covered (severity (over_categories p label s cs).0) cs
  unfolding over_categories
  over_categories-Covered label s [] = (omega arith, tt)
  over_categories-Covered label s (c ∷ cs) =
      let (up, one) = raise_to_max label s c in
      let (more, others) = over_categories-Covered label (raise_to p label s c) cs in
      (omega arith, (omega arith, others))

  over_findings-Covered :
      (s : Strongest) (fs : List Finding)
      → (severity s.0 ≤ severity (over_findings p s fs).0)
        × CoveredFindings (severity (over_findings p s fs).0) fs
  unfolding over_findings
  over_findings-Covered s [] = (omega arith, tt)
  over_findings-Covered s (f ∷ fs) =
      let (up, own) = over_categories-Covered f.label s (categories_of f) in
      let (more, others) =
        over_findings-Covered (over_categories p f.label s (categories_of f)) fs in
      (omega arith, (Covered-mono _ _ (categories_of f) more own, others))

  abbrev reached : List Finding → Bool
  reached fs =
      ltb 0 p.escalate_at_findings
      && leb p.escalate_at_findings (length (bulk fs))
      && ltb (severity (over_findings p (allow, "") fs).0) (severity escalate)

  -- The action taken on a text is at least as strong as the policy's action for every category of
  -- every finding, overlapping ones included; and where the policy sets a limit on findings of a
  -- high tier, reaching it escalates.
  pub strongest_of-Covered :
      (fs : List Finding)
      → CoveredFindings (severity (strongest_of p fs).0) fs
        × (0 < p.escalate_at_findings
            → p.escalate_at_findings ≤ length (bulk fs)
            → (strongest_of p fs).0 ≡ escalate)
  unfolding strongest_of
  strongest_of-Covered fs = (
    by_test (λ (s : Strongest). CoveredFindings (severity s.0) fs) (reached fs) _ _
        (λ _.
          CoveredFindings-mono _ 3 fs (severity_max (over_findings p (allow, "") fs).0)
            (over_findings-Covered (allow, "") fs).1)
        (λ _. (over_findings-Covered (allow, "") fs).1),
    λ on many.
        by_test (λ (s : Strongest). s.0 ≡ escalate) (reached fs) _ _ (λ _. refl)
          (λ f. severity-escalate _ (ground arith)),
  )
