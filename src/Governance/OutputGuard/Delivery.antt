-- ===== src/Governance/OutputGuard/Delivery.antt =====
-- OutputGuard.screen: what is delivered and what is withheld.
use supervisor_agent.Base.{
  sym, inr, inl, String, true, false, ◌≡◌, refl, none, List, [], ◌∷◌, Bool-cases, Option-cases,
  is_empty,
}
use supervisor_agent.Base.Text.{truthy}
use supervisor_agent.Governance.DenyRules as Deny
use supervisor_agent.Governance.Sensitive.Redaction.{redact_unchanged}
use supervisor_agent.Governance.DenyRules.{DenyRule, first_match}
use supervisor_agent.Governance.Sensitive.{Finding, redact}
use supervisor_agent.Governance.OutputGuard.{
  of_rule, OutputGuard, OutputPolicy, OutputScreenResult, is_withheld, blocked, escalates,
  active_categories, leak_in, act_on, catalogue, strongest_of, screen,
}
use supervisor_agent.Governance.OutputGuard.Strongest.{
  CoveredFindings, CoveredFindings-mono, strongest_of-Covered, severity_of_delivered,
}

-- What a text that is delivered owes to the policy.
abbrev Delivered : OutputPolicy → String × List Finding → OutputScreenResult → Type 0
Delivered p found r = blocked r ≡ false → (r.text ≡ found.0) × CoveredFindings p 1 found.1

act_on-Delivered :
    (p : OutputPolicy) (masked : String) (fs : List Finding)
    → Delivered p (masked, fs) (act_on p masked fs)
unfolding act_on
act_on-Delivered p masked fs h = elim (Bool-cases (is_withheld (strongest_of p fs).0)) [
  | inl held ↦ absurd (let h' = rw (act_on, held) at h in cc)
  | inr let_go ↦
      rw (act_on, let_go)
        (
          refl,
          CoveredFindings-mono p _ 1 fs (severity_of_delivered (strongest_of p fs).0 let_go)
              (strongest_of-Covered p fs).0,
        )
]

catalogue-Delivered :
    (p : OutputPolicy) (raw : String) (found : String × List Finding)
    → (is_empty found.1 ≡ true → found.0 ≡ raw)
    → Delivered p found (catalogue p raw found)
unfolding catalogue
catalogue-Delivered p raw (masked, []) u h = (sym (u refl), tt)
catalogue-Delivered p raw (masked, (f ∷ fs)) u h = act_on-Delivered p masked (f ∷ fs) h

rule_held : (a : Deny.Action) → is_withheld (of_rule a) ≡ false → ⊥
rule_held Deny.Action.block h = cc
rule_held Deny.Action.escalate h = cc

-- A generated text that is delivered shows no planted canary and no protected line, matches no
-- deny rule, and is what the redaction under the policy's active categories leaves of it; and the
-- policy asks no more than masking for any category of any finding in it.
pub screen_delivered :
    (g : OutputGuard) (raw : String)
    → blocked (screen g raw) ≡ false
    → (truthy (leak_in g raw) ≡ false)
      × (first_match g.re g.rules raw ≡ none)
      × ((screen g raw).text ≡ (redact g.matches (active_categories g.policy) raw).0)
      × CoveredFindings g.policy 1 (redact g.matches (active_categories g.policy) raw).1
unfolding screen
screen_delivered g raw h = elim (Bool-cases (truthy (leak_in g raw))) [
  | inl leak ↦ absurd (let h' = rw (screen, leak) at h in cc)
  | inr clean ↦ elim (Option-cases (first_match g.re g.rules raw)) [
    | inr (rule, m) ↦ absurd (let h' = rw (screen, clean, m) at h in rule_held rule.action h')
    | inl m ↦
        let h' : blocked
              (catalogue g.policy raw (redact g.matches (active_categories g.policy) raw))
            ≡ false =
          rw (screen, clean, m) at h in
        let (same, covered) =
          catalogue-Delivered g.policy raw (redact g.matches (active_categories g.policy) raw)
            (redact_unchanged g.matches (active_categories g.policy) raw) h' in
        (clean, m, rw (screen, clean, m) same, covered)
  ]
]

catalogue_withheld :
    (p : OutputPolicy) (raw : String) (found : String × List Finding)
    → blocked (catalogue p raw found) ≡ true
    → (catalogue p raw found).text ≡ ""
unfolding catalogue act_on
catalogue_withheld p raw (masked, []) h = absurd cc
catalogue_withheld p raw (masked, (f ∷ fs)) h =
    elim (Bool-cases (is_withheld (strongest_of p (f ∷ fs)).0)) [
      | inl held ↦ rw (act_on, held) refl
      | inr let_go ↦ absurd (let h' = rw (act_on, let_go) at h in cc)
    ]

-- A text that is withheld is withheld whole: the result carries no text of it. And a text with a
-- planted canary or a protected line in it is always withheld, and escalated.
screen_withheld :
    (g : OutputGuard) (raw : String)
    → (blocked (screen g raw) ≡ true → (screen g raw).text ≡ "")
      × (truthy (leak_in g raw) ≡ true
          → (blocked (screen g raw) ≡ true) × (escalates (screen g raw) ≡ true))
unfolding screen
screen_withheld g raw = (
  λ h. elim (Bool-cases (truthy (leak_in g raw))) [
    | inl leak ↦ rw (screen, leak) refl
    | inr clean ↦ elim (Option-cases (first_match g.re g.rules raw)) [
      | inr (rule, m) ↦ rw (screen, clean, m) refl
      | inl m ↦
          rw (screen, clean, m)
            (catalogue_withheld g.policy raw (redact g.matches (active_categories g.policy) raw)
              (rw (screen, clean, m) at h))
    ]
  ],
  λ leak. rw (screen, leak) (refl, refl),
)
