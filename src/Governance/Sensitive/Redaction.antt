-- ===== src/Governance/Sensitive/Redaction.antt =====
-- sensitive_data.py: the sweeps of `redact`.
use supervisor_agent.Base.{
  inr, inl, ℕ, zero, suc, String, true, false, ◌≡◌, refl, List, [], ◌∷◌, ◌++◌, is_empty, by_test,
  Bool-cases,
}
use supervisor_agent.Governance.Sensitive.{
  Category, Finding, Matches, scan, mask, sweep, wanted_in, redact,
}

is_empty-append : (xs ys : List Finding) → is_empty xs ≡ false → is_empty (xs ++ ys) ≡ false
is_empty-append [] ys h = absurd cc
is_empty-append (x ∷ xs) ys h = refl

-- What a sweep found stays found.
sweep_grows :
    (m : Matches) (wanted : List Category) (left round : ℕ) (out : String) (found : List Finding)
    → is_empty found ≡ false
    → is_empty (sweep m wanted left round out found).1 ≡ false
unfolding sweep
sweep_grows m wanted zero round out found h = h
sweep_grows m wanted (suc left) round out found h =
    by_test (λ (r : String × List Finding). is_empty r.1 ≡ false)
      (is_empty (scan m out (wanted_in m wanted round))) _ _ (λ _. h)
      (λ _.
        sweep_grows m wanted left (suc round) _ _
          (is_empty-append found (scan m out (wanted_in m wanted round)) h))

sweep_unchanged :
    (m : Matches) (wanted : List Category) (left round : ℕ) (out : String)
    → is_empty (sweep m wanted left round out []).1 ≡ true
    → (sweep m wanted left round out []).0 ≡ out
unfolding sweep
sweep_unchanged m wanted zero round out h = refl
sweep_unchanged m wanted (suc left) round out h =
    elim (Bool-cases (is_empty (scan m out (wanted_in m wanted round)))) [
      | inl none_fresh ↦ rw (sweep, none_fresh) refl
      | inr some_fresh ↦ absurd (
          let grown =
            sweep_grows m wanted left (suc round) (mask out (scan m out (wanted_in m wanted round)))
              ([] ++ scan m out (wanted_in m wanted round)) some_fresh in
          let h' = rw (sweep, some_fresh) at h in cc)
    ]

-- A text in which the redaction found nothing comes back unchanged.
pub redact_unchanged :
    (m : Matches) (wanted : List Category) (text : String)
    → is_empty (redact m wanted text).1 ≡ true
    → (redact m wanted text).0 ≡ text
unfolding redact
redact_unchanged m wanted text h = sweep_unchanged m wanted 3 0 text h
