-- ===== src/Governance/Validators/Policy.antt =====
-- The output policy of a validated guardrails document, and its canary tokens.
use supervisor_agent.Base.{
  eqb, keep, not, both_true, not, ◌≤◌, String, ◌==◌, Bool, true, false, some, List, [], ◌∷◌,
  Option-cases, Bool-cases, inl, inr, ◌≡◌, refl, All, arith,
}
use supervisor_agent.Base.Result.{ok, first_step}
use supervisor_agent.Worker.Json.{Json, Fields, null, obj, end, field, field_or}
use supervisor_agent.Governance.DenyRules.{Regex}
use supervisor_agent.Governance.Sensitive.{
  categories, pii_tier, Category, same_category, has_category, never_allow, category_index,
}
use supervisor_agent.Governance.OutputGuard as Guard
use supervisor_agent.Governance.OutputGuard.{
  OutputPolicy, relaxed, PolicySection, policy_from_mapping, active_categories, severity,
  default_action, override,
}
use supervisor_agent.Governance.ConfigStore.{require}
use supervisor_agent.Governance.ConfigStore.Require.{after_require}
use supervisor_agent.Governance.Validators.{
  arr, str, number, validate_deny_rules, boolean, or_object, require, is_text, text_of, fields_of,
  category_of, action_of, is_one_of, action_names, never_delivered, validate_categories,
  validate_section, validate_output_policy, validate_guardrails,
}
use supervisor_agent.Governance.Validators.Documents.{overrides_of, section_of}

-- An entry that keeps the high tier from being delivered as it is.
abbrev Holds : Category × Guard.Action → Type 0
Holds (c, a) = has_category never_allow c ≡ true → 1 ≤ severity a

default_held : (c : Category) → has_category never_allow c ≡ true → 1 ≤ severity (default_action c)
default_held Category.credential h = omega arith
default_held Category.secret_assignment h = omega arith
default_held Category.government_id h = omega arith
default_held Category.payment h = omega arith
default_held Category.bank h = omega arith
default_held Category.health_id h = omega arith
default_held Category.health_condition h = omega arith
default_held Category.person h = omega arith
default_held Category.contact h = omega arith
default_held Category.dob h = omega arith
default_held Category.network h = absurd cc

-- The same category is in the same tier.
same_tier :
    (d c : Category)
    → same_category d c ≡ true
    → has_category never_allow c ≡ true
    → has_category never_allow d ≡ true
same_tier d c s h =
    let e : category_index d ≡ category_index c = ground arith in rw (has_category, e) h

override-Holds :
    (entries : List (Category × Guard.Action)) (c : Category) (a : Guard.Action)
    → All Holds entries
    → Holds (c, a)
    → Holds (c, override entries c a)
unfolding override
override-Holds [] c a hs h = h
override-Holds ((d, b) ∷ entries) c a (first, hs) h = elim (Bool-cases (same_category d c)) [
  | inl s ↦ rw (override, s) (override-Holds entries c b hs (λ t. first (same_tier d c s t)))
  | inr n ↦ rw (override, n) (override-Holds entries c a hs h)
]

named_severity :
    (name : String) (a : Guard.Action)
    → (name == "allow") ≡ false
    → action_of name ≡ some a
    → 1 ≤ severity a
named_severity name Guard.Action.allow n h =
    absurd (let h' = rw (action_of, n) at h in ground arith)
named_severity name Guard.Action.mask n h = omega arith
named_severity name Guard.Action.block n h = omega arith
named_severity name Guard.Action.escalate n h = omega arith

override_held :
    (category : String) (action : Json) (c : Category) (a : Guard.Action)
    → category_of category ≡ some c
    → action_of (text_of action) ≡ some a
    → is_one_of action_names action ≡ true
    → not (never_delivered category action) ≡ true
    → Holds (c, a)
override_held category action c a k m o n h = elim (Bool-cases (text_of action == "allow")) [
  | inr f ↦ named_severity (text_of action) a f m
  | inl t ↦
      let i = (both_true (is_text action) _ o).0 in
      absurd (let n' = rw (never_delivered, k, h, is_one_of, i, t) at n in cc)
]

overrides_held :
    (categories : Fields) (u : Unit {0})
    → validate_categories categories ≡ ok u
    → All Holds (overrides_of categories)
unfolding validate_categories overrides_of
overrides_held end u h = tt
overrides_held (field category action rest) u h =
    let (known, h1) = after_require _ _ _ h in
    let (acts, h2) = after_require _ _ _ h1 in
    let (held, h3) = after_require _ _ _ h2 in
    elim (Option-cases (category_of category)) [
      | inl n ↦ rw (overrides_of, n) (overrides_held rest u h3)
      | inr (c, k) ↦ elim (Option-cases (action_of (text_of action))) [
        | inl n ↦ rw (overrides_of, k, n) (overrides_held rest u h3)
        | inr (a, m) ↦
            rw (overrides_of, k, m)
              (override_held category action c a k m acts held, overrides_held rest u h3)
      ]
    ]

section_overrides : Json → List (Category × Guard.Action)
section_overrides section =
    overrides_of
      (fields_of (or_object (field_or (fields_of (or_object section)) "categories" (obj end))))

mapping_held :
    (section : Fields) (u : Unit {0})
    → validate_section (obj section) ≡ ok u
    → All Holds (overrides_of (fields_of (or_object (field_or section "categories" (obj end)))))
unfolding validate_section
mapping_held section u h =
    let (o, h1) = after_require _ _ _ h in
    let (mapped, h2) = after_require _ _ _ h1 in
    let (c, h3, k) =
      first_step
        (validate_categories (fields_of (or_object (field_or section "categories" (obj end))))) _
        h2 in
    overrides_held _ c k

section_held :
    (section : Json) (u : Unit {0})
    → validate_section section ≡ ok u
    → All Holds (section_overrides section)
unfolding validate_section require section_overrides overrides_of
section_held null u h = tt
section_held (boolean b) u h = absurd cc
section_held (number n) u h = absurd cc
section_held (str s) u h = absurd cc
section_held (arr xs) u h = absurd cc
section_held (obj end) u h = tt
section_held (obj (field k v rest)) u h = mapping_held (field k v rest) u h

published_held :
    (re : Regex) (error_text : String → String) (payload : Json)
    → validate_guardrails re error_text payload ≡ ok tt
    → All Holds (section_of payload).overrides
unfolding validate_guardrails validate_output_policy section_of section_overrides
published_held re error_text payload h =
    let (o, h1) = after_require _ _ _ h in
    let (a, h2, _) =
      first_step (validate_deny_rules re error_text (fields_of payload) "global_deny_patterns") _
        h1 in
    let (b, h3, _) =
      first_step (validate_deny_rules re error_text (fields_of payload) "output_deny_patterns") _
        h2 in
    let (c, h4, policy) = first_step (validate_output_policy (fields_of payload)) _ h3 in
    section_held _ c policy

tiers_apart : (c : Category) → has_category never_allow c ≡ true → has_category pii_tier c ≡ false
tiers_apart Category.credential h = refl
tiers_apart Category.secret_assignment h = refl
tiers_apart Category.government_id h = refl
tiers_apart Category.payment h = refl
tiers_apart Category.bank h = refl
tiers_apart Category.health_id h = refl
tiers_apart Category.health_condition h = absurd cc
tiers_apart Category.person h = absurd cc
tiers_apart Category.contact h = absurd cc
tiers_apart Category.dob h = absurd cc
tiers_apart Category.network h = refl

policy_held :
    (section : PolicySection) (mask_pii : Bool) (c : Category)
    → All Holds section.overrides
    → has_category never_allow c ≡ true
    → 1 ≤ severity ((policy_from_mapping section mask_pii).action_for c)
unfolding policy_from_mapping
policy_held section true c hs h = override-Holds section.overrides c _ hs (default_held c) h
policy_held section false c hs h =
    rw (relaxed, tiers_apart c h) (override-Holds section.overrides c _ hs (default_held c) h)

has_category-keep :
    (p : Category → Bool) (cs : List Category) (c : Category)
    → has_category cs c ≡ true
    → ((d : Category) → same_category c d ≡ true → p d ≡ true)
    → has_category (keep p cs) c ≡ true
has_category-keep p [] c h k = absurd cc
has_category-keep p (d ∷ cs) c h k = elim (Bool-cases (same_category c d)) [
  | inl s ↦ rw (k d s, s) refl
  | inr n ↦
      let h' : has_category cs c ≡ true = rw n at h in
      elim (Bool-cases (p d)) [
        | inl t ↦ rw (t, n) (has_category-keep p cs c h' k)
        | inr f ↦ rw f (has_category-keep p cs c h' k)
      ]
]

same_tier_of :
    (c d : Category)
    → same_category c d ≡ true
    → has_category never_allow c ≡ true
    → has_category never_allow d ≡ true
same_tier_of c d s h =
    let e : category_index d ≡ category_index c = ground arith in rw (has_category, e) h

among : (c : Category) → has_category categories c ≡ true
among Category.credential = refl
among Category.secret_assignment = refl
among Category.government_id = refl
among Category.payment = refl
among Category.bank = refl
among Category.health_id = refl
among Category.health_condition = refl
among Category.person = refl
among Category.contact = refl
among Category.dob = refl
among Category.network = refl

policy_active :
    (p : OutputPolicy) (c : Category)
    → ((d : Category) → has_category never_allow d ≡ true → 1 ≤ severity (p.action_for d))
    → has_category never_allow c ≡ true
    → has_category (active_categories p) c ≡ true
unfolding active_categories
policy_active p c held h =
    has_category-keep (λ d. not (eqb (severity (p.action_for d)) 0)) categories c (among c)
      (λ d s. let positive = held d (same_tier_of c d s h) in ground arith)

-- A guardrails document that is accepted never delivers the high tier: under the policy read from
-- it, whether or not the PII tier is masked, every category that may never be allowed is masked,
-- withheld or escalated, and is among the categories that a reply is scanned for.
pub validated_never_delivers :
    (re : Regex) (error_text : String → String) (payload : Json) (mask_pii : Bool) (c : Category)
    → validate_guardrails re error_text payload ≡ ok tt
    → has_category never_allow c ≡ true
    → (1 ≤ severity ((policy_from_mapping (section_of payload) mask_pii).action_for c))
      × (has_category (active_categories (policy_from_mapping (section_of payload) mask_pii)) c
          ≡ true)
unfolding validate_guardrails validate_output_policy
validated_never_delivers re error_text payload mask_pii c h n =
    let held = published_held re error_text payload h in
    (
      policy_held (section_of payload) mask_pii c held n,
      policy_active (policy_from_mapping (section_of payload) mask_pii) c
          (λ d. policy_held (section_of payload) mask_pii d held) n,
    )
