-- ===== src/Governance/Validators/Rules.antt =====
-- The deny rules of a validated guardrails document are compiled, each as it was published.
use supervisor_agent.Base.{
  both_true, elem, ℕ, ◌+◌, String, ◌==◌, eq_iff, true, Option, none, some, List, [], ◌∷◌, map,
  Option-cases, Bool-cases, inl, inr, ◌≡◌, refl, sym,
}
use supervisor_agent.Base.Text.{truthy}
use supervisor_agent.Base.Result.{ok, first_step}
use supervisor_agent.Worker.Json.{Json, null, field_or, lookup_field}
use supervisor_agent.Governance.DenyRules.{
  read_action, Regex, DenyRule, Action, block, escalate, compile_rules, compile_rule,
}
use supervisor_agent.Governance.ConfigStore.Require.{require-ok, after_require}
use supervisor_agent.Governance.Validators.{
  require, is_object, text_of, fields_of, is_filled, is_text, is_one_of, when_given,
  compile_pattern, validate_rule, validate_rules, validate_deny_rules, validate_guardrails,
}
use supervisor_agent.Governance.Validators.Documents.{given_text, rule_of, entries, raw_rules}

abbrev action_name : Action → String
action_name block = "block"
action_name escalate = "escalate"

abbrev text_or : Option String → String → String
text_or given default = elim given [ none ↦ default | some s ↦ s ]

module _ (re : Regex) (error_text : String → String) where
  -- A rule is what an entry of a document says: its pattern compiles, and the reason and the
  -- action are the published ones, or the defaults where the entry has none.
  abbrev pub AsPublished : String → Json → DenyRule → Type 0
  AsPublished default_reason entry rule =
      (given_text "pattern" entry ≡ some rule.regex)
      × (truthy rule.regex ≡ true)
      × (re.compiles rule.regex ≡ true)
      × (rule.reason ≡ text_or (given_text "reason" entry) default_reason)
      × (action_name rule.action ≡ text_or (given_text "action" entry) "block")

  abbrev pub AllAsPublished : String → List Json → List DenyRule → Type 0
  AllAsPublished d [] [] = Unit
  AllAsPublished d (entry ∷ more) (rule ∷ rules) =
      AsPublished d entry rule × AllAsPublished d more rules
  AllAsPublished d _ _ = ⊥

  pub compile_pattern-ok :
      (pattern at : String) (u : Unit {0})
      → compile_pattern re error_text pattern at ≡ ok u
      → re.compiles pattern ≡ true
  unfolding compile_pattern
  compile_pattern-ok pattern at u h = elim (Bool-cases (re.compiles pattern)) [
    | inl t ↦ t
    | inr f ↦ absurd (let h' = rw (compile_pattern, f) at h in cc)
  ]

  filled_text :
      (entry : Json)
      → is_filled (field_or (fields_of entry) "pattern" null) ≡ true
      → (given_text "pattern" entry ≡ some (text_of (field_or (fields_of entry) "pattern" null)))
        × (truthy (text_of (field_or (fields_of entry) "pattern" null)) ≡ true)
  filled_text entry h = elim (Option-cases (lookup_field "pattern" (fields_of entry))) [
    | inl n ↦ absurd (let h' = rw (field_or, n) at h in cc)
    | inr (v, e) ↦
        let h' : is_filled v ≡ true = rw (field_or, e) at h in
        rw (field_or, e) (refl, (both_true (is_text v) (truthy (text_of v)) h').1)
  ]

  named_action :
      (a : String)
      → elem a ("block" ∷ "escalate" ∷ []) ≡ true
      → action_name (read_action (some a)) ≡ a
  named_action a h = elim (Bool-cases (a == "escalate")) [
    | inl t ↦ rw t (sym ((eq_iff a "escalate").0 t))
    | inr f ↦ elim (Bool-cases (a == "block")) [
      | inl b ↦ rw f (sym ((eq_iff a "block").0 b))
      | inr c ↦ absurd (let h' = rw (c, f) at h in cc)
    ]
  ]

  published_action :
      (entry : Json) (message : String) (u : Unit {0})
      → when_given "action"
          (fields_of entry)
          (λ v. require (is_one_of ("block" ∷ "escalate" ∷ []) v) message)
        ≡ ok u
      → action_name (read_action (given_text "action" entry))
        ≡ text_or (given_text "action" entry) "block"
  unfolding when_given
  published_action entry message u h =
      elim (Option-cases (lookup_field "action" (fields_of entry))) [
        | inl n ↦ rw (action_name, given_text, n) refl
        | inr (v, e) ↦
            let h' : require (is_one_of ("block" ∷ "escalate" ∷ []) v) message ≡ ok u =
              rw (when_given, e) at h in
            rw (given_text, e)
              (named_action (text_of v) (both_true (is_text v) _ (require-ok _ message u h')).1)
      ]

  compile_rule-AsPublished :
      (d at : String) (entry : Json) (u : Unit {0})
      → validate_rule re error_text at entry ≡ ok u
      → (rule : DenyRule) × (compile_rule re d (rule_of entry) ≡ ok rule) × AsPublished d entry rule
  unfolding validate_rule compile_rule
  compile_rule-AsPublished d at entry u h =
      let (m, h1) = after_require (is_object entry) _ _ h in
      let (f, h2) = after_require _ _ _ h1 in
      let (c, h3, k) = first_step (compile_pattern re error_text _ at) _ h2 in
      let (r, h4, l) = first_step (when_given "reason" (fields_of entry) _) _ h3 in
      let (p, t) = filled_text entry f in
      let compiles = compile_pattern-ok _ at c k in
      (
        record {
          regex = text_of (field_or (fields_of entry) "pattern" null);
          reason = text_or (given_text "reason" entry) d;
          action = read_action (given_text "action" entry);
        },
        rw (compile_rule, p, compiles) refl,
        (p, t, compiles, refl, published_action entry _ u h4),
      )

  compile_rules-AsPublished :
      (d section : String) (index : ℕ) (rules : List Json) (u : Unit {0})
      → validate_rules re error_text section index rules ≡ ok u
      → (built : List DenyRule) × (compile_rules re d (map rule_of rules) ≡ ok built)
        × AllAsPublished d rules built
  unfolding validate_rules compile_rules
  compile_rules-AsPublished d section index [] u h = ([], refl, tt)
  compile_rules-AsPublished d section index (entry ∷ rules) u h =
      let (c, more, first) = first_step (validate_rule re error_text _ entry) _ h in
      let (rule, made, reads) = compile_rule-AsPublished d _ entry c first in
      let (built, rest, read) = compile_rules-AsPublished d section (index + 1) rules u more in
      (rule ∷ built, rw (compile_rules, made, rest) refl, (reads, read))

  section-AsPublished :
      (d section : String) (payload : Json) (u : Unit {0})
      → validate_deny_rules re error_text (fields_of payload) section ≡ ok u
      → (built : List DenyRule) × (compile_rules re d (raw_rules payload section) ≡ ok built)
        × AllAsPublished d (entries payload section) built
  unfolding validate_deny_rules raw_rules
  section-AsPublished d section payload u h =
      let (l, h1) = after_require _ _ _ h in compile_rules-AsPublished d section 0 _ u h1

  -- A guardrails document that is accepted compiles: both of its rule lists are built without an
  -- exception, one rule for each entry in the published order, each with the entry's own pattern,
  -- which is not empty and compiles, its reason or the default, and exactly the action that the
  -- entry names, which is to block only where the entry names none.
  pub validated-AsPublished :
      (d : String) (payload : Json)
      → validate_guardrails re error_text payload ≡ ok tt
      → ((built : List DenyRule) × (compile_rules re d (raw_rules payload "global_deny_patterns")
            ≡ ok built)
          × AllAsPublished d (entries payload "global_deny_patterns") built)
        × ((built : List DenyRule) × (compile_rules re d (raw_rules payload "output_deny_patterns")
              ≡ ok built)
            × AllAsPublished d (entries payload "output_deny_patterns") built)
  unfolding validate_guardrails
  validated-AsPublished d payload h =
      let (o, h1) = after_require _ _ _ h in
      let (a, h2, inbound) =
        first_step (validate_deny_rules re error_text (fields_of payload) "global_deny_patterns") _
          h1 in
      let (b, h3, outbound) =
        first_step (validate_deny_rules re error_text (fields_of payload) "output_deny_patterns") _
          h2 in
      (section-AsPublished d _ payload a inbound, section-AsPublished d _ payload b outbound)
