-- ===== src/Governed/Agents.antt =====
-- The registry of a validated agents document.
use mathlib.Core.List.{append-nil, append_assoc}
use supervisor_agent.Base.{
  ◌==◌, refuted, neither, ℕ, ◌+◌, String, Bool, true, false, List, [], ◌∷◌, ◌++◌, map, keep, elem,
  All, both_true, some, Option-cases, inl, inr, ◌≡◌, refl, sym, ap, ◌∙◌,
}
use supervisor_agent.Base.Text.{truthy, strip}
use supervisor_agent.Base.Result.{ok, first_step}
use supervisor_agent.Base.Fresh.{insert_absent, elem-keys_append}
use supervisor_agent.Base.Dict.{keys}
use supervisor_agent.Worker.Json.{Json, null, field_or, is_object, lookup_field}
use supervisor_agent.Worker.Registry.{
  worker_of, WorkerAgent, AgentRegistry, ApprovalRule, text_or, agent_of_row, agents_of_rows,
  index_agents, from_mapping, agent_ids,
}
use supervisor_agent.Governance.DenyRules.{Regex}
use supervisor_agent.Governance.ConfigStore.Require.{after_require}
use supervisor_agent.Governance.Validators.{
  text_of, list_of, fields_of, is_list, is_text, is_filled, compile_pattern,
}
use supervisor_agent.Governance.Validators.Documents.{given_text}
use supervisor_agent.Governance.Validators.Rules.{compile_pattern-ok}
use supervisor_agent.Governed.{
  prompt_field_limits, validate_model, validate_context_keys, when_set, validate_prompt_fields,
  agent_id_form, is_named, has_form, validate_patterns, validate_approval, validate_approvals,
  validate_row, validate_rows, validate_agents,
}
use supervisor_agent.Governed.Documents.{approval_of, listed, row_of, rows_of, agent_rows}

-- A text field whose value passed a test that null fails.
filled-given :
    (key : String) (row : Json) (p : Json → Bool)
    → p null ≡ false
    → p (field_or (fields_of row) key null) ≡ true
    → given_text key row ≡ some (text_of (field_or (fields_of row) key null))
filled-given key row p n h = elim (Option-cases (lookup_field key (fields_of row))) [
  | inl e ↦ absurd (let h' = rw (field_or, e) at h in cc)
  | inr (v, e) ↦ rw (field_or, given_text, e) refl
]

abbrev pub entry : WorkerAgent → String × WorkerAgent
entry agent = (agent.id, agent)

abbrev pub id_of : Json → String
id_of row = text_of (field_or (fields_of row) "id" null)

module _ (re : Regex) (error_text : String → String) (repr : Json → String) where
  -- An approval pattern that the registry never skips.
  abbrev pub Armed : ApprovalRule → Type 0
  Armed rule =
      (truthy (text_or rule.pattern "") ≡ true) × (re.compiles (text_or rule.pattern "") ≡ true)

  abbrev pub Usable : String × WorkerAgent → Type 0
  Usable (id, agent) =
      (agent.id ≡ id)
      × (re.search agent_id_form id ≡ true)
      × (truthy (strip agent.endpoint) ≡ true)
      × All (λ p. re.compiles p ≡ true) agent.deny_patterns
      × All Armed agent.approval_patterns

  patterns-compile :
      (at : String) (patterns : List Json) (u : Unit {0})
      → validate_patterns re error_text repr at patterns ≡ ok u
      → All (λ p. re.compiles p ≡ true) (map text_of patterns)
  unfolding validate_patterns
  patterns-compile at [] u h = tt
  patterns-compile at (pattern ∷ patterns) u h =
      let (t, h1) = after_require _ _ _ h in
      let (c, h2, k) = first_step (compile_pattern re error_text (text_of pattern) _) _ h1 in
      (compile_pattern-ok re error_text (text_of pattern) _ c k, patterns-compile at patterns u h2)

  approval-Armed :
      (at : String) (rule : Json) (u : Unit {0})
      → validate_approval re error_text repr at rule ≡ ok u
      → (is_object rule ≡ true) × Armed (approval_of rule)
  unfolding validate_approval
  approval-Armed at rule u h =
      let (o, h1) = after_require _ _ _ h in
      let (f, h2) = after_require _ _ _ h1 in
      let (c, h3, k) = first_step (compile_pattern re error_text _ at) _ h2 in
      let g = filled-given "pattern" rule is_filled refl f in
      (
        o,
        rw g (
          (both_true (is_text (field_or (fields_of rule) "pattern" null)) _ f).1,
          compile_pattern-ok re error_text _ at c k,
        ),
      )

  approvals-Armed :
      (at : String) (position : ℕ) (rules : List Json) (u : Unit {0})
      → validate_approvals re error_text repr at position rules ≡ ok u
      → All Armed (map approval_of (keep is_object rules))
  unfolding validate_approvals
  approvals-Armed at position [] u h = tt
  approvals-Armed at position (rule ∷ rules) u h =
      let (c, more, first) = first_step (validate_approval re error_text repr _ rule) _ h in
      let (o, armed) = approval-Armed _ rule c first in
      rw o (armed, approvals-Armed at (position + 1) rules u more)

  -- What a row's checks say of it.
  abbrev Checked : Json → Type 0
  Checked row =
      (is_named (field_or (fields_of row) "endpoint" null) ≡ true)
      × All (λ p. re.compiles p ≡ true) (map text_of (listed "deny_patterns" row))
      × All Armed (map approval_of (keep is_object (listed "approval_patterns" row)))

  row-Checked :
      (at : String) (row : Json) (u : Unit {0})
      → validate_row re error_text repr at (fields_of row) ≡ ok u
      → Checked row
  unfolding validate_row
  row-Checked at row u h =
      let (e, h1) = after_require _ _ _ h in
      let (_, h2, _) =
        first_step
          (validate_prompt_fields re error_text repr at (fields_of row) prompt_field_limits) _ h1 in
      let (_, h3, _) = first_step (when_set "model" (fields_of row) (validate_model at)) _ h2 in
      let (_, h4) = after_require _ _ _ h3 in
      let (_, h5, _) =
        first_step (validate_context_keys re error_text repr at (listed "required_context" row)) _
          h4 in
      let (_, h6) = after_require _ _ _ h5 in
      let (c, h7, denials) =
        first_step (validate_patterns re error_text repr at (listed "deny_patterns" row)) _ h6 in
      let (_, h8) = after_require _ _ _ h7 in
      let (d, _, signoffs) =
        first_step (validate_approvals re error_text repr at 0 (listed "approval_patterns" row)) _
          h8 in
      (e, patterns-compile at _ c denials, approvals-Armed at 0 _ d signoffs)

  agent_of_row-Usable :
      (row : Json)
      → has_form re agent_id_form (field_or (fields_of row) "id" null) ≡ true
      → Checked row
      → (agent : WorkerAgent) × (agent_of_row (row_of row) ≡ ok agent)
        × (agent.id ≡ text_of (field_or (fields_of row) "id" null))
        × Usable (agent.id, agent)
  unfolding agent_of_row
  agent_of_row-Usable row f (named, denials, signoffs) =
      let i = filled-given "id" row (has_form re agent_id_form) refl f in
      let e = filled-given "endpoint" row is_named refl named in
      (
        worker_of (row_of row) (text_of (field_or (fields_of row) "id" null))
            (text_of (field_or (fields_of row) "endpoint" null)),
        rw (agent_of_row, i, e) refl,
        refl,
        (
          refl,
          (both_true (is_text (field_or (fields_of row) "id" null)) _ f).1,
          (both_true (is_text (field_or (fields_of row) "endpoint" null)) _ named).1,
          denials,
          signoffs,
        ),
      )

  -- The rest of the rows, after agents whose ids have been seen.
  rows-Usable :
      (index : ℕ) (seen : List String) (rows : List Json) (d : AgentRegistry) (u : Unit {0})
      → validate_rows re error_text repr index seen rows ≡ ok u
      → ((i : String) → elem i seen ≡ false → elem i (keys d) ≡ false)
      → (agents : List WorkerAgent) × (agents_of_rows (map row_of rows) ≡ ok agents)
        × (index_agents d agents ≡ d ++ map entry agents)
        × (map (λ a. a.id) agents ≡ map id_of rows)
        × All Usable (map entry agents)
  unfolding validate_rows agents_of_rows index_agents
  rows-Usable index seen [] d u h fresh = ([], refl, sym (append-nil d), refl, tt)
  rows-Usable index seen (row ∷ rows) d u h fresh =
      let (_, h1) = after_require _ _ _ h in
      let (slug, h2) = after_require _ _ _ h1 in
      let (new, h3) = after_require _ _ _ h2 in
      let (c, h4, checked) = first_step (validate_row re error_text repr _ (fields_of row)) _ h3 in
      let (agent, made, same, usable) =
        agent_of_row-Usable row slug (row-Checked _ row c checked) in
      let absent : elem agent.id (keys d) ≡ false = rw same (fresh (id_of row) (refuted _ new)) in
      let (agents, rest, indexed, ids, all) =
        rows-Usable (index + 1) (id_of row ∷ seen) rows (d ++ entry agent ∷ []) u h4 (λ i n.
          let (n1, n2) = neither (i == id_of row) (elem i seen) n in
          elem-keys_append i agent.id agent d (rw same n1) (fresh i n2)) in
      (
        agent ∷ agents,
        rw (agents_of_rows, made, rest) refl,
        rw (index_agents, insert_absent agent.id agent d absent, indexed)
            (append_assoc d (entry agent ∷ []) (map entry agents)),
        rw (same, ids) refl,
        (usable, all),
      )

  -- A list is read the same whichever default a missing key has.
  rows_same :
      (payload : Json)
      → is_list (field_or (fields_of payload) "agents" null) ≡ true
      → rows_of payload ≡ list_of (field_or (fields_of payload) "agents" null)
  rows_same payload h = elim (Option-cases (lookup_field "agents" (fields_of payload))) [
    | inl n ↦ absurd (let h' = rw (field_or, n) at h in cc)
    | inr (v, e) ↦ rw (rows_of, field_or, e) refl
  ]

  keys-entries : (agents : List WorkerAgent) → keys (map entry agents) ≡ map (λ a. a.id) agents
  unfolding keys
  keys-entries [] = refl
  keys-entries (a ∷ agents) = ap (λ ids. a.id ∷ ids) (keys-entries agents)

  -- An agents document that is accepted builds its registry without an exception: the registry
  -- knows each row under its own id, in the order of the document, and every agent in it has an id
  -- that the slug pattern matches, an endpoint that is not blank, deny patterns that all compile,
  -- and approval patterns that are not empty and compile, so that none of them is ever skipped.
  pub validated_registry :
      (payload : Json)
      → validate_agents re error_text repr payload ≡ ok tt
      → (registry : AgentRegistry) × (from_mapping (agent_rows payload) ≡ ok registry)
        × (agent_ids registry ≡ map id_of (rows_of payload))
        × All Usable registry
  unfolding validate_agents from_mapping agent_rows keys
  validated_registry payload h =
      let (_, h1) = after_require _ _ _ h in
      let (l, h2) = after_require _ _ _ h1 in
      let listed = (both_true (is_list (field_or (fields_of payload) "agents" null)) _ l).0 in
      let (agents, made, indexed, ids, usable) =
        rows-Usable 0 [] (rows_of payload) [] tt (rw (rows_same payload listed) h2) (λ i n. refl) in
      (map entry agents, rw (from_mapping, made, indexed) refl, keys-entries agents ∙ ids, usable)
