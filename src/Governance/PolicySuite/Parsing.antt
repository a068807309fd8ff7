-- ===== src/Governance/PolicySuite/Parsing.antt =====
-- What the cases of a parsed policy suite are.
use supervisor_agent.Base.{
  ℕ, ◌+◌, String, Bool, true, false, not, List, [], ◌∷◌, elem, All, ◌≡◌, refl, subst, refuted,
  if◌then◌else◌,
}
use supervisor_agent.Base.Text.{truthy, strip}
use supervisor_agent.Base.Result.{Result, ok, first_step, ◌>>=◌}
use supervisor_agent.Worker.Json.{Json, null, field_or}
use supervisor_agent.Governance.Validators.{fields_of, list_of}
use supervisor_agent.Governance.PolicySuite.{
  Case, expected, same, labels_in, input_expectations, output_expectations, text_at, parse_entry,
  parse_entries, raw_cases, parse_cases,
}

-- A case has an id, one of a message and a reply, and an expectation of its tier.
abbrev pub Labelled : Case → Type 0
Labelled case =
    (truthy case.id ≡ true)
    × (truthy case.text ≡ not (truthy case.reply))
    × (elem case.expect (if truthy case.reply then output_expectations else input_expectations)
        ≡ true)

-- No id stands among those before it.
abbrev pub Distinct : List String → List Case → Type 0
Distinct seen [] = Unit
Distinct seen (case ∷ cases) = (elem case.id seen ≡ false) × Distinct (case.id ∷ seen) cases

after_expected :
    {B : Type 0} (b : Bool) (message : String) (rest : Result B) {out : B}
    → (expected b message >>= (λ u. rest)) ≡ ok out
    → (b ≡ true) × (rest ≡ ok out)
unfolding expected
after_expected true message rest h = (refl, h)
after_expected false message rest h = absurd cc

differ : (a b : Bool) → not (same a b) ≡ true → a ≡ not b
differ true true h = absurd cc
differ true false h = refl
differ false true h = refl
differ false false h = absurd cc

ok_injective : {A : Type 0} {a b : A} → ok a ≡ ok b → a ≡ b
ok_injective h = cc

module _ (repr : Json → String) where
  -- The case that an entry writes down.
  abbrev pub Written : Json → Case → Type 0
  Written entry case =
      (case.id ≡ strip (text_at repr "id" entry))
      × (case.text ≡ text_at repr "text" entry)
      × (case.reply ≡ text_at repr "reply" entry)

  abbrev pub AllWritten : List Json → List Case → Type 0
  AllWritten [] [] = Unit
  AllWritten (entry ∷ entries) (case ∷ cases) = Written entry case × AllWritten entries cases
  AllWritten _ _ = ⊥

  parse_entry-Labelled :
      (index : ℕ) (seen : List String) (entry : Json) (case : Case)
      → parse_entry repr index seen entry ≡ ok case
      → Labelled case × (elem case.id seen ≡ false) × Written entry case
  unfolding parse_entry
  parse_entry-Labelled index seen entry case h =
      let (_, h1) = after_expected _ _ _ h in
      let (named, h2) = after_expected _ _ _ h1 in
      let (new, h3) = after_expected _ _ _ h2 in
      let (one, h4) = after_expected _ _ _ h3 in
      let (known, h5) = after_expected _ _ _ h4 in
      let (labels, built, _) =
        first_step (labels_in (field_or (fields_of entry) "labels" null)) _ h5 in
      let e = ok_injective built in
      subst (λ c. Labelled c × (elem c.id seen ≡ false) × Written entry c) e
        ((named, differ _ _ one, known), refuted _ new, (refl, refl, refl))

  parse_entries-Written :
      (index : ℕ) (seen : List String) (entries : List Json) (cases : List Case)
      → parse_entries repr index seen entries ≡ ok cases
      → All Labelled cases × Distinct seen cases × AllWritten entries cases
  unfolding parse_entries
  parse_entries-Written index seen [] cases h =
      subst (λ cs. All Labelled cs × Distinct seen cs × AllWritten [] cs) (ok_injective h)
        (tt, tt, tt)
  parse_entries-Written index seen (entry ∷ entries) cases h =
      let (case, h1, first) = first_step (parse_entry repr index seen entry) _ h in
      let (rest, built, others) =
        first_step (parse_entries repr (index + 1) (case.id ∷ seen) entries) _ h1 in
      let (labelled, new, written) = parse_entry-Labelled index seen entry case first in
      let (all, distinct, rewritten) =
        parse_entries-Written (index + 1) (case.id ∷ seen) entries rest others in
      subst (λ cs. All Labelled cs × Distinct seen cs × AllWritten (entry ∷ entries) cs)
        (ok_injective built) ((labelled, all), (new, distinct), (written, rewritten))

  -- A policy suite that is parsed loses no case: there is one case for each entry of the document,
  -- in order, with the entry's id, message and reply; each case has an id, exactly one of a
  -- message and a reply, and an expectation of its tier; and no id stands twice.
  pub parse_cases-Written :
      (document : Json) (cases : List Case)
      → parse_cases repr document ≡ ok cases
      → All Labelled cases × Distinct [] cases × AllWritten (list_of (raw_cases document)) cases
  unfolding parse_cases
  parse_cases-Written document cases h =
      let (_, h1) = after_expected _ _ _ h in parse_entries-Written 0 [] _ cases h1
