-- ===== src/Governance/PolicySuite.antt =====
-- policy_suite_eval.py: a corpus of labelled cases run against a guardrails document. The text that
-- Python prints for a container, and for a text in quotes, are arguments.
pub mod Gate
pub mod Parsing
use supervisor_agent.Base.{
  Option, ℕ, ◌+◌, ◌-◌, String, ◌<>◌, ◌==◌, Bool, true, false, not, ◌&&◌, none, some, List, [], ◌∷◌,
  map, keep, length, leb, eqb, count, elem, is_empty, if◌then◌else◌,
}
use supervisor_agent.Base.Text.{truthy, strip, lower, decimal, join, prefix}
use supervisor_agent.Base.Result.{Exc, Result, ok, raised, other_error, ◌>>=◌}
use supervisor_agent.Worker.Json.{
  Json, Fields, null, boolean, number, str, arr, obj, end, field, items_list, is_object,
  truthy_json, field_or, json_text,
}
use supervisor_agent.Governance.DenyRules as Deny
use supervisor_agent.Governance.DenyRules.{Regex, DenyRule, compile_rules, first_match}
use supervisor_agent.Governance.Sensitive.{Matches}
use supervisor_agent.Governance.OutputGuard.{
  OutputGuard, OutputScreenResult, new, policy_from_mapping, screen, action_text, of_rule,
}
use supervisor_agent.Governance.Validators.{list_of, is_list, fields_of}
use supervisor_agent.Governance.Validators.Documents.{raw_rules, section_of, canaries_of}

pub record Case : Type 0 where
  pub id : String
  pub expect : String
  pub text : String
  pub reply : String
  pub why : String
  pub labels : List String

abbrev pub tier : Case → String
tier c = if truthy c.reply then "output" else "input"

-- `Result` of policy_suite_eval.py
pub record CaseResult : Type 0 where
  pub case : Case
  pub actual : String
  pub passed : Bool
  pub detail : String

abbrev pub Report : Type 0
Report = List CaseResult

unfoldable pub failures : Report → List CaseResult
failures report = keep (λ r. not r.passed) report

unfoldable pub passed : Report → Bool
unfolding failures
passed report = is_empty (failures report)

unfoldable pub summary : Report → String
unfolding failures
summary report =
    let total = length report in
    let failed = length (failures report) in
    if eqb total 0
    then "no cases evaluated"
    else if eqb failed 0
    then decimal total <> ("/" <> (decimal total <> " policy cases passed"))
    else decimal (total - failed)
      <> ("/" <> (decimal total <> (" policy cases passed, " <> (decimal failed <> " FAILED"))))

abbrev pub if_any : String → String → String
if_any lead text = if truthy text then lead <> text else ""

unfoldable pub report_line : (String → String) → CaseResult → String
report_line quoted r =
    let subject = if truthy r.case.text then r.case.text else r.case.reply in
    let excerpt = if leb (count subject) 88 then subject else prefix subject 85 <> "..." in
    "  "
    <> (r.case.id
        <> (" ["
            <> (tier r.case
                <> ("] expected "
                    <> (r.case.expect
                        <> (", got "
                            <> (r.actual
                                <> (if_any " — " r.detail
                                    <> ("\n      "
                                        <> (quoted excerpt
                                            <> if_any "\n      why: " r.case.why))))))))))

unfoldable pub report_lines : (String → String) → Report → List String
unfolding failures report_line
report_lines quoted report = map (report_line quoted) (failures report)

abbrev pub value_error : String → Exc
value_error message = other_error "ValueError" message

abbrev pub input_expectations : List String
input_expectations = "allow" ∷ "block" ∷ "escalate" ∷ []

abbrev pub output_expectations : List String
output_expectations = "allow" ∷ "mask" ∷ "block" ∷ "escalate" ∷ []

-- `if not test: raise ValueError(message)`
unfoldable pub expected : Bool → String → Result (Unit {0})
expected true message = ok tt
expected false message = raised (value_error message)

pub characters : String → List Json
characters String.[] = []
characters (String.◌∷◌ c s) = str (String.◌∷◌ c String.[]) ∷ characters s

pub field_names : Fields → List Json
field_names end = []
field_names (field k v rest) = str k ∷ field_names rest

-- What `for label in entry.get("labels") or ()` goes through.
unfoldable pub labels_in : Json → Result (List Json)
unfolding characters field_names
labels_in null = ok []
labels_in (boolean false) = ok []
labels_in (boolean true) = raised (other_error "TypeError" "'bool' object is not iterable")
labels_in (number n) =
    if n == "0" then ok [] else raised (other_error "TypeError" "'int' object is not iterable")
labels_in (str s) = ok (characters s)
labels_in (arr xs) = ok (items_list xs)
labels_in (obj fs) = ok (field_names fs)

-- `(data or {}).get("cases") if isinstance(data, dict) else data`
abbrev pub raw_cases : Json → Json
raw_cases document =
    if is_object document then field_or (fields_of document) "cases" null else document

-- `bool(a) == bool(b)`
abbrev pub same : Bool → Bool → Bool
same true b = b
same false b = not b

module _ (repr : Json → String) where
  -- `str(entry.get(key) or "")`
  abbrev pub text_at : String → Json → String
  text_at key entry =
      let v = field_or (fields_of entry) key null in if truthy_json v then json_text repr v else ""

  -- `permitted` of the case that an entry describes
  abbrev pub permitted : Json → List String
  permitted entry =
      if truthy (text_at "reply" entry) then output_expectations else input_expectations

  unfoldable pub parse_entry : ℕ → List String → Json → Result Case
  unfolding labels_in
  parse_entry index seen entry = do
    mapping ← expected (is_object entry) ("case " <> (decimal index <> " is not a mapping"))
    let id = strip (text_at "id" entry)
    named ← expected (truthy id) ("case " <> (decimal index <> " has no id"))
    fresh ← expected (not (elem id seen)) ("duplicate case id '" <> (id <> "'"))
    let text = text_at "text" entry
    let reply = text_at "reply" entry
    one ←
        expected (not (same (truthy text) (truthy reply)))
          ("case " <> (id <> " must set exactly one of `text` or `reply`"))
    let expect = lower (strip (text_at "expect" entry))
    known ← expected (elem expect (permitted entry)) (
        "case "
        <> (id
            <> (": expect must be one of "
                <> (join ", " (permitted entry) <> (", got '" <> (expect <> "'"))))))
    labels ← labels_in (field_or (fields_of entry) "labels" null)
    ok (record {
      id = id;
      expect = expect;
      text = text;
      reply = reply;
      why = text_at "why" entry;
      labels = map (json_text repr) labels;
    })

  unfoldable pub parse_entries : ℕ → List String → List Json → Result (List Case)
  unfolding parse_entry
  parse_entries index seen [] = ok []
  parse_entries index seen (entry ∷ entries) = do
    case ← parse_entry index seen entry
    rest ← parse_entries (index + 1) (case.id ∷ seen) entries
    ok (case ∷ rest)

  unfoldable pub parse_cases : Json → Result (List Case)
  unfolding parse_entries
  parse_cases document = do
    listed ← expected (is_list (raw_cases document)) "policy suite must carry a list under `cases:`"
    parse_entries 0 [] (list_of (raw_cases document))

-- `rule.action if rule else ALLOW`, and `rule.reason if rule else ""`
abbrev pub decided : Option DenyRule → String
decided none = "allow"
decided (some rule) = action_text (of_rule rule.action)

abbrev pub reason_for : Option DenyRule → String
reason_for none = ""
reason_for (some rule) = rule.reason

-- A case of the input tier, and of the output tier.
unfoldable pub input_result : List DenyRule → Regex → Case → CaseResult
input_result rules re case = record {
  case = case;
  actual = decided (first_match re rules case.text);
  passed = decided (first_match re rules case.text) == case.expect;
  detail = reason_for (first_match re rules case.text);
}

-- `[label for label in case.labels if label not in screened.labels]`
abbrev pub missing : Case → OutputScreenResult → List String
missing case screened = keep (λ label. not (elem label screened.labels)) case.labels

unfoldable pub output_result : OutputGuard → Case → CaseResult
output_result guard case =
    let screened = screen guard case.reply in
    let actual = action_text screened.action in
    if actual == case.expect && not (is_empty (missing case screened))
    then record {
      case = case;
      actual = actual;
      passed = false;
      detail = "expected label(s) not found: " <> join ", " (missing case screened);
    }
    else record {
      case = case;
      actual = actual;
      passed = actual == case.expect;
      detail = screened.reason;
    }

unfoldable pub case_result : List DenyRule → OutputGuard → Case → CaseResult
unfolding input_result output_result
case_result rules guard case =
    if truthy case.reply then output_result guard case else input_result rules guard.re case

-- `OutputGuard.from_mapping(document, mask_pii)`
unfoldable pub guard_of : Regex → Matches → String → Json → Bool → Result OutputGuard
guard_of re matches process_canary document mask_pii = do
  rules ←
      compile_rules re "matched an output policy rule" (raw_rules document "output_deny_patterns")
  ok (
      new re matches rules (policy_from_mapping (section_of document) mask_pii)
        (canaries_of document) process_canary [])

unfoldable pub evaluate : Regex → Matches → String → Json → List Case → Bool → Result Report
unfolding guard_of case_result
evaluate re matches process_canary document cases mask_pii = do
  rules ← compile_rules re "matched a blocked pattern" (raw_rules document "global_deny_patterns")
  guard ← guard_of re matches process_canary document mask_pii
  ok (map (case_result rules guard) cases)
