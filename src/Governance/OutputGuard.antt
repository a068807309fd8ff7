-- ===== src/Governance/OutputGuard.antt =====
-- output_guard.py: the last check of generated text, before a user or a worker has it.
pub mod Strongest
pub mod Delivery
use Prim.Native.Char.{code}
use supervisor_agent.Base.{
  ℕ, ◌-◌, String, ◌<>◌, Bool, true, false, not, ◌&&◌, ◌||◌, Option, none, some, List, [], ◌∷◌, ◌++◌,
  map, keep, any, length, count, ltb, leb, eqb, elem, is_empty, if◌then◌else◌,
}
use supervisor_agent.Base.Text.{lower, split, join, truthy, is_in, decimal, or_text}
use supervisor_agent.Governance.DenyRules as Deny
use supervisor_agent.Governance.DenyRules.{Regex, DenyRule, first_match}
use supervisor_agent.Governance.Sensitive.{
  Category, categories, credential, secret_assignment, government_id, payment, bank, health_id,
  health_condition, person, contact, dob, network, same_category, has_category, pii_tier,
  bulk_categories, Finding, Matches, redact,
}

pub data Action : Type 0 where
  allow mask block escalate : Action

abbrev pub severity : Action → ℕ
severity allow = 0
severity mask = 1
severity block = 2
severity escalate = 3

abbrev pub action_text : Action → String
action_text allow = "allow"
action_text mask = "mask"
action_text block = "block"
action_text escalate = "escalate"

abbrev pub of_rule : Deny.Action → Action
of_rule Deny.Action.block = block
of_rule Deny.Action.escalate = escalate

-- `DEFAULT_CATEGORY_ACTIONS`
abbrev pub default_action : Category → Action
default_action credential = block
default_action secret_assignment = mask
default_action government_id = block
default_action payment = block
default_action bank = block
default_action health_id = block
default_action health_condition = mask
default_action person = mask
default_action contact = mask
default_action dob = mask
default_action network = mask

abbrev pub default_escalate_at : ℕ
default_escalate_at = 5

pub record OutputPolicy : Type 0 where
  pub action_for : Category → Action
  pub escalate_at_findings : ℕ

-- The `output_policy` section: the categories that it names (known ones, with known actions) and
-- the threshold, `none` where it is missing or no number.
pub record PolicySection : Type 0 where
  pub overrides : List (Category × Action)
  pub escalate_at_findings : Option ℕ

unfoldable pub override : List (Category × Action) → Category → Action → Action
override [] c action = action
override ((d, a) ∷ rest) c action = override rest c (if same_category d c then a else action)

abbrev pub relaxed : Bool → Category → Action → Action
relaxed true c action = action
relaxed false c action =
    if has_category pii_tier c && eqb (severity action) 1 then allow else action

unfoldable pub policy_from_mapping : PolicySection → Bool → OutputPolicy
unfolding override
policy_from_mapping section mask_pii = record {
  action_for = λ c. relaxed mask_pii c (override section.overrides c (default_action c));
  escalate_at_findings = elim section.escalate_at_findings [
    | none ↦ default_escalate_at
    | some n ↦ n
  ];
}

unfoldable pub active_categories : OutputPolicy → List Category
active_categories p = keep (λ c. not (eqb (severity (p.action_for c)) 0)) categories

-- `_normalise` and `_condense`
unfoldable pub normalise : String → String
normalise text = lower (join " " (split text))

is_condensed : ℕ → Bool
is_condensed c = (leb b'a' c && leb c b'z') || (leb b'0' c && leb c b'9')

only_condensed : String → String
unfolding is_condensed
only_condensed String.[] = String.[]
only_condensed (String.◌∷◌ c s) =
    let rest = only_condensed s in if is_condensed (code c) then String.◌∷◌ c rest else rest

unfoldable pub condense : String → String
unfolding only_condensed
condense text = only_condensed (lower text)

abbrev pub canary_min_condensed : ℕ
canary_min_condensed = 6

unfoldable pub usable_canary : String → Bool
usable_canary token = leb canary_min_condensed (count (condense token))

pub record OutputGuard : Type 0 where
  pub re : Regex
  pub matches : Matches
  pub rules : List DenyRule
  pub policy : OutputPolicy
  pub canaries : List String
  pub protected : List String

-- `OutputGuard.__init__`, over compiled rules: only usable canaries, only long protected lines.
unfoldable pub new :
    Regex
    → Matches
    → List DenyRule
    → OutputPolicy
    → List String
    → String
    → List String
    → OutputGuard
new re matches rules policy canaries process_canary protected_texts = record {
  re = re;
  matches = matches;
  rules = rules;
  policy = policy;
  canaries =
      map condense (keep (λ c. truthy c && usable_canary c) (canaries ++ process_canary ∷ []));
  protected = keep (λ line. leb 40 (count line)) (map normalise (keep truthy protected_texts));
}

pub record OutputScreenResult : Type 0 where
  pub text : String
  pub action : Action
  pub reason : String
  pub secrets_masked : ℕ
  pub pii_masked : ℕ
  pub labels : List String
  pub leak : String
  pub findings : List Finding

abbrev pub is_withheld : Action → Bool
is_withheld allow = false
is_withheld mask = false
is_withheld block = true
is_withheld escalate = true

abbrev pub blocked : OutputScreenResult → Bool
blocked r = is_withheld r.action

abbrev pub escalates : OutputScreenResult → Bool
escalates r = eqb (severity r.action) 3

abbrev pub modified : OutputScreenResult → Bool
modified r = ltb 0 r.secrets_masked || ltb 0 r.pii_masked

abbrev if_some : Bool → String → List String
if_some true s = s ∷ []
if_some false s = []

unfoldable pub audit_detail : OutputScreenResult → String
audit_detail r =
    or_text
      (join "; " (
        if_some (blocked r) ("response withheld: " <> r.reason)
        ++ (if_some (ltb 0 r.secrets_masked) (decimal r.secrets_masked <> " secret value(s) masked")
            ++ (if_some (ltb 0 r.pii_masked) (decimal r.pii_masked <> " PII value(s) masked")
                ++ if_some (not (is_empty r.labels)) ("found: " <> join ", " r.labels)))))
      "clean"

abbrev pub bare : String → Action → String → OutputScreenResult
bare text action reason = record {
  text = text;
  action = action;
  reason = reason;
  secrets_masked = 0;
  pii_masked = 0;
  labels = [];
  leak = "";
  findings = [];
}

unfoldable pub leak_in : OutputGuard → String → String
leak_in g text =
    if not (truthy text)
    then ""
    else if any (λ c. is_in c (condense text)) g.canaries
    then "a planted canary token surfaced in the response"
    else if any (λ l. is_in l (normalise text)) g.protected
    then "the response reproduces protected system-prompt text"
    else ""

-- `finding.categories or (finding.category,)`, and the labels
abbrev pub categories_of : Finding → List Category
categories_of f = if is_empty f.categories then f.category ∷ [] else f.categories

abbrev labels_of : Finding → List String
labels_of f = if is_empty f.labels then f.label ∷ [] else f.labels

-- The strongest action so far, with the label that earned it.
abbrev pub Strongest : Type 0
Strongest = Action × String

abbrev pub raise_to : OutputPolicy → String → Strongest → Category → Strongest
raise_to p label (a, l) c =
    if ltb (severity a) (severity (p.action_for c)) then (p.action_for c, label) else (a, l)

pub over_categories : OutputPolicy → String → Strongest → List Category → Strongest
over_categories p label s [] = s
over_categories p label s (c ∷ cs) = over_categories p label (raise_to p label s c) cs

pub over_findings : OutputPolicy → Strongest → List Finding → Strongest
over_findings p s [] = s
over_findings p s (f ∷ fs) = over_findings p (over_categories p f.label s (categories_of f)) fs

-- `set(f.categories or (f.category,)) & wanted`
abbrev meets : List Category → Finding → Bool
meets wanted f = any (has_category wanted) (categories_of f)

abbrev pub bulk : List Finding → List Finding
bulk = keep (meets bulk_categories)

pub strongest_of : OutputPolicy → List Finding → Strongest
unfolding over_findings over_categories
strongest_of p findings =
    let s = over_findings p (allow, "") findings in
    if ltb 0 p.escalate_at_findings
      && leb p.escalate_at_findings (length (bulk findings))
      && ltb (severity s.0) (severity escalate)
    then (escalate, decimal (length (bulk findings)) <> " high-tier values")
    else s

distinct : List String → List String → List String
distinct seen [] = []
distinct seen (s ∷ ss) = elim (elem s seen) [
  | true ↦ distinct seen ss
  | false ↦ s ∷ distinct (s ∷ seen) ss
]

all_labels : List Finding → List String
all_labels [] = []
all_labels (f ∷ fs) = labels_of f ++ all_labels fs

secret_count : List Finding → ℕ
secret_count findings = length (keep (meets (credential ∷ secret_assignment ∷ [])) findings)

-- What is done with a text in which something was found.
pub act_on : OutputPolicy → String → List Finding → OutputScreenResult
unfolding strongest_of distinct all_labels secret_count
act_on p masked findings =
    let s = strongest_of p findings in
    let labels = distinct [] (all_labels findings) in
    if is_withheld s.0
    then record (bare "" s.0 (s.1 <> (" in the response (" <> (join ", " labels <> ")")))) {
      labels = labels;
      findings = findings;
    }
    else record (bare masked mask "") {
      secrets_masked = secret_count findings;
      pii_masked = length findings - secret_count findings;
      labels = labels;
      findings = findings;
    }

catalogue : OutputPolicy → String → String × List Finding → OutputScreenResult
catalogue p raw (masked, []) = bare raw allow ""
catalogue p raw (masked, (f ∷ fs)) = act_on p masked (f ∷ fs)

unfoldable pub screen : OutputGuard → String → OutputScreenResult
unfolding catalogue act_on
screen g raw =
    if truthy (leak_in g raw)
    then record (bare "" escalate (leak_in g raw)) { leak = leak_in g raw }
    else elim (first_match g.re g.rules raw) [
      | some rule ↦ bare "" (of_rule rule.action) rule.reason
      | none ↦ catalogue g.policy raw (redact g.matches (active_categories g.policy) raw)
    ]

unfoldable pub relay : OutputGuard → String → String × List Finding
relay g text = redact g.matches (active_categories g.policy) text

unfoldable pub scrub : OutputGuard → String → String → String
scrub g text fallback =
    if not (truthy text) then "" else if truthy (leak_in g text) then fallback else (relay g text).0
