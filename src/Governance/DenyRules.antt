-- ===== src/Governance/DenyRules.antt =====
-- deny_rules.py: the deterministic rules, and the operator's hold message.
-- Python's `re` is an argument: which patterns compile, and what a pattern finds in a text.
use supervisor_agent.Base.{
  ℕ, String, Bool, true, false, Option, none, some, List, [], ◌∷◌, ◌==◌, if◌then◌else◌,
}
use supervisor_agent.Base.Text.{strip, or_text}
use supervisor_agent.Base.Result.{Result, ok, raised, other_error, ◌>>=◌}

-- The module `re`, for patterns by their text. `search` and `search_i` say whether `re.search`
-- finds a match, the second under IGNORECASE; `match_i` gives the end of a match at the start;
-- `subn` is `re.subn`, and `count_all` the number of matches that `findall` returns.
pub record Regex : Type 0 where
  pub compiles : String → Bool
  pub search : String → String → Bool
  pub search_i : String → String → Bool
  pub match_i : String → String → Option ℕ
  pub subn : String → (String → String) → String → String × ℕ
  pub count_all : String → String → ℕ

pub data Action : Type 0 where
  block escalate : Action

pub record DenyRule : Type 0 where
  pub regex : String
  pub reason : String
  pub action : Action

-- `rule.escalate`
abbrev pub is_escalate : Action → Bool
is_escalate block = false
is_escalate escalate = true

-- One entry of a governed rule list, with the keys that it has.
pub record RawRule : Type 0 where
  pub pattern : Option String
  pub reason : Option String
  pub action : Option String

-- `action if action in (BLOCK, ESCALATE) else BLOCK`
abbrev pub read_action : Option String → Action
read_action none = block
read_action (some a) = if a == "escalate" then escalate else block

unfoldable pub compile_rule : Regex → String → RawRule → Result DenyRule
compile_rule re default_reason rule = elim rule.pattern [
  | none ↦ raised (other_error "KeyError" "'pattern'")
  | some p ↦
      if re.compiles p
      then ok (record {
        regex = p;
        reason = elim rule.reason [ none ↦ default_reason | some r ↦ r ];
        action = read_action rule.action;
      })
      else raised (other_error "error" p)
]

unfoldable pub compile_rules : Regex → String → List RawRule → Result (List DenyRule)
unfolding compile_rule
compile_rules re default_reason [] = ok []
compile_rules re default_reason (rule ∷ rules) = do
  first ← compile_rule re default_reason rule
  rest ← compile_rules re default_reason rules
  ok (first ∷ rest)

unfoldable pub first_match : Regex → List DenyRule → String → Option DenyRule
first_match re [] text = none
first_match re (rule ∷ rules) text =
    let later = first_match re rules text in if re.search rule.regex text then some rule else later

abbrev pub default_kill_switch_message : String
default_kill_switch_message =
    "The assistant is temporarily paused by the operations team. Nothing was sent to an agent — please try again later."

-- What a document may carry under `kill_switch`: a boolean, a mapping with `enabled` (true only
-- where it is the boolean True) and a message as text, or anything else.
pub data KillSwitch : Type 0 where
  flag : Bool → KillSwitch
  mapping : Bool → String → KillSwitch
  malformed : KillSwitch

unfoldable pub kill_switch_message : Option KillSwitch → String
kill_switch_message none = ""
kill_switch_message (some (flag on)) = if on then default_kill_switch_message else ""
kill_switch_message (some (mapping enabled message)) =
    if enabled then or_text (strip message) default_kill_switch_message else ""
kill_switch_message (some malformed) = ""
