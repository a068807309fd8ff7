-- ===== src/Tests/Governing.antt =====
-- Witnesses on the governance library: privileges, redaction, the output guard, sanitising.
use supervisor_agent.Base.{
  In, elem, elem, ◌+◌, count, length, ℕ, ◌≤◌, ◌<◌, String, true, false, ◌≡◌, refl, none, some, List,
  [], ◌∷◌, arith, is_empty, inl, inr, ◌<>◌,
}
use supervisor_agent.Base.Text.{upper, truthy}
use supervisor_agent.Base.Dict.{insert, Dict}
use supervisor_agent.Governance.DenyRules.{first_match}
use supervisor_agent.Governance.Rbac.Privileges.{
  FindingsGranted, Reported, Unpermitted, check_privileges_exact,
}
use supervisor_agent.Governance.Sensitive.Luhn.{
  luhn_valid, luhn_valid_misread, luhn_total, weigh, digits_of, reversed,
}
use supervisor_agent.Governance.Rbac.{
  check_privileges, Grants, wanted_tables, permitted_on, declared_or_default,
}
use supervisor_agent.Governance.Sensitive.{Finding, contact, credential, merge, redact}
use supervisor_agent.Governance.Sensitive.Clusters.{Disjoint, merge-Disjoint}
use supervisor_agent.Governance.OutputGuard.{
  severity, escalate, blocked, escalates, active_categories, leak_in, strongest_of, bulk, screen,
}
use supervisor_agent.Governance.OutputGuard.Strongest.{CoveredFindings}
use supervisor_agent.Governance.OutputGuard.Delivery.{screen_delivered}
use supervisor_agent.Tests.Fixtures.{guard}

abbrev tables : Dict String
tables = ("config", "governed_config") ∷ ("audit", "audit_log") ∷ []

-- An identity that may also write the table that it should only read.
abbrev grants : Grants
grants = record {
  current_user = "serving";
  rows = ("governed_config", "SELECT") ∷ ("governed_config", "update") ∷ [];
}

some_table : is_empty (wanted_tables tables) ≡ false
unfolding wanted_tables insert
some_table = refl

abbrev found : String → ℕ → ℕ → Finding
found label start stop = record {
  label = label;
  category = contact;
  start = start;
  stop = stop;
  value = "";
  labels = [];
  categories = [];
}

merge-Disjoint_example : Disjoint (
    merge
      (found "email" 4 12 ∷ found "phone" 8 15 ∷ found "email" 20 25 ∷ [])
      "a text of some length here")
merge-Disjoint_example =
    merge-Disjoint (found "email" 4 12 ∷ found "phone" 8 15 ∷ found "email" 20 25 ∷ [])
      "a text of some length here"

abbrev mixed : List Finding
mixed = found "email" 0 4 ∷ record (found "key" 5 9) { category = credential } ∷ []

delivered : blocked (screen guard "Here is the story.") ≡ false
unfolding screen leak_in supervisor_agent.Governance.OutputGuard.condense
    supervisor_agent.Base.Text.lower first_match redact supervisor_agent.Governance.Sensitive.scan
    merge supervisor_agent.Base.Sort.sort
delivered = refl

screen_delivered_example :
    (truthy (leak_in guard "Here is the story.") ≡ false)
    × (first_match guard.re guard.rules "Here is the story." ≡ none)
    × ((screen guard "Here is the story.").text
        ≡ (redact guard.matches (active_categories guard.policy) "Here is the story.").0)
    × CoveredFindings guard.policy 1
        (redact guard.matches (active_categories guard.policy) "Here is the story.").1
screen_delivered_example = screen_delivered guard "Here is the story." delivered

-- The test number 4111 1111 1111 1111, with its second digit misread.
luhn_valid_misread_example : luhn_valid ("4" <> String.◌∷◌ "7" "11 1111 1111 1111") ≡ false
unfolding luhn_valid digits_of reversed luhn_total weigh
luhn_valid_misread_example =
    luhn_valid_misread "4" "11 1111 1111 1111" "1" "7" refl refl (λ e. absurd (omega arith)) refl

check_privileges_exact_example :
    ((table privilege : String)
      → In (table, privilege) grants.rows
      → elem
          (upper privilege)
          (permitted_on (declared_or_default none) (wanted_tables tables) table)
        ≡ false
      → Reported table (upper privilege) (check_privileges (some grants) tables none))
    × Unpermitted
        (declared_or_default none)
        (wanted_tables tables)
        (check_privileges (some grants) tables none)
    × FindingsGranted grants.rows (check_privileges (some grants) tables none)
check_privileges_exact_example = check_privileges_exact grants tables none some_table
