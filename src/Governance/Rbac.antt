-- ===== src/Governance/Rbac.antt =====
-- rbac.py: the role map of the request path, and the check of the privileges that the serving
-- identity holds on the governance tables.
pub mod Privileges
use Prim.Native.Nat.{Ordering}
use Prim.Native.String.{compare}
use supervisor_agent.Base.{
  String, ◌<>◌, Bool, true, false, not, Option, none, some, List, [], ◌∷◌, elem, keep, is_empty,
  if◌then◌else◌,
}
use supervisor_agent.Base.Text.{truthy, upper}
use supervisor_agent.Base.Dict.{Dict, lookup, insert}
use supervisor_agent.Base.Sort.{sort}

abbrev pub denied_message : String
denied_message =
    "You don't have access to the requested agent. If you believe this is an error, please contact your administrator."

pub record RbacDecision : Type 0 where
  pub allowed : Bool
  pub reason : String

-- `RbacPolicy._map`: each role's set of agents, as a list
pub record RbacPolicy : Type 0 where
  pub role_to_agents : Dict (List String)

abbrev agents_or_empty : Option (List String) → List String
agents_or_empty none = []
agents_or_empty (some agents) = agents

abbrev sets : Dict (Option (List String)) → Dict (List String)
sets [] = []
sets ((role, agents) ∷ rest) = (role, agents_or_empty agents) ∷ sets rest

-- The `roles` section of the document, or nothing at all.
unfoldable pub from_mapping : Option (Dict (Option (List String))) → RbacPolicy
from_mapping none = record { role_to_agents = [] }
from_mapping (some roles) = record { role_to_agents = sets roles }

-- `self._map.get(role, set())`
abbrev pub agents_of : RbacPolicy → String → List String
agents_of p role = agents_or_empty (lookup role p.role_to_agents)

unfoldable pub check : RbacPolicy → String → String → RbacDecision
check p role agent_id =
    if not (truthy role)
    then record { allowed = false; reason = "missing user role" }
    else if not (truthy agent_id)
    then record { allowed = false; reason = "missing target agent id" }
    else if elem agent_id (agents_of p role)
    then record {
      allowed = true;
      reason = "role '" <> (role <> ("' is mapped to agent '" <> (agent_id <> "'")));
    }
    else record {
      allowed = false;
      reason = "role '" <> (role <> ("' is not mapped to agent '" <> (agent_id <> "'")));
    }

-- `ALLOWED`: what the identity may hold on each governance table
abbrev pub allowed_privileges : Dict (List String)
allowed_privileges = ("config", "SELECT" ∷ []) ∷ ("audit", "INSERT" ∷ "SELECT" ∷ []) ∷ []

pub record PrivilegeFinding : Type 0 where
  pub table : String
  pub role : String
  pub excess : List String

-- What the two queries of `check_privileges` return: the role, and the grants as pairs of a
-- table and a privilege.
pub record Grants : Type 0 where
  pub current_user : String
  pub rows : List (String × String)

-- `wanted = {name: key for key, name in tables.items() if name}`, on what has been collected: of two
-- keys with the same table the later one stays.
pub collect_wanted : Dict String → Dict String → Dict String
collect_wanted wanted [] = wanted
collect_wanted wanted ((key, name) ∷ rest) =
    collect_wanted (if truthy name then insert name key wanted else wanted) rest

unfoldable pub wanted_tables : Dict String → Dict String
unfolding collect_wanted
wanted_tables tables = collect_wanted [] tables

-- `held.setdefault(table, set()).add(privilege.upper())`
pub add_grant : Dict (List String) → String × String → Dict (List String)
add_grant held (table, privilege) =
    let old = agents_or_empty (lookup table held) in
    insert table (if elem (upper privilege) old then old else upper privilege ∷ old) held

pub held_privileges : Dict (List String) → List (String × String) → Dict (List String)
held_privileges held [] = held
held_privileges held (row ∷ rows) = held_privileges (add_grant held row) rows

abbrev pub le_text : String → String → Bool
le_text s t = elim (compare s t) [ Ordering.gt ↦ false | _ ↦ true ]

-- `permitted = allowed.get(wanted.get(table, ""), frozenset())`
abbrev pub permitted_on : Dict (List String) → Dict String → String → List String
permitted_on allowed wanted table = elim (lookup table wanted) [
  | none ↦ agents_or_empty (lookup "" allowed)
  | some key ↦ agents_or_empty (lookup key allowed)
]

unfoldable pub excess_over : List String → List String → List String
excess_over permitted privileges = sort le_text (keep (λ p. not (elem p permitted)) privileges)

pub findings_of :
    Dict (List String) → Dict String → String → List (String × List String) → List PrivilegeFinding
findings_of allowed wanted role [] = []
findings_of allowed wanted role ((table, privileges) ∷ rest) =
    let others = findings_of allowed wanted role rest in
    let excess = excess_over (permitted_on allowed wanted table) privileges in
    if is_empty excess
    then others
    else record { table = table; role = role; excess = excess } ∷ others

-- `allowed or ALLOWED`
abbrev pub declared_or_default : Option (Dict (List String)) → Dict (List String)
declared_or_default none = allowed_privileges
declared_or_default (some []) = allowed_privileges
declared_or_default (some (entry ∷ rest)) = entry ∷ rest

-- `none` for the queries stands for an exception, which is logged and reports nothing.
unfoldable pub check_privileges :
    Option Grants → Dict String → Option (Dict (List String)) → List PrivilegeFinding
unfolding wanted_tables held_privileges add_grant findings_of excess_over
check_privileges grants tables declared =
    let wanted = wanted_tables tables in
    if is_empty wanted then [] else elim grants [
      | none ↦ []
      | some found ↦
          findings_of (declared_or_default declared) wanted found.current_user
            (sort (λ a b. le_text a.0 b.0) (held_privileges [] found.rows))
    ]
