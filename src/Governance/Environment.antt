-- ===== src/Governance/Environment.antt =====
-- environment.py: which environment a process runs in. `os.getenv` is an argument: the variables
-- of the process.
use supervisor_agent.Base.{
  String, ◌<>◌, Bool, Option, none, some, List, [], ◌∷◌, elem, if◌then◌else◌,
}
use supervisor_agent.Base.Text.{strip, lower, or_text}

abbrev pub Environ : Type 0
Environ = String → Option String

-- `os.getenv(name, default)`
abbrev pub getenv : Environ → String → String → String
getenv env name default = elim (env name) [ none ↦ default | some value ↦ value ]

abbrev pub local_environments : List String
local_environments = "local" ∷ "test" ∷ "testing" ∷ "" ∷ []

abbrev pub default_catalog : String
default_catalog = "workspace"

abbrev pub local_reads : String
local_reads = "dev"

unfoldable pub current_environment : Environ → Option String → String
current_environment env none = lower (strip (getenv env "ENVIRONMENT" "local"))
current_environment env (some environment) = lower (strip environment)

unfoldable pub is_local_environment : Environ → Option String → Bool
is_local_environment env environment = elem (current_environment env environment) local_environments

unfoldable pub resource_environment : Environ → Option String → String
resource_environment env environment =
    let name = current_environment env environment in
    if elem name local_environments then local_reads else name

unfoldable pub catalog : Environ → String
catalog env =
    or_text (strip (getenv env "PLATFORM_CATALOG" ""))
      (or_text (strip (getenv env "SUPERVISOR_CATALOG" "")) default_catalog)

unfoldable pub environment_schema : Environ → String → Option String → String
environment_schema env name environment = name <> ("_" <> resource_environment env environment)
