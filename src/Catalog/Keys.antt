-- ===== src/Catalog/Keys.antt =====
-- The ids of the tables of a catalog that `validate_catalog` accepts.
use bastet_workstation.Common.{ℕ, each_once-Distinct, ◌≡◌, String, List, map, arith, ok, Distinct}
use bastet_workstation.Catalog.{
  IdentityCatalog, duplicate_id, reference_key, agent_provider_key, model_provider_key, account_key,
  model_key, agent_key, project_key, role_key, session_key, run_key,
}
use bastet_workstation.Catalog.Validation.{unique}
use bastet_workstation.Catalog.References.{check_keys}

-- The ids of every table are distinct.
abbrev pub HasDistinctKeys : IdentityCatalog → Type 0
HasDistinctKeys c =
    Distinct (map reference_key c.credential_references)
    × Distinct (map agent_provider_key c.agent_providers)
    × Distinct (map model_provider_key c.model_providers)
    × Distinct (map account_key c.accounts)
    × Distinct (map model_key c.models)
    × Distinct (map agent_key c.agent_instances)
    × Distinct (map project_key c.projects)
    × Distinct (map role_key c.roles)
    × Distinct (map session_key c.sessions)
    × Distinct (map run_key c.runs)

distinct_keys : (entity : String) (ids : List ℕ) → unique entity ids ≡ ok tt → Distinct ids
distinct_keys entity ids h = each_once-Distinct (duplicate_id entity) ids h

pub keys_of : (c : IdentityCatalog) → check_keys c ≡ ok tt → HasDistinctKeys c
unfolding check_keys
keys_of c h = (
  distinct_keys "CredentialReference" _ (ground arith),
  distinct_keys "AgentProvider" _ (ground arith),
  distinct_keys "ModelProvider" _ (ground arith),
  distinct_keys "Account" _ (ground arith),
  distinct_keys "Model" _ (ground arith),
  distinct_keys "AgentInstance" _ (ground arith),
  distinct_keys "Project" _ (ground arith),
  distinct_keys "Role" _ (ground arith),
  distinct_keys "Session" _ (ground arith),
  distinct_keys "Run" _ (ground arith),
)
