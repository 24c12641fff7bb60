-- ===== src/Catalog/Validation.antt =====
-- `IdentityCatalog::validate` of crates/bastet-core/src/catalog.rs.
use bastet_workstation.Common.{
  ℕ, each_once, String, Bool, true, false, not, ◌&&◌, ◌||◌, Option, none, some, is_none, List, [],
  any, Result, ok, ◌>>◌, fail_if, for_each, is_blank, ◌==◌,
}
use bastet_workstation.Identity.{
  EntityMetadata, CredentialReference, AgentProvider, ModelProvider, Account, Model, Project, Role,
  Session, Run,
}
use bastet_workstation.Adapter.RunState.{
  NormalizedRunState, starting, awaiting_approval, cancelled, failed, succeeded,
}
use bastet_workstation.Policy.{PolicyLayer, project, role_or_agent}
use bastet_workstation.Catalog.{
  IdentityCatalog, CatalogError, duplicate_id, missing_reference, empty_field, invalid_policy_layer,
  invalid_run_timing,
}

abbrev pub unique : String → List ℕ → Result (Unit {0}) CatalogError
unique entity ids = each_once (duplicate_id entity) [] ids

abbrev pub require : Bool → String → String → ℕ → Result (Unit {0}) CatalogError
require found entity field id = fail_if (not found) (missing_reference entity field id)

-- `table.iter().any(|item| item.metadata.id == id)`
abbrev pub has_key {ℓ} : {A : Type ℓ} → (A → ℕ) → List A → ℕ → Bool
has_key key items id = any (λ item. key item == id) items

abbrev pub nonempty : String → String → String → Result (Unit {0}) CatalogError
nonempty entity field value = fail_if (is_blank value) (empty_field entity field)

unfoldable pub validate_metadata : String → EntityMetadata ℕ → Result (Unit {0}) CatalogError
validate_metadata entity d = do
  nonempty entity "created_at" d.created_at
  nonempty entity "updated_at" d.updated_at
  nonempty entity "provenance.source_kind" d.provenance.source_kind
  nonempty entity "provenance.source_id" d.provenance.source_id
  nonempty entity "provenance.recorded_by" d.provenance.recorded_by

abbrev pub is_finished : NormalizedRunState → Bool
is_finished cancelled = true
is_finished failed = true
is_finished succeeded = true
is_finished _ = false

abbrev pub is_under_way : NormalizedRunState → Bool
is_under_way starting = false
is_under_way awaiting_approval = false
is_under_way cancelled = false
is_under_way _ = true

unfoldable pub validate_run_timing : Run → Result (Unit {0}) CatalogError
validate_run_timing run =
    fail_if
      ((is_under_way run.state && is_none run.started_at)
        || (is_finished run.state && is_none run.finished_at))
      (invalid_run_timing run.state)

abbrev pub is_project_layer : PolicyLayer → Bool
is_project_layer project = true
is_project_layer _ = false

abbrev pub is_role_layer : PolicyLayer → Bool
is_role_layer role_or_agent = true
is_role_layer _ = false

-- The bodies of the loops of `validate_required_fields`.
unfoldable pub check_agent_provider : AgentProvider → Result (Unit {0}) CatalogError
check_agent_provider x = do
  validate_metadata "AgentProvider" x.metadata
  nonempty "AgentProvider" "adapter_kind" x.adapter_kind
  nonempty "AgentProvider" "display_name" x.display_name

unfoldable pub check_model_provider : ModelProvider → Result (Unit {0}) CatalogError
check_model_provider x = do
  validate_metadata "ModelProvider" x.metadata
  nonempty "ModelProvider" "provider_key" x.provider_key

unfoldable pub check_account_fields : Account → Result (Unit {0}) CatalogError
check_account_fields x = do
  validate_metadata "Account" x.metadata
  nonempty "Account" "provider_identity" x.provider_identity

unfoldable pub check_model : Model → Result (Unit {0}) CatalogError
check_model x = do
  validate_metadata "Model" x.metadata
  nonempty "Model" "provider_model_id" x.provider_model_id

unfoldable pub check_project : Project → Result (Unit {0}) CatalogError
check_project x = do
  validate_metadata "Project" x.metadata
  nonempty "Project" "name" x.name
  nonempty "Project" "workspace_root" x.workspace_root
  fail_if (not (is_project_layer x.policy.layer)) (invalid_policy_layer "Project" project)

unfoldable pub check_role_fields : Role → Result (Unit {0}) CatalogError
check_role_fields x = do
  validate_metadata "Role" x.metadata
  nonempty "Role" "name" x.name
  fail_if (not (is_role_layer x.policy.layer)) (invalid_policy_layer "Role" role_or_agent)

abbrev pub check_provider_session : Option String → Result (Unit {0}) CatalogError
check_provider_session none = ok tt
check_provider_session (some id) = nonempty "Session" "provider_session_id" id

unfoldable pub check_session_fields : Session → Result (Unit {0}) CatalogError
check_session_fields x = do
  validate_metadata "Session" x.metadata
  check_provider_session x.provider_session_id

unfoldable pub check_reference_fields : CredentialReference → Result (Unit {0}) CatalogError
check_reference_fields x = do
  validate_metadata "CredentialReference" x.metadata
  nonempty "CredentialReference" "service" x.service
  nonempty "CredentialReference" "account_label" x.account_label

unfoldable pub validate_required_fields : IdentityCatalog → Result (Unit {0}) CatalogError
validate_required_fields c = do
  for_each check_agent_provider c.agent_providers
  for_each check_model_provider c.model_providers
  for_each check_account_fields c.accounts
  for_each check_model c.models
  for_each (λ x. validate_metadata "AgentInstance" x.metadata) c.agent_instances
  for_each check_project c.projects
  for_each check_role_fields c.roles
  for_each check_session_fields c.sessions
  for_each (λ x. validate_metadata "Run" x.metadata) c.runs
  for_each check_reference_fields c.credential_references
