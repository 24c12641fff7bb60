-- ===== src/Catalog/References.antt =====
-- The second half of `IdentityCatalog::validate` of crates/bastet-core/src/catalog.rs: what each
-- entity refers to.
use bastet_workstation.Common.{
  not, Option, none, some, map, Result, ok, ◌>>=◌, ◌>>◌, fail_if, ok_or, for_each, ◌==◌,
}
use bastet_workstation.Identity.{
  Account, Model, AgentInstance, Session, Run, AccountId, ModelId, CredentialReferenceId,
}
use bastet_workstation.Catalog.{
  IdentityCatalog, CatalogError, missing_reference, agent_provider_mismatch, reference_key,
  agent_provider_key, model_provider_key, account_key, model_key, agent_key, project_key, role_key,
  session_key, run_key, find_account,
}
use bastet_workstation.Catalog.Validation.{
  unique, require, has_key, validate_required_fields, validate_run_timing,
}

abbrev pub check_account_reference :
    IdentityCatalog → Option CredentialReferenceId → Result (Unit {0}) CatalogError
check_account_reference c none = ok tt
check_account_reference c (some id) =
    require (has_key reference_key c.credential_references id) "Account" "credential_reference_id"
      id

unfoldable pub check_account_links : IdentityCatalog → Account → Result (Unit {0}) CatalogError
check_account_links c x = do
  require (has_key agent_provider_key c.agent_providers x.agent_provider_id) "Account"
      "agent_provider_id" x.agent_provider_id
  check_account_reference c x.credential_reference_id

abbrev pub check_model_links : IdentityCatalog → Model → Result (Unit {0}) CatalogError
check_model_links c x =
    require (has_key model_provider_key c.model_providers x.model_provider_id) "Model"
      "model_provider_id" x.model_provider_id

unfoldable pub check_agent_account :
    IdentityCatalog → AgentInstance → Option AccountId → Result (Unit {0}) CatalogError
check_agent_account c x none = ok tt
check_agent_account c x (some id) = do
  account ← ok_or (find_account id c.accounts) (missing_reference "AgentInstance" "account_id" id)
  fail_if (not (account.agent_provider_id == x.agent_provider_id)) agent_provider_mismatch

abbrev pub check_agent_model : IdentityCatalog → Option ModelId → Result (Unit {0}) CatalogError
check_agent_model c none = ok tt
check_agent_model c (some id) =
    require (has_key model_key c.models id) "AgentInstance" "default_model_id" id

unfoldable pub check_agent_links : IdentityCatalog → AgentInstance → Result (Unit {0}) CatalogError
check_agent_links c x = do
  require (has_key agent_provider_key c.agent_providers x.agent_provider_id) "AgentInstance"
      "agent_provider_id" x.agent_provider_id
  check_agent_account c x x.account_id
  check_agent_model c x.default_model_id

unfoldable pub check_session_links : IdentityCatalog → Session → Result (Unit {0}) CatalogError
check_session_links c x = do
  require (has_key agent_key c.agent_instances x.agent_instance_id) "Session" "agent_instance_id"
      x.agent_instance_id
  require (has_key project_key c.projects x.project_id) "Session" "project_id" x.project_id

unfoldable pub check_run_links : IdentityCatalog → Run → Result (Unit {0}) CatalogError
check_run_links c x = do
  require (has_key session_key c.sessions x.session_id) "Run" "session_id" x.session_id
  require (has_key model_key c.models x.model_id) "Run" "model_id" x.model_id
  validate_run_timing x

unfoldable pub check_keys : IdentityCatalog → Result (Unit {0}) CatalogError
check_keys c = do
  unique "CredentialReference" (map reference_key c.credential_references)
  unique "AgentProvider" (map agent_provider_key c.agent_providers)
  unique "ModelProvider" (map model_provider_key c.model_providers)
  unique "Account" (map account_key c.accounts)
  unique "Model" (map model_key c.models)
  unique "AgentInstance" (map agent_key c.agent_instances)
  unique "Project" (map project_key c.projects)
  unique "Role" (map role_key c.roles)
  unique "Session" (map session_key c.sessions)
  unique "Run" (map run_key c.runs)

unfoldable pub check_links : IdentityCatalog → Result (Unit {0}) CatalogError
check_links c = do
  for_each (check_account_links c) c.accounts
  for_each (check_model_links c) c.models
  for_each (check_agent_links c) c.agent_instances
  for_each (check_session_links c) c.sessions
  for_each (check_run_links c) c.runs

-- `IdentityCatalog::validate`
unfoldable pub validate_catalog : IdentityCatalog → Result (Unit {0}) CatalogError
validate_catalog c = do check_keys c; validate_required_fields c; check_links c
