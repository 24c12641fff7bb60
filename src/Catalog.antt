-- ===== src/Catalog.antt =====
-- The identity catalog of crates/bastet-core/src/catalog.rs: the tables of entities.
pub mod Validation
pub mod References
pub mod Keys
pub mod Integrity
use bastet_workstation.Common.{ℕ, String, Option, List, find_by}
use bastet_workstation.Adapter.RunState.{NormalizedRunState}
use bastet_workstation.Policy.{PolicyLayer}
use bastet_workstation.Identity.{
  CredentialReference, AgentProvider, ModelProvider, Account, Model, AgentInstance, Project, Role,
  Session, Run,
}

pub record IdentityCatalog : Type 0 where
  pub credential_references : List CredentialReference
  pub agent_providers : List AgentProvider
  pub model_providers : List ModelProvider
  pub accounts : List Account
  pub models : List Model
  pub agent_instances : List AgentInstance
  pub projects : List Project
  pub roles : List Role
  pub sessions : List Session
  pub runs : List Run

pub data CatalogError : Type 0 where
  duplicate_id : String → ℕ → CatalogError
  missing_reference : String → String → ℕ → CatalogError
  agent_provider_mismatch : CatalogError
  empty_field : String → String → CatalogError
  invalid_policy_layer : String → PolicyLayer → CatalogError
  invalid_run_timing : NormalizedRunState → CatalogError

-- The key of each table: `item.metadata.id`.
abbrev pub reference_key : CredentialReference → ℕ
reference_key x = x.metadata.id

abbrev pub agent_provider_key : AgentProvider → ℕ
agent_provider_key x = x.metadata.id

abbrev pub model_provider_key : ModelProvider → ℕ
model_provider_key x = x.metadata.id

abbrev pub account_key : Account → ℕ
account_key x = x.metadata.id

abbrev pub model_key : Model → ℕ
model_key x = x.metadata.id

abbrev pub agent_key : AgentInstance → ℕ
agent_key x = x.metadata.id

abbrev pub project_key : Project → ℕ
project_key x = x.metadata.id

abbrev pub role_key : Role → ℕ
role_key x = x.metadata.id

abbrev pub session_key : Session → ℕ
session_key x = x.metadata.id

abbrev pub run_key : Run → ℕ
run_key x = x.metadata.id

-- `table.iter().find(|item| item.metadata.id == id)`
abbrev pub find_reference : ℕ → List CredentialReference → Option CredentialReference
find_reference = find_by reference_key

abbrev pub find_agent_provider : ℕ → List AgentProvider → Option AgentProvider
find_agent_provider = find_by agent_provider_key

abbrev pub find_account : ℕ → List Account → Option Account
find_account = find_by account_key

abbrev pub find_agent : ℕ → List AgentInstance → Option AgentInstance
find_agent = find_by agent_key

abbrev pub find_project : ℕ → List Project → Option Project
find_project = find_by project_key

abbrev pub find_role : ℕ → List Role → Option Role
find_role = find_by role_key

abbrev pub find_session : ℕ → List Session → Option Session
find_session = find_by session_key

abbrev pub find_run : ℕ → List Run → Option Run
find_run = find_by run_key
