-- ===== src/Catalog/Integrity.antt =====
-- What a catalog that `validate_catalog` accepts is.
use bastet_workstation.Common.{
  ℕ, ◌≡◌, true, not, Option, none, some, List, arith, ok, Result, ◌>>◌, >>-eq-ok, for_each,
  for_each-All, All, All-map, inl, inr, is_some, ◌||◌, Option-cases,
}
use bastet_workstation.Identity.{
  Account, AgentInstance, Project, Role, Session, Run, AccountId, ModelId, CredentialReferenceId,
}
use bastet_workstation.Policy.{project, role_or_agent}
use bastet_workstation.Catalog.{
  IdentityCatalog, CatalogError, reference_key, agent_provider_key, model_provider_key, model_key,
  agent_key, project_key, session_key, find_account,
}
use bastet_workstation.Catalog.Validation.{
  has_key, validate_required_fields, validate_run_timing, is_finished, is_under_way, check_project,
  check_role_fields,
}
use bastet_workstation.Catalog.References.{
  check_account_links, check_account_reference, check_model_links, check_agent_account,
  check_agent_links, check_agent_model, check_session_links, check_run_links, check_keys,
  check_links, validate_catalog,
}
use bastet_workstation.Catalog.Keys.{HasDistinctKeys, keys_of}

-- An optional reference leads to an entity of the table.
abbrev pub Leads {ℓ} : {A : Type ℓ} → (A → ℕ) → List A → Option ℕ → Type 0
Leads key items none = Unit {0}
Leads key items (some id) = has_key key items id ≡ true

-- The account that an agent names is in the catalog, of the agent's own provider.
abbrev pub OwnAccount : IdentityCatalog → AgentInstance → Option AccountId → Type 0
OwnAccount c x none = Unit {0}
OwnAccount c x (some id) =
    (account : Account) × (find_account id c.accounts ≡ some account)
    × (account.agent_provider_id ≡ x.agent_provider_id)

abbrev pub AccountLinks : IdentityCatalog → Account → Type 0
AccountLinks c x =
    (has_key agent_provider_key c.agent_providers x.agent_provider_id ≡ true)
    × Leads reference_key c.credential_references x.credential_reference_id

abbrev pub AgentLinks : IdentityCatalog → AgentInstance → Type 0
AgentLinks c x =
    (has_key agent_provider_key c.agent_providers x.agent_provider_id ≡ true)
    × OwnAccount c x x.account_id
    × Leads model_key c.models x.default_model_id

abbrev pub SessionLinks : IdentityCatalog → Session → Type 0
SessionLinks c x =
    (has_key agent_key c.agent_instances x.agent_instance_id ≡ true)
    × (has_key project_key c.projects x.project_id ≡ true)

abbrev pub RunLinks : IdentityCatalog → Run → Type 0
RunLinks c x =
    (has_key session_key c.sessions x.session_id ≡ true)
    × (has_key model_key c.models x.model_id ≡ true)
    × ((not (is_under_way x.state) || is_some x.started_at) ≡ true)
    × ((not (is_finished x.state) || is_some x.finished_at) ≡ true)

account_reference :
    (c : IdentityCatalog) (o : Option CredentialReferenceId)
    → check_account_reference c o ≡ ok tt
    → Leads reference_key c.credential_references o
account_reference c none h = tt
account_reference c (some id) h = ground arith

account_links :
    (c : IdentityCatalog) (x : Account) → check_account_links c x ≡ ok tt → AccountLinks c x
unfolding check_account_links
account_links c x h = (ground arith, account_reference c x.credential_reference_id (ground arith))

agent_account :
    (c : IdentityCatalog) (x : AgentInstance) (o : Option AccountId)
    → check_agent_account c x o ≡ ok tt
    → OwnAccount c x o
unfolding check_agent_account
agent_account c x none h = tt
agent_account c x (some id) h = elim (Option-cases (find_account id c.accounts)) [
  | inl e ↦ absurd (ground arith)
  | inr (account, found) ↦ (account, found, ground arith)
]

agent_model :
    (c : IdentityCatalog) (o : Option ModelId)
    → check_agent_model c o ≡ ok tt
    → Leads model_key c.models o
agent_model c none h = tt
agent_model c (some id) h = ground arith

agent_links :
    (c : IdentityCatalog) (x : AgentInstance) → check_agent_links c x ≡ ok tt → AgentLinks c x
unfolding check_agent_links
agent_links c x h = (
  ground arith,
  agent_account c x x.account_id (ground arith),
  agent_model c x.default_model_id (ground arith),
)

session_links :
    (c : IdentityCatalog) (x : Session) → check_session_links c x ≡ ok tt → SessionLinks c x
unfolding check_session_links
session_links c x h = (ground arith, ground arith)

run_links : (c : IdentityCatalog) (x : Run) → check_run_links c x ≡ ok tt → RunLinks c x
unfolding check_run_links validate_run_timing
run_links c x h = (ground arith, ground arith, ground arith, ground arith)

pub record HasIntegrity (c : IdentityCatalog) : Type 0 where
  pub keys : HasDistinctKeys c
  pub accounts : All (AccountLinks c) c.accounts
  pub models :
      All (λ x. has_key model_provider_key c.model_providers x.model_provider_id ≡ true) c.models
  pub agents : All (AgentLinks c) c.agent_instances
  pub sessions : All (SessionLinks c) c.sessions
  pub runs : All (RunLinks c) c.runs
  pub project_layers : All (λ x. x.policy.layer ≡ project) c.projects
  pub role_layers : All (λ x. x.policy.layer ≡ role_or_agent) c.roles

project_layer : (x : Project) → check_project x ≡ ok tt → x.policy.layer ≡ project
unfolding check_project
project_layer x h = ground arith

role_layer : (x : Role) → check_role_fields x ≡ ok tt → x.policy.layer ≡ role_or_agent
unfolding check_role_fields
role_layer x h = ground arith

each {ℓ} :
    {A : Type ℓ} (check : A → Result (Unit {0}) CatalogError) (P : A → Type 0)
    → ((x : A) → check x ≡ ok tt → P x)
    → (xs : List A) → for_each check xs ≡ ok tt
    → All P xs
each check P f xs h = All-map (λ x. check x ≡ ok tt) P f xs (for_each-All check xs h)

layers_of :
    (c : IdentityCatalog)
    → validate_required_fields c ≡ ok tt
    → All (λ x. x.policy.layer ≡ project) c.projects
      × All (λ x. x.policy.layer ≡ role_or_agent) c.roles
unfolding validate_required_fields
layers_of c h = (
  each check_project (λ x. x.policy.layer ≡ project) project_layer c.projects (ground arith),
  each check_role_fields (λ x. x.policy.layer ≡ role_or_agent) role_layer c.roles (ground arith),
)

links_of :
    (c : IdentityCatalog)
    → check_links c ≡ ok tt
    → All (AccountLinks c) c.accounts
      × All (λ x. has_key model_provider_key c.model_providers x.model_provider_id ≡ true) c.models
      × All (AgentLinks c) c.agent_instances
      × All (SessionLinks c) c.sessions
      × All (RunLinks c) c.runs
unfolding check_links
links_of c h = (
  each (check_account_links c) (AccountLinks c) (account_links c) c.accounts (ground arith),
  each (check_model_links c)
      (λ x. has_key model_provider_key c.model_providers x.model_provider_id ≡ true)
      (λ x k. ground arith) c.models (ground arith),
  each (check_agent_links c) (AgentLinks c) (agent_links c) c.agent_instances (ground arith),
  each (check_session_links c) (SessionLinks c) (session_links c) c.sessions (ground arith),
  each (check_run_links c) (RunLinks c) (run_links c) c.runs (ground arith),
)

-- In a catalog that is accepted, the ids of every table are distinct; every account, model, agent,
-- session and run refers to entities of the catalog; the account of an agent is one of the agent's
-- provider; a run that is under way has a start time, and one that is finished an end time; and
-- projects and roles have policies of their own layers.
pub validate_catalog-HasIntegrity :
    (c : IdentityCatalog) → validate_catalog c ≡ ok tt → HasIntegrity c
unfolding validate_catalog
validate_catalog-HasIntegrity c h =
    let (keys, rest) = >>-eq-ok (check_keys c) (validate_required_fields c >> check_links c) h in
    let (fields, links) = >>-eq-ok (validate_required_fields c) (check_links c) rest in
    let (accounts, models, agents, sessions, runs) = links_of c links in
    let (projects, roles) = layers_of c fields in
    record {
      keys = keys_of c keys;
      accounts = accounts;
      models = models;
      agents = agents;
      sessions = sessions;
      runs = runs;
      project_layers = projects;
      role_layers = roles;
    }
