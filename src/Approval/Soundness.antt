-- ===== src/Approval/Soundness.antt =====
-- What an approval request that `validate_against` accepts says of the catalog.
use bastet_workstation.Common.{
  ℕ, ◌≡◌, refl, ◌⊎◌, inl, inr, true, not, Option, some, none, List, [], ◌∷◌, arith, ok, fail_if,
  >>=-inv, ok_or, any, All, All-map, for_each, for_each-All, ◌==◌,
}
use bastet_workstation.Identity.{Account, AgentInstance, Project, RunId, CredentialReference}
use bastet_workstation.Policy.{ScopedPolicy}
use bastet_workstation.Policy.Restriction.{IsNarrower, restrict_iff_IsNarrower}
use bastet_workstation.Catalog.{IdentityCatalog, find_agent, find_project, find_account}
use bastet_workstation.Approval.{
  ApprovalAction, ApprovalRequest, CredentialGrantBinding, policy, restrict_within,
  missing_reference, credential_account_mismatch, credential_account_required,
  account_credential_required,
}
use bastet_workstation.Approval.Hash.{HashInput}
use bastet_workstation.Approval.Request.{validate_unchanged}
use bastet_workstation.Approval.Permission.{IsPermitted, validate_action-IsPermitted, map_err-inv}
use bastet_workstation.Approval.Against.{
  check_run_scope, check_credential_scope, check_references, parent_policy, check_grant,
  validate_against,
}
use bastet_workstation.Approval.Grounds.{HasRun, check_run_scope-HasRun}
use bastet_workstation.Approval.Backing.{IsBacked, validate_credential_binding-IsBacked}

abbrev pub RunsIn : IdentityCatalog → ApprovalAction → Option RunId → Type 0
RunsIn catalog a none = Unit {0}
RunsIn catalog a (some id) = HasRun catalog a id

abbrev pub BackedBy :
    IdentityCatalog
    → ApprovalAction
    → AgentInstance
    → Project
    → Option CredentialGrantBinding
    → Type 0
BackedBy catalog a agent project none = Unit {0}
BackedBy catalog a agent project (some b) = IsBacked catalog a agent project b

-- The agent has an account, whose credential is the only one in the list.
pub record OwnsAll (catalog : IdentityCatalog) (agent : AgentInstance) (ids : List ℕ) : Type 0 where
  pub account_id : ℕ
  pub account : Account
  pub own : ℕ
  pub has_account : agent.account_id ≡ some account_id
  pub found_account : find_account account_id catalog.accounts ≡ some account
  pub has_credential : account.credential_reference_id ≡ some own
  pub all_own : All (λ id. id ≡ own) ids
  pub all_known :
      All
        (λ id.
          any (λ (x : CredentialReference). x.metadata.id == id) catalog.credential_references
          ≡ true)
        ids

pub record IsGrounded (catalog : IdentityCatalog) (a : ApprovalAction) : Type 0 where
  pub agent : AgentInstance
  pub project : Project
  pub parent : ScopedPolicy
  pub found_agent : find_agent a.agent_instance_id catalog.agent_instances ≡ some agent
  pub found_project : find_project a.scope.project_id catalog.projects ≡ some project
  pub within_project : IsNarrower a.requested_policy project.policy
  pub found_parent : parent_policy catalog project a.role_id ≡ ok parent
  pub permitted : IsPermitted a parent
  pub runs : RunsIn catalog a a.scope.run_id
  pub credentials :
      (a.scope.credential_reference_ids ≡ [])
      ⊎ OwnsAll catalog agent a.scope.credential_reference_ids
  pub backed : BackedBy catalog a agent project a.scope.credential_binding

ok_or-inv {ℓ ι} :
    {A : Type ℓ} {E : Type ι} (o : Option A) (e : E) (a : A) → ok_or o e ≡ ok a → o ≡ some a
ok_or-inv none e a h = cc h
ok_or-inv (some b) e a h = ground arith

check_references-OwnsAll :
    (catalog : IdentityCatalog) (agent : AgentInstance) (ids : List ℕ)
    → check_references catalog agent ids ≡ ok tt
    → OwnsAll catalog agent ids
unfolding check_references
check_references-OwnsAll catalog agent ids h =
    let known = λ (id : ℕ).
      any (λ (x : CredentialReference). x.metadata.id == id) catalog.credential_references in
    let present =
      λ (id : ℕ). fail_if (not (known id)) (missing_reference "credential_reference_id") in
    let same = λ (own id : ℕ). fail_if (not (id == own)) credential_account_mismatch in
    let account_of = ok_or agent.account_id credential_account_required in
    let (u, (rest, all_present)) = >>=-inv (for_each present ids) _ tt h in
    let (account_id, (rest, has_account)) = >>=-inv account_of _ tt rest in
    let (account, (rest, found)) =
      >>=-inv (ok_or (find_account account_id catalog.accounts) (missing_reference "account_id")) _
        tt rest in
    let (own, (rest, has_credential)) =
      >>=-inv (ok_or account.credential_reference_id account_credential_required) _ tt rest in
    record {
      account_id = account_id;
      account = account;
      own = own;
      has_account = ok_or-inv _ _ _ has_account;
      found_account = ok_or-inv _ _ _ found;
      has_credential = ok_or-inv _ _ _ has_credential;
      all_own =
          All-map (λ id. same own id ≡ ok tt) (λ id. id ≡ own) (λ id k. ground arith) ids
            (for_each-All (same own) ids rest);
      all_known =
          All-map (λ id. present id ≡ ok tt) (λ id. known id ≡ true) (λ id k. ground arith) ids
            (for_each-All present ids all_present);
    }

credentials_of :
    (catalog : IdentityCatalog) (agent : AgentInstance) (ids : List ℕ)
    → check_credential_scope catalog agent ids ≡ ok tt
    → (ids ≡ []) ⊎ OwnsAll catalog agent ids
unfolding check_credential_scope
credentials_of catalog agent [] h = inl refl
credentials_of catalog agent (id ∷ ids) h =
    inr (check_references-OwnsAll catalog agent (id ∷ ids) h)

runs_of :
    (catalog : IdentityCatalog) (a : ApprovalAction) (run : Option RunId)
    → check_run_scope catalog a run ≡ ok tt
    → RunsIn catalog a run
runs_of catalog a none h = tt
runs_of catalog a (some id) h = check_run_scope-HasRun catalog a id h

backing_of :
    (r : ApprovalRequest) (catalog : IdentityCatalog) (agent : AgentInstance) (project : Project)
    (g : Option CredentialGrantBinding)
    → check_grant r catalog agent project g ≡ ok tt
    → BackedBy catalog r.action agent project g
unfolding check_grant
backing_of r catalog agent project none h = tt
backing_of r catalog agent project (some b) h =
    validate_credential_binding-IsBacked r catalog agent project b h

module _ (to_vec : HashInput → List ℕ) (sha256 : List ℕ → List ℕ) where
  -- When a request is accepted against a catalog, it has the hash of its contents; its agent and
  -- project are in the catalog; the policy that it asks for is narrower than the project's, and the
  -- action is permitted under the role's policy, or the project's when there is no role; a run that it
  -- names, and that run's session, are in the catalog, of the same agent and project; the credentials
  -- that it names are known and all the one of the agent's account; and all that a credential binding
  -- names is in the catalog, active, and as the binding says.
  pub validate_against-IsGrounded :
      (r : ApprovalRequest) (catalog : IdentityCatalog)
      → validate_against to_vec sha256 r catalog ≡ ok tt
      → (validate_unchanged to_vec sha256 r ≡ ok tt) × IsGrounded catalog r.action
  unfolding validate_against
  validate_against-IsGrounded r catalog h =
      let a = r.action in
      let (u, (rest, unchanged)) = >>=-inv (validate_unchanged to_vec sha256 r) _ tt h in
      let (agent, (rest, found_agent)) =
        >>=-inv
          (ok_or (find_agent a.agent_instance_id catalog.agent_instances)
            (missing_reference "agent_instance_id"))
          _ tt rest in
      let (project, (rest, found_project)) =
        >>=-inv
          (ok_or (find_project a.scope.project_id catalog.projects)
            (missing_reference "project_id"))
          _ tt rest in
      let (granted, (rest, within)) =
        >>=-inv (restrict_within project.policy a.requested_policy) _ tt rest in
      let (parent, (rest, found_parent)) =
        >>=-inv (parent_policy catalog project a.role_id) _ tt rest in
      let (v, (rest, runs)) = >>=-inv (check_run_scope catalog a a.scope.run_id) _ tt rest in
      let (w, (rest, owned)) =
        >>=-inv (check_credential_scope catalog agent a.scope.credential_reference_ids) _ tt rest in
      let (z, (permitted, backed)) =
        >>=-inv (check_grant r catalog agent project a.scope.credential_binding) _ tt rest in
      (
        unchanged,
        record {
          agent = agent;
          project = project;
          parent = parent;
          found_agent = ok_or-inv _ _ _ found_agent;
          found_project = ok_or-inv _ _ _ found_project;
          within_project =
              ((restrict_iff_IsNarrower project.policy a.requested_policy granted).0
                (map_err-inv policy _ granted within)).1;
          found_parent = found_parent;
          permitted = validate_action-IsPermitted a parent permitted;
          runs = runs_of catalog a a.scope.run_id runs;
          credentials = credentials_of catalog agent a.scope.credential_reference_ids owned;
          backed = backing_of r catalog agent project a.scope.credential_binding backed;
        },
      )
