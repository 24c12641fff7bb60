-- ===== src/Approval/Grounds.antt =====
-- What `validate_against` establishes of the catalog, and that it does not panic.
use bastet_workstation.Common.{
  ℕ, ◌≡◌, ◌≢◌, not, Option, some, none, List, arith, ok, err, fail_if, ok_or, Option-cases, >>=-err,
  for_each-err, any, ◌==◌, for_each, inl, inr,
}
use bastet_workstation.Identity.{CredentialReference, Run, Session, AgentInstance, Project, RunId}
use bastet_workstation.Policy.{ScopedPolicy}
use bastet_workstation.Catalog.{
  IdentityCatalog, find_agent, find_project, find_run, find_session, find_account,
}
use bastet_workstation.Approval.{
  ApprovalAction, ApprovalRequest, CredentialGrantBinding, panics, restrict_within, validate_action,
  missing_reference, check_binding, credential_account_mismatch, credential_account_required,
  account_credential_required,
}
use bastet_workstation.Approval.Hash.{HashInput}
use bastet_workstation.Approval.Request.{validate_unchanged}
use bastet_workstation.Approval.Permission.{HasGrant, validate_action-IsPermitted}
use bastet_workstation.Approval.Against.{
  check_session, check_run_scope, check_credential_scope, check_references, parent_policy,
  check_account, check_reference, check_role, check_bound_run, validate_credential_binding,
  check_grant, validate_against,
}

-- The run and its session are in the catalog, of the same agent and project as the action.
pub record HasRun (catalog : IdentityCatalog) (a : ApprovalAction) (id : RunId) : Type 0 where
  pub run : Run
  pub session : Session
  pub found_run : find_run id catalog.runs ≡ some run
  pub found_session : find_session run.session_id catalog.sessions ≡ some session
  pub same_agent : session.agent_instance_id ≡ a.agent_instance_id
  pub same_project : session.project_id ≡ a.scope.project_id

pub check_run_scope-HasRun :
    (catalog : IdentityCatalog) (a : ApprovalAction) (id : RunId)
    → check_run_scope catalog a (some id) ≡ ok tt
    → HasRun catalog a id
unfolding check_run_scope check_session
check_run_scope-HasRun catalog a id h = elim (Option-cases (find_run id catalog.runs)) [
  | inl e ↦ absurd (ground arith)
  | inr (run, found_run) ↦ elim (Option-cases (find_session run.session_id catalog.sessions)) [
    | inl e ↦ absurd (ground arith)
    | inr (session, found_session) ↦ record {
      run = run;
      session = session;
      found_run = found_run;
      found_session = found_session;
      same_agent = ground arith;
      same_project = ground arith;
    }
  ]
]

check_bound_run-panics :
    (catalog : IdentityCatalog) (a : ApprovalAction) (run : Option RunId)
    → check_bound_run catalog a run ≡ err panics
    → run ≡ none
unfolding check_bound_run check_session
check_bound_run-panics catalog a run h = ground arith

validate_credential_binding-panics :
    (r : ApprovalRequest) (catalog : IdentityCatalog) (agent : AgentInstance) (project : Project)
    (b : CredentialGrantBinding)
    → validate_credential_binding r catalog agent project b ≡ err panics
    → r.action.scope.run_id ≡ none
unfolding validate_credential_binding check_account check_reference check_role
validate_credential_binding-panics r catalog agent project b h =
    let inner = check_bound_run-panics catalog r.action r.action.scope.run_id in
    ground (arith, inner)

check_references-panics :
    (catalog : IdentityCatalog) (agent : AgentInstance) (ids : List ℕ)
    → check_references catalog agent ids ≢ err panics
unfolding check_references
check_references-panics catalog agent ids =
    let present = λ (id : ℕ).
      fail_if
        (not (any (λ (x : CredentialReference). x.metadata.id == id) catalog.credential_references))
        (missing_reference "credential_reference_id") in
    let account_of = ok_or agent.account_id credential_account_required in
    >>=-err panics (for_each present ids) _ (for_each-err present panics ids (λ id k. ground arith))
      (λ u found.
        >>=-err panics account_of _ (λ k. ground arith)
          (λ account_id k.
            >>=-err panics
              (ok_or (find_account account_id catalog.accounts) (missing_reference "account_id")) _
              (λ k. ground arith)
              (λ account k.
                >>=-err panics (ok_or account.credential_reference_id account_credential_required) _
                  (λ k. ground arith)
                  (λ own k.
                    for_each-err (λ id. fail_if (not (id == own)) credential_account_mismatch)
                      panics ids (λ id k. ground arith)))))

check_credential_scope-panics :
    (catalog : IdentityCatalog) (agent : AgentInstance) (ids : List ℕ)
    → check_credential_scope catalog agent ids ≢ err panics
unfolding check_credential_scope
check_credential_scope-panics catalog agent ids h =
    ground (arith, check_references-panics catalog agent ids)

validate_action-panics :
    (a : ApprovalAction) (parent : ScopedPolicy) → validate_action a parent ≢ err panics
unfolding validate_action for_each check_binding
validate_action-panics a parent h = ground arith

check_grant-panics :
    (r : ApprovalRequest) (catalog : IdentityCatalog) (agent : AgentInstance) (project : Project)
    (g : Option CredentialGrantBinding)
    → HasGrant r.action g
    → check_grant r catalog agent project g ≢ err panics
unfolding check_grant
check_grant-panics r catalog agent project none grant k = cc k
check_grant-panics r catalog agent project (some b) grant k =
    let for_run = grant.for_run in
    let bound = validate_credential_binding-panics r catalog agent project b k in ground arith

module _ (to_vec : HashInput → List ℕ) (sha256 : List ℕ → List ℕ) where
  -- A request whose action is permitted under some policy is accepted or refused: the `expect` in
  -- `validate_credential_binding` does not panic.
  pub validate_against_never_panics :
      (r : ApprovalRequest) (catalog : IdentityCatalog) (parent : ScopedPolicy)
      → validate_action r.action parent ≡ ok tt
      → validate_against to_vec sha256 r catalog ≢ err panics
  unfolding validate_against validate_unchanged check_run_scope check_session parent_policy
      check_grant
  validate_against_never_panics r catalog parent h =
      let p = validate_action-IsPermitted r.action parent h in
      let grant = p.grant in
      >>=-err panics (validate_unchanged to_vec sha256 r) _ (λ k. ground arith)
        (λ u k.
          >>=-err panics
            (ok_or (find_agent r.action.agent_instance_id catalog.agent_instances)
              (missing_reference "agent_instance_id"))
            _ (λ k. ground arith)
            (λ agent k.
              >>=-err panics
                (ok_or (find_project r.action.scope.project_id catalog.projects)
                  (missing_reference "project_id"))
                _ (λ k. ground arith)
                (λ project k.
                  >>=-err panics (restrict_within project.policy r.action.requested_policy) _
                    (λ k. ground arith)
                    (λ granted k.
                      >>=-err panics (parent_policy catalog project r.action.role_id) _
                        (λ k. ground arith)
                        (λ top k.
                          >>=-err panics (check_run_scope catalog r.action r.action.scope.run_id) _
                            (λ k. ground arith)
                            (λ v k.
                              >>=-err panics
                                (check_credential_scope catalog agent
                                  r.action.scope.credential_reference_ids)
                                _
                                (check_credential_scope-panics catalog agent
                                  r.action.scope.credential_reference_ids)
                                (λ w k.
                                  >>=-err panics
                                    (check_grant r catalog agent project
                                      r.action.scope.credential_binding)
                                    _
                                    (check_grant-panics r catalog agent project
                                      r.action.scope.credential_binding grant)
                                    (λ z k. validate_action-panics r.action top))))))))
