-- ===== src/Approval/Backing.antt =====
-- What an accepted credential binding says of the catalog.
use bastet_workstation.Common.{
  ℕ, ◌≡◌, true, Option, some, none, arith, ok, eq_iff, Option-cases, inl, inr, ap, ==_iff,
}
use bastet_workstation.Identity.{
  AgentProvider, Account, CredentialReference, AgentInstance, Project, is_active, CredentialBackend,
}
use bastet_workstation.Catalog.{IdentityCatalog, find_account, find_agent_provider, find_reference}
use bastet_workstation.Approval.{ApprovalAction, ApprovalRequest, CredentialGrantBinding}
use bastet_workstation.Approval.Against.{
  check_account, check_reference, validate_credential_binding, is_some_id, same_backend,
}

-- Everything that the binding names is in the catalog, active, and as the binding says.
pub record IsBacked (catalog : IdentityCatalog) (a : ApprovalAction) (agent : AgentInstance)
    (project : Project) (b : CredentialGrantBinding) : Type 0 where
  pub provider : AgentProvider
  pub account : Account
  pub reference : CredentialReference
  pub found_provider :
      find_agent_provider b.agent_provider_id catalog.agent_providers ≡ some provider
  pub found_account : find_account b.account_id catalog.accounts ≡ some account
  pub found_reference :
      find_reference b.credential_reference_id catalog.credential_references ≡ some reference
  pub all_active :
      (is_active agent.metadata.lifecycle ≡ true)
      × (is_active project.metadata.lifecycle ≡ true)
      × (is_active provider.metadata.lifecycle ≡ true)
      × (is_active account.metadata.lifecycle ≡ true)
      × (is_active reference.metadata.lifecycle ≡ true)
  pub same_provider :
      (agent.agent_provider_id ≡ b.agent_provider_id)
      × (account.agent_provider_id ≡ b.agent_provider_id)
      × (provider.adapter_kind ≡ b.adapter_kind)
  pub same_account :
      (agent.account_id ≡ some b.account_id)
      × (account.provider_identity ≡ b.provider_identity)
      × (account.credential_reference_id ≡ some b.credential_reference_id)
  pub same_reference :
      (reference.backend ≡ b.backend)
      × (reference.service ≡ b.service)
      × (reference.account_label ≡ b.account_label)

is_some_id-eq : (o : Option ℕ) (x : ℕ) → is_some_id o x ≡ true → o ≡ some x
is_some_id-eq none x h = cc h
is_some_id-eq (some y) x h = ap some ((==_iff y x).0 h)

same_backend-eq : (x y : CredentialBackend) → same_backend x y ≡ true → x ≡ y
same_backend-eq x y h = ground arith

pub validate_credential_binding-IsBacked :
    (r : ApprovalRequest) (catalog : IdentityCatalog) (agent : AgentInstance) (project : Project)
    (b : CredentialGrantBinding)
    → validate_credential_binding r catalog agent project b ≡ ok tt
    → IsBacked catalog r.action agent project b
unfolding validate_credential_binding check_account check_reference
validate_credential_binding-IsBacked r catalog agent project b h =
    elim (Option-cases (find_agent_provider b.agent_provider_id catalog.agent_providers)) [
      | inl e ↦ absurd (ground arith)
      | inr (provider, found_provider) ↦
          elim (Option-cases (find_account b.account_id catalog.accounts)) [
            | inl e ↦ absurd (ground arith)
            | inr (account, found_account) ↦
                elim (Option-cases
                  (find_reference b.credential_reference_id catalog.credential_references)) [
                    | inl e ↦ absurd (ground arith)
                    | inr (reference, found_reference) ↦
                        let kind = eq_iff provider.adapter_kind b.adapter_kind in
                        let identity = eq_iff account.provider_identity b.provider_identity in
                        let service = eq_iff reference.service b.service in
                        let label = eq_iff reference.account_label b.account_label in
                        record {
                          provider = provider;
                          account = account;
                          reference = reference;
                          found_provider = found_provider;
                          found_account = found_account;
                          found_reference = found_reference;
                          all_active = (
                            ground arith,
                            ground arith,
                            ground arith,
                            ground arith,
                            ground arith,
                          );
                          same_provider = (ground arith, ground arith, ground arith);
                          same_account = (
                            is_some_id-eq _ _ (ground arith),
                            ground arith,
                            is_some_id-eq _ _ (ground arith),
                          );
                          same_reference =
                              (same_backend-eq _ _ (ground arith), ground arith, ground arith);
                        }
                  ]
          ]
    ]
