-- ===== src/Approval/Permission.antt =====
-- `validate_action` against an independent description of what may be asked for.
use bastet_workstation.Common.{
  ℕ, ◌≡◌, refl, ◌↔◌, true, false, not, ◌&&◌, Option, some, none, is_none, is_some, List, [], ◌∷◌,
  arith, ok, Result, ◌>>◌, fail_if, >>-eq-ok, >>=-inv, is_blank, str_eq, eq_iff, for_each,
  for_each-All, fail_if-ok, ◌>>=◌, map_err, Result, err,
}
use bastet_workstation.Policy.{ScopedPolicy, use_level}
use bastet_workstation.Policy.Restriction.{IsNarrower, restrict_iff_IsNarrower}
use bastet_workstation.Approval.{
  ApprovalAction, CredentialGrantBinding, ApprovalError, is_high, is_single_run, is_exactly,
  check_binding, check_key, required_keys, restrict_within, validate_action, invalid_policy_layer,
  persistent_high_risk, credential_use_binding_required, policy,
}

-- What a credential grant may be bound to: the action is `credential.use`, for one run and one role,
-- it names exactly the bound credential, asks for its use at high risk, and is not persistent.
pub record IsGrant (a : ApprovalAction) (b : CredentialGrantBinding) : Type 0 where
  pub action_key : a.action_key ≡ "credential.use"
  pub capability_key : b.capability_key ≡ "provider.authenticate"
  pub for_run : is_some a.scope.run_id ≡ true
  pub for_role : is_some a.role_id ≡ true
  pub one_credential : a.scope.credential_reference_ids ≡ b.credential_reference_id ∷ []
  pub use_permission : a.requested_policy.ceiling.credential ≡ use_level
  pub high_risk : is_high a.risk ≡ true
  pub one_time : a.requested_policy.ceiling.persistent_approval ≡ false

abbrev pub HasGrant : ApprovalAction → Option CredentialGrantBinding → Type 0
HasGrant a none = str_eq a.action_key "credential.use" ≡ false
HasGrant a (some b) = IsGrant a b

pub record IsPermitted (a : ApprovalAction) (parent : ScopedPolicy) : Type 0 where
  pub action_named : is_blank a.action_key ≡ false
  pub reason_named : is_blank a.reason_key ≡ false
  pub consequence_named : is_blank a.consequence_key ≡ false
  pub one_run : is_single_run a.requested_policy.layer ≡ true
  pub narrower : IsNarrower a.requested_policy parent
  pub guarded : (is_high a.risk && a.requested_policy.ceiling.persistent_approval) ≡ false
  pub grant : HasGrant a a.scope.credential_binding

is_exactly-eq : (xs : List ℕ) (x : ℕ) → is_exactly xs x ≡ true → xs ≡ x ∷ []
is_exactly-eq xs x h = ground arith

check_binding-IsGrant :
    (a : ApprovalAction) (b : CredentialGrantBinding)
    → check_binding a (some b) ≡ ok tt
    → IsGrant a b
unfolding check_binding
check_binding-IsGrant a b h =
    let capability = eq_iff b.capability_key "provider.authenticate" in
    let key = eq_iff a.action_key "credential.use" in
    record {
      action_key = ground arith;
      capability_key = ground arith;
      for_run = ground arith;
      for_role = ground arith;
      one_credential = is_exactly-eq _ _ (ground arith);
      use_permission = ground arith;
      high_risk = ground arith;
      one_time = ground arith;
    }

IsGrant-check_binding :
    (a : ApprovalAction) (b : CredentialGrantBinding)
    → is_blank "provider.authenticate" ≡ false
    → IsGrant a b
    → check_binding a (some b) ≡ ok tt
unfolding check_binding
IsGrant-check_binding a b visible g =
    rw
      (
        g.action_key, g.capability_key, g.one_credential, g.use_permission, g.high_risk, g.one_time,
        visible,
      )
      (ground arith)

pub map_err-inv {ℓ ι κ} :
    {A : Type ℓ} {E : Type ι} {F : Type κ} (f : E → F) (r : Result A E) (a : A)
    → map_err f r ≡ ok a
    → r ≡ ok a
map_err-inv f (ok b) a h = ground arith
map_err-inv f (err e) a h = cc h

grant-HasGrant :
    (a : ApprovalAction) (g : Option CredentialGrantBinding)
    → (str_eq a.action_key "credential.use" && is_none g) ≡ false
    → check_binding a g ≡ ok tt
    → HasGrant a g
grant-HasGrant a none h k = ground arith
grant-HasGrant a (some b) h k = check_binding-IsGrant a b k

HasGrant-grant :
    (a : ApprovalAction) (g : Option CredentialGrantBinding)
    → HasGrant a g
    → ((str_eq a.action_key "credential.use" && is_none g) ≡ false) × (check_binding a g ≡ ok tt)
unfolding check_binding
HasGrant-grant a none h = (ground arith, refl)
HasGrant-grant a (some b) h = (ground arith, IsGrant-check_binding a b (unfold is_blank in refl) h)

-- The parts of `validate_action`, in its order.
abbrev guard_risk : ApprovalAction → Result (Unit {0}) ApprovalError
guard_risk a =
    fail_if (is_high a.risk && a.requested_policy.ceiling.persistent_approval) persistent_high_risk

abbrev guard_key : ApprovalAction → Result (Unit {0}) ApprovalError
guard_key a =
    fail_if (str_eq a.action_key "credential.use" && is_none a.scope.credential_binding)
      credential_use_binding_required

abbrev after_policy : ApprovalAction → Result (Unit {0}) ApprovalError
after_policy a = guard_risk a >> (guard_key a >> check_binding a a.scope.credential_binding)

pub validate_action-IsPermitted :
    (a : ApprovalAction) (parent : ScopedPolicy)
    → validate_action a parent ≡ ok tt
    → IsPermitted a parent
unfolding validate_action
validate_action-IsPermitted a parent h =
    let requested = restrict_within parent a.requested_policy in
    let single = fail_if (not (is_single_run a.requested_policy.layer)) invalid_policy_layer in
    let keys = for_each check_key (required_keys a) in
    let (named, rest) = >>-eq-ok keys (single >> (requested >>= λ granted. after_policy a)) h in
    let (one, rest) = >>-eq-ok single (requested >>= λ granted. after_policy a) rest in
    let (granted, (rest, within)) = >>=-inv requested (λ granted. after_policy a) tt rest in
    let (risk, rest) =
      >>-eq-ok (guard_risk a) (guard_key a >> check_binding a a.scope.credential_binding) rest in
    let (key, grant) = >>-eq-ok (guard_key a) (check_binding a a.scope.credential_binding) rest in
    let (first, (second, (third, over))) = for_each-All check_key (required_keys a) named in
    let narrower =
      (restrict_iff_IsNarrower parent a.requested_policy granted).0
        (map_err-inv policy _ granted within) in
    record {
      action_named = fail_if-ok _ _ first;
      reason_named = fail_if-ok _ _ second;
      consequence_named = fail_if-ok _ _ third;
      one_run = ground arith;
      narrower = narrower.1;
      guarded = fail_if-ok _ _ risk;
      grant = grant-HasGrant a a.scope.credential_binding (fail_if-ok _ _ key) grant;
    }

IsPermitted-validate_action :
    (a : ApprovalAction) (parent : ScopedPolicy)
    → IsPermitted a parent
    → validate_action a parent ≡ ok tt
unfolding validate_action for_each
IsPermitted-validate_action a parent p =
    let (key, grant) = HasGrant-grant a a.scope.credential_binding p.grant in
    let within =
      (restrict_iff_IsNarrower parent a.requested_policy a.requested_policy).1 (refl, p.narrower) in
    rw (p.action_named, p.reason_named, p.consequence_named, p.one_run, within, p.guarded, key)
      grant

-- An action is permitted under a parent policy exactly when its three keys have a visible character;
-- it asks for a policy of a single run that is narrower than the parent; it is not both risky (high or
-- critical) and persistent; and either its key is not `credential.use` and it binds no credential, or
-- it is, and binds one that it names alone, for the use of that credential, in one run and role, with
-- the capability `provider.authenticate`, at high or critical risk, and not persistently.
pub validate_action_iff_IsPermitted :
    (a : ApprovalAction) (parent : ScopedPolicy)
    → validate_action a parent ≡ ok tt ↔ IsPermitted a parent
validate_action_iff_IsPermitted a parent =
    (validate_action-IsPermitted a parent, IsPermitted-validate_action a parent)
