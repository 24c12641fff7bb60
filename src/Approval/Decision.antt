-- ===== src/Approval/Decision.antt =====
-- Which decisions answer which approval requests.
use bastet_workstation.Common.{
  ℕ, ◌≡◌, ◌≢◌, err, str_eq, Bool-cases, inl, inr, refl, sym, ap, subst, ◌∙◌, ◌↔◌, ◌≤◌, ◌<◌, String,
  false, List, arith, ok, leb, ◌>>◌, fail_if, >>-eq-ok, is_blank, eq_iff,
}
use bastet_workstation.Identity.{ApprovalRequestId}
use bastet_workstation.Policy.{ScopedPolicy}
use bastet_workstation.Approval.{
  ApprovalAction, ApprovalRequest, ApprovalDecision, ApprovalDecisionKind, validate_action,
  invalid_expiry, hash_mismatch,
}
use bastet_workstation.Approval.Hash.{HashInput, canonical_hash}
use bastet_workstation.Approval.Digest.{AreBytes, hex-eq}
use bastet_workstation.Approval.Request.{verify_decision, create_request, validate_unchanged}

-- The decision has an actor, names the request and its hash, and was made in its interval.
pub record Answers (r : ApprovalRequest) (d : ApprovalDecision) : Type 0 where
  pub named : is_blank d.actor ≡ false
  pub same_id : d.request_id ≡ r.id
  pub same_hash : d.request_hash ≡ r.request_hash
  pub not_before : r.created_at_ms ≤ d.decided_at_ms
  pub before_expiry : d.decided_at_ms < r.expires_at_ms

verify_decision-Answers :
    (r : ApprovalRequest) (d : ApprovalDecision) → verify_decision r d ≡ ok tt → Answers r d
unfolding verify_decision
verify_decision-Answers r d h = record {
  named = ground arith;
  same_id = ground arith;
  same_hash = ground (arith, eq_iff d.request_hash r.request_hash);
  not_before = ground arith;
  before_expiry = ground arith;
}

Answers-verify_decision :
    (r : ApprovalRequest) (d : ApprovalDecision) → Answers r d → verify_decision r d ≡ ok tt
unfolding verify_decision
Answers-verify_decision r d a =
    let named = a.named in
    let same_id = a.same_id in
    let same_hash = (eq_iff d.request_hash r.request_hash).1 a.same_hash in
    let early = a.not_before in let late = a.before_expiry in ground arith

-- A decision is accepted for a request exactly when it has an actor that is not blank, names the
-- request's id and hash, and was made at or after the creation and before the expiry.
pub verify_decision_iff_Answers :
    (r : ApprovalRequest) (d : ApprovalDecision) → verify_decision r d ≡ ok tt ↔ Answers r d
verify_decision_iff_Answers r d = (verify_decision-Answers r d, Answers-verify_decision r d)

module _ (to_vec : HashInput → List ℕ) (sha256 : List ℕ → List ℕ) where
  abbrev hash_of : ApprovalRequest → String
  hash_of r = canonical_hash to_vec sha256 r.id r.created_at_ms r.expires_at_ms r.action

  validate_unchanged-eq :
      (r : ApprovalRequest)
      → validate_unchanged to_vec sha256 r ≡ ok tt ↔ (hash_of r ≡ r.request_hash)
  unfolding validate_unchanged
  validate_unchanged-eq r =
      let read = eq_iff (hash_of r) r.request_hash in
      (λ h. ground (arith, read), λ e. rw (read.1 e))

  created : ApprovalRequestId → ℕ → ℕ → ApprovalAction → ApprovalRequest
  created id created_at_ms expires_at_ms action = record {
    id = id;
    request_hash = canonical_hash to_vec sha256 id created_at_ms expires_at_ms action;
    created_at_ms = created_at_ms;
    expires_at_ms = expires_at_ms;
    action = action;
  }

  create_request_inv :
      (id : ApprovalRequestId) (created_at_ms expires_at_ms : ℕ) (action : ApprovalAction)
      (parent : ScopedPolicy) (r : ApprovalRequest)
      → create_request to_vec sha256 id created_at_ms expires_at_ms action parent ≡ ok r
      → (validate_action action parent ≡ ok tt)
        × (created_at_ms < expires_at_ms)
        × (created id created_at_ms expires_at_ms action ≡ r)
  unfolding create_request created
  create_request_inv id created_at_ms expires_at_ms action parent r h =
      let order = fail_if (leb expires_at_ms created_at_ms) invalid_expiry in
      let fresh = created id created_at_ms expires_at_ms action in
      let (permitted, rest) = >>-eq-ok (validate_action action parent) (order >> ok fresh) h in
      let (later, result) = >>-eq-ok order (ok fresh) rest in
      (permitted, ground arith, ground arith)

  -- What the hash of a request is of.
  abbrev pub contents : ApprovalRequest → HashInput
  contents r = record {
    schema = "bastet.approval-request.v1";
    id = r.id;
    created_at_ms = r.created_at_ms;
    expires_at_ms = r.expires_at_ms;
    action = r.action;
  }

  hash_of-eq :
      (r q : ApprovalRequest)
      → ((bytes : List ℕ) → AreBytes (sha256 bytes))
      → hash_of r ≡ hash_of q
      → sha256 (to_vec (contents r)) ≡ sha256 (to_vec (contents q))
  unfolding canonical_hash
  hash_of-eq r q bytes e =
      hex-eq (sha256 (to_vec (contents r))) (sha256 (to_vec (contents q))) (bytes _) (bytes _) e

  -- With a digest of bytes, a decision that is accepted for an unchanged request is refused, with
  -- `HashMismatch`, for any other unchanged request whose contents, the id, the two times and the action,
  -- have another digest, also under the same id.
  pub verify_decision_refuses_other :
      (r q : ApprovalRequest) (d : ApprovalDecision)
      → ((bytes : List ℕ) → AreBytes (sha256 bytes))
      → validate_unchanged to_vec sha256 r ≡ ok tt
      → validate_unchanged to_vec sha256 q ≡ ok tt
      → sha256 (to_vec (contents r)) ≢ sha256 (to_vec (contents q))
      → verify_decision r d ≡ ok tt
      → verify_decision q d ≡ err hash_mismatch
  unfolding verify_decision
  verify_decision_refuses_other r q d bytes kept_r kept_q differ accepted =
      let a = verify_decision-Answers r d accepted in
      let named = a.named in
      elim (Bool-cases (str_eq d.request_hash q.request_hash)) [
        | inl e ↦
            let for_q : d.request_hash ≡ q.request_hash =
              (eq_iff d.request_hash q.request_hash).0 e in
            absurd (
              differ (
                hash_of-eq r q bytes (
                  (validate_unchanged-eq r).0 kept_r
                  ∙ sym a.same_hash
                  ∙ for_q
                  ∙ sym ((validate_unchanged-eq q).0 kept_q))))
        | inr e ↦ ground arith
      ]

  -- A request that was created is unchanged, its action is permitted under the parent policy, and any
  -- decision on it that names an actor and falls in its interval is accepted.
  pub create_request-verify_decision :
      (id : ApprovalRequestId) (created_at_ms expires_at_ms : ℕ) (action : ApprovalAction)
      (parent : ScopedPolicy) (r : ApprovalRequest) (kind : ApprovalDecisionKind) (now : ℕ)
      (actor : String)
      → create_request to_vec sha256 id created_at_ms expires_at_ms action parent ≡ ok r
      → is_blank actor ≡ false
      → created_at_ms ≤ now
      → now < expires_at_ms
      → (validate_unchanged to_vec sha256 r ≡ ok tt)
        × (validate_action r.action parent ≡ ok tt)
        × (r.created_at_ms < r.expires_at_ms)
        × (verify_decision r (record {
          request_id = id;
          request_hash = r.request_hash;
          kind = kind;
          decided_at_ms = now;
          actor = actor;
        })
            ≡ ok tt)
  unfolding created
  create_request-verify_decision id created_at_ms expires_at_ms action parent r kind now actor h
        named early late =
      let (permitted, later, result) =
        create_request_inv id created_at_ms expires_at_ms action parent r h in
      (
        (validate_unchanged-eq r).1
            (subst (λ (z : ApprovalRequest). hash_of z ≡ z.request_hash) result refl),
        subst (λ (z : ApprovalRequest). validate_action z.action parent ≡ ok tt) result permitted,
        subst (λ (z : ApprovalRequest). z.created_at_ms < z.expires_at_ms) result later,
        Answers-verify_decision r _ (record {
          named = named;
          same_id = ap (λ (z : ApprovalRequest). z.id) result;
          same_hash = refl;
          not_before = subst (λ (z : ApprovalRequest). z.created_at_ms ≤ now) result early;
          before_expiry = subst (λ (z : ApprovalRequest). now < z.expires_at_ms) result late;
        }),
      )
