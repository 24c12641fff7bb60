-- ===== src/Policy/Restriction.antt =====
-- `restrict` grants a policy exactly when it is narrower, and a chain of restrictions only narrows.
use bastet_workstation.Common.{
  ◌≡◌, true, false, not, ◌≤◌, ◌<◌, ◌+◌, ◌↔◌, ◌⊎◌, inl, inr, List, [], ◌∷◌, length, arith, Result,
  ok, for_each, for_each-All, All-for_each, ◌>>◌, >>-eq-ok, fail_if, leb, ◌&&◌, subst, sym, >>=-inv,
}
use bastet_workstation.Policy.{
  PolicyCeiling, ScopedPolicy, Field, exceeds_parent, invalid_layer_order, PolicyError, level_rank,
  layer_rank, check_field, restrict, fields, restrict_all,
}

-- No level of `c` is above that of `p`, and `c` has persistent approval only if `p` has.
pub record IsWithin (c p : PolicyCeiling) : Type 0 where
  pub filesystem : level_rank c.filesystem ≤ level_rank p.filesystem
  pub network : level_rank c.network ≤ level_rank p.network
  pub process : level_rank c.process ≤ level_rank p.process
  pub device : level_rank c.device ≤ level_rank p.device
  pub credential : level_rank c.credential ≤ level_rank p.credential
  pub persistent_approval : (c.persistent_approval ≡ false) ⊎ (p.persistent_approval ≡ true)

-- `c` belongs to a narrower layer and stays within the ceiling of `p`.
abbrev pub IsNarrower : ScopedPolicy → ScopedPolicy → Type 0
IsNarrower c p = (layer_rank p.layer < layer_rank c.layer) × IsWithin c.ceiling p.ceiling

check_field-le : (f : Field) → check_field f ≡ ok tt → level_rank f.requested ≤ level_rank f.parent
unfolding check_field
check_field-le f h = ground arith

le-check_field : (f : Field) → level_rank f.requested ≤ level_rank f.parent → check_field f ≡ ok tt
unfolding check_field
le-check_field f h = ground arith

-- What the last test and the result are, behind the loop.
persistence : ScopedPolicy → ScopedPolicy → Result (Unit {0}) PolicyError
persistence p c =
    fail_if (c.ceiling.persistent_approval && not p.ceiling.persistent_approval)
      (exceeds_parent "persistent_approval")

restrict-IsNarrower : (p c d : ScopedPolicy) → restrict p c ≡ ok d → (d ≡ c) × IsNarrower c p
unfolding restrict persistence
restrict-IsNarrower p c d h =
    let order = fail_if (leb (layer_rank c.layer) (layer_rank p.layer)) invalid_layer_order in
    let loop = for_each check_field (fields p.ceiling c.ceiling) in
    let (later, rest) = >>-eq-ok order (loop >> (persistence p c >> ok c)) h in
    let (inside, last) = >>-eq-ok loop (persistence p c >> ok c) rest in
    let (kept, same) = >>-eq-ok (persistence p c) (ok c) last in
    let (a, (b, (u, (v, (w, t))))) = for_each-All check_field (fields p.ceiling c.ceiling) inside in
    (
      ground arith,
      (
        ground arith,
        record {
          filesystem = check_field-le _ a;
          network = check_field-le _ b;
          process = check_field-le _ u;
          device = check_field-le _ v;
          credential = check_field-le _ w;
          persistent_approval = ground arith;
        },
      ),
    )

IsNarrower-restrict : (p c : ScopedPolicy) → IsNarrower c p → restrict p c ≡ ok c
unfolding restrict
IsNarrower-restrict p c (later, w) =
    let inside = All-for_each check_field (fields p.ceiling c.ceiling) (
      le-check_field _ w.filesystem,
      (
        le-check_field _ w.network,
        (
          le-check_field _ w.process,
          (le-check_field _ w.device, (le-check_field _ w.credential, tt)),
        ),
      ),
    ) in
    let order : leb (layer_rank c.layer) (layer_rank p.layer) ≡ false = ground arith in
    let kept : (c.ceiling.persistent_approval && not p.ceiling.persistent_approval) ≡ false =
      elim w.persistent_approval [ inl e ↦ rw e | inr e ↦ ground arith ] in
    rw (order, inside, kept)

-- `restrict` grants a policy exactly when its layer is narrower, none of its levels is above the
-- parent's, and it has persistent approval only if the parent has; what it grants is that policy.
pub restrict_iff_IsNarrower :
    (p c d : ScopedPolicy) → restrict p c ≡ ok d ↔ (d ≡ c) × IsNarrower c p
restrict_iff_IsNarrower p c d = (
  restrict-IsNarrower p c d,
  λ (same, narrower).
      subst (λ (z : ScopedPolicy). restrict p c ≡ ok z) (sym same)
        (IsNarrower-restrict p c narrower),
)

IsWithin-refl : (p : PolicyCeiling) → IsWithin p p
IsWithin-refl p = record {
  filesystem = omega arith;
  network = omega arith;
  process = omega arith;
  device = omega arith;
  credential = omega arith;
  persistent_approval = ground arith;
}

IsWithin-trans : (a b c : PolicyCeiling) → IsWithin a b → IsWithin b c → IsWithin a c
IsWithin-trans a b c p q = record {
  filesystem = omega (arith, p.filesystem, q.filesystem);
  network = omega (arith, p.network, q.network);
  process = omega (arith, p.process, q.process);
  device = omega (arith, p.device, q.device);
  credential = omega (arith, p.credential, q.credential);
  persistent_approval = elim p.persistent_approval [
    | inl e ↦ inl e
    | inr e ↦ elim q.persistent_approval [ inl k ↦ absurd (cc (e, k)) | inr k ↦ inr k ]
  ];
}

-- When each policy of a list restricts the one before it, the last is within the ceiling of the
-- first, and every restriction is a layer deeper; so there are at most three.
pub restrict_all-IsWithin :
    (p : ScopedPolicy) (cs : List ScopedPolicy) (d : ScopedPolicy)
    → restrict_all p cs ≡ ok d
    → IsWithin d.ceiling p.ceiling
      × (layer_rank p.layer + length cs ≤ layer_rank d.layer)
      × (length cs ≤ 3)
unfolding restrict_all
restrict_all-IsWithin p [] d h =
    let same : p ≡ d = ground arith in
    (
      subst (λ (z : ScopedPolicy). IsWithin z.ceiling p.ceiling) same (IsWithin-refl p.ceiling),
      ground arith,
      omega arith,
    )
restrict_all-IsWithin p (c ∷ cs) d h =
    let (e, (rest, first)) = >>=-inv (restrict p c) (λ next. restrict_all next cs) d h in
    let (same, (later, inside)) = restrict-IsNarrower p c e first in
    let (within, deep, few) = restrict_all-IsWithin e cs d rest in
    let at_c : IsWithin d.ceiling c.ceiling =
      subst (λ (z : ScopedPolicy). IsWithin d.ceiling z.ceiling) same within in
    (IsWithin-trans d.ceiling c.ceiling p.ceiling at_c inside, ground arith, ground arith)
