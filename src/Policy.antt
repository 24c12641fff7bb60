-- ===== src/Policy.antt =====
-- The scoped policies of crates/bastet-core/src/policy.rs: a narrower layer never gets more than the
-- wider one around it.
pub mod Restriction
use bastet_workstation.Common.{
  ℕ, String, Bool, true, false, not, ◌&&◌, List, [], ◌∷◌, Result, ok, err, ◌>>=◌, ◌>>◌, fail_if,
  leb, ltb, for_each,
}

pub data PermissionLevel : Type 0 where
  deny observe use_level : PermissionLevel

pub record PolicyCeiling : Type 0 where
  pub filesystem : PermissionLevel
  pub network : PermissionLevel
  pub process : PermissionLevel
  pub device : PermissionLevel
  pub credential : PermissionLevel
  pub persistent_approval : Bool

pub data PolicyLayer : Type 0 where
  workstation project role_or_agent single_run : PolicyLayer

pub data PolicyError : Type 0 where
  exceeds_parent : String → PolicyError
  invalid_layer_order : PolicyError

pub record ScopedPolicy : Type 0 where
  pub layer : PolicyLayer
  pub ceiling : PolicyCeiling

-- The derived order of an enum is that of its variants.
abbrev pub level_rank : PermissionLevel → ℕ
level_rank deny = 0
level_rank observe = 1
level_rank use_level = 2

abbrev pub layer_rank : PolicyLayer → ℕ
layer_rank workstation = 0
layer_rank project = 1
layer_rank role_or_agent = 2
layer_rank single_run = 3

-- A row of the array that `restrict` loops over.
pub record Field : Type 0 where
  pub name : String
  pub parent : PermissionLevel
  pub requested : PermissionLevel

abbrev pub fields : PolicyCeiling → PolicyCeiling → List Field
fields p c =
    record { name = "filesystem"; parent = p.filesystem; requested = c.filesystem }
    ∷ record { name = "network"; parent = p.network; requested = c.network }
    ∷ record { name = "process"; parent = p.process; requested = c.process }
    ∷ record { name = "device"; parent = p.device; requested = c.device }
    ∷ record { name = "credential"; parent = p.credential; requested = c.credential }
    ∷ []

unfoldable pub check_field : Field → Result (Unit {0}) PolicyError
check_field f = fail_if (ltb (level_rank f.parent) (level_rank f.requested)) (exceeds_parent f.name)

-- `ScopedPolicy::restrict`
unfoldable pub restrict : ScopedPolicy → ScopedPolicy → Result ScopedPolicy PolicyError
unfolding check_field
restrict p c = do
  fail_if (leb (layer_rank c.layer) (layer_rank p.layer)) invalid_layer_order
  for_each check_field (fields p.ceiling c.ceiling)
  fail_if (c.ceiling.persistent_approval && not p.ceiling.persistent_approval)
      (exceeds_parent "persistent_approval")
  ok c

-- The policy that is left when each of `policies` restricts the one before it.
unfoldable pub restrict_all : ScopedPolicy → List ScopedPolicy → Result ScopedPolicy PolicyError
restrict_all p [] = ok p
restrict_all p (c ∷ cs) = restrict p c >>= λ next. restrict_all next cs
