-- ===== src/Tests/Policy.antt =====
-- The theorems on policies at a project, a role and a single run.
use bastet_workstation.Common.{
  ◌≡◌, refl, ◌↔◌, ◌≤◌, ◌+◌, Bool, true, false, [], ◌∷◌, length, ok, for_each,
}
use bastet_workstation.Policy.{
  ScopedPolicy, PolicyLayer, PermissionLevel, project, role_or_agent, single_run, observe,
  use_level, layer_rank, restrict, restrict_all, check_field,
}
use bastet_workstation.Policy.Restriction.{
  IsNarrower, IsWithin, restrict_iff_IsNarrower, restrict_all-IsWithin,
}

abbrev at_level : PolicyLayer → PermissionLevel → Bool → ScopedPolicy
at_level layer level persistent = record {
  layer = layer;
  ceiling = record {
    filesystem = level;
    network = level;
    process = level;
    device = level;
    credential = level;
    persistent_approval = persistent;
  };
}

abbrev of_project : ScopedPolicy
of_project = at_level project use_level true

abbrev of_role : ScopedPolicy
of_role = at_level role_or_agent observe true

abbrev of_run : ScopedPolicy
of_run = at_level single_run observe false

restrict_iff_IsNarrower_example :
    restrict of_project of_run ≡ ok of_run ↔ (of_run ≡ of_run) × IsNarrower of_run of_project
restrict_iff_IsNarrower_example = restrict_iff_IsNarrower of_project of_run of_run

two_restrictions : restrict_all of_project (of_role ∷ of_run ∷ []) ≡ ok of_run
unfolding restrict_all restrict check_field for_each
two_restrictions = refl

restrict_all-IsWithin_example :
    IsWithin of_run.ceiling of_project.ceiling
    × (layer_rank of_project.layer + length (of_role ∷ of_run ∷ []) ≤ layer_rank of_run.layer)
    × (length (of_role ∷ of_run ∷ []) ≤ 3)
restrict_all-IsWithin_example =
    restrict_all-IsWithin of_project (of_role ∷ of_run ∷ []) of_run two_restrictions
