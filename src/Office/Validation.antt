-- ===== src/Office/Validation.antt =====
-- `OfficeCatalog::validate` of crates/bastet-core/src/office.rs.
use bastet_workstation.Common.{
  ℕ, each_once, String, Bool, not, ◌&&◌, ◌||◌, List, [], ◌∷◌, map, any, Result, ok, ◌>>=◌, ◌>>◌,
  fail_if, for_each, is_blank, str_eq, ◌==◌,
}
use bastet_workstation.Catalog.{IdentityCatalog, project_key, role_key, agent_key}
use bastet_workstation.Catalog.Validation.{has_key}
use bastet_workstation.Office.{
  OfficeCatalog, PetProfile, PetStateAsset, PetAssignment, Room, OfficeError, duplicate_id,
  empty_field, invalid_version, invalid_capacity, missing_pet_state, duplicate_pet_state,
  missing_pet_profile, missing_identity_reference, missing_project, duplicate_role_assignment,
  required_pet_states, profile_key, assignment_key, room_key,
}

-- `unique`
abbrev pub unique_ids : String → List ℕ → Result (Unit {0}) OfficeError
unique_ids entity ids = each_once (duplicate_id entity) [] ids

-- `nonempty`
abbrev pub filled : String → String → String → Result (Unit {0}) OfficeError
filled entity field value = fail_if (is_blank value) (empty_field entity field)

-- A `HashSet<&str>` as a list.
abbrev pub has_state : List String → String → Bool
has_state states key = any (str_eq key) states

unfoldable pub check_state : PetStateAsset → Result (Unit {0}) OfficeError
check_state s = do
  filled "PetStateAsset" "state_key" s.state_key
  filled "PetStateAsset" "asset_ref" s.asset_ref
  filled "PetStateAsset" "accessible_label_key" s.accessible_label_key

-- The loop over `profile.states`, which collects the set `states`.
unfoldable pub collect_states : List String → List PetStateAsset → Result (List String) OfficeError
collect_states states [] = ok states
collect_states states (s ∷ rest) =
    let others = collect_states (s.state_key ∷ states) rest in
    do
      check_state s
      fail_if (has_state states s.state_key) (duplicate_pet_state s.state_key)
      others

abbrev pub check_required : List String → String → Result (Unit {0}) OfficeError
check_required states key = fail_if (not (has_state states key)) (missing_pet_state key)

unfoldable pub check_profile : PetProfile → Result (Unit {0}) OfficeError
check_profile profile = do
  filled "PetProfile" "name" profile.name
  fail_if (profile.version == 0) invalid_version
  states ← collect_states [] profile.states
  for_each (check_required states) required_pet_states

-- `assigned_roles.contains(&(project_id, role_id))`
abbrev pub has_slot : List PetAssignment → PetAssignment → Bool
has_slot assigned a = any (λ b. b.project_id == a.project_id && b.role_id == a.role_id) assigned

unfoldable pub check_assignment :
    OfficeCatalog → IdentityCatalog → PetAssignment → Result (Unit {0}) OfficeError
check_assignment office identity a = do
  fail_if (not (has_key profile_key office.pet_profiles a.pet_profile_id)) missing_pet_profile
  fail_if
      (not (has_key project_key identity.projects a.project_id)
        || not (has_key role_key identity.roles a.role_id)
        || not (has_key agent_key identity.agent_instances a.agent_instance_id))
      missing_identity_reference

-- The loop over `pet_assignments`, with those that `assigned_roles` has the slots of.
unfoldable pub check_assignments :
    OfficeCatalog
    → IdentityCatalog
    → List PetAssignment
    → List PetAssignment
    → Result (Unit {0}) OfficeError
check_assignments office identity assigned [] = ok tt
check_assignments office identity assigned (a ∷ rest) =
    let others = check_assignments office identity (a ∷ assigned) rest in
    do
      check_assignment office identity a
      fail_if (has_slot assigned a) duplicate_role_assignment
      others

unfoldable pub check_room : IdentityCatalog → Room → Result (Unit {0}) OfficeError
check_room identity room = do
  filled "Room" "name" room.name
  fail_if (room.capacity == 0) invalid_capacity
  fail_if (not (has_key project_key identity.projects room.project_id)) missing_project

-- `OfficeCatalog::validate`
unfoldable pub validate_office : OfficeCatalog → IdentityCatalog → Result (Unit {0}) OfficeError
validate_office office identity = do
  unique_ids "PetProfile" (map profile_key office.pet_profiles)
  unique_ids "PetAssignment" (map assignment_key office.pet_assignments)
  unique_ids "Room" (map room_key office.rooms)
  for_each check_profile office.pet_profiles
  check_assignments office identity [] office.pet_assignments
  for_each (check_room identity) office.rooms
