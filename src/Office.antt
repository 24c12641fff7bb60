-- ===== src/Office.antt =====
-- The office of crates/bastet-core/src/office.rs: pets, who they stand for, and rooms.
pub mod Validation
pub mod Proper
use bastet_workstation.Common.{ℕ, String, List, [], ◌∷◌}
use bastet_workstation.Identity.{
  EntityMetadata, PetProfileId, PetAssignmentId, RoomId, ProjectId, RoleId, AgentInstanceId,
}

pub record PetStateAsset : Type 0 where
  pub state_key : String
  pub asset_ref : String
  pub accessible_label_key : String

pub record PetProfile : Type 0 where
  pub metadata : EntityMetadata PetProfileId
  pub name : String
  pub version : ℕ  -- u32
  pub states : List PetStateAsset

pub record PetAssignment : Type 0 where
  pub metadata : EntityMetadata PetAssignmentId
  pub project_id : ProjectId
  pub role_id : RoleId
  pub agent_instance_id : AgentInstanceId
  pub pet_profile_id : PetProfileId

pub record Room : Type 0 where
  pub metadata : EntityMetadata RoomId
  pub project_id : ProjectId
  pub name : String
  pub capacity : ℕ  -- u16

pub record OfficeCatalog : Type 0 where
  pub pet_profiles : List PetProfile
  pub pet_assignments : List PetAssignment
  pub rooms : List Room

pub data OfficeError : Type 0 where
  duplicate_id : String → ℕ → OfficeError
  empty_field : String → String → OfficeError
  invalid_version invalid_capacity : OfficeError
  missing_pet_state duplicate_pet_state : String → OfficeError
  missing_pet_profile missing_identity_reference missing_project : OfficeError
  duplicate_role_assignment : OfficeError

abbrev pub required_pet_states : List String
required_pet_states =
    "idle" ∷ "thinking" ∷ "working" ∷ "waiting" ∷ "blocked" ∷ "approval_required" ∷ "succeeded"
    ∷ "failed" ∷ []

abbrev pub profile_key : PetProfile → ℕ
profile_key x = x.metadata.id

abbrev pub assignment_key : PetAssignment → ℕ
assignment_key x = x.metadata.id

abbrev pub room_key : Room → ℕ
room_key x = x.metadata.id
