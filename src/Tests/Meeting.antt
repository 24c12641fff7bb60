-- ===== src/Tests/Meeting.antt =====
-- The theorem on meetings at one meeting with a round and a baseline.
use bastet_workstation.Common.{
  ℕ, ◌≡◌, refl, false, String, [], ◌∷◌, All, Distinct, map, ok, for_each, is_blank,
}
use bastet_workstation.Identity.{EntityMetadata, active}
use bastet_workstation.Policy.{role_or_agent, use_level}
use bastet_workstation.Catalog.{IdentityCatalog}
use bastet_workstation.Office.{OfficeCatalog}
use bastet_workstation.Meeting.{
  MeetingCatalog, DecisionBaseline, awaiting_decision, check_meeting, hash_content, check_baseline,
  check_baselines, validate_meetings,
}
use bastet_workstation.Meeting.Accepted.{
  IsProper, IsDecided, baseline_meeting, validate_meetings-IsProper,
}

abbrev plain_digest : String → String
plain_digest s = s

abbrev entity : ℕ → EntityMetadata ℕ
entity id = record {
  id = id;
  revision = 1;
  created_at = "2026";
  updated_at = "2026";
  provenance = record { source_kind = "test"; source_id = "1"; recorded_by = "user" };
  lifecycle = active;
}

abbrev one_role : IdentityCatalog
one_role = record {
  credential_references = [];
  agent_providers = [];
  model_providers = [];
  accounts = [];
  models = [];
  agent_instances = [];
  projects = [];
  roles =
      record {
        metadata = entity 5;
        name = "role";
        responsibilities = [];
        policy = record {
          layer = role_or_agent;
          ceiling = record {
            filesystem = use_level;
            network = use_level;
            process = use_level;
            device = use_level;
            credential = use_level;
            persistent_approval = false;
          };
        };
      }
      ∷ [];
  sessions = [];
  runs = [];
}

abbrev one_room : OfficeCatalog
one_room = record {
  pet_profiles = [];
  pet_assignments = [];
  rooms = record { metadata = entity 2; project_id = 6; name = "room"; capacity = 4 } ∷ [];
}

abbrev one_meeting : MeetingCatalog
one_meeting = record {
  meetings =
      record {
        metadata = entity 3;
        project_id = 6;
        room_id = 2;
        participant_role_ids = 5 ∷ [];
        max_rounds = 2;
        rounds = record { index = 1; summary = "first" } ∷ [];
        state = awaiting_decision;
      }
      ∷ [];
  decision_baselines =
      record {
        metadata = entity 4;
        meeting_id = 3;
        content = "go";
        content_hash = "sha256:go";
        accepted_by = "user";
        accepted_at = "2026";
      }
      ∷ [];
}

one_meeting_is_valid : validate_meetings plain_digest one_meeting one_role one_room ≡ ok tt
unfolding validate_meetings check_meeting check_baselines check_baseline hash_content for_each
    is_blank
one_meeting_is_valid = refl

validate_meetings-IsProper_example :
    All (IsProper one_role one_room) one_meeting.meetings
    × All (IsDecided plain_digest one_meeting.meetings) one_meeting.decision_baselines
    × Distinct (map baseline_meeting one_meeting.decision_baselines)
validate_meetings-IsProper_example =
    validate_meetings-IsProper plain_digest one_meeting one_role one_room one_meeting_is_valid

abbrev go_baseline : DecisionBaseline
go_baseline = record {
  metadata = entity 4;
  meeting_id = 3;
  content = "go";
  content_hash = "sha256:go";
  accepted_by = "user";
  accepted_at = "2026";
}
