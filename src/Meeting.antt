-- ===== src/Meeting.antt =====
-- Project meetings and the decision baselines that a person accepts:
-- crates/bastet-core/src/meeting.rs. `digest` stands for the hexadecimal SHA-256 of the `sha2` crate.
pub mod Accepted
pub mod Baseline
use Prim.Native.String.{◌++◌}
use bastet_workstation.Common.{
  ℕ, zero, suc, ◌+◌, String, Bool, true, false, not, ◌&&◌, ◌||◌, Option, List, [], ◌∷◌, map, length,
  any, is_empty, find_by, contains, insert, collect, Result, ok, err, ◌>>=◌, ◌>>◌, fail_if, ok_or,
  for_each, is_blank, leb, ltb, str_eq, ◌==◌, if◌then◌else◌,
}
use bastet_workstation.Identity.{
  EntityMetadata, MeetingId, ProjectId, RoomId, RoleId, DecisionBaselineId,
}
use bastet_workstation.Catalog.{IdentityCatalog}
use bastet_workstation.Office.{OfficeCatalog}

abbrev pub max_meeting_rounds : ℕ
max_meeting_rounds = 5

abbrev pub max_meeting_participants : ℕ
max_meeting_participants = 12

pub data MeetingState : Type 0 where
  draft in_progress awaiting_decision accepted : MeetingState

pub record MeetingRound : Type 0 where
  pub index : ℕ  -- u8
  pub summary : String

pub record ProjectMeeting : Type 0 where
  pub metadata : EntityMetadata MeetingId
  pub project_id : ProjectId
  pub room_id : RoomId
  pub participant_role_ids : List RoleId
  pub max_rounds : ℕ  -- u8
  pub rounds : List MeetingRound
  pub state : MeetingState

pub record DecisionBaseline : Type 0 where
  pub metadata : EntityMetadata DecisionBaselineId
  pub meeting_id : MeetingId
  pub content : String
  pub content_hash : String
  pub accepted_by : String
  pub accepted_at : String

pub record MeetingCatalog : Type 0 where
  pub meetings : List ProjectMeeting
  pub decision_baselines : List DecisionBaseline

pub data MeetingError : Type 0 where
  invalid_room invalid_participants invalid_round_limit invalid_rounds : MeetingError
  missing_meeting meeting_not_awaiting_decision missing_acceptance : MeetingError
  hash_mismatch duplicate_baseline : MeetingError

abbrev pub meeting_key : ProjectMeeting → ℕ
meeting_key x = x.metadata.id

-- `u8::try_from(n).unwrap_or(u8::MAX)`
abbrev pub round_number : ℕ → ℕ
round_number n = if leb n 255 then n else 255

-- `rounds.iter().enumerate().any(..)`, counted from `at`
abbrev pub has_bad_round : ℕ → List MeetingRound → Bool
has_bad_round at [] = false
has_bad_round at (r ∷ rs) =
    (not (r.index == round_number (at + 1)) || is_blank r.summary) || has_bad_round (suc at) rs

-- The body of the first loop of `validate`.
unfoldable pub check_meeting :
    IdentityCatalog → OfficeCatalog → ProjectMeeting → Result (Unit {0}) MeetingError
check_meeting identity office x = do
  fail_if
      (not (
        any (λ room. room.metadata.id == x.room_id && room.project_id == x.project_id)
          office.rooms))
      invalid_room
  fail_if
      (is_empty x.participant_role_ids
        || ltb max_meeting_participants (length x.participant_role_ids)
        || not (length (collect x.participant_role_ids) == length x.participant_role_ids)
        || any (λ id. not (any (λ role. role.metadata.id == id) identity.roles))
            x.participant_role_ids)
      invalid_participants
  fail_if (x.max_rounds == 0 || ltb max_meeting_rounds x.max_rounds) invalid_round_limit
  fail_if (ltb x.max_rounds (length x.rounds) || has_bad_round 0 x.rounds) invalid_rounds

abbrev pub is_decidable : MeetingState → Bool
is_decidable awaiting_decision = true
is_decidable accepted = true
is_decidable _ = false

module _ (digest : String → String) where
  unfoldable pub hash_content : String → String
  hash_content content = "sha256:" ++ digest content

  -- `DecisionBaseline::create`
  unfoldable pub create_baseline :
      EntityMetadata DecisionBaselineId
      → MeetingId
      → String
      → String
      → String
      → Result DecisionBaseline MeetingError
  create_baseline metadata meeting_id content accepted_by accepted_at = do
    fail_if (is_blank content || is_blank accepted_by || is_blank accepted_at) missing_acceptance
    ok (record {
      metadata = metadata;
      meeting_id = meeting_id;
      content = content;
      content_hash = hash_content content;
      accepted_by = accepted_by;
      accepted_at = accepted_at;
    })

  -- `DecisionBaseline::validate_unchanged`
  unfoldable pub check_baseline : DecisionBaseline → Result (Unit {0}) MeetingError
  check_baseline b = do
    fail_if (is_blank b.content || is_blank b.accepted_by || is_blank b.accepted_at)
        missing_acceptance
    fail_if (not (str_eq b.content_hash (hash_content b.content))) hash_mismatch

  -- The second loop of `validate`, with the set `baseline_meetings`.
  unfoldable pub check_baselines :
      List ProjectMeeting → List ℕ → List DecisionBaseline → Result (Unit {0}) MeetingError
  check_baselines meetings seen [] = ok tt
  check_baselines meetings seen (b ∷ bs) = do
    check_baseline b
    meeting ← ok_or (find_by meeting_key b.meeting_id meetings) missing_meeting
    fail_if (not (is_decidable meeting.state)) meeting_not_awaiting_decision
    fail_if (contains seen b.meeting_id) duplicate_baseline
    check_baselines meetings (insert b.meeting_id seen) bs

  -- `MeetingCatalog::validate`
  unfoldable pub validate_meetings :
      MeetingCatalog → IdentityCatalog → OfficeCatalog → Result (Unit {0}) MeetingError
  validate_meetings c identity office = do
    for_each (check_meeting identity office) c.meetings
    check_baselines c.meetings [] c.decision_baselines
