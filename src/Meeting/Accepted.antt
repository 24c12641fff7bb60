-- ===== src/Meeting/Accepted.antt =====
-- What a meeting catalog that `validate_meetings` accepts is.
use bastet_workstation.Common.{
  ℕ, zero, suc, ◌+◌, ◌≤◌, ◌≡◌, refl, String, true, false, not, ◌&&◌, some, List, [], ◌∷◌, map,
  length, any, arith, find_by, contains, insert, contains-insert, length-collect-Distinct, Distinct,
  All, All-map, for_each, for_each-All, Result, ok, >>-eq-ok, ◌>>=◌, ◌>>◌, is_blank, eq_iff, ◌==◌,
  Bool-cases, Option-cases, inl, inr, ok_or, fail_if, is_empty,
}
use bastet_workstation.Catalog.{IdentityCatalog}
use bastet_workstation.Office.{OfficeCatalog}
use bastet_workstation.Meeting.{
  MeetingRound, ProjectMeeting, DecisionBaseline, MeetingCatalog, MeetingError, max_meeting_rounds,
  max_meeting_participants, meeting_key, has_bad_round, check_meeting, is_decidable, hash_content,
  check_baseline, check_baselines, validate_meetings, missing_meeting,
  meeting_not_awaiting_decision, duplicate_baseline,
}

-- The numbers `first`, `first + 1`, and so on.
abbrev pub numbers : ℕ → ℕ → List ℕ
numbers first zero = []
numbers first (suc n) = first ∷ numbers (suc first) n

abbrev pub round_index : MeetingRound → ℕ
round_index r = r.index

pub record IsProper (identity : IdentityCatalog) (office : OfficeCatalog) (x : ProjectMeeting)
    : Type 0 where
  pub in_room :
      any (λ room. room.metadata.id == x.room_id && room.project_id == x.project_id) office.rooms
      ≡ true
  pub some_participant : is_empty x.participant_role_ids ≡ false
  pub few_participants : length x.participant_role_ids ≤ max_meeting_participants
  pub distinct_participants : Distinct x.participant_role_ids
  pub known_participants :
      any (λ id. not (any (λ role. role.metadata.id == id) identity.roles)) x.participant_role_ids
      ≡ false
  pub few_rounds : length x.rounds ≤ x.max_rounds
  pub limited : x.max_rounds ≤ max_meeting_rounds
  pub numbered : map round_index x.rounds ≡ numbers 1 (length x.rounds)

no_bad_round :
    (at : ℕ) (rs : List MeetingRound)
    → at + length rs ≤ 255
    → has_bad_round at rs ≡ false
    → map round_index rs ≡ numbers (suc at) (length rs)
no_bad_round at [] small h = refl
no_bad_round at (r ∷ rs) small h =
    let rest = no_bad_round (suc at) rs (omega arith) (ground arith) in
    let first : r.index ≡ suc at = ground arith in rw (first, rest)

check_meeting-IsProper :
    (identity : IdentityCatalog) (office : OfficeCatalog) (x : ProjectMeeting)
    → check_meeting identity office x ≡ ok tt
    → IsProper identity office x
unfolding check_meeting
check_meeting-IsProper identity office x h =
    let few : length x.rounds ≤ x.max_rounds = ground arith in
    let limited : x.max_rounds ≤ max_meeting_rounds = ground arith in
    let sizes = length-collect-Distinct x.participant_role_ids in
    record {
      in_room = ground arith;
      some_participant = ground arith;
      few_participants = ground arith;
      distinct_participants = sizes.0 (ground arith);
      known_participants = ground arith;
      few_rounds = few;
      limited = limited;
      numbered = no_bad_round 0 x.rounds (omega arith) (ground arith);
    }

abbrev pub baseline_meeting : DecisionBaseline → ℕ
baseline_meeting b = b.meeting_id

module _ (digest : String → String) where
  pub record IsDecided (meetings : List ProjectMeeting) (b : DecisionBaseline) : Type 0 where
    pub has_content : is_blank b.content ≡ false
    pub has_person : is_blank b.accepted_by ≡ false
    pub has_time : is_blank b.accepted_at ≡ false
    pub same_hash : b.content_hash ≡ hash_content digest b.content
    pub meeting : ProjectMeeting
    pub found_meeting : find_by meeting_key b.meeting_id meetings ≡ some meeting
    pub decidable : is_decidable meeting.state ≡ true

  -- What the loop does after the tests on one baseline.
  abbrev go_on :
      List ProjectMeeting
      → List ℕ
      → DecisionBaseline
      → List DecisionBaseline
      → ProjectMeeting
      → Result (Unit {0}) MeetingError
  go_on meetings seen b bs meeting =
      fail_if (not (is_decidable meeting.state)) meeting_not_awaiting_decision
      >> (fail_if (contains seen b.meeting_id) duplicate_baseline
          >> check_baselines digest meetings (insert b.meeting_id seen) bs)

  first_baseline :
      (meetings : List ProjectMeeting) (seen : List ℕ) (b : DecisionBaseline)
      (bs : List DecisionBaseline)
      → check_baselines digest meetings seen (b ∷ bs) ≡ ok tt
      → IsDecided meetings b
        × (contains seen b.meeting_id ≡ false)
        × (check_baselines digest meetings (insert b.meeting_id seen) bs ≡ ok tt)
  unfolding check_baselines check_baseline
  first_baseline meetings seen b bs h =
      let (checked, rest) =
        >>-eq-ok (check_baseline digest b)
          (ok_or (find_by meeting_key b.meeting_id meetings) missing_meeting
            >>= go_on meetings seen b bs)
          h in
      elim (Option-cases (find_by meeting_key b.meeting_id meetings)) [
        | inl missing ↦ absurd (ground arith)
        | inr (meeting, found) ↦
            let hashes = eq_iff b.content_hash (hash_content digest b.content) in
            (
              record {
                has_content = ground arith;
                has_person = ground arith;
                has_time = ground arith;
                same_hash = ground arith;
                meeting = meeting;
                found_meeting = found;
                decidable = ground arith;
              },
              ground arith,
              ground arith,
            )
      ]

  baselines_of :
      (meetings : List ProjectMeeting) (seen : List ℕ) (bs : List DecisionBaseline)
      → check_baselines digest meetings seen bs ≡ ok tt
      → All (IsDecided meetings) bs
        × Distinct (map baseline_meeting bs)
        × ((x : ℕ) → contains (map baseline_meeting bs) x ≡ true → contains seen x ≡ false)
  baselines_of meetings seen [] h = (tt, tt, λ x m. absurd (cc m))
  baselines_of meetings seen (b ∷ bs) h =
      let (decided, fresh, rest) = first_baseline meetings seen b bs h in
      let (others, distinct, apart) = baselines_of meetings (insert b.meeting_id seen) bs rest in
      (
        (decided, others),
        (
          ground (arith, apart b.meeting_id, contains-insert b.meeting_id b.meeting_id seen),
          distinct,
        ),
        λ x m. elim (Bool-cases (b.meeting_id == x)) [
          | inl e ↦ ground arith
          | inr e ↦ ground (arith, apart x, contains-insert b.meeting_id x seen)
        ],
      )

  -- In a meeting catalog that is accepted, every meeting has a room of its own project, between one
  -- and twelve distinct participants with known roles, and at most five rounds, numbered from one; and
  -- every decision baseline has content, a person and a time, the hash of its content, and a meeting
  -- of the catalog that awaits a decision or is accepted, of which it is the only baseline.
  pub validate_meetings-IsProper :
      (c : MeetingCatalog) (identity : IdentityCatalog) (office : OfficeCatalog)
      → validate_meetings digest c identity office ≡ ok tt
      → All (IsProper identity office) c.meetings
        × All (IsDecided c.meetings) c.decision_baselines
        × Distinct (map baseline_meeting c.decision_baselines)
  unfolding validate_meetings
  validate_meetings-IsProper c identity office h =
      let (meetings, baselines) =
        >>-eq-ok (for_each (check_meeting identity office) c.meetings)
          (check_baselines digest c.meetings [] c.decision_baselines) h in
      let (decided, distinct, apart) = baselines_of c.meetings [] c.decision_baselines baselines in
      (
        All-map (λ x. check_meeting identity office x ≡ ok tt) (IsProper identity office)
            (check_meeting-IsProper identity office) c.meetings
            (for_each-All (check_meeting identity office) c.meetings meetings),
        decided,
        distinct,
      )
