-- ===== src/Office/Proper.antt =====
-- What an accepted office is.
use bastet_workstation.Common.{
  each_once-Distinct, ◌≡◌, true, false, ◌<◌, List, [], ◌∷◌, map, All, All-map, arith, ok, ◌>>◌,
  ◌>>=◌, >>-eq-ok, >>=-inv, fail_if, for_each, for_each-All, Distinct, ◌==◌, is_blank, any, str_eq,
  Bool, String, ◌&&◌, ◌||◌,
}
use bastet_workstation.Catalog.{IdentityCatalog, project_key, role_key, agent_key}
use bastet_workstation.Catalog.Validation.{has_key}
use bastet_workstation.Office.{
  OfficeCatalog, PetProfile, PetStateAsset, PetAssignment, Room, required_pet_states, profile_key,
  assignment_key, room_key, duplicate_pet_state, duplicate_role_assignment, invalid_version,
}
use bastet_workstation.Office.Validation.{
  unique_ids, has_state, check_state, collect_states, check_required, check_profile, has_slot,
  check_assignment, check_assignments, check_room, validate_office, filled,
}

-- No two of the states have one key.
abbrev pub DistinctStates : List PetStateAsset → Type 0
DistinctStates [] = Unit {0}
DistinctStates (s ∷ rest) =
    All (λ (t : PetStateAsset). str_eq t.state_key s.state_key ≡ false) rest × DistinctStates rest

abbrev pub has_state_key : List PetStateAsset → String → Bool
has_state_key states key = any (λ (s : PetStateAsset). str_eq key s.state_key) states

pub record IsProperProfile (p : PetProfile) : Type 0 where
  pub named : is_blank p.name ≡ false
  pub versioned : 0 < p.version
  pub described : All (λ s. check_state s ≡ ok tt) p.states
  pub distinct : DistinctStates p.states
  pub complete : All (λ key. has_state_key p.states key ≡ true) required_pet_states

-- No two of the assignments are for one role of one project.
abbrev pub DistinctSlots : List PetAssignment → Type 0
DistinctSlots [] = Unit {0}
DistinctSlots (a ∷ rest) =
    All (λ (b : PetAssignment). (a.project_id == b.project_id && a.role_id == b.role_id) ≡ false)
      rest
    × DistinctSlots rest

pub record IsProperAssignment (office : OfficeCatalog) (identity : IdentityCatalog)
    (a : PetAssignment) : Type 0 where
  pub pet : has_key profile_key office.pet_profiles a.pet_profile_id ≡ true
  pub of_project : has_key project_key identity.projects a.project_id ≡ true
  pub of_role : has_key role_key identity.roles a.role_id ≡ true
  pub of_agent : has_key agent_key identity.agent_instances a.agent_instance_id ≡ true

pub record IsProperRoom (identity : IdentityCatalog) (r : Room) : Type 0 where
  pub room_named : is_blank r.name ≡ false
  pub holds : 0 < r.capacity
  pub in_project : has_key project_key identity.projects r.project_id ≡ true

pub record IsProperOffice (office : OfficeCatalog) (identity : IdentityCatalog) : Type 0 where
  pub profile_ids : Distinct (map profile_key office.pet_profiles)
  pub assignment_ids : Distinct (map assignment_key office.pet_assignments)
  pub room_ids : Distinct (map room_key office.rooms)
  pub profiles : All IsProperProfile office.pet_profiles
  pub assignments : All (IsProperAssignment office identity) office.pet_assignments
  pub slots : DistinctSlots office.pet_assignments
  pub proper_rooms : All (IsProperRoom identity) office.rooms

-- What the loop over the states of a profile went through.
record Collected (seen : List String) (states : List PetStateAsset) (out : List String)
    : Type 0 where
  all_described : All (λ s. check_state s ≡ ok tt) states
  all_distinct : DistinctStates states
  all_new : All (λ (s : PetStateAsset). has_state seen s.state_key ≡ false) states
  union : (key : String) → has_state out key ≡ (has_state_key states key || has_state seen key)

collect_states-Collected :
    (seen : List String) (states : List PetStateAsset) (out : List String)
    → collect_states seen states ≡ ok out
    → Collected seen states out
unfolding collect_states
collect_states-Collected seen [] out h = record {
  all_described = tt;
  all_distinct = tt;
  all_new = tt;
  union = λ key. ground arith;
}
collect_states-Collected seen (s ∷ rest) out h =
    let others = collect_states (s.state_key ∷ seen) rest in
    let repeated = fail_if (has_state seen s.state_key) (duplicate_pet_state s.state_key) in
    let (first, later) = >>-eq-ok (check_state s) (repeated >> others) h in
    let (new, last) = >>-eq-ok repeated others later in
    let c = collect_states-Collected (s.state_key ∷ seen) rest out last in
    record {
      all_described = (first, c.all_described);
      all_distinct = (All-map _ _ (λ t n. ground arith) rest c.all_new, c.all_distinct);
      all_new = (ground arith, All-map _ _ (λ t n. ground arith) rest c.all_new);
      union = λ key. ground (arith, c.union key);
    }

check_profile-IsProperProfile : (p : PetProfile) → check_profile p ≡ ok tt → IsProperProfile p
unfolding check_profile
check_profile-IsProperProfile p h =
    let complete = λ (states : List String). for_each (check_required states) required_pet_states in
    let collect = collect_states [] p.states in
    let version = fail_if (p.version == 0) invalid_version in
    let (named, h1) =
      >>-eq-ok (filled "PetProfile" "name" p.name) (version >> (collect >>= complete)) h in
    let (versioned, h2) = >>-eq-ok version (collect >>= complete) h1 in
    let (states, (all_there, collected)) = >>=-inv collect complete tt h2 in
    let c = collect_states-Collected [] p.states states collected in
    record {
      named = ground arith;
      versioned = ground arith;
      described = c.all_described;
      distinct = c.all_distinct;
      complete =
          All-map (λ key. check_required states key ≡ ok tt)
            (λ key. has_state_key p.states key ≡ true) (λ key present. ground (arith, c.union key))
            required_pet_states
            (for_each-All (check_required states) required_pet_states all_there);
    }

module _ (office : OfficeCatalog) (identity : IdentityCatalog) where
  check_assignment-IsProperAssignment :
      (a : PetAssignment)
      → check_assignment office identity a ≡ ok tt
      → IsProperAssignment office identity a
  unfolding check_assignment
  check_assignment-IsProperAssignment a h = record {
    pet = ground arith;
    of_project = ground arith;
    of_role = ground arith;
    of_agent = ground arith;
  }

  check_assignments-inv :
      (assigned all : List PetAssignment)
      → check_assignments office identity assigned all ≡ ok tt
      → All (IsProperAssignment office identity) all
        × DistinctSlots all
        × All (λ a. has_slot assigned a ≡ false) all
  unfolding check_assignments
  check_assignments-inv assigned [] h = (tt, tt, tt)
  check_assignments-inv assigned (a ∷ rest) h =
      let others = check_assignments office identity (a ∷ assigned) rest in
      let repeated = fail_if (has_slot assigned a) duplicate_role_assignment in
      let (first, later) = >>-eq-ok (check_assignment office identity a) (repeated >> others) h in
      let (new, last) = >>-eq-ok repeated others later in
      let (proper, slots, apart) = check_assignments-inv (a ∷ assigned) rest last in
      (
        (check_assignment-IsProperAssignment a first, proper),
        (All-map _ _ (λ b n. ground arith) rest apart, slots),
        (ground arith, All-map _ _ (λ b n. ground arith) rest apart),
      )

  check_room-IsProperRoom : (r : Room) → check_room identity r ≡ ok tt → IsProperRoom identity r
  unfolding check_room
  check_room-IsProperRoom r h = record {
    room_named = ground arith;
    holds = ground arith;
    in_project = ground arith;
  }

  -- In an office that is accepted, the ids of each table are distinct; every pet profile has a name, a
  -- positive version, states that are described and distinct, and all of the eight required states;
  -- every assignment has its profile in the office and its project, role and agent in the identity
  -- catalog; no two assignments are for one role of one project; and every room has a name, a positive
  -- capacity and a project in the identity catalog.
  pub validate_office-IsProperOffice :
      validate_office office identity ≡ ok tt → IsProperOffice office identity
  unfolding validate_office
  validate_office-IsProperOffice h =
      let ids1 = unique_ids "PetProfile" (map profile_key office.pet_profiles) in
      let ids2 = unique_ids "PetAssignment" (map assignment_key office.pet_assignments) in
      let ids3 = unique_ids "Room" (map room_key office.rooms) in
      let profiles = for_each check_profile office.pet_profiles in
      let assignments = check_assignments office identity [] office.pet_assignments in
      let rooms = for_each (check_room identity) office.rooms in
      let (i1, h1) = >>-eq-ok ids1 (ids2 >> (ids3 >> (profiles >> (assignments >> rooms)))) h in
      let (i2, h2) = >>-eq-ok ids2 (ids3 >> (profiles >> (assignments >> rooms))) h1 in
      let (i3, h3) = >>-eq-ok ids3 (profiles >> (assignments >> rooms)) h2 in
      let (p, h4) = >>-eq-ok profiles (assignments >> rooms) h3 in
      let (a, r) = >>-eq-ok assignments rooms h4 in
      let (proper, slots, apart) = check_assignments-inv [] office.pet_assignments a in
      record {
        profile_ids = each_once-Distinct _ _ i1;
        assignment_ids = each_once-Distinct _ _ i2;
        room_ids = each_once-Distinct _ _ i3;
        profiles =
            All-map _ _ check_profile-IsProperProfile office.pet_profiles
              (for_each-All check_profile office.pet_profiles p);
        assignments = proper;
        slots = slots;
        proper_rooms =
            All-map _ _ check_room-IsProperRoom office.rooms
              (for_each-All (check_room identity) office.rooms r);
      }
