-- ===== src/Tests/State.antt =====
-- The theorems on the office and on the whole state at a graph whose document is sourced.
use bastet_workstation.Common.{
  ◌≡◌, refl, String, some, none, [], ◌∷◌, ok, is_blank, for_each, each_once,
}
use bastet_workstation.Adapter.RunState.{starting}
use bastet_workstation.Catalog.{IdentityCatalog}
use bastet_workstation.Catalog.Validation.{
  validate_metadata, validate_run_timing, validate_required_fields, check_agent_provider,
  check_model_provider, check_account_fields, check_model, check_project, check_role_fields,
  check_session_fields, check_reference_fields,
}
use bastet_workstation.Catalog.References.{
  check_account_links, check_agent_links, check_agent_account, check_session_links, check_run_links,
  check_keys, check_links, validate_catalog,
}
use bastet_workstation.Office.{OfficeCatalog, PetStateAsset}
use bastet_workstation.Office.Validation.{
  check_state, collect_states, check_profile, check_assignment, check_assignments, check_room,
  validate_office,
}
use bastet_workstation.Office.Proper.{IsProperOffice, validate_office-IsProperOffice}
use bastet_workstation.Meeting.{
  MeetingCatalog, accepted, check_meeting, hash_content, check_baseline, check_baselines,
  validate_meetings,
}
use bastet_workstation.Deliverable.{DeliverableCatalog}
use bastet_workstation.Deliverable.Document.{check_version, hash_markdown}
use bastet_workstation.Deliverable.Validation.{
  check_versions, check_documents, check_cost, check_delivery, validate_deliverables,
}
use bastet_workstation.Graph.{
  GraphNodeExecution, GraphExecution, research, join, document, succeeded, pending,
}
use bastet_workstation.Graph.Validate.{
  visit_each, visit, visit_all, check_node, check_join, validate_research_join,
  validate as validate_graph,
}
use bastet_workstation.Graph.Output.{output_hash, validate_output}
use bastet_workstation.Graph.Execution.{check_nodes, check_outputs, validate, output}
use bastet_workstation.M3.{M3State}
use bastet_workstation.M3.Validation.{
  check_graph, join_differs, has_invalid_receipt, has_dangling, validate_m3,
}
use bastet_workstation.M3.Sources.{IsLinked, validate_m3-IsLinked}
use bastet_workstation.Tests.Approval.{metadata_of, sample_catalog}
use bastet_workstation.Tests.Deliverable.{plain, first_draft, accepted_text, one_document}

abbrev asset : String → PetStateAsset
asset key = record { state_key = key; asset_ref = "asset"; accessible_label_key = "label" }

abbrev pub one_pet : OfficeCatalog
one_pet = record {
  pet_profiles =
      record {
        metadata = metadata_of 40;
        name = "cat";
        version = 1;
        states =
            asset "idle"
            ∷ asset "thinking"
            ∷ asset "working"
            ∷ asset "waiting"
            ∷ asset "blocked"
            ∷ asset "approval_required"
            ∷ asset "succeeded"
            ∷ asset "failed"
            ∷ [];
      }
      ∷ [];
  pet_assignments =
      record {
        metadata = metadata_of 41;
        project_id = 6;
        role_id = 5;
        agent_instance_id = 4;
        pet_profile_id = 40;
      }
      ∷ [];
  rooms = record { metadata = metadata_of 42; project_id = 6; name = "room"; capacity = 4 } ∷ [];
}

one_pet_is_valid : validate_office one_pet sample_catalog ≡ ok tt
unfolding validate_office check_profile collect_states check_state check_assignments
    check_assignment check_room each_once for_each is_blank
one_pet_is_valid = refl

validate_office-IsProperOffice_example : IsProperOffice one_pet sample_catalog
validate_office-IsProperOffice_example =
    validate_office-IsProperOffice one_pet sample_catalog one_pet_is_valid

abbrev pub decided : MeetingCatalog
decided = record {
  meetings =
      record {
        metadata = metadata_of 50;
        project_id = 6;
        room_id = 42;
        participant_role_ids = 5 ∷ [];
        max_rounds = 2;
        rounds = [];
        state = accepted;
      }
      ∷ [];
  decision_baselines =
      record {
        metadata = metadata_of 51;
        meeting_id = 50;
        content = "go";
        content_hash = "sha256:go";
        accepted_by = "user";
        accepted_at = "2026";
      }
      ∷ [];
}

abbrev done : GraphNodeExecution
done = record {
  node_id = 31;
  state = succeeded;
  owner = some "worker";
  revision = 3;
  run_id = some 7;
  failure = none;
}

abbrev researched : GraphExecution
researched = record {
  id = 30;
  graph = record {
    decision_baseline_id = 51;
    nodes =
        record { id = 31; kind = research; role_id = 5; title = "market"; needs = [] }
        ∷ record { id = 32; kind = research; role_id = 5; title = "risk"; needs = [] }
        ∷ record { id = 33; kind = join; role_id = 5; title = "join"; needs = 31 ∷ 32 ∷ [] }
        ∷ record { id = 34; kind = document; role_id = 5; title = "report"; needs = 33 ∷ [] }
        ∷ [];
  };
  nodes =
      done
      ∷ record done { node_id = 32; run_id = some 70 }
      ∷ record done { node_id = 33; run_id = some 71 }
      ∷ record done { node_id = 34; state = pending; owner = none; run_id = none }
      ∷ [];
  outputs =
      record { node_id = 31; run_id = 7; content_hash = "sha256:a"; markdown = "a" }
      ∷ record { node_id = 32; run_id = 70; content_hash = "sha256:b"; markdown = "b" }
      ∷ record { node_id = 33; run_id = 71; content_hash = "sha256:c"; markdown = "c" }
      ∷ [];
  restarted_from_execution_id = none;
  revision = 9;
}

abbrev three_runs : IdentityCatalog
three_runs = record sample_catalog {
  runs =
      record {
        metadata = metadata_of 7;
        session_id = 8;
        model_id = 9;
        state = starting;
        started_at = none;
        finished_at = none;
      }
      ∷ record {
        metadata = metadata_of 70;
        session_id = 8;
        model_id = 9;
        state = starting;
        started_at = none;
        finished_at = none;
      }
      ∷ record {
        metadata = metadata_of 71;
        session_id = 8;
        model_id = 9;
        state = starting;
        started_at = none;
        finished_at = none;
      }
      ∷ [];
}

abbrev sourced_document : DeliverableCatalog
sourced_document = record one_document {
  documents =
      record {
        metadata = metadata_of 60;
        project_id = 6;
        title = "report";
        versions =
            record first_draft {
              source_execution_id = some 30;
              source_join_node_id = some 33;
              source_join_output_hash = some "sha256:c";
            }
            ∷ accepted_text
            ∷ [];
      }
      ∷ [];
}

abbrev whole_state : M3State
whole_state = record {
  catalog = record { office = one_pet; meetings = decided; deliverables = sourced_document };
  graph_executions = researched ∷ [];
}

whole_state_is_valid : validate_m3 plain whole_state three_runs ≡ ok tt
unfolding validate_m3 validate_catalog check_keys each_once validate_required_fields check_links
    check_agent_provider check_model_provider check_account_fields check_model check_project
    check_role_fields check_session_fields check_reference_fields validate_metadata
    validate_run_timing check_account_links check_agent_links check_agent_account
    check_session_links check_run_links validate_office check_profile collect_states check_state
    check_assignments check_assignment check_room validate_meetings check_meeting check_baselines
    check_baseline hash_content validate_deliverables check_documents check_versions check_version
    check_cost check_delivery hash_markdown check_graph validate validate_graph check_node visit_all
    visit_each visit check_join validate_research_join check_nodes check_outputs validate_output
    output_hash output has_dangling has_invalid_receipt join_differs for_each is_blank
whole_state_is_valid = refl

validate_m3-IsLinked_example : IsLinked plain whole_state three_runs
validate_m3-IsLinked_example =
    validate_m3-IsLinked plain whole_state three_runs whole_state_is_valid
