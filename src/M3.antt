-- ===== src/M3.antt =====
-- The state of the office, the meetings, the deliverables and the graphs together,
-- crates/bastet-core/src/m3.rs.
pub mod Validation
pub mod Joins
pub mod Sources
use bastet_workstation.Common.{List}
use bastet_workstation.Office.{OfficeCatalog, OfficeError}
use bastet_workstation.Meeting.{MeetingCatalog, MeetingError}
use bastet_workstation.Deliverable.{DeliverableCatalog, DeliverableError}
use bastet_workstation.Graph.{GraphExecution, GraphError}

pub record M3Catalog : Type 0 where
  pub office : OfficeCatalog
  pub meetings : MeetingCatalog
  pub deliverables : DeliverableCatalog

pub record M3State : Type 0 where
  pub catalog : M3Catalog
  pub graph_executions : List GraphExecution

pub data M3Error : Type 0 where
  office_error : OfficeError → M3Error
  meeting_error : MeetingError → M3Error
  graph_error : GraphError → M3Error
  deliverable_error : DeliverableError → M3Error
  missing_decision_baseline missing_role missing_deliverable_reference : M3Error
  duplicate_graph_execution : M3Error
