-- ===== src/Adapter.antt =====
-- The adapter contract of crates/bastet-core/src/adapter.rs.
pub mod RunState
use bastet_workstation.Common.{String, Bool, Option}

pub data AdapterFailureKind : Type 0 where
  binary_missing authentication quota permission_denied timeout cancelled crashed :
      AdapterFailureKind
  protocol_drift malformed_output unsupported unknown : AdapterFailureKind

pub record AdapterFailure : Type 0 where
  pub kind : AdapterFailureKind
  pub message_key : String
  pub retryable : Bool
  pub provider_code : Option String
  pub redacted_detail : Option String

pub data EvidenceClass : Type 0 where
  provider_reported agent_reported locally_measured estimated unknown : EvidenceClass
