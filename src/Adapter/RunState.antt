-- ===== src/Adapter/RunState.antt =====
-- The state of a run, as every adapter reports it: crates/bastet-core/src/adapter.rs.
pub data NormalizedRunState : Type 0 where
  starting running awaiting_approval blocked cancelling cancelled : NormalizedRunState
  failed succeeded recovering uncertain : NormalizedRunState
