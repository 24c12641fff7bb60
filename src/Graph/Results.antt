-- ===== src/Graph/Results.antt =====
-- What the calls of crates/bastet-core/src/graph.rs achieve on an execution that `validate` accepts:
-- which nodes are claimed, which are blocked by a failure, and which a retry reopens.
pub mod Claimed
pub mod Failure
pub mod Retried
pub mod Progress
