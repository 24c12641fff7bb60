-- ===== src/Meeting/Baseline.antt =====
-- Decision baselines as they are made and checked: crates/bastet-core/src/meeting.rs.
