-- ===== src/Lib.antt =====
-- Bastet Workstation: the core of a local workstation that lets several AI agents work on one project
-- under recorded approvals.
--
-- The program. crates/bastet-core holds the records and their rules, without input or output;
-- crates/bastet-daemon keeps them in a store and changes them under one lock, one request after the
-- other; the adapters run providers as child processes; the client and the desktop application send
-- requests. Modelled here are the rules of bastet-core and, of the daemon, the path from a launch that waits
-- for its approval to a grant that is used once.
--
-- The files.
--   Common, Common/*   lists, options, results, sets, keyed lists and text, as Rust's library has them
--   Identity           crates/bastet-core/src/identity.rs: identifiers and entities
--   Adapter            crates/bastet-core/src/adapter.rs: failures, and in RunState the state of a run
--   Policy             crates/bastet-core/src/policy.rs: ScopedPolicy::restrict; Restriction says what it
--                      grants
--   Catalog            crates/bastet-core/src/catalog.rs: the tables of entities
--   Catalog/Validation, References
--                      IdentityCatalog::validate (validate_catalog) and its helpers; Keys and
--                      Integrity say what it ensures
--   Approval           crates/bastet-core/src/approval.rs: the types and validate_action
--   Approval/Hash      canonical_hash; Digest says that its text determines the digest
--   Approval/Request   ApprovalRequest::create (create_request), verify_decision, validate_unchanged
--   Approval/Against   validate_against, validate_credential_binding
--   Approval/Decision, Permission, Grounds, Backing, Soundness
--                      what decisions, actions and accepted requests are
--   Office             crates/bastet-core/src/office.rs: the tables; in Validation OfficeCatalog::validate
--                      (validate_office); Proper says what it ensures
--   Meeting            crates/bastet-core/src/meeting.rs: DecisionBaseline::create (create_baseline) and
--                      validate_unchanged (check_baseline), MeetingCatalog::validate
--                      (validate_meetings); Accepted and Baseline say what they ensure
--   Graph              crates/bastet-core/src/graph.rs: the types
--   Graph/Validate     WorkflowGraph::validate, validate_research_join, visit; Paths, Sound, Complete
--                      and Fuel lead to the description in Spec
--   Graph/Output       GraphNodeOutput::create and validate, output_hash
--   Graph/Execution    GraphExecution::start, validate, output, record_output, restart_as,
--                      reconcile_after_restart, execution_state_is_valid
--   Graph/Transitions  claim_ready, claim_node, stage_node, activate_staged_node, cancel_staged_node,
--                      bind_run, complete, finish_terminal
--   Graph/Block        block_dependents; Fixpoint and Closure say what it reaches
--   Graph/Retry        retry_failed
--   Graph/Lifecycle    the diagram of a node's life, and that each operation follows it
--   Graph/History      any sequence of operations
--   Graph/Results      what single calls do on a valid execution
--   Deliverable        crates/bastet-core/src/deliverable.rs: documents, costs and knowledge deliveries
--   Deliverable/Document
--                      DocumentVersion::create (create_version), validate_unchanged (check_version),
--                      accept and bind_join_receipt, KnowledgeDelivery::prepare and record_delivered
--   Deliverable/Validation
--                      DeliverableCatalog::validate (validate_deliverables); Proper and Life say what
--                      these ensure
--   M3                 crates/bastet-core/src/m3.rs: all of these together; in Validation
--                      M3State::validate (validate_m3); Joins and Sources say where references lead
--   Store              crates/bastet-daemon/src/lib.rs: the tables, and the errors of a call
--   Store/Equality, Statements
--                      the derived equalities, and the SQL statements
--   Store/Plan         crates/bastet-daemon/src/provider_launch.rs: capture, validate_saved, load_plan,
--                      validate_online_cli_requirements, validate_current_policy
--   Store/Binding      crates/bastet-daemon/src/lib.rs: resolve_provider_run_binding, graph_node_prompt
--   Store/Grants, Spend
--                      crates/bastet-daemon/src/credential_grants.rs: validate_current_catalog, issue and
--                      load; the calls consume_credential_grant and revoke_credential_grant
--   Store/Staged, Context, Cancel, Launches
--                      crates/bastet-daemon/src/staged_launches.rs: validate_request_for_plan;
--                      validate_staged_context; cancel_for_request; stage, on_decision and expire
--   Store/Claim, Dispatch
--                      crates/bastet-daemon/src/credential_dispatch.rs: claim_staged_dispatch,
--                      fail_dispatch_claim, prepare_staged_credentials and reconcile
--   Store/Decision     crates/bastet-daemon/src/lib.rs: create_approval, decide_approval,
--                      cancel_staged_run, expire_staged_launches
--   Store/Calls        any sequence of these calls
--   Store/Later, Keeps, Steps, Evolution
--                      how the rows of a grant and of a staged launch change
--   Store/Spending, Once, Loaded, Authority, Revoked
--                      how often a grant is used, and under which approval
--   Store/Settled, Settling, Settlement, Agreement
--                      what the state of a staged launch says of its grant
--   Store/Lookup       what is left when the credential is looked up
--   OutputQueue        crates/bastet-core/src/process_queue.rs: send and recv_timeout in steps, one for
--                      each operation on what the threads share; Invariant, Order and Failure are on
--                      any interleaving
--   Tests              runs at concrete inputs
--
-- How the code is translated. A method on `&mut self` takes the record and returns the record after
-- the call with its result; where every error comes before the first write, it returns a Result of the
-- new record alone, and a refused call leaves the old one. A float is its IEEE 754 bits. An identifier is a natural number. A `u64`
-- revision wraps (`u64_next`), as a release build does. A HashSet is a list that `insert` keeps free of
-- duplicates, and only membership and size are read. Strings are the native strings, whose length is
-- in bytes; `trim` removes the Unicode white space. The SHA-256 of the sha2 crate is the parameter
-- `digest`, of which nothing is assumed; for approvals, serde_json and sha2 are `to_vec` and
-- `sha256`, of which nothing is assumed either, but that one theorem takes a digest to be of bytes.
--
-- The store. A table is a list of records, in the order of its rows, and a column of JSON holds the value
-- that it encodes, or `none` where serde_json refuses the text. A call is one transaction under the lock of
-- the connection: it takes the tables and returns a Result of those after it, so an error leaves them as
-- they were (`committed`). The clock is an argument, `none` before the epoch, and a call that reads it twice
-- takes two. `Libraries` holds what serde_json, sha2 and uuid do; nothing is assumed of it. Identifiers are
-- stored as themselves, and ordered as numbers. The graph executions are read in the order of their rows, and
-- not of the time of their last change. The receipts of approvals and cancellations are left out, and of the
-- payload of an event its request and its run are kept. `u64_text` writes twenty digits at most, which a
-- `u64` does not exceed.
--
-- A list of `Event`s of OutputQueue is an interleaving: each thread is at one place of its operation, and a
-- step that does not fit that place changes nothing. What a thread does without the
-- shared state belongs to the step before. `accepted` and `delivered` are the model's own records of what the
-- two threads were answered.
--
-- Fuel. `visit` recurses on fuel, one more than there are nodes: each call is on a node that is not in
-- `visiting` yet. `sweep_loop` (the loop of block_dependents) and `reopen_loop` (the loop of
-- retry_failed) have as much: every round but the last reaches, or reopens, one more node.
--
-- Not modelled: the serialisation by serde; of the daemon, the calls that begin and finish the run of a
-- graph node, replace the catalogs, recover after a restart and change the lifecycle, its HTTP routes, and
-- the execution of providers; the adapters, the client, the desktop application, and the other files of
-- bastet-core. Approval.ApprovalError has a constructor `panics` of the model's own, for the `expect` in
-- validate_credential_binding.
pub mod Common
pub mod Policy
pub mod Adapter
pub mod Identity
pub mod Catalog
pub mod Approval
pub mod Office
pub mod Meeting
pub mod Graph
pub mod Deliverable
pub mod M3
pub mod Store
pub mod OutputQueue
pub mod Tests
