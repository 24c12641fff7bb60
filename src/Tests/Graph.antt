-- ===== src/Tests/Graph.antt =====
-- The theorems on the workflow graph at a research pair, its join, and a document.
use mathlib.Core.List.Memᴰ.{head, tail}
use bastet_workstation.Common.{
  ℕ, ◌≡◌, refl, ◌≢◌, ◌↔◌, String, true, false, some, none, [], ◌∷◌, List, ok, err, Pairs, take, all,
  is_some, is_empty, u64_next, if◌then◌else◌, is_blank, for_each,
}
use bastet_workstation.Graph.{
  GraphNode, WorkflowGraph, GraphNodeExecution, GraphExecution, GraphNodeOutput, research, join,
  document, pending, blocked, failed, find_execution, is_succeeded, is_pending, cycle,
}
use bastet_workstation.Graph.Validate.{
  visit_each, visit, visit_all, check_node, check_join, validate_research_join, exhausted, no_marks,
  ids, validate as validate_graph,
}
use bastet_workstation.Graph.Validate.Fuel.{visit_never_exhausted}
use bastet_workstation.Graph.Validate.Spec.{IsWellFormed, validate_iff_IsWellFormed}
use bastet_workstation.Graph.Output.{validate_output}
use bastet_workstation.Graph.Block.{block_nodes, sweep_loop, sweep, reach_node}
use bastet_workstation.Graph.Execution.{
  begin_execution, start, validate, output, restart_as, check_nodes, check_outputs,
}
use bastet_workstation.Graph.Transitions.{
  claim_ready, claim_loop, claim_node, complete, finish_terminal,
}
use bastet_workstation.Graph.Retry.{retry_failed, reopen_loop, reopened_ids, reopen_each}
use bastet_workstation.Graph.Lifecycle.{HasSucceeded, Evolves}
use bastet_workstation.Graph.History.{
  Operation, claims_ready, claims, reconciles, retries, binds, completes, finishes, records, apply,
  run,
}
use bastet_workstation.Graph.History.Valid.{apply-Evolves}
use bastet_workstation.Graph.History.Outputs.{validate-run}
use bastet_workstation.Graph.History.Start.{validate-run-start, restart_as-fresh}
use bastet_workstation.Graph.History.Order.{IsOrdered, starts_in_order, succeeded_for_ever}
use bastet_workstation.Graph.Results.Failure.{FailureEffect, complete_failure_blocks_dependents}
use bastet_workstation.Graph.Results.Claimed.{claim_ready_takes_first}
use bastet_workstation.Graph.Results.Progress.{claim_ready_progresses}
use bastet_workstation.Graph.Lifecycle.Ready.{ready_ids, Given}
use bastet_workstation.Graph.Results.Retried.{
  RetryEffect, HasReasons, KeepsBlocked, retry_failed_reopens, retry_failed_reopens_others,
}

-- A stand-in for the SHA-256 digest.
abbrev digest : String → String
digest s = s

abbrev market : GraphNode
market = record { id = 1; kind = research; role_id = 11; title = "Market"; needs = [] }

abbrev risk : GraphNode
risk = record { id = 2; kind = research; role_id = 12; title = "Risk"; needs = [] }

abbrev joined : GraphNode
joined = record { id = 3; kind = join; role_id = 13; title = "Join"; needs = 1 ∷ 2 ∷ [] }

abbrev report : GraphNode
report = record { id = 4; kind = document; role_id = 13; title = "Report"; needs = 3 ∷ [] }

abbrev sample : WorkflowGraph
sample = record { decision_baseline_id = 1; nodes = market ∷ risk ∷ joined ∷ report ∷ [] }

abbrev looping : List GraphNode
looping = record market { needs = 4 ∷ [] } ∷ joined ∷ report ∷ []

abbrev started : GraphExecution
started = begin_execution 7 sample

sample_is_valid : validate_graph sample ≡ ok tt
unfolding validate_graph check_node visit_all visit_each visit check_join validate_research_join
    for_each is_blank
sample_is_valid = refl

validate_iff_IsWellFormed_example : validate_graph sample ≡ ok tt ↔ IsWellFormed sample
validate_iff_IsWellFormed_example = validate_iff_IsWellFormed sample

visit_never_exhausted_example : visit_each (visit 4 looping) (ids looping) no_marks ≢ exhausted
visit_never_exhausted_example = visit_never_exhausted looping

looping_is_refused : visit_all looping ≡ err cycle
unfolding visit_all visit_each visit
looping_is_refused = refl

started_starts : start 7 sample ≡ ok started
unfolding start validate_graph check_node visit_all visit_each visit check_join
    validate_research_join for_each is_blank
started_starts = refl

abbrev market_report : GraphNodeOutput
market_report = record {
  node_id = 1;
  run_id = 21;
  content_hash = "sha256:Sales";
  markdown = "Sales";
}

abbrev whole_run : List Operation
whole_run =
    claims_ready "worker" 2
    ∷ binds 1 "worker" 21
    ∷ completes 1 "worker" true
    ∷ records market_report
    ∷ completes 2 "worker" true
    ∷ claims 3 "joiner"
    ∷ []

validate-run-start_example : validate digest (run digest started whole_run) ≡ ok tt
validate-run-start_example = validate-run-start digest 7 sample started whole_run started_starts

starts_in_order_example : IsOrdered (run digest started whole_run)
starts_in_order_example = starts_in_order digest 7 sample started whole_run started_starts

abbrev halfway : GraphExecution
halfway = run digest started (claims_ready "worker" 2 ∷ completes 1 "worker" true ∷ [])

halfway_is_valid : validate digest halfway ≡ ok tt
halfway_is_valid =
    validate-run-start digest 7 sample started
      (claims_ready "worker" 2 ∷ completes 1 "worker" true ∷ []) started_starts

market-HasSucceeded : HasSucceeded halfway.nodes 1
unfolding run apply claim_ready claim_loop complete is_blank
market-HasSucceeded = refl

succeeded_for_ever_example : HasSucceeded (run digest halfway (reconciles ∷ retries 2 ∷ [])).nodes 1
succeeded_for_ever_example =
    succeeded_for_ever digest halfway (reconciles ∷ retries 2 ∷ []) 1 halfway_is_valid
      market-HasSucceeded

validate-run_example :
    validate digest (run digest halfway (completes 2 "worker" false ∷ [])) ≡ ok tt
validate-run_example =
    validate-run digest halfway (completes 2 "worker" false ∷ []) halfway_is_valid

claim_ready_takes_first_example :
    let out = take 1 (ready_ids started started.nodes) in
    let e' = (claim_ready started "worker" 1).0 in
    ((claim_ready started "worker" 1).1 ≡ ok out)
    × Pairs (Given started "worker" 1 out) started.nodes e'.nodes
    × (e'.graph ≡ sample)
    × (e'.outputs ≡ [])
    × (e'.revision ≡ (if is_empty out then 0 else u64_next 0))
unfolding run
claim_ready_takes_first_example =
    claim_ready_takes_first digest started "worker" 1
      (validate-run-start digest 7 sample started [] started_starts) (unfold is_blank in refl)
      (λ p. absurd (cc p))

claim_ready_progresses_example :
    (id : ℕ) × (more : List ℕ) × ((claim_ready started "worker" 1).1 ≡ ok (id ∷ more))
unfolding run
claim_ready_progresses_example =
    claim_ready_progresses digest started "worker" 1
      (validate-run-start digest 7 sample started [] started_starts) (unfold is_blank in refl)
      (λ p. absurd (cc p)) refl refl

apply-Evolves_example : Evolves started (apply digest started (claims 1 "worker"))
apply-Evolves_example =
    apply-Evolves digest started (claims 1 "worker") (refl, (refl, (refl, (refl, tt)))) refl

-- The second research fails.
abbrev failed_halfway : GraphExecution
failed_halfway = run digest halfway (completes 2 "worker" false ∷ [])

failure_is_accepted : complete halfway 2 "worker" false ≡ ok failed_halfway
unfolding run apply claim_ready claim_loop complete is_blank
failure_is_accepted = refl

complete_failure_blocks_dependents_example :
    Pairs (FailureEffect halfway.graph.nodes 2) halfway.nodes failed_halfway.nodes
complete_failure_blocks_dependents_example =
    complete_failure_blocks_dependents digest halfway 2 "worker" failed_halfway halfway_is_valid
      failure_is_accepted

abbrev stuck_calls : List Operation
stuck_calls =
    claims_ready "worker" 2 ∷ completes 1 "worker" false ∷ finishes 2 "worker" blocked none ∷ []

-- The first research has failed, and the second was finished as blocked.
abbrev stuck : GraphExecution
stuck = run digest started stuck_calls

stuck_is_valid : validate digest stuck ≡ ok tt
stuck_is_valid = validate-run-start digest 7 sample started stuck_calls started_starts

abbrev market_failed : GraphNodeExecution
market_failed = record {
  node_id = 1;
  state = failed;
  owner = some "worker";
  revision = 2;
  run_id = none;
  failure = none;
}

abbrev risk_blocked : GraphNodeExecution
risk_blocked = record market_failed { node_id = 2; state = blocked; owner = none }

abbrev risk_reopened : GraphNodeExecution
risk_reopened = record risk_blocked { state = pending; revision = 3 }

market_found : find_execution 1 stuck.nodes ≡ some market_failed
unfolding run apply claim_ready claim_loop complete finish_terminal block_nodes sweep_loop sweep
    reach_node is_blank
market_found = refl

risk_found : find_execution 2 stuck.nodes ≡ some risk_blocked
unfolding run apply claim_ready claim_loop complete finish_terminal block_nodes sweep_loop sweep
    reach_node is_blank
risk_found = refl

risk_found_again : find_execution 2 (retry_failed stuck 1).0.nodes ≡ some risk_reopened
unfolding run apply claim_ready claim_loop complete finish_terminal block_nodes sweep_loop sweep
    reach_node is_blank retry_failed reopen_loop reopened_ids reopen_each
risk_found_again = refl

retry_failed_reopens_example :
    (e' : GraphExecution) × (retry_failed stuck 1 ≡ (e', ok tt))
    × Pairs RetryEffect stuck.nodes e'.nodes
    × HasReasons e'
    × KeepsBlocked stuck e'
    × ((y : GraphNodeExecution) × (find_execution 1 e'.nodes ≡ some y) × (y.state ≡ pending))
retry_failed_reopens_example =
    retry_failed_reopens digest stuck 1 market_failed stuck_is_valid market_found refl

retry_failed_reopens_others_example : risk_reopened.state ≡ pending
unfolding run apply finish_terminal complete claim_ready is_blank claim_loop block_nodes sweep_loop
    sweep reach_node
retry_failed_reopens_others_example =
    retry_failed_reopens_others digest stuck 1 market_failed stuck_is_valid market_found refl risk
      risk_blocked risk_reopened (tail (head refl)) risk_found refl refl risk_found_again

abbrev all_calls : List Operation
all_calls =
    claims_ready "w" 9
    ∷ completes 1 "w" true
    ∷ completes 2 "w" true
    ∷ claims 3 "w"
    ∷ completes 3 "w" true
    ∷ claims 4 "w"
    ∷ completes 4 "w" true
    ∷ []

abbrev finished : GraphExecution
finished = run digest started all_calls

abbrev again : GraphExecution
again = record (begin_execution 8 sample) { restarted_from_execution_id = some 7 }

restarts : restart_as digest finished 8 ≡ ok again
unfolding restart_as validate check_nodes check_outputs output validate_output run apply claim_ready
    claim_node claim_loop complete is_blank start validate_graph check_node visit_all visit_each
    visit check_join validate_research_join for_each
restarts = refl

restart_as-fresh_example :
    (validate digest finished ≡ ok tt)
    × (all (λ (x : GraphNodeExecution). is_succeeded x.state) finished.nodes ≡ true)
    × (all (λ (x : GraphNodeExecution). is_some (output finished x.node_id)) finished.nodes ≡ false)
    × (again.graph ≡ finished.graph)
    × (again.restarted_from_execution_id ≡ some finished.id)
    × (again.outputs ≡ [])
    × (all (λ (x : GraphNodeExecution). is_pending x.state) again.nodes ≡ true)
    × (validate digest again ≡ ok tt)
restart_as-fresh_example = restart_as-fresh digest finished 8 again restarts
