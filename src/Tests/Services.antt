-- ===== src/Tests/Services.antt =====
-- Definitions, admissions, retries and dispatches of the small instance.
use multi_tenant_agentic_wor.Base.{
  suc, max, All, ◌≤◌, ◌≡◌, ◌↔◌, refl, true, none, some, List, [], ◌∷◌, arith, ok, count_where,
  find_where, contains, select_where, any_where, any_where, string_eq, nat_eq, option_eq,
}
use multi_tenant_agentic_wor.Base.Json
use multi_tenant_agentic_wor.Base.Json.{Json, Fields}
use multi_tenant_agentic_wor.Graph.{
  compile_graph, build_graph, missing_configs, agent_nodes, ids, NodeId, validate_definition,
}
use multi_tenant_agentic_wor.Graph.Compiled.{compile_graph_ok}
use multi_tenant_agentic_wor.Graph.Valid.{IsValid, validate_definition_iff}
use multi_tenant_agentic_wor.Schedule.{topological_sort}
use multi_tenant_agentic_wor.Schedule.Kahn.{topological_sort_total}
use multi_tenant_agentic_wor.Store.{
  Execution, World, failed, find_tenant, find_workflow, find_execution, status_eq,
}
use multi_tenant_agentic_wor.Store.Writes.{invalidate_tenant_cache}
use multi_tenant_agentic_wor.Texts.{is_webhook_trigger}
use multi_tenant_agentic_wor.Executions.{
  enforce_webhook_admission, create_execution, concurrent_limit, insert_execution, count_active,
  find_own, is_dead_letter, retry_dead_letter_execution,
}
use multi_tenant_agentic_wor.Executions.Admission.{
  IsAdmissible, WithinPlan, create_execution_iff, create_execution-WithinPlan,
}
use multi_tenant_agentic_wor.Executions.Retry.{IsRetryOf, retry_dead_letter_execution_ok}
use multi_tenant_agentic_wor.Executions.Backlog.{
  HasRoom, enforce_webhook_admission_iff, create_execution-HasRoom,
}
use multi_tenant_agentic_wor.Dispatcher.{
  DispatchReport, has_retryable_failure, pending_scan_limit, pending_execution_candidates,
  dispatch_pending, apply_retry_policy,
}
use multi_tenant_agentic_wor.Dispatcher.Rounds.{Rounds}
use multi_tenant_agentic_wor.Dispatcher.Report.{AddsUp, dispatch_pending_total}
use multi_tenant_agentic_wor.Dispatcher.Policy.{Decided, apply_retry_policy_lem}
use multi_tenant_agentic_wor.Tests.{
  texts, env, two_agents, idle_world, execution, pending_world, failed_world, dead_world, retried,
  policy, created,
}

create_execution_iff_example :
    ((r : Execution × World) × (create_execution texts idle_world 1 2 none ≡ ok r))
    ↔ IsAdmissible texts idle_world 1 2
create_execution_iff_example = create_execution_iff texts idle_world 1 2 none

idle_world-WithinPlan : WithinPlan texts idle_world
unfolding count_active count_where concurrent_limit
idle_world-WithinPlan = record { at_tenant = λ i u e. omega arith }

created_once :
    create_execution texts idle_world 1 2 none
    ≡ ok (created, insert_execution texts created idle_world)
unfolding create_execution validate_definition find_workflow find_tenant count_active find_where
    contains select_where count_where invalidate_tenant_cache
created_once = refl

create_execution-WithinPlan_example :
    WithinPlan texts (insert_execution texts created idle_world)
    × (count_active (insert_execution texts created idle_world) 1 ≡ suc (count_active idle_world 1))
create_execution-WithinPlan_example =
    create_execution-WithinPlan texts idle_world 1 2 none created
      (insert_execution texts created idle_world) idle_world-WithinPlan created_once

retried_once :
    retry_dead_letter_execution texts dead_world 1 7 5
    ≡ ok (retried, insert_execution texts retried dead_world)
unfolding retry_dead_letter_execution create_execution validate_definition find_workflow find_tenant
    count_active find_where contains select_where count_where invalidate_tenant_cache find_own
    Json.get
retried_once = refl

retry_dead_letter_execution_ok_example :
    (x : Execution) × (find_own dead_world 1 7 ≡ some x)
    × (is_dead_letter texts x ≡ true)
    × IsRetryOf texts x retried
retry_dead_letter_execution_ok_example =
    retry_dead_letter_execution_ok texts dead_world 1 7 5 retried
      (insert_execution texts retried dead_world) retried_once

dispatch_pending_total_example :
    (w : World) × (r : DispatchReport) × (dispatch_pending texts env policy 100 10 pending_world
      ≡ some (w, r))
    × Rounds texts env policy 100 10
        (pending_execution_candidates pending_world (max pending_scan_limit 10))
        pending_world
        r.execution_ids
        w
    × AddsUp r
    × (r.dispatched ≤ 10)
dispatch_pending_total_example = dispatch_pending_total texts env policy 100 10 pending_world

found_failed : find_execution failed_world 7 ≡ some (execution failed Fields.end)
unfolding find_execution find_where
found_failed = refl

failed_webhook : is_webhook_trigger (execution failed Fields.end).input_data ≡ true
unfolding Json.get
failed_webhook = refl

failed_retryable : has_retryable_failure failed_world 7 ≡ true
unfolding has_retryable_failure any_where
failed_retryable = refl

apply_retry_policy_lem_example :
    Decided texts policy 100 failed_world
      (execution failed Fields.end)
      (apply_retry_policy texts policy 100 failed_world 7)
apply_retry_policy_lem_example =
    apply_retry_policy_lem texts policy 100 failed_world (execution failed Fields.end) found_failed
      refl failed_webhook failed_retryable (record { written = refl; read_again = refl })

validate_definition_iff_example : (validate_definition two_agents ≡ ok tt) ↔ IsValid two_agents
validate_definition_iff_example = validate_definition_iff two_agents

topological_sort_total_example :
    (r : List NodeId) × (topological_sort two_agents.nodes two_agents.edges ≡ some r)
topological_sort_total_example = topological_sort_total two_agents.nodes two_agents.edges

two_agents_compiled :
    compile_graph two_agents (some "a" ∷ some "b" ∷ []) ≡ ok (build_graph two_agents)
unfolding compile_graph validate_definition missing_configs contains select_where
two_agents_compiled = refl

compile_graph_ok_example :
    IsValid two_agents
    × All (λ i. contains (some "a" ∷ some "b" ∷ []) i ≡ true) (agent_nodes two_agents)
    × ((build_graph two_agents).graph_nodes ≡ ids two_agents.nodes)
    × (contains (build_graph two_agents).graph_nodes (build_graph two_agents).entry_point ≡ true)
compile_graph_ok_example =
    compile_graph_ok two_agents (some "a" ∷ some "b" ∷ []) (build_graph two_agents)
      two_agents_compiled

enforce_webhook_admission_iff_example :
    (enforce_webhook_admission texts pending_world 1 ≡ ok tt) ↔ HasRoom texts pending_world 1
enforce_webhook_admission_iff_example = enforce_webhook_admission_iff texts pending_world 1

create_execution-HasRoom_example : enforce_webhook_admission texts idle_world 1 ≡ ok tt
create_execution-HasRoom_example =
    create_execution-HasRoom texts idle_world 1 2 none created
      (insert_execution texts created idle_world) created_once
