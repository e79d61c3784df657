-- ===== src/Tests/Designs.antt =====
-- Workflows and agent configurations of the small instance.
use multi_tenant_agentic_wor.Base.{
  ◌≡◌, refl, All, none, some, [], ◌∷◌, arith, ok, find_where, select_where, count_where, contains,
  string_eq, nat_eq, option_eq,
}
use multi_tenant_agentic_wor.Base.Json
use multi_tenant_agentic_wor.Base.Json.{Fields}
use multi_tenant_agentic_wor.Graph.{
  validate_definition, compile_graph, build_graph, missing_configs,
}
use multi_tenant_agentic_wor.Graph.Valid.{validate_definition_iff}
use multi_tenant_agentic_wor.Store.{World, pending, find_tenant}
use multi_tenant_agentic_wor.Executions.{count_active, concurrent_limit}
use multi_tenant_agentic_wor.Executions.Admission.{IsAdmissible}
use multi_tenant_agentic_wor.Dispatcher.{consider, empty_report}
use multi_tenant_agentic_wor.Agents.{AgentFields, create_agent, new_agent, add_agent, count_agents}
use multi_tenant_agentic_wor.Agents.Limits.{IsOrderly, AgentStep, AgentReach, AgentReach-IsOrderly}
use multi_tenant_agentic_wor.Executor.Loop.{load_configs}
use multi_tenant_agentic_wor.Agents.Nodes.{configured, create_agent-compile_graph}
use multi_tenant_agentic_wor.Workflows.{
  write_workflow, pause, apply_changes, WorkflowChanges, pause_workflow_dispatch, update_workflow,
  count_workflows,
}
use multi_tenant_agentic_wor.Workflows.Limits.{
  WithinLimits, WorkflowStep, WorkflowReach, WorkflowReach-WithinLimits,
}
use multi_tenant_agentic_wor.Workflows.Definitions.{AreSound, WorkflowReach-AreSound}
use multi_tenant_agentic_wor.Workflows.Lifecycle.{
  pause_workflow_dispatch-consider, update_workflow-IsAdmissible,
}
use multi_tenant_agentic_wor.Tests.{
  texts, env, policy, two_agents, tenant, idle_world, execution, config,
}

abbrev paused_world : World
paused_world = write_workflow 2 (pause 100 5) idle_world

paused_once : pause_workflow_dispatch idle_world 1 2 5 ≡ ok paused_world
unfolding pause_workflow_dispatch find_where
paused_once = refl

idle_world-WithinLimits : WithinLimits idle_world
unfolding count_workflows count_where find_tenant find_where
idle_world-WithinLimits = record { at_tenant = λ i u e. ground arith }

WorkflowReach-WithinLimits_example : WithinLimits paused_world
WorkflowReach-WithinLimits_example =
    WorkflowReach-WithinLimits idle_world-WithinLimits
      (WorkflowReach.next WorkflowReach.here (WorkflowStep.pauses 1 2 5 paused_once))

two_agents_accepted : validate_definition two_agents ≡ ok tt
unfolding validate_definition contains select_where
two_agents_accepted = refl

idle_world-AreSound : AreSound idle_world.workflows
idle_world-AreSound = (λ drawn. (validate_definition_iff two_agents).0 two_agents_accepted, tt)

WorkflowReach-AreSound_example : AreSound paused_world.workflows
WorkflowReach-AreSound_example =
    WorkflowReach-AreSound idle_world-AreSound
      (WorkflowReach.next WorkflowReach.here (WorkflowStep.pauses 1 2 5 paused_once))

pause_workflow_dispatch-consider_example :
    consider texts env policy 100 (execution pending Fields.end) paused_world empty_report
    ≡ some (paused_world, record empty_report { scanned = 1; paused = 1 })
pause_workflow_dispatch-consider_example =
    pause_workflow_dispatch-consider texts env policy 100 idle_world paused_world 1 2 5
      (execution pending Fields.end) empty_report paused_once refl (unfold Json.get in refl)

abbrev redraw : WorkflowChanges
redraw = record {
  name = none;
  description = none;
  definition = some two_agents;
  execution_pattern = none;
}

redrawn_once :
    update_workflow idle_world 1 2 redraw ≡ ok (write_workflow 2 (apply_changes redraw) idle_world)
unfolding update_workflow find_where validate_definition contains select_where
redrawn_once = refl

owner_found : find_tenant idle_world 1 ≡ some tenant
unfolding find_tenant find_where
owner_found = refl

update_workflow-IsAdmissible_example :
    IsAdmissible texts (write_workflow 2 (apply_changes redraw) idle_world) 1 2
unfolding count_active count_where concurrent_limit
update_workflow-IsAdmissible_example =
    update_workflow-IsAdmissible texts idle_world
      (write_workflow 2 (apply_changes redraw) idle_world) 1 2 redraw two_agents tenant refl refl
      owner_found (omega arith) (omega arith) redrawn_once

abbrev half_world : World
half_world = record idle_world { agent_configs = config 3 "a" ∷ [] }

abbrev missing_agent : AgentFields
missing_agent = record {
  node_id = some "b";
  name = "b";
  role = "validator";
  system_prompt = "";
  model = "gpt-4o-mini";
  tools = Json.null;
  memory_type = "vector";
  max_tokens = 300;
  temperature = 10;
}

abbrev whole_world : World
whole_world = add_agent (new_agent half_world 1 2 missing_agent) half_world

added_once :
    create_agent half_world 1 2 missing_agent
    ≡ ok (new_agent half_world 1 2 missing_agent, whole_world)
unfolding create_agent find_where count_where contains
added_once = refl

only_missing :
    All
      (λ i. i ≡ missing_agent.node_id)
      (missing_configs two_agents (configured 1 2 two_agents half_world))
unfolding missing_configs contains select_where load_configs
only_missing = (refl, tt)

create_agent-compile_graph_example :
    compile_graph two_agents (configured 1 2 two_agents whole_world) ≡ ok (build_graph two_agents)
create_agent-compile_graph_example =
    create_agent-compile_graph half_world whole_world 1 2 two_agents missing_agent
      (new_agent half_world 1 2 missing_agent) two_agents_accepted only_missing added_once

half_world-IsOrderly : IsOrderly half_world
unfolding count_agents count_where find_tenant find_where contains
half_world-IsOrderly = record {
  single = λ f n. ground arith;
  limits = λ i f u e. ground arith;
  fields = (record { role = refl; model = refl; memory_type = refl }, tt);
}

AgentReach-IsOrderly_example : IsOrderly whole_world
AgentReach-IsOrderly_example =
    AgentReach-IsOrderly half_world-IsOrderly
      (AgentReach.next AgentReach.here (AgentStep.creates 1 2 missing_agent added_once))
