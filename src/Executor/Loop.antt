-- ===== src/Executor/Loop.antt =====
-- `_run_execution_inner` and `run_execution`: the checks before the loop, the loop, and its end.
use multi_tenant_agentic_wor.Base.{
  ℕ, zero, suc, ◌+◌, String, ◌&&◌, Option, none, some, List, [], ◌∷◌, map, ◌==◌, if◌then◌else◌,
  length, leb, is_empty, select_where, count_where, contains, Result, ok, err, string_eq, nat_eq,
  option_eq,
}
use Prim.Native.String.{◌++◌ as text_append}
use multi_tenant_agentic_wor.Base.Json
use multi_tenant_agentic_wor.Base.Json.{Json, Fields, truthy}
use multi_tenant_agentic_wor.Graph.{
  NodeId, Definition, CompilationError, StateGraph, compile_graph, agent_nodes,
}
use multi_tenant_agentic_wor.Schedule.{entry_queue, topological_sort}
use multi_tenant_agentic_wor.Store.{
  Tenant, Workflow, AgentConfig, Event, World, completed, find_tenant, find_execution,
  find_workflow,
}
use multi_tenant_agentic_wor.Store.Writes.{
  fail_execution, is_pending, start_running, complete_execution, invalidate_tenant_cache, register,
  unregister, broadcast_ws,
}
use multi_tenant_agentic_wor.Executor.{
  Message, AgentState, Env, Job, Run, go, stop, raises, Outcome, returned, raised, starved,
  max_iterations, is_cyclic, announce_fixed, announce_current, budget_exceeded,
}
use multi_tenant_agentic_wor.Executor.Steps.{visit}

-- `input_data.get("text", "") or input_data.get("message", "") or json.dumps(input_data)`.
abbrev or_else : Option Json → Json → Json
or_else none d = d
or_else (some v) d = if truthy v then v else d

abbrev input_text : (Json → String) → Fields → Json
input_text dumps d =
    or_else (Json.get "text" d) (or_else (Json.get "message" d) (Json.str (dumps (Json.obj d))))

-- The user's message, if there is an input.
unfoldable pub input_messages : (Json → String) → Option Json → List Message
input_messages dumps (some (Json.obj (Fields.field k v d))) =
    record { role = "user"; content = input_text dumps (Fields.field k v d) } ∷ []
input_messages dumps _ = []

-- The configurations that `compile_graph` loads.
unfoldable pub load_configs : ℕ → ℕ → Definition → World → List AgentConfig
load_configs workflow_id tenant_id d w =
    select_where
      (λ c.
        c.workflow_id == workflow_id
        && c.tenant_id == tenant_id
        && contains (agent_nodes d) c.node_id)
      w.agent_configs

-- The nodes in the order of the loop; `none` where Kahn's loop ran out of fuel.
unfoldable pub initial_queue : Job → Option (List NodeId)
initial_queue j =
    if is_cyclic j
    then some (entry_queue j.definition)
    else topological_sort j.definition.nodes j.definition.edges

-- Every node once, or as many rounds as a cyclic workflow may take.
abbrev pub enough_rounds : List NodeId → ℕ
enough_rounds queue = length queue + max_iterations + 2

module _ (env : Env) (j : Job) where
  -- The queue is empty: the execution is completed, also if it was cancelled in its last step.
  unfoldable pub complete : AgentState → World → World
  complete s w =
      let found = find_execution w j.execution_id in
      let w₁ = complete_execution j.execution_id s.results w in
      let w₂ = invalidate_tenant_cache j.tenant_id w₁ in
      let done : Event = elim found [
        | none ↦ Event.execution_complete completed 0 0 (some s.results)
        | some x ↦ Event.execution_complete completed x.total_tokens x.total_cost (some s.results)
      ] in
      broadcast_ws j.execution_id done w₂

  abbrev pub take_round : NodeId → List NodeId → Run → Run
  take_round i rest r = record r { queue = rest; iteration = suc r.iteration }

  unfoldable pub run_loop : ℕ → List NodeId → Run → Outcome
  unfolding complete visit
  run_loop zero queue r = starved
  run_loop (suc f) [] r = returned (complete r.state r.world)
  run_loop (suc f) (i ∷ rest) r = elim (visit env j i (take_round i rest r)) [
    | go r' ↦ run_loop f r'.queue r'
    | stop w ↦ returned w
    | raises message w ↦ raised message w
  ]

  unfoldable pub start_loop : Option Json → World → Option (List NodeId) → Outcome
  unfolding run_loop input_messages
  start_loop input w none = starved
  start_loop input w (some queue) = run_loop (enough_rounds queue) queue (record {
    world = w;
    state = record {
      messages = input_messages env.json_dumps input;
      current_agent = "";
      results = [];
    };
    queue = queue;
    step_number = 0;
    iteration = 0;
  })

  -- `none`: langgraph compiled the graph. The execution starts if it is still pending.
  unfoldable pub run_linked : Option Json → World → Option String → Outcome
  unfolding start_loop initial_queue
  run_linked input w (some message) = raised message w
  run_linked input w none =
      if count_where (is_pending j.execution_id) w.executions == 0
      then returned w
      else start_loop input (start_running j.execution_id w) (initial_queue j)

  -- The compiled graph is only asked for its errors: the loop goes by the definition.
  unfoldable pub run_compiled : Option Json → World → Result CompilationError StateGraph → Outcome
  unfolding run_linked announce_fixed
  run_compiled input w (err e) = returned (
      announce_fixed j.execution_id (env.error_text e) "" 0
        (fail_execution j.execution_id (text_append "Compilation error: " (env.error_text e)) w))
  run_compiled input w (ok g) = run_linked input w (env.langgraph_error g)

  unfoldable pub run_budgeted : Option Json → Option Tenant → World → Outcome
  unfolding run_compiled announce_fixed
  run_budgeted input none w = raised "Tenant not found" w
  run_budgeted input (some t) w =
      if leb t.token_budget t.tokens_used
      then returned (
          announce_fixed j.execution_id budget_exceeded "" 0
            (fail_execution j.execution_id budget_exceeded w))
      else run_compiled input w (compile_graph j.definition (map (λ c. c.node_id) j.configs))

module _ (env : Env) (execution_id workflow_id tenant_id : ℕ) (input : Option Json) where
  unfoldable pub run_defined : World → Workflow → Option Definition → Outcome
  unfolding run_budgeted load_configs
  run_defined w f none = raised "Workflow has no nodes defined" w
  run_defined w f (some d) =
      let j : Job = record {
        execution_id = execution_id;
        workflow_id = workflow_id;
        tenant_id = tenant_id;
        workflow = f;
        definition = d;
        configs = load_configs workflow_id tenant_id d w;
      } in
      if is_empty d.nodes
      then raised "Workflow has no nodes defined" w
      else run_budgeted env j input (find_tenant w tenant_id) w

  unfoldable pub run_found : World → Option Workflow → Outcome
  unfolding run_defined
  run_found w none = raised "Workflow not found or inactive" w
  run_found w (some f) = run_defined w f f.definition

  unfoldable pub run_inner : World → Outcome
  unfolding run_found
  run_inner w = run_found w (find_workflow w tenant_id workflow_id)

  -- `except` and `finally`: an exception fails the execution; the entry in the dictionary goes.
  unfoldable pub settle : Outcome → Outcome
  unfolding announce_current
  settle starved = starved
  settle (returned w) = returned (unregister execution_id w)
  settle (raised message w) = returned (
      unregister execution_id (
        announce_current execution_id (Event.error message "" 0)
          (fail_execution execution_id message w)))

  unfoldable pub run_execution : World → Outcome
  unfolding run_inner settle
  run_execution w = settle (run_inner (register execution_id w))
