-- ===== src/Executor.antt =====
-- backend/app/engine/executor.py: a run of a workflow, from the pending execution to its last event.
-- What the run awaits outside of this code (the language models and tools behind `execute_agent`, the
-- connectors) is a parameter that may change the world, as other tasks do meanwhile.
pub mod Steps
pub mod Loop
pub mod Keeps
pub mod Ends
pub mod Settles
pub mod Budget
pub mod Isolation
pub mod Totals
use multi_tenant_agentic_wor.Base.{
  ℕ, zero, suc, ◌+◌, ◌<◌, String, Bool, true, false, not, ◌&&◌, Option, none, some, List, [], ◌∷◌,
  ◌++◌, map, ◌==◌, if◌then◌else◌, length, ltb, leb, is_empty, find_where, select_where, count_where,
  contains, Result, ok, err, option_eq, string_eq, nat_eq,
}
use multi_tenant_agentic_wor.Base.Dict
use multi_tenant_agentic_wor.Base.Dict.{Dict}
use multi_tenant_agentic_wor.Base.Json
use multi_tenant_agentic_wor.Base.Json.{Json, Fields}
use multi_tenant_agentic_wor.Graph.{
  NodeId, Node, Definition, CompilationError, StateGraph, compile_graph, agent_nodes, node_type,
  is_set, or_default,
}
use multi_tenant_agentic_wor.Schedule.{
  entry_queue, edge_adjacency, resolve_next_node, topological_sort, text_or_empty,
}
use multi_tenant_agentic_wor.Store.{
  Tenant, Workflow, Execution, ExecutionLog, AgentConfig, Event, World, failed, cancelled,
  completed, find_tenant, find_execution, find_workflow,
}
use multi_tenant_agentic_wor.Store.Writes.{
  fail_execution, cancel_running, is_pending, start_running, complete_execution, add_totals,
  add_log, can_charge, charge_tenant, invalidate_tenant_cache, register, unregister, is_cancelled,
  broadcast_ws, complete_event,
}

pub record Message : Type 0 where
  pub role : String
  pub content : Json

pub record AgentState : Type 0 where
  pub messages : List Message
  pub current_agent : String
  pub results : Dict String Json

pub record AgentResult : Type 0 where
  pub output : String
  pub action : String
  pub reasoning : Option String
  pub input_tokens : ℕ
  pub output_tokens : ℕ
  pub cost : ℕ
  pub duration_ms : ℕ

pub data AgentReply : Type 0 where
  replies : AgentResult → AgentReply
  agent_raises : String → AgentReply

pub record ConnectorResult : Type 0 where
  pub connector_key : String
  pub action_key : String
  pub input_data : Option Json
  pub output_data : Json
  pub duration_ms : ℕ
  pub retryable : Bool

-- A ConnectorRuntimeError.
pub record ConnectorError : Type 0 where
  pub input_data : Option Json
  pub output_data : Json
  pub detector_code : String
  pub retryable : Bool
  pub sanitized_error : String

pub data ConnectorReply : Type 0 where
  connector_returns : ConnectorResult → ConnectorReply
  connector_fails : ConnectorError → ConnectorReply
  connector_raises : String → ConnectorReply

-- What the run calls outside of the modelled code.
pub record Env : Type 0 where
  pub execute_agent : AgentConfig → AgentState → World → AgentReply × World
  pub execute_connector_node : ℕ → Node → World → ConnectorReply × World
  pub langgraph_error : StateGraph → Option String
  pub error_text : CompilationError → String
  pub clean : String → String
  pub json_dumps : Json → String

-- What is fixed during a run.
pub record Job : Type 0 where
  pub execution_id : ℕ
  pub workflow_id : ℕ
  pub tenant_id : ℕ
  pub workflow : Workflow
  pub definition : Definition
  pub configs : List AgentConfig

-- What the loop over the queue changes.
pub record Run : Type 0 where
  pub world : World
  pub state : AgentState
  pub queue : List NodeId
  pub step_number : ℕ
  pub iteration : ℕ

-- How one round ends: the loop goes on, the call returns, or an exception leaves it.
pub data Step : Type 0 where
  go : Run → Step
  stop : World → Step
  raises : String → World → Step

pub data Outcome : Type 0 where
  returned : World → Outcome
  raised : String → World → Outcome
  starved : Outcome

abbrev pub max_iterations : ℕ
max_iterations = 10

abbrev pub is_cyclic : Job → Bool
is_cyclic j = j.workflow.execution_pattern == "cyclic"

-- The two last events of a run that ends early. `fixed` sends zero totals, `current` those of the row.
unfoldable pub announce_fixed : ℕ → String → String → ℕ → World → World
announce_fixed i message agent n w =
    broadcast_ws i (Event.execution_complete failed 0 0 (some []))
      (broadcast_ws i (Event.error message agent n) w)

unfoldable pub announce_current : ℕ → Event → World → World
announce_current i e w =
    broadcast_ws i (complete_event failed (find_execution w i)) (broadcast_ws i e w)

unfoldable pub announce_cancelled : ℕ → World → World
announce_cancelled i w = broadcast_ws i (complete_event cancelled (find_execution w i)) w

abbrev pub budget_exceeded : String
budget_exceeded = "Monthly token budget exceeded"

-- The dictionary of the nodes that have an identifier.
unfoldable pub nodes_by_id : Dict NodeId Node → List Node → Dict NodeId Node
nodes_by_id d [] = d
nodes_by_id d (n ∷ ns) = nodes_by_id (if is_set n.id then Dict.put d n.id n else d) ns

abbrev pub no_node : Node
no_node = record { id = none; kind = none; node_data = none }

unfoldable pub node_of : Job → NodeId → Node
unfolding nodes_by_id
node_of j i = Dict.get_or (nodes_by_id [] j.definition.nodes) i no_node

-- `agent_config_map.get(node_id)`: a later configuration of the node replaces an earlier one.
unfoldable pub config_map : Dict NodeId AgentConfig → List AgentConfig → Dict NodeId AgentConfig
config_map d [] = d
config_map d (c ∷ cs) = config_map (Dict.put d c.node_id c) cs

unfoldable pub config_of : Job → NodeId → Option AgentConfig
unfolding config_map
config_of j i = Dict.get? (config_map [] j.configs) i

-- In a cyclic workflow the next node enters the queue.
unfoldable pub follow : Env → Job → NodeId → Option String → Option String → Run → Run
follow env j i action reasoning r =
    if is_cyclic j
    then (let next = resolve_next_node env.clean i (edge_adjacency j.definition) action reasoning in
        if is_set next then record r { queue = r.queue ++ next ∷ [] } else r)
    else r

abbrev pub connector_key_of : Node → String
connector_key_of n = elim n.node_data [ none ↦ "" | some d ↦ text_or_empty d.connector_key ]

abbrev pub action_key_of : Node → String
action_key_of n = elim n.node_data [ none ↦ "" | some d ↦ text_or_empty d.action_key ]
