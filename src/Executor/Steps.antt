-- ===== src/Executor/Steps.antt =====
-- One round of the loop of `_run_execution_inner`: the guards, a connector node, an agent node.
use Prim.Native.String.{◌++◌ as text_append}
use multi_tenant_agentic_wor.Base.{
  ℕ, suc, ◌+◌, String, Bool, false, ◌&&◌, Option, none, some, List, [], ◌∷◌, ◌++◌, ◌==◌,
  if◌then◌else◌, ltb, count_where, option_eq, string_eq, nat_eq,
}
use multi_tenant_agentic_wor.Base.Dict
use multi_tenant_agentic_wor.Base.Json.{Json, Items, Fields}
use multi_tenant_agentic_wor.Graph.{NodeId, Node, node_type, or_default}
use multi_tenant_agentic_wor.Schedule.{text_or_empty}
use multi_tenant_agentic_wor.Store.{Tenant, ExecutionLog, AgentConfig, Event, World, find_tenant}
use multi_tenant_agentic_wor.Store.Writes.{
  fail_execution, cancel_running, add_totals, add_log, can_charge, charge_tenant,
  invalidate_tenant_cache, is_cancelled, broadcast_ws,
}
use multi_tenant_agentic_wor.Executor.{
  Message, AgentState, AgentResult, AgentReply, replies, agent_raises, ConnectorResult,
  ConnectorError, ConnectorReply, connector_returns, connector_fails, connector_raises, Env, Job,
  Run, Step, go, stop, raises, max_iterations, is_cyclic, announce_fixed, announce_current,
  announce_cancelled, budget_exceeded, node_of, config_of, follow, connector_key_of, action_key_of,
}

abbrev pub dotted_label : Node → String
dotted_label n = text_append (connector_key_of n) (text_append "." (action_key_of n))

-- `str(data.get("label") or f"{connector_key}.{action_key}")`.
abbrev pub label_of : Node → String
label_of n = elim n.node_data [
  | none ↦ dotted_label n
  | some d ↦ or_default d.label (dotted_label n)
]

unfoldable pub connector_error_log : Job → NodeId → ℕ → Node → ConnectorError → ExecutionLog
connector_error_log j i n node e = record {
  execution_id = j.execution_id;
  agent_config_id = none;
  step_number = n;
  agent_name = label_of node;
  action = "connector_error";
  input_data = e.input_data;
  output_data = e.output_data;
  tokens_used = 0;
  cost = 0;
  decision_reasoning = some e.detector_code;
  duration_ms = none;
  node_id = i;
  node_type = "connector";
  connector_key = some (connector_key_of node);
  action_key = some (action_key_of node);
  retryable = e.retryable;
  sanitized_error = some e.sanitized_error;
}

unfoldable pub connector_log : Job → NodeId → ℕ → Node → ConnectorResult → ExecutionLog
connector_log j i n node c = record {
  execution_id = j.execution_id;
  agent_config_id = none;
  step_number = n;
  agent_name = label_of node;
  action = "connector_call";
  input_data = c.input_data;
  output_data = c.output_data;
  tokens_used = 0;
  cost = 0;
  decision_reasoning = none;
  duration_ms = some c.duration_ms;
  node_id = i;
  node_type = "connector";
  connector_key = some c.connector_key;
  action_key = some c.action_key;
  retryable = c.retryable;
  sanitized_error = none;
}

-- The state of the conversation after a step: its result by name, and a message of the assistant.
unfoldable pub remember : String → Json → Json → AgentState → AgentState
remember name output content s = record s {
  results = Dict.put s.results name output;
  messages = s.messages ++ record { role = "assistant"; content = content } ∷ [];
}

abbrev message_fields : Message → Items
message_fields m =
    Items.cons
      (Json.obj
        (Fields.field "role" (Json.str m.role) (Fields.field "content" m.content Fields.end)))
      Items.nil

-- `{"messages": messages[-1:]} if messages else None`.
abbrev last_message : List Message → Option Json
last_message [] = none
last_message (m ∷ []) =
    some (Json.obj (Fields.field "messages" (Json.arr (message_fields m)) Fields.end))
last_message (m ∷ n ∷ ms) = last_message (n ∷ ms)

abbrev pub spent : AgentResult → ℕ
spent a = a.input_tokens + a.output_tokens

-- The step is counted, and announced.
abbrev pub begin_agent : Job → AgentConfig → Run → Run
begin_agent j c r = record r {
  step_number = suc r.step_number;
  state = record r.state { current_agent = c.name };
  world = broadcast_ws j.execution_id (Event.step_start c.name (suc r.step_number)) r.world;
}

module _ (env : Env) (j : Job) where
  unfoldable pub connector_replied : NodeId → Node → Run → ConnectorReply × World → Step
  unfolding connector_error_log connector_log remember announce_current follow
  connector_replied i node r (connector_raises message, w) = raises message w
  connector_replied i node r (connector_fails e, w) =
      let w₁ = add_log (connector_error_log j i r.step_number node e) w in
      let w₂ = fail_execution j.execution_id e.sanitized_error w₁ in
      stop (
        announce_current j.execution_id
          (Event.error e.sanitized_error (label_of node) r.step_number) w₂)
  connector_replied i node r (connector_returns c, w) =
      let w₁ = add_log (connector_log j i r.step_number node c) w in
      let done = Event.step_complete (label_of node) r.step_number 0 0 (some c.duration_ms) in
      let s =
        remember (label_of node) c.output_data (Json.str (env.json_dumps c.output_data)) r.state in
      go (
        follow env j i (some "connector_call") (some "")
          (record r { world = broadcast_ws j.execution_id done w₁; state = s }))

  unfoldable pub visit_connector : NodeId → Node → Run → Step
  unfolding connector_replied
  visit_connector i node r =
      let n = suc r.step_number in
      let s = record r.state { current_agent = label_of node } in
      let w = broadcast_ws j.execution_id (Event.step_start (label_of node) n) r.world in
      connector_replied i node (record r { step_number = n; state = s })
        (env.execute_connector_node j.tenant_id node w)

  unfoldable pub agent_log : NodeId → ℕ → AgentConfig → AgentState → AgentResult → ExecutionLog
  agent_log i n c s a = record {
    execution_id = j.execution_id;
    agent_config_id = some c.id;
    step_number = n;
    agent_name = c.name;
    action = a.action;
    input_data = last_message s.messages;
    output_data = Json.obj (Fields.field "content" (Json.str a.output) Fields.end);
    tokens_used = spent a;
    cost = a.cost;
    decision_reasoning = a.reasoning;
    duration_ms = some a.duration_ms;
    node_id = i;
    node_type = "agent";
    connector_key = none;
    action_key = none;
    retryable = false;
    sanitized_error = none;
  }

  -- The charge fitted: the log, the totals, the state and the next node.
  unfoldable pub record_step : NodeId → AgentConfig → AgentResult → Run → World → Step
  unfolding agent_log remember follow
  record_step i c a r w =
      let tokens = spent a in
      let w₁ = charge_tenant j.tenant_id tokens w in
      let w₂ = add_log (agent_log i r.step_number c r.state a) w₁ in
      let w₃ = add_totals j.execution_id tokens a.cost w₂ in
      let w₄ = invalidate_tenant_cache j.tenant_id w₃ in
      let done = Event.step_complete c.name r.step_number tokens a.cost (some a.duration_ms) in
      let s = remember c.name (Json.str a.output) (Json.str a.output) r.state in
      go (
        follow env j i (some a.action) a.reasoning
          (record r { world = broadcast_ws j.execution_id done w₄; state = s }))

  abbrev pub step_over_budget : String
  step_over_budget = "Monthly token budget would be exceeded by this step"

  -- Cancelled for want of budget, before the call or after it.
  unfoldable pub cancel_over_budget : String → Event → World → World
  unfolding announce_cancelled
  cancel_over_budget message e w =
      announce_cancelled j.execution_id
        (broadcast_ws j.execution_id e (cancel_running j.execution_id message w))

  unfoldable pub agent_replied : NodeId → AgentConfig → Run → AgentReply × World → Step
  unfolding record_step cancel_over_budget announce_current
  agent_replied i c r (agent_raises message, w) = raises message w
  agent_replied i c r (replies a, w) =
      if a.action == "error"
      then (let message = or_default (some a.output) "Agent execution failed" in
          stop (
            announce_current j.execution_id (Event.error message c.name r.step_number)
              (fail_execution j.execution_id message w)))
      else if ltb 0 (count_where (can_charge j.tenant_id (spent a)) w.tenants)
      then record_step i c a r w
      else stop (
          cancel_over_budget step_over_budget
            (Event.fatal_error step_over_budget c.name r.step_number) w)

  -- `tenant and used + max_tokens > budget`.
  unfoldable pub lacks_budget : AgentConfig → Option Tenant → Bool
  lacks_budget c none = false
  lacks_budget c (some t) = ltb t.token_budget (t.tokens_used + c.max_tokens)

  unfoldable pub visit_agent : NodeId → AgentConfig → Run → Step
  unfolding agent_replied lacks_budget cancel_over_budget
  visit_agent i c r =
      let r' = begin_agent j c r in
      if lacks_budget c (find_tenant r'.world j.tenant_id)
      then stop (
          cancel_over_budget budget_exceeded (Event.error budget_exceeded c.name r'.step_number)
            r'.world)
      else agent_replied i c r' (env.execute_agent c r'.state r'.world)

  unfoldable pub visit_configured : NodeId → Option AgentConfig → Run → Step
  unfolding visit_agent
  visit_configured i none r = go r
  visit_configured i (some c) r = visit_agent i c r

  unfoldable pub visit_node : NodeId → Run → Step
  unfolding visit_connector visit_configured
  visit_node i r =
      let node = node_of j i in
      if node_type node == "connector"
      then visit_connector i node r
      else visit_configured i (config_of j i) r

  -- The node `i` was taken from the queue of `r`, and counted.
  unfoldable pub visit : NodeId → Run → Step
  unfolding visit_node announce_fixed announce_cancelled
  visit i r =
      if is_cyclic j && ltb max_iterations r.iteration
      then stop (
          announce_fixed j.execution_id "Max iterations exceeded" (text_or_empty i) r.step_number
            (fail_execution j.execution_id "Max iterations exceeded" r.world))
      else if is_cancelled j.execution_id r.world
      then stop (
          announce_cancelled j.execution_id
            (cancel_running j.execution_id "Execution cancelled by user" r.world))
      else visit_node i r
