-- ===== src/Tests.antt =====
-- A small instance of the platform: one tenant, one workflow of two agents, and what happens to it.
mod Accounts
mod Alarms
mod Automations
mod Designs
mod Limits
mod Repairs
mod Runs
mod Services
use multi_tenant_agentic_wor.Base.{
  ℕ, suc, map, ◌==◌, ◌<◌, ◌+◌, ◌*◌, All, ◌≤◌, ◌≡◌, ◌↔◌, refl, String, true, false, none, some, List,
  [], ◌∷◌, arith, ok, err, count_where, find_where, contains, select_where, any_where, any_where,
  string_eq, nat_eq, option_eq,
}
use multi_tenant_agentic_wor.Base.Dict
use multi_tenant_agentic_wor.Base.Json
use multi_tenant_agentic_wor.Base.Json.{Json, Fields}
use multi_tenant_agentic_wor.Graph.{
  compile_graph, build_graph, missing_configs, agent_nodes, ids, NodeId, Node, Definition,
  validate_definition,
}
use multi_tenant_agentic_wor.Graph.Compiled.{compile_graph_ok}
use multi_tenant_agentic_wor.Graph.Valid.{IsValid, validate_definition_iff}
use multi_tenant_agentic_wor.RateLimit.{
  admit, recorded, get_key, Settings, Request, Moment, arrives, leaves, serve,
}
use multi_tenant_agentic_wor.RateLimit.Full.{admit_iff}
use multi_tenant_agentic_wor.RateLimit.Window.{in_window, serve-InWindow}
use multi_tenant_agentic_wor.Schedule.{topological_sort}
use multi_tenant_agentic_wor.Schedule.Kahn.{topological_sort_total}
use multi_tenant_agentic_wor.Store.{
  Event, Queue, Tenant, Workflow, Execution, ExecutionLog, AgentConfig, World, Status, pending,
  running, failed, cancelled, find_tenant, find_workflow, find_execution, status_eq,
}
use multi_tenant_agentic_wor.Store.Sockets.{
  queues_of, broadcast_ws_lem, unsubscribe_ws-subscribe_ws,
}
use multi_tenant_agentic_wor.Store.Writes.{
  broadcast_ws, subscribe_ws, unsubscribe_ws, receive, invalidate_tenant_cache, request_cancel,
}
use multi_tenant_agentic_wor.Texts.{Texts, is_webhook_trigger}
use multi_tenant_agentic_wor.Executor.{
  AgentResult, replies, connector_raises, Env, Job, Run, stop, returned,
}
use multi_tenant_agentic_wor.Executor.Steps.{visit}
use multi_tenant_agentic_wor.Executor.Loop.{run_execution}
use multi_tenant_agentic_wor.Executor.Ends.{run_execution_total}
use multi_tenant_agentic_wor.Executor.Settles.{HasEnded, IsIdle, run_execution-HasEnded}
use multi_tenant_agentic_wor.Executor.Isolation.{OnlyOwn, run_execution-OnlyOwn}
use multi_tenant_agentic_wor.Executor.Budget.{InBudget, run_execution-InBudget}
use multi_tenant_agentic_wor.Executor.Totals.{IsBalanced, run_execution-IsBalanced}
use multi_tenant_agentic_wor.Executions.{
  enforce_webhook_admission, create_execution, concurrent_limit, cancel_execution,
  cancelled_by_user, not_cancellable, new_execution, insert_execution, count_active, find_own,
  is_dead_letter, retry_input, retry_dead_letter_execution,
}
use multi_tenant_agentic_wor.Executions.Admission.{
  IsAdmissible, WithinPlan, create_execution_iff, create_execution-WithinPlan,
}
use multi_tenant_agentic_wor.Executions.Retry.{IsRetryOf, retry_dead_letter_execution_ok}
use multi_tenant_agentic_wor.Executions.Cancel.{
  IsCancelledRow, cancel_execution_pending, cancel_execution_running,
}
use multi_tenant_agentic_wor.Cost.{price_table, calculate_cost}
use multi_tenant_agentic_wor.Cost.Families.{calculate_cost_bounds, calculate_cost_dated_mini}
use multi_tenant_agentic_wor.Executions.Backlog.{
  HasRoom, enforce_webhook_admission_iff, create_execution-HasRoom,
}
use multi_tenant_agentic_wor.Dispatcher.{
  RetryPolicy, DispatchReport, has_retryable_failure, dispatch_pending, apply_retry_policy,
}
use multi_tenant_agentic_wor.Dispatcher.Report.{AddsUp, dispatch_pending_total}
use multi_tenant_agentic_wor.Dispatcher.Policy.{Decided, apply_retry_policy_lem}

abbrev pub texts : Texts
texts = record {
  show_id = λ i. "id";
  show_time = λ n. "2026-01-01T00:02:40+00:00";
  read_time = λ s. some 160;
  read_int = λ s. none;
  lower = λ s. s;
  strip = λ s. s;
  utf8 = λ s. [];
  read_id = λ s. some 7;
  is_space = λ n. n == 32;
}

abbrev pub answer : AgentResult
answer = record {
  output = "done";
  action = "complete";
  reasoning = none;
  input_tokens = 3;
  output_tokens = 4;
  cost = 2;
  duration_ms = 5;
}

abbrev pub env : Env
env = record {
  execute_agent = λ c s w. (replies answer, w);
  execute_connector_node = λ t n w. (connector_raises "no connector", w);
  langgraph_error = λ g. none;
  error_text = λ e. "invalid graph";
  clean = λ s. s;
  json_dumps = λ v. "{}";
}

abbrev pub agent_node : String → Node
agent_node i = record { id = some i; kind = some "agent"; node_data = none }

abbrev pub two_agents : Definition
two_agents = record {
  nodes = agent_node "a" ∷ agent_node "b" ∷ [];
  edges = record { source = some "a"; target = some "b"; condition = none } ∷ [];
}

abbrev pub tenant : Tenant
tenant = record {
  id = 1;
  plan = some "pro";
  tokens_used = 0;
  token_budget = 1000;
  max_workflows = 3;
  name = "Acme";
  slug = "acme";
  max_agents_per_workflow = 3;
  alert_policy = record {
    enabled = none;
    channels = none;
    severities = none;
    alert_codes = none;
    cooldown_minutes = none;
  };
  worker_config = record { enabled = some true; interval_minutes = none; max_plans_per_run = none };
  created_at = 1;
}

abbrev pub workflow : Workflow
workflow = record {
  id = 2;
  tenant_id = 1;
  name = "review";
  description = "";
  definition = some two_agents;
  execution_pattern = "linear";
  is_active = true;
  dispatch_paused = false;
  dispatch_paused_at = none;
  dispatch_paused_by = none;
  created_by = 5;
  updated_at = 1;
}

abbrev pub config : ℕ → String → AgentConfig
config i n = record {
  id = i;
  workflow_id = 2;
  tenant_id = 1;
  node_id = some n;
  name = n;
  role = "analyzer";
  system_prompt = "";
  model = "gpt-4o";
  tools = Json.null;
  memory_type = "buffer";
  max_tokens = 100;
  temperature = 70;
  created_at = 1;
}

abbrev pub idle_world : World
idle_world = record {
  tenants = tenant ∷ [];
  workflows = workflow ∷ [];
  agent_configs = config 3 "a" ∷ config 4 "b" ∷ [];
  executions = [];
  logs = [];
  users = [];
  refresh_tokens = [];
  plans = [];
  worker_runs = [];
  triggers = [];
  webhook_events = [];
  alert_channels = [];
  alert_deliveries = [];
  acknowledgements = [];
  tools = [];
  suggestions = [];
  replay_runs = [];
  cache = [];
  active_executions = [];
  subscribers = [];
  clock = 100;
  next_id = 20;
}

abbrev pub webhook_input : Fields → Json
webhook_input d = Json.obj (
    Fields.field "trigger" (Json.obj (Fields.field "type" (Json.str "webhook") Fields.end))
      (Fields.field "dispatch" (Json.obj d) Fields.end))

abbrev pub execution : Status → Fields → Execution
execution s d = record {
  id = 7;
  tenant_id = 1;
  workflow_id = 2;
  status = s;
  input_data = some (webhook_input d);
  output_data = none;
  total_tokens = 0;
  total_cost = 0;
  error_message = none;
  started_at = none;
  completed_at = none;
  created_at = 90;
}

abbrev pub pending_world : World
pending_world = record idle_world { executions = execution pending Fields.end ∷ [] }

abbrev pub retryable_log : ExecutionLog
retryable_log = record {
  execution_id = 7;
  agent_config_id = none;
  step_number = 1;
  agent_name = "crm";
  action = "connector_error";
  input_data = none;
  output_data = Json.null;
  tokens_used = 0;
  cost = 0;
  decision_reasoning = none;
  duration_ms = none;
  node_id = some "a";
  node_type = "connector";
  connector_key = some "crm";
  action_key = some "create";
  retryable = true;
  sanitized_error = some "timeout";
}

abbrev pub failed_world : World
failed_world = record idle_world {
  executions = execution failed Fields.end ∷ [];
  logs = retryable_log ∷ [];
}

abbrev pub dead_fields : Fields
dead_fields = Fields.field "dead_lettered" (Json.bool true) Fields.end

abbrev pub dead_world : World
dead_world = record idle_world { executions = execution failed dead_fields ∷ [] }

abbrev pub retried : Execution
retried =
    new_execution texts dead_world 1 2 (some (retry_input texts (execution failed dead_fields) 5))

abbrev pub policy : RetryPolicy
policy = record { max_attempts = 3; backoff_seconds = 60 }

abbrev pub created : Execution
created = new_execution texts idle_world 1 2 none

abbrev pub running_world : World
running_world = record idle_world {
  executions = execution running Fields.end ∷ [];
  active_executions = (7, false) ∷ [];
}

abbrev pub job : Job
job = record {
  execution_id = 7;
  workflow_id = 2;
  tenant_id = 1;
  workflow = workflow;
  definition = two_agents;
  configs = config 3 "a" ∷ config 4 "b" ∷ [];
}

abbrev pub between_steps : Run
between_steps = record {
  world = record running_world { active_executions = (7, true) ∷ [] };
  state = record { messages = []; current_agent = ""; results = [] };
  queue = [];
  step_number = 1;
  iteration = 2;
}

abbrev pub settings : Settings
settings = record {
  trust_forwarded = false;
  first_address = λ s. s;
  max_requests = 1;
  window_seconds = 60;
}

abbrev pub api_request : Request
api_request = record {
  path = "/api/v1/workflows";
  method = "GET";
  tenant_id = some "1";
  forwarded_for = none;
  client_host = none;
}

abbrev pub moments : List Moment
moments =
    arrives 10 api_request
    ∷ leaves "tenant:1"
    ∷ arrives 20 api_request
    ∷ arrives 71 api_request
    ∷ []

abbrev pub watched_world : World
watched_world = record running_world {
  subscribers = (7, record { queue_id = 11; events = [] } ∷ []) ∷ [];
}
