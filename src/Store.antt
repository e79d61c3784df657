-- ===== src/Store.antt =====
-- The state that the services share: the tables of backend/app/models, the analytics cache, and the
-- executor's dictionaries of running executions and WebSocket subscribers. An identifier (a UUID, and
-- its text) is a number; a time is a number of seconds; money is in units of 1e-8 USD, a temperature in hundredths.
pub mod Sockets
pub mod Writes
use multi_tenant_agentic_wor.Base.{
  ℕ, suc, ◌+◌, ◌≤◌, ◌≡◌, ◌↔◌, String, Bool, true, false, ◌&&◌, ◌||◌, not, Option, none, some, List,
  [], ◌∷◌, ◌++◌, map, arith, Eq, ◌==◌, nat_eq, string_eq, if◌then◌else◌, leb, find_where,
  select_where, update_where, count_where, is_empty,
}
use multi_tenant_agentic_wor.Base.Dict
use multi_tenant_agentic_wor.Base.Dict.{Dict}
use multi_tenant_agentic_wor.Base.Json.{Json}
use multi_tenant_agentic_wor.Graph.{Definition, NodeId}
use multi_tenant_agentic_wor.Tables.{
  User, RefreshToken, Plan, WorkerRun, StoredConfig, Trigger, WebhookEvent, StoredPolicy,
  AlertChannel, Delivery, Acknowledgement, Tool, Suggestion, ReplayRun,
}

pub record Tenant : Type 0 where
  pub id : ℕ
  pub name : String
  pub slug : String
  pub plan : Option String
  pub tokens_used : ℕ
  pub token_budget : ℕ
  pub max_workflows : ℕ
  pub max_agents_per_workflow : ℕ
  pub alert_policy : StoredPolicy
  pub worker_config : StoredConfig
  pub created_at : ℕ

pub record Workflow : Type 0 where
  pub id : ℕ
  pub tenant_id : ℕ
  pub name : String
  pub description : String
  pub definition : Option Definition
  pub execution_pattern : String
  pub is_active : Bool
  pub dispatch_paused : Bool
  pub dispatch_paused_at : Option ℕ
  pub dispatch_paused_by : Option ℕ
  pub created_by : ℕ
  pub updated_at : ℕ

pub data Status : Type 0 where
  pending running completed failed cancelled : Status

abbrev pub status_beq : Status → Status → Bool
status_beq pending pending = true
status_beq running running = true
status_beq completed completed = true
status_beq failed failed = true
status_beq cancelled cancelled = true
status_beq _ _ = false

pub status_beq_iff : (a b : Status) → (status_beq a b ≡ true) ↔ (a ≡ b)
status_beq_iff a b = ground arith

instance abbrev pub status_eq : Eq Status
status_eq = record { equals = status_beq; equals_iff = status_beq_iff }

-- The statuses that hold a concurrency slot.
abbrev pub is_active_status : Status → Bool
is_active_status s = s == pending || s == running

pub record Execution : Type 0 where
  pub id : ℕ
  pub tenant_id : ℕ
  pub workflow_id : ℕ
  pub status : Status
  pub input_data : Option Json
  pub output_data : Option (Dict String Json)
  pub total_tokens : ℕ
  pub total_cost : ℕ
  pub error_message : Option String
  pub started_at : Option ℕ
  pub completed_at : Option ℕ
  pub created_at : ℕ

pub record ExecutionLog : Type 0 where
  pub execution_id : ℕ
  pub agent_config_id : Option ℕ
  pub step_number : ℕ
  pub agent_name : String
  pub action : String
  pub input_data : Option Json
  pub output_data : Json
  pub tokens_used : ℕ
  pub cost : ℕ
  pub decision_reasoning : Option String
  pub duration_ms : Option ℕ
  pub node_id : NodeId
  pub node_type : String
  pub connector_key : Option String
  pub action_key : Option String
  pub retryable : Bool
  pub sanitized_error : Option String

pub record AgentConfig : Type 0 where
  pub id : ℕ
  pub workflow_id : ℕ
  pub tenant_id : ℕ
  pub node_id : NodeId
  pub name : String
  pub role : String
  pub system_prompt : String
  pub model : String
  pub tools : Json
  pub memory_type : String
  pub max_tokens : ℕ
  pub temperature : ℕ
  pub created_at : ℕ

-- What the executor sends to its WebSocket subscribers.
pub data Event : Type 0 where
  step_start : (agent_name : String) (step_number : ℕ) → Event
  step_complete :
      (agent_name : String) (step_number : ℕ) (tokens : ℕ) (cost : ℕ) (duration_ms : Option ℕ)
      → Event
  error fatal_error : (message : String) (agent_name : String) (step_number : ℕ) → Event
  execution_complete :
      (status : Status) (total_tokens : ℕ) (total_cost : ℕ)
      (output_data : Option (Dict String Json))
      → Event

-- An asyncio queue: its identity, and what was put into it, oldest first.
pub record Queue : Type 0 where
  pub queue_id : ℕ
  pub events : List Event

pub record CacheEntry : Type 0 where
  pub tenant_key : ℕ
  pub body : String

pub record World : Type 0 where
  pub tenants : List Tenant
  pub workflows : List Workflow
  pub agent_configs : List AgentConfig
  pub executions : List Execution
  pub logs : List ExecutionLog
  pub users : List User
  pub refresh_tokens : List RefreshToken
  pub plans : List Plan
  pub worker_runs : List WorkerRun
  pub triggers : List Trigger
  pub webhook_events : List WebhookEvent
  pub alert_channels : List AlertChannel
  pub alert_deliveries : List Delivery
  pub acknowledgements : List Acknowledgement
  pub tools : List Tool
  pub suggestions : List Suggestion
  pub replay_runs : List ReplayRun
  pub cache : List CacheEntry
  pub active_executions : Dict ℕ Bool
  pub subscribers : Dict ℕ (List Queue)
  pub clock : ℕ
  pub next_id : ℕ

-- Queries on a primary key.
unfoldable pub find_tenant : World → ℕ → Option Tenant
find_tenant w i = find_where (λ t. t.id == i) w.tenants

unfoldable pub find_execution : World → ℕ → Option Execution
find_execution w i = find_where (λ x. x.id == i) w.executions

-- A workflow of the tenant that is not deleted.
unfoldable pub find_workflow : World → ℕ → ℕ → Option Workflow
find_workflow w tenant i =
    find_where (λ f. f.id == i && f.tenant_id == tenant && f.is_active) w.workflows
