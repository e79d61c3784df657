-- ===== src/Agents.antt =====
-- backend/app/services/agent_service.py: the agent configurations of a workflow. An operation that
-- raises leaves the world as it was. The proofs are in the modules below.
pub mod Limits
pub mod Nodes
use multi_tenant_agentic_wor.Base.{
  ℕ, suc, String, Bool, true, false, not, ◌&&◌, ◌||◌, Option, none, some, List, [], ◌∷◌, ◌++◌, map,
  ◌==◌, if◌then◌else◌, leb, find_where, select_where, update_where, count_where, contains, Result,
  ok, err, require, ◌>>=◌, ◌>>◌, nat_eq, string_eq, option_eq,
}
use multi_tenant_agentic_wor.Base.Json.{Json}
use multi_tenant_agentic_wor.Graph.{NodeId}
use multi_tenant_agentic_wor.Store.{
  Tenant, Workflow, AgentConfig, ExecutionLog, World, find_tenant, find_workflow,
}

pub data AgentError : Type 0 where
  agent_workflow_not_found agent_tenant_not_found agent_not_found agent_exists : AgentError
  invalid_role invalid_model invalid_memory_type : String → AgentError
  agent_limit : ℕ → AgentError

abbrev pub found_or {ℓ} : {A : Type ℓ} → Option A → AgentError → Result AgentError A
found_or none e = err e
found_or (some a) e = ok a

abbrev pub valid_roles : List String
valid_roles = "retriever" ∷ "analyzer" ∷ "validator" ∷ "escalator" ∷ "custom" ∷ []

abbrev pub valid_models : List String
valid_models = "gpt-4o" ∷ "gpt-4o-mini" ∷ "claude-sonnet" ∷ "claude-opus" ∷ []

abbrev pub valid_memory_types : List String
valid_memory_types = "buffer" ∷ "summary" ∷ "vector" ∷ []

-- `value is not None and value not in choices` raises.
unfoldable pub check_choice :
    List String → (String → AgentError) → Option String → Result AgentError (Unit {0})
unfolding contains
check_choice choices error none = ok tt
check_choice choices error (some s) = require (contains choices s) (error s)

unfoldable pub validate_fields :
    Option String → Option String → Option String → Result AgentError (Unit {0})
unfolding check_choice
validate_fields role model memory_type = do
  check_choice valid_roles invalid_role role
  check_choice valid_models invalid_model model
  check_choice valid_memory_types invalid_memory_type memory_type

-- What a request to create gives.
pub record AgentFields : Type 0 where
  pub node_id : NodeId
  pub name : String
  pub role : String
  pub system_prompt : String
  pub model : String
  pub tools : Json
  pub memory_type : String
  pub max_tokens : ℕ
  pub temperature : ℕ

abbrev pub is_agent_of : ℕ → ℕ → AgentConfig → Bool
is_agent_of tenant workflow a = a.workflow_id == workflow && a.tenant_id == tenant

abbrev pub is_at_node : ℕ → NodeId → AgentConfig → Bool
is_at_node workflow node a = a.workflow_id == workflow && a.node_id == node

-- `order_by(created_at)`.
unfoldable pub insert_agent : AgentConfig → List AgentConfig → List AgentConfig
insert_agent x [] = x ∷ []
insert_agent x (y ∷ ys) =
    let rest = insert_agent x ys in if leb x.created_at y.created_at then x ∷ y ∷ ys else y ∷ rest

unfoldable pub order_agents : List AgentConfig → List AgentConfig
unfolding insert_agent
order_agents [] = []
order_agents (x ∷ xs) = insert_agent x (order_agents xs)

unfoldable pub list_agents : World → ℕ → ℕ → Result AgentError (List AgentConfig)
unfolding find_workflow order_agents
list_agents w tenant workflow = do
  f ← found_or (find_workflow w tenant workflow) agent_workflow_not_found
  ok (order_agents (select_where (is_agent_of tenant workflow) w.agent_configs))

unfoldable pub count_agents : World → ℕ → ℕ → ℕ
count_agents w tenant workflow = count_where (is_agent_of tenant workflow) w.agent_configs

unfoldable pub find_at_node : World → ℕ → NodeId → Option AgentConfig
find_at_node w workflow node = find_where (is_at_node workflow node) w.agent_configs

abbrev pub is_free {ℓ} : {A : Type ℓ} → Option A → Bool
is_free none = true
is_free (some a) = false

abbrev pub new_agent : World → ℕ → ℕ → AgentFields → AgentConfig
new_agent w tenant workflow a = record {
  id = w.next_id;
  workflow_id = workflow;
  tenant_id = tenant;
  node_id = a.node_id;
  name = a.name;
  role = a.role;
  system_prompt = a.system_prompt;
  model = a.model;
  tools = a.tools;
  memory_type = a.memory_type;
  max_tokens = a.max_tokens;
  temperature = a.temperature;
  created_at = w.clock;
}

unfoldable pub add_agent : AgentConfig → World → World
add_agent a w = record w { agent_configs = w.agent_configs ++ a ∷ []; next_id = suc w.next_id }

unfoldable pub create_agent : World → ℕ → ℕ → AgentFields → Result AgentError (AgentConfig × World)
unfolding find_workflow validate_fields find_tenant count_agents find_at_node add_agent
create_agent w tenant workflow a = do
  f ← found_or (find_workflow w tenant workflow) agent_workflow_not_found
  validate_fields (some a.role) (some a.model) (some a.memory_type)
  u ← found_or (find_tenant w tenant) agent_tenant_not_found
  require (not (leb u.max_agents_per_workflow (count_agents w tenant workflow)))
      (agent_limit u.max_agents_per_workflow)
  require (is_free (find_at_node w workflow a.node_id)) agent_exists
  let x = new_agent w tenant workflow a
  ok (x, add_agent x w)

-- What a request to update gives; `none` leaves a column.
pub record AgentChanges : Type 0 where
  pub name : Option String
  pub role : Option String
  pub system_prompt : Option String
  pub model : Option String
  pub tools : Option Json
  pub memory_type : Option String
  pub max_tokens : Option ℕ
  pub temperature : Option ℕ

abbrev pub or_old {ℓ} : {A : Type ℓ} → Option A → A → A
or_old none old = old
or_old (some a) old = a

unfoldable pub change_agent : AgentChanges → AgentConfig → AgentConfig
change_agent c a = record a {
  name = or_old c.name a.name;
  role = or_old c.role a.role;
  system_prompt = or_old c.system_prompt a.system_prompt;
  model = or_old c.model a.model;
  tools = or_old c.tools a.tools;
  memory_type = or_old c.memory_type a.memory_type;
  max_tokens = or_old c.max_tokens a.max_tokens;
  temperature = or_old c.temperature a.temperature;
}

unfoldable pub find_agent : World → ℕ → ℕ → ℕ → Option AgentConfig
find_agent w tenant workflow i =
    find_where (λ a. a.id == i && is_agent_of tenant workflow a) w.agent_configs

unfoldable pub write_agent : ℕ → (AgentConfig → AgentConfig) → World → World
write_agent i change w = record w {
  agent_configs = update_where (λ a. a.id == i) change w.agent_configs;
}

unfoldable pub update_agent : World → ℕ → ℕ → ℕ → AgentChanges → Result AgentError World
unfolding find_workflow validate_fields find_agent change_agent write_agent
update_agent w tenant workflow i c = do
  f ← found_or (find_workflow w tenant workflow) agent_workflow_not_found
  validate_fields c.role c.model c.memory_type
  a ← found_or (find_agent w tenant workflow i) agent_not_found
  ok (write_agent a.id (change_agent c) w)

-- `db.delete`: the logs of the configuration stay and lose their reference to it, as for every
-- relationship without a cascade.
unfoldable pub remove_agent : ℕ → World → World
remove_agent i w = record w {
  agent_configs = select_where (λ a. not (a.id == i)) w.agent_configs;
  logs =
      update_where (λ l. elim l.agent_config_id [ none ↦ false | some k ↦ k == i ])
        (λ l. record l { agent_config_id = none }) w.logs;
}

unfoldable pub delete_agent : World → ℕ → ℕ → ℕ → Result AgentError World
unfolding find_workflow find_agent remove_agent
delete_agent w tenant workflow i = do
  f ← found_or (find_workflow w tenant workflow) agent_workflow_not_found
  a ← found_or (find_agent w tenant workflow i) agent_not_found
  ok (remove_agent a.id w)
