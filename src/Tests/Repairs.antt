-- ===== src/Tests/Repairs.antt =====
-- A suggestion of the workflow doctor in the small instance.
use multi_tenant_agentic_wor.Base.{
  ◌≡◌, refl, ℕ, Bool, false, none, some, [], ◌∷◌, ok, err, find_where, update_where, any_where,
  contains, nat_eq, string_eq,
}
use multi_tenant_agentic_wor.Base.Json
use multi_tenant_agentic_wor.Base.Json.{Json, Fields, Items}
use multi_tenant_agentic_wor.Tables.{Suggestion, proposed, applied, suggestion_status_eq}
use multi_tenant_agentic_wor.Store.{World}
use multi_tenant_agentic_wor.Doctor.{
  suggestion_closed, apply_suggestion, find_suggestion, validate_patch, validate_operations,
  validate_operation, is_secret_path, apply_operations, apply_operation, apply_agent_operation,
  find_agent, patch_agent, model_of, set_model, retry_suggested, write_suggestion, mark_applied,
}
use multi_tenant_agentic_wor.Doctor.Confined.{apply_suggestion-IsConfined}
use multi_tenant_agentic_wor.Doctor.Patched.{AgentPatched, Rows, ToolPatched}
use multi_tenant_agentic_wor.Tests.{texts, idle_world, config}

abbrev operation : Fields
operation = Json.field "op" (Json.str "replace") (
    Json.field "target_type" (Json.str "agent_config") (
      Json.field "target_id" (Json.str "id") (
        Json.field "path" (Json.str "/model")
          (Json.field "value" (Json.str "gpt-4o-mini") Json.end))))

abbrev suggestion : Suggestion
suggestion = record {
  id = 60;
  tenant_id = 1;
  workflow_id = 2;
  execution_id = 7;
  agent_config_id = some 7;
  detector_code = "unsupported_model";
  root_cause = "";
  severity = "high";
  confidence = 90;
  patch =
      Json.obj
        (Json.field "operations" (Json.arr (Items.cons (Json.obj operation) Items.nil)) Json.end);
  replay_result = none;
  status = proposed;
  applied_by = none;
  applied_at = none;
  dismissed_at = none;
  created_at = 95;
}

abbrev broken_world : World
broken_world = record idle_world {
  agent_configs = record (config 7 "a") { model = "gpt-2" } ∷ config 4 "b" ∷ [];
  suggestions = suggestion ∷ [];
}

abbrev repaired_world : World
repaired_world = record broken_world {
  agent_configs = record (config 7 "a") { model = "gpt-4o-mini" } ∷ config 4 "b" ∷ [];
  suggestions =
      record suggestion { status = applied; applied_by = some 5; applied_at = some 100 } ∷ [];
}

applied_once : apply_suggestion texts broken_world 1 60 5 false ≡ ok (none, repaired_world)
unfolding apply_suggestion find_suggestion find_where validate_patch validate_operations
    validate_operation is_secret_path any_where Json.get apply_operations apply_operation
    apply_agent_operation find_agent patch_agent model_of contains set_model update_where
    retry_suggested write_suggestion mark_applied
applied_once = refl

apply_suggestion-IsConfined_example :
    Rows (AgentPatched 1) broken_world.agent_configs repaired_world.agent_configs
    × Rows (ToolPatched 1) broken_world.tools repaired_world.tools
    × ((user : ℕ) (retry : Bool)
        → apply_suggestion texts repaired_world 1 60 user retry ≡ err (suggestion_closed applied))
apply_suggestion-IsConfined_example =
    apply_suggestion-IsConfined texts broken_world 1 60 5 false none repaired_world applied_once
