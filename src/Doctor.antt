-- ===== src/Doctor.antt =====
-- backend/app/services/workflow_doctor_service.py: the suggestions that repair a workflow after a failed
-- execution, as patches of agent configurations and tools: their validation, replay, application and
-- dismissal. An operation that raises leaves the world as it was. The texts of errors are an argument.
pub mod Confined
pub mod Diagnosis
pub mod Patched
pub mod Replay
use multi_tenant_agentic_wor.Base.{
  ℕ, suc, String, Bool, true, false, not, ◌&&◌, ◌||◌, Option, none, some, List, [], ◌∷◌, ◌++◌, map,
  ◌==◌, if◌then◌else◌, leb, is_empty, find_where, select_where, update_where, any_where, contains,
  Result, ok, err, require, ◌>>=◌, ◌>>◌, nat_eq, string_eq,
}
use multi_tenant_agentic_wor.Base.Json
use multi_tenant_agentic_wor.Base.Json.{Json, Fields, Items, is_text}
use multi_tenant_agentic_wor.Graph.{
  CompilationError, Definition, NodeId, validate_definition, missing_configs,
}
use multi_tenant_agentic_wor.Tables.{
  Tool, Suggestion, SuggestionStatus, ReplayRun, replay_passed, replay_failed, applied, dismissed,
  suggestion_status_eq,
}
use multi_tenant_agentic_wor.Store.{Workflow, Execution, AgentConfig, World, Status, find_workflow}
use multi_tenant_agentic_wor.Store.Writes.{invalidate_tenant_cache}
use multi_tenant_agentic_wor.Texts.{Texts, has_text}
use multi_tenant_agentic_wor.Health.{is_present}
use multi_tenant_agentic_wor.Agents.{valid_models}
use multi_tenant_agentic_wor.Executions.{find_own, new_execution, insert_execution}

pub data DoctorError : Type 0 where
  patch_not_object operations_not_list operation_not_object secret_path not_replace : DoctorError
  target_not_text target_not_uuid target_not_allowed value_missing : DoctorError
  patched_agent_not_found patched_tool_not_found patched_model : DoctorError
  diagnosed_execution_not_found diagnosed_workflow_not_found suggestion_not_found : DoctorError
  invalid_mode : DoctorError
  not_diagnosable : Status → DoctorError
  suggestion_closed : SuggestionStatus → DoctorError
  patched_definition : CompilationError → DoctorError
  definition_missing : DoctorError
  nodes_missing : List NodeId → DoctorError
  models_left several_agents : DoctorError

abbrev pub found_or_fail {ℓ} : {A : Type ℓ} → Option A → DoctorError → Result DoctorError A
found_or_fail none e = err e
found_or_fail (some a) e = ok a

abbrev pub secret_path_parts : List String
secret_path_parts =
    "authorization" ∷ "cookie" ∷ "password" ∷ "secret" ∷ "token" ∷ "api_key" ∷ "apikey"
    ∷ "access_key" ∷ "private_key" ∷ []

-- `_is_secret_path`.
unfoldable pub is_secret_path : Texts → Option Json → Bool
unfolding any_where
is_secret_path t (some (Json.str path)) = any_where (has_text (t.lower path)) secret_path_parts
is_secret_path t _ = false

-- `ALLOWED_PATCH_TARGETS`.
abbrev pub is_allowed_target : Option Json → Option Json → Bool
is_allowed_target target path =
    (is_text target "agent_config" && is_text path "/model")
    || (is_text target "tool" && is_text path "/config/url")
    || (is_text target "tool" && is_text path "/config/method")

abbrev pub text_or : Option Json → DoctorError → Result DoctorError String
text_or (some (Json.str s)) e = ok s
text_or _ e = err e

-- The texts that `UUID` reads, and the row that they name.
abbrev pub target_of : Texts → Fields → Result DoctorError ℕ
target_of t d = do
  s ← text_or (Json.get "target_id" d) target_not_text
  found_or_fail (t.read_id s) target_not_uuid

unfoldable pub validate_operation : Texts → Json → Result DoctorError (Unit {0})
unfolding is_secret_path
validate_operation t (Json.obj d) = do
  require (not (is_present (Json.get "secret" d) || is_secret_path t (Json.get "path" d)))
      secret_path
  require (is_text (Json.get "op" d) "replace") not_replace
  i ← target_of t d
  require (is_allowed_target (Json.get "target_type" d) (Json.get "path" d)) target_not_allowed
validate_operation t _ = err operation_not_object

unfoldable pub validate_operations : Texts → Items → Result DoctorError (Unit {0})
unfolding validate_operation
validate_operations t Items.nil = ok tt
validate_operations t (Items.cons x xs) = do validate_operation t x; validate_operations t xs

abbrev pub validate_listed : Texts → Option Json → Result DoctorError (Unit {0})
unfolding validate_operations
validate_listed t none = ok tt
validate_listed t (some (Json.arr xs)) = validate_operations t xs
validate_listed t (some x) = err operations_not_list

-- `_validate_patch_operations`.
unfoldable pub validate_patch : Texts → Json → Result DoctorError (Unit {0})
validate_patch t (Json.obj d) = validate_listed t (Json.get "operations" d)
validate_patch t _ = err patch_not_object

-- `patch.get("operations", [])` of a patch that was validated.
abbrev pub listed : Option Json → Items
listed (some (Json.arr xs)) = xs
listed _ = Items.nil

abbrev pub operations_of : Json → Items
operations_of patch = listed (Json.get "operations" (Json.as_dict (some patch)))

-- `value in VALID_MODELS`.
unfoldable pub model_of : Json → Result DoctorError String
unfolding contains
model_of (Json.str s) = if contains valid_models s then ok s else err patched_model
model_of _ = err patched_model

abbrev pub is_own_agent : ℕ → ℕ → AgentConfig → Bool
is_own_agent tenant i a = a.id == i && a.tenant_id == tenant

unfoldable pub find_agent : World → ℕ → ℕ → Option AgentConfig
find_agent w tenant i = find_where (is_own_agent tenant i) w.agent_configs

-- The row that the query found is the one that is written.
unfoldable pub set_model : ℕ → ℕ → String → World → World
set_model tenant i model w = record w {
  agent_configs =
      update_where (is_own_agent tenant i) (λ a. record a { model = model }) w.agent_configs;
}

-- `operation["value"]` of a row's operation, once its path is known.
unfoldable pub patch_agent : ℕ → ℕ → Fields → World → Result DoctorError World
unfolding model_of set_model
patch_agent tenant i d w = do
  value ← found_or_fail (Json.get "value" d) value_missing
  model ← model_of value
  ok (set_model tenant i model w)

-- `_apply_agent_config_operation`.
unfoldable pub apply_agent_operation : Texts → ℕ → Fields → World → Result DoctorError World
unfolding find_agent patch_agent
apply_agent_operation t tenant d w = do
  i ← target_of t d
  a ← found_or_fail (find_agent w tenant i) patched_agent_not_found
  if is_text (Json.get "path" d) "/model" then patch_agent tenant i d w else ok w

abbrev pub is_own_tool : ℕ → ℕ → Tool → Bool
is_own_tool tenant i x = x.id == i && x.tenant_id == tenant && x.is_active

unfoldable pub find_tool : World → ℕ → ℕ → Option Tool
find_tool w tenant i = find_where (is_own_tool tenant i) w.tools

unfoldable pub set_config : ℕ → ℕ → String → Json → World → World
set_config tenant i key value w = record w {
  tools =
      update_where (is_own_tool tenant i) (λ x. record x { config = Json.put key value x.config })
        w.tools;
}

unfoldable pub patch_tool : ℕ → ℕ → String → Fields → World → Result DoctorError World
unfolding set_config
patch_tool tenant i key d w = do
  value ← found_or_fail (Json.get "value" d) value_missing
  ok (set_config tenant i key value w)

-- `_apply_tool_operation`.
unfoldable pub apply_tool_operation : Texts → ℕ → Fields → World → Result DoctorError World
unfolding find_tool patch_tool
apply_tool_operation t tenant d w = do
  i ← target_of t d
  x ← found_or_fail (find_tool w tenant i) patched_tool_not_found
  if is_text (Json.get "path" d) "/config/url"
      then patch_tool tenant i "url" d w
      else (if is_text (Json.get "path" d) "/config/method"
          then patch_tool tenant i "method" d w
          else ok w)

unfoldable pub apply_operation : Texts → ℕ → Json → World → Result DoctorError World
unfolding apply_agent_operation apply_tool_operation
apply_operation t tenant x w =
    let d = Json.as_dict (some x) in
    if is_text (Json.get "target_type" d) "agent_config"
    then apply_agent_operation t tenant d w
    else (if is_text (Json.get "target_type" d) "tool"
        then apply_tool_operation t tenant d w
        else ok w)

-- `_apply_patch_operations`.
unfoldable pub apply_operations : Texts → ℕ → Items → World → Result DoctorError World
unfolding apply_operation
apply_operations t tenant Items.nil w = ok w
apply_operations t tenant (Items.cons x xs) w = do
  w' ← apply_operation t tenant x w
  apply_operations t tenant xs w'

abbrev pub is_own_suggestion : ℕ → ℕ → Suggestion → Bool
is_own_suggestion tenant i s = s.id == i && s.tenant_id == tenant

unfoldable pub find_suggestion : World → ℕ → ℕ → Option Suggestion
find_suggestion w tenant i = find_where (is_own_suggestion tenant i) w.suggestions

unfoldable pub write_suggestion : ℕ → ℕ → (Suggestion → Suggestion) → World → World
write_suggestion tenant i change w = record w {
  suggestions = update_where (is_own_suggestion tenant i) change w.suggestions;
}

abbrev pub is_closed : SuggestionStatus → Bool
is_closed s = s == applied || s == dismissed

-- The new execution of the retry.
unfoldable pub retry_suggested :
    Texts → ℕ → Suggestion → Bool → World → Result DoctorError (Option ℕ × World)
unfolding find_own insert_execution invalidate_tenant_cache
retry_suggested t tenant s false w = ok (none, w)
retry_suggested t tenant s true w = do
  x ← found_or_fail (find_own w tenant s.execution_id) diagnosed_execution_not_found
  let y = new_execution t w tenant s.workflow_id x.input_data
  ok (some y.id, invalidate_tenant_cache tenant (insert_execution t y w))

unfoldable pub mark_applied : ℕ → ℕ → Suggestion → Suggestion
mark_applied now user s = record s {
  status = applied;
  applied_by = some user;
  applied_at = some now;
}

unfoldable pub apply_suggestion :
    Texts → World → ℕ → ℕ → ℕ → Bool → Result DoctorError (Option ℕ × World)
unfolding find_suggestion validate_patch apply_operations retry_suggested write_suggestion
    mark_applied
apply_suggestion t w tenant i user retry = do
  s ← found_or_fail (find_suggestion w tenant i) suggestion_not_found
  require (not (is_closed s.status)) (suggestion_closed s.status)
  validate_patch t s.patch
  w₁ ← apply_operations t tenant (operations_of s.patch) w
  (retried_as, w₂) ← retry_suggested t tenant s retry w₁
  ok (retried_as, write_suggestion tenant i (mark_applied w.clock user) w₂)

unfoldable pub mark_dismissed : ℕ → Suggestion → Suggestion
mark_dismissed now s = record s { status = dismissed; dismissed_at = some now }

unfoldable pub dismiss_suggestion : World → ℕ → ℕ → Result DoctorError World
unfolding find_suggestion write_suggestion mark_dismissed
dismiss_suggestion w tenant i = do
  s ← found_or_fail (find_suggestion w tenant i) suggestion_not_found
  require (not (s.status == applied)) (suggestion_closed s.status)
  ok (write_suggestion tenant i (mark_dismissed w.clock) w)
