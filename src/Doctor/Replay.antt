-- ===== src/Doctor/Replay.antt =====
-- The replay of a suggestion: its patch is tried on a snapshot of the agent configurations.
use multi_tenant_agentic_wor.Base.{
  ℕ, suc, String, Bool, false, not, Option, none, some, List, [], ◌∷◌, ◌++◌, map, ◌==◌,
  if◌then◌else◌, is_empty, select_where, find_where, update_where, all_where, contains, Result, ok,
  err, require, ◌>>=◌, ◌>>◌, nat_eq, string_eq,
}
use multi_tenant_agentic_wor.Base.Json
use multi_tenant_agentic_wor.Base.Json.{Json, Fields, Items, is_text}
use multi_tenant_agentic_wor.Graph.{CompilationError, NodeId, validate_definition, missing_configs}
use multi_tenant_agentic_wor.Tables.{Suggestion, ReplayRun, replay_passed, replay_failed}
use multi_tenant_agentic_wor.Store.{AgentConfig, World, find_workflow}
use multi_tenant_agentic_wor.Texts.{Texts}
use multi_tenant_agentic_wor.Agents.{valid_models, is_agent_of}
use multi_tenant_agentic_wor.Doctor.{
  DoctorError, patched_agent_not_found, value_missing, target_not_text,
  diagnosed_workflow_not_found, definition_missing, patched_definition, nodes_missing, models_left,
  invalid_mode, suggestion_not_found, suggestion_closed, found_or_fail, text_or, validate_patch,
  operations_of, find_suggestion, write_suggestion, is_closed,
}

-- What the snapshot keeps of an agent configuration: the text of its identifier, its node, its model.
pub record Snapshot : Type 0 where
  pub key : String
  pub node_id : NodeId
  pub model : Json

abbrev pub snapshot_of : Texts → AgentConfig → Snapshot
snapshot_of t a = record { key = t.show_id a.id; node_id = a.node_id; model = Json.str a.model }

unfoldable pub snapshot_agents : Texts → World → ℕ → ℕ → List Snapshot
unfolding select_where
snapshot_agents t w tenant workflow =
    map (snapshot_of t) (select_where (is_agent_of tenant workflow) w.agent_configs)

unfoldable pub find_snapshot : String → List Snapshot → Option Snapshot
unfolding find_where
find_snapshot key = find_where (λ a. a.key == key)

unfoldable pub try_model : String → Option Json → List Snapshot → Result DoctorError (List Snapshot)
unfolding update_where
try_model key none agents = err value_missing
try_model key (some value) agents =
    ok (update_where (λ a. a.key == key) (λ a. record a { model = value }) agents)

unfoldable pub try_agent_operation : Fields → List Snapshot → Result DoctorError (List Snapshot)
unfolding find_snapshot try_model
try_agent_operation d agents = do
  key ← text_or (Json.get "target_id" d) target_not_text
  a ← found_or_fail (find_snapshot key agents) patched_agent_not_found
  if is_text (Json.get "path" d) "/model"
      then try_model key (Json.get "value" d) agents
      else ok agents

unfoldable pub try_operation : Json → List Snapshot → Result DoctorError (List Snapshot)
unfolding try_agent_operation
try_operation x agents =
    let d = Json.as_dict (some x) in
    if is_text (Json.get "target_type" d) "agent_config"
    then try_agent_operation d agents
    else ok agents

-- `_apply_operations_to_agent_snapshot`.
unfoldable pub try_operations : Items → List Snapshot → Result DoctorError (List Snapshot)
unfolding try_operation
try_operations Items.nil agents = ok agents
try_operations (Items.cons x xs) agents = do
  agents' ← try_operation x agents
  try_operations xs agents'

abbrev pub is_supported : Json → Bool
unfolding contains
is_supported (Json.str s) = contains valid_models s
is_supported _ = false

abbrev pub as_doctor : Result CompilationError (Unit {0}) → Result DoctorError (Unit {0})
as_doctor (ok u) = ok tt
as_doctor (err e) = err (patched_definition e)

abbrev pub replay_result : Json
replay_result = Json.obj (
    Json.field "external_calls_executed" (Json.bool false) (
      Json.field "checks"
        (Json.arr (
          Items.cons (Json.str "patch_paths_allowed") (
            Items.cons (Json.str "workflow_definition_valid") (
              Items.cons (Json.str "agent_configs_present")
                (Items.cons (Json.str "agent_models_supported") Items.nil)))))
        (Json.field "message" (Json.str "Patch validated without executing tools or model calls.")
          Json.end)))

abbrev pub replay_error : String → Json
replay_error s = Json.obj (
    Json.field "external_calls_executed" (Json.bool false)
      (Json.field "error" (Json.str s) Json.end))

-- `_validate_replay_patch`.
unfoldable pub validate_replay_patch : Texts → World → ℕ → Suggestion → Result DoctorError Json
unfolding find_workflow snapshot_agents try_operations validate_definition missing_configs all_where
validate_replay_patch t w tenant s = do
  f ← found_or_fail (find_workflow w tenant s.workflow_id) diagnosed_workflow_not_found
  agents ← try_operations (operations_of s.patch) (snapshot_agents t w tenant f.id)
  d ← found_or_fail f.definition definition_missing
  as_doctor (validate_definition d)
  require (is_empty (missing_configs d (map (λ a. a.node_id) agents)))
      (nodes_missing (missing_configs d (map (λ a. a.node_id) agents)))
  require (all_where (λ a. is_supported a.model) agents) models_left
  ok replay_result

-- The end of a replay: passed with a result, or failed with the text of what was raised.
abbrev pub replayed : Result DoctorError Json → (DoctorError → String) → ReplayRun → ReplayRun
replayed (ok v) detail r = record r { status = "passed"; result = v }
replayed (err e) detail r = record r { status = "failed"; result = replay_error (detail e) }

abbrev pub mark_replayed :
    Result DoctorError Json → (DoctorError → String) → Suggestion → Suggestion
mark_replayed (ok v) detail s = record s { status = replay_passed; replay_result = some v }
mark_replayed (err e) detail s = record s {
  status = replay_failed;
  replay_result = some (replay_error (detail e));
}

abbrev pub new_replay_run : World → ℕ → Suggestion → String → ReplayRun
new_replay_run w tenant s mode = record {
  id = w.next_id;
  tenant_id = tenant;
  workflow_id = s.workflow_id;
  execution_id = s.execution_id;
  suggestion_id = s.id;
  mode = mode;
  status = "running";
  result = Json.obj (Json.field "external_calls_executed" (Json.bool false) Json.end);
  completed_at = some w.clock;
  created_at = w.clock;
}

unfoldable pub try_patch : Texts → World → ℕ → Suggestion → Result DoctorError Json
unfolding validate_patch validate_replay_patch
try_patch t w tenant s = do validate_patch t s.patch; validate_replay_patch t w tenant s

unfoldable pub replay_suggestion :
    Texts → (DoctorError → String) → World → ℕ → ℕ → String → Result DoctorError (ReplayRun × World)
unfolding find_suggestion try_patch write_suggestion
replay_suggestion t detail w tenant i mode = do
  require (mode == "validation_only") invalid_mode
  s ← found_or_fail (find_suggestion w tenant i) suggestion_not_found
  require (not (is_closed s.status)) (suggestion_closed s.status)
  let outcome = try_patch t w tenant s
  let r = replayed outcome detail (new_replay_run w tenant s mode)
  ok (
    r,
    write_suggestion tenant i (mark_replayed outcome detail)
        (record w { replay_runs = w.replay_runs ++ r ∷ []; next_id = suc w.next_id }),
  )
