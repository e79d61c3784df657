-- ===== src/Doctor/Diagnosis.antt =====
-- The diagnosis of a failed execution: the known patterns in the texts of its errors, and the suggestion
-- that answers each. json.dumps and the search by a regular expression are fields of Reader.
use Prim.Native.String.{◌++◌ as text_append}
use Prim.Native.Char.{code}
use multi_tenant_agentic_wor.Base.{
  ℕ, suc, String, Bool, true, false, not, ◌&&◌, ◌||◌, Option, none, some, List, [], ◌∷◌, ◌++◌, ◌==◌,
  if◌then◌else◌, leb, is_empty, select_where, update_where, any_where, contains, Result, ok, err,
  require, ◌>>=◌, ◌>>◌, nat_eq, string_eq,
}
use multi_tenant_agentic_wor.Base.Json
use multi_tenant_agentic_wor.Base.Json.{Json, Fields, Items}
use multi_tenant_agentic_wor.Tables.{Suggestion, proposed, dismissed, suggestion_status_eq}
use multi_tenant_agentic_wor.Store.{
  Workflow, Execution, ExecutionLog, AgentConfig, World, failed, cancelled, status_eq,
  find_workflow,
}
use multi_tenant_agentic_wor.Texts.{Texts, first_chars, has_text}
use multi_tenant_agentic_wor.Agents.{valid_models, is_agent_of}
use multi_tenant_agentic_wor.Executions.{find_own}
use multi_tenant_agentic_wor.Executions.Listing.{logs_of}
use multi_tenant_agentic_wor.Doctor.{
  DoctorError, diagnosed_execution_not_found, diagnosed_workflow_not_found, not_diagnosable,
  several_agents, found_or_fail, find_agent, is_closed, mark_dismissed,
}

pub record Reader : Type 0 where
  pub dumps : Json → String
  pub unsupported_model : String → Option String

-- `order_by(desc(created_at))`.
unfoldable pub insert_suggestion : Suggestion → List Suggestion → List Suggestion
insert_suggestion x [] = x ∷ []
insert_suggestion x (y ∷ ys) =
    let rest = insert_suggestion x ys in
    if leb y.created_at x.created_at then x ∷ y ∷ ys else y ∷ rest

unfoldable pub order_suggestions : List Suggestion → List Suggestion
unfolding insert_suggestion
order_suggestions [] = []
order_suggestions (x ∷ xs) = insert_suggestion x (order_suggestions xs)

abbrev pub is_suggested_for : ℕ → ℕ → Suggestion → Bool
is_suggested_for tenant execution s =
    s.execution_id == execution && s.tenant_id == tenant && not (s.status == dismissed)

-- `_list_suggestions_for_execution`.
unfoldable pub suggestions_for : World → ℕ → ℕ → List Suggestion
unfolding order_suggestions select_where
suggestions_for w tenant execution =
    order_suggestions (select_where (is_suggested_for tenant execution) w.suggestions)

unfoldable pub list_suggestions : World → ℕ → ℕ → Result DoctorError (List Suggestion)
unfolding find_own suggestions_for
list_suggestions w tenant execution = do
  x ← found_or_fail (find_own w tenant execution) diagnosed_execution_not_found
  ok (suggestions_for w tenant execution)

-- `_first_agent_config_id`.
abbrev pub first_agent_id : List ExecutionLog → Option ℕ
first_agent_id [] = none
first_agent_id (g ∷ logs) = elim g.agent_config_id [ none ↦ first_agent_id logs | some i ↦ some i ]

abbrev pub text_of : Option String → String
text_of none = ""
text_of (some s) = s

module _ (t : Texts) (r : Reader) where
  -- `_public_json`.
  abbrev pub public_json : Option Json → String
  public_json none = ""
  public_json (some Json.null) = ""
  public_json (some v) = r.dumps v

  abbrev pub pieces_of : List ExecutionLog → List String
  pieces_of [] = []
  pieces_of (g ∷ logs) =
      g.agent_name
      ∷ g.action
      ∷ public_json g.input_data
      ∷ public_json (some g.output_data)
      ∷ text_of g.decision_reasoning
      ∷ text_of g.sanitized_error
      ∷ pieces_of logs

  -- `"\n".join(pieces)`.
  abbrev pub join_lines : List String → String
  join_lines [] = ""
  join_lines (s ∷ []) = s
  join_lines (s ∷ s' ∷ ss) = text_append s (text_append "\n" (join_lines (s' ∷ ss)))

  unfoldable pub collect_error_text : Execution → List ExecutionLog → String
  unfolding select_where
  collect_error_text x logs =
      join_lines (select_where (λ s. not (s == "")) (text_of x.error_message ∷ pieces_of logs))

  -- `" ".join(s.split())`: `started` says that a word came before, `gap` that a space did.
  abbrev pub single_spaced : Bool → Bool → String → String
  single_spaced started gap String.[] = ""
  single_spaced started gap (String.◌∷◌ c s) =
      let spaced = single_spaced started true s in
      let rest = String.◌∷◌ c (single_spaced true false s) in
      if t.is_space (code c)
      then spaced
      else (if started && gap then text_append " " rest else rest)

  -- `_trim_public_error`.
  unfoldable pub trim_public_error : String → String
  trim_public_error s = first_chars 500 (single_spaced false false s)

  abbrev pub is_unsupported : AgentConfig → Bool
  unfolding contains
  is_unsupported a = not (contains valid_models a.model)

  -- `_workflow_has_unsupported_model`.
  unfoldable pub has_unsupported_model : World → ℕ → ℕ → Bool
  unfolding any_where contains
  has_unsupported_model w tenant workflow =
      any_where (λ a. is_agent_of tenant workflow a && is_unsupported a) w.agent_configs

  abbrev pub one_agent : List AgentConfig → Result DoctorError (Option AgentConfig)
  one_agent [] = ok none
  one_agent (a ∷ []) = ok (some a)
  one_agent (a ∷ b ∷ rows) = err several_agents

  abbrev pub logged_agent : World → ℕ → Option ℕ → Option AgentConfig
  unfolding find_agent
  logged_agent w tenant none = none
  logged_agent w tenant (some i) = find_agent w tenant i

  abbrev pub agent_or :
      Option AgentConfig
      → Result DoctorError (Option AgentConfig)
      → Result DoctorError (Option AgentConfig)
  agent_or none other = other
  agent_or (some a) other = ok (some a)

  -- `_find_agent_for_suggestion`.
  unfoldable pub find_agent_for_suggestion :
      World → ℕ → ℕ → List ExecutionLog → Result DoctorError (Option AgentConfig)
  unfolding find_agent select_where contains
  find_agent_for_suggestion w tenant workflow logs =
      agent_or (logged_agent w tenant (first_agent_id logs)) (
        one_agent
          (select_where (λ a. is_agent_of tenant workflow a && is_unsupported a) w.agent_configs))

  abbrev pub empty_patch : Json
  empty_patch = Json.obj (Json.field "operations" (Json.arr Items.nil) Json.end)

  -- The patch that replaces the model of an agent.
  abbrev pub model_patch : AgentConfig → String → Json
  model_patch a model =
      let value =
        Json.field "value" (Json.str "gpt-4o-mini")
          (Json.field "current_value" (Json.str model) Json.end) in
      let target =
        Json.field "target_id" (Json.str (t.show_id a.id))
          (Json.field "path" (Json.str "/model") value) in
      let operation = Json.obj (
        Json.field "op" (Json.str "replace")
          (Json.field "target_type" (Json.str "agent_config") target)) in
      Json.obj (Json.field "operations" (Json.arr (Items.cons operation Items.nil)) Json.end)

  abbrev pub new_suggestion :
      World → ℕ → Execution → Workflow → Option ℕ → String → String → String → ℕ → Json → Suggestion
  new_suggestion w tenant x f agent detector cause severity confidence patch = record {
    id = w.next_id;
    tenant_id = tenant;
    workflow_id = f.id;
    execution_id = x.id;
    agent_config_id = agent;
    detector_code = detector;
    root_cause = cause;
    severity = severity;
    confidence = confidence;
    patch = patch;
    replay_result = none;
    status = proposed;
    applied_by = none;
    applied_at = none;
    dismissed_at = none;
    created_at = w.clock;
  }

  -- The model that the text names, or that of the agent.
  abbrev pub model_or : Option String → Option AgentConfig → String
  model_or (some s) a = s
  model_or none (some a) = a.model
  model_or none none = "unknown"

  abbrev pub model_cause : String → String
  model_cause model =
      text_append "Agent execution referenced unsupported model '" (text_append model "'.")

  abbrev pub suggest_model :
      World → ℕ → Execution → Workflow → String → Option AgentConfig → Suggestion
  suggest_model w tenant x f model none =
      new_suggestion w tenant x f none "unsupported_model" (model_cause model) "high" 65 empty_patch
  suggest_model w tenant x f model (some a) =
      new_suggestion w tenant x f (some a.id) "unsupported_model" (model_cause model) "high" 90
        (model_patch a model)

  abbrev pub provider_cause : String → String
  provider_cause provider =
      text_append "The execution failed before model invocation because the "
        (text_append provider " provider key is missing from the server environment.")

  abbrev pub cause_or : String → String
  cause_or s = if s == "" then "The execution failed without a recognized error pattern." else s

  -- `_build_suggestion`.
  unfoldable pub build_suggestion :
      World → ℕ → Execution → Workflow → List ExecutionLog → String → Result DoctorError Suggestion
  unfolding trim_public_error has_unsupported_model find_agent_for_suggestion
  build_suggestion w tenant x f logs text =
      let lowered = t.lower text in
      let make = new_suggestion w tenant x f in
      if has_text lowered "api_key not configured"
      then ok (
          make (first_agent_id logs) "missing_provider_key"
            (provider_cause (if has_text lowered "openai" then "OpenAI" else "Anthropic")) "high" 95
            empty_patch)
      else (if has_text lowered "agent configs missing"
          then ok
              (make none "missing_agent_config" (trim_public_error text) "critical" 90 empty_patch)
          else (if has_text lowered "missing_connector_credential"
                || (has_text lowered "connector credential" && has_text lowered "missing")
              then ok (
                  make none "missing_connector_credential" (trim_public_error text) "high" 90
                    empty_patch)
              else (if has_text lowered "unsupported model" || has_unsupported_model w tenant f.id
                  then (do
                    a ← find_agent_for_suggestion w tenant f.id logs
                    ok (suggest_model w tenant x f (model_or (r.unsupported_model text) a) a))
                  else ok (
                      make (first_agent_id logs) "no_diagnosis_available"
                        (cause_or (trim_public_error text)) "medium" 20 empty_patch))))

  -- A forced diagnosis dismisses the suggestions that are neither applied nor dismissed.
  unfoldable pub dismiss_previous : Bool → ℕ → ℕ → World → World
  unfolding update_where
  dismiss_previous false tenant execution w = w
  dismiss_previous true tenant execution w = record w {
    suggestions =
        update_where (λ s. is_suggested_for tenant execution s && not (is_closed s.status))
          (mark_dismissed w.clock) w.suggestions;
  }

  unfoldable pub suggest :
      World → ℕ → Execution → Bool → Result DoctorError (List Suggestion × World)
  unfolding find_workflow logs_of collect_error_text build_suggestion dismiss_previous
  suggest w tenant x force = do
    let logs = logs_of w x.id
    f ← found_or_fail (find_workflow w tenant x.workflow_id) diagnosed_workflow_not_found
    s ← build_suggestion w tenant x f logs (collect_error_text x logs)
    let w' = dismiss_previous force tenant x.id w
    ok (s ∷ [], record w' { suggestions = w'.suggestions ++ s ∷ []; next_id = suc w.next_id })

  unfoldable pub diagnose_execution :
      World → ℕ → ℕ → Bool → Result DoctorError (List Suggestion × World)
  unfolding find_own suggestions_for suggest
  diagnose_execution w tenant i force = do
    x ← found_or_fail (find_own w tenant i) diagnosed_execution_not_found
    require (x.status == failed || x.status == cancelled) (not_diagnosable x.status)
    let existing = suggestions_for w tenant x.id
    if not (is_empty existing) && not force then ok (existing, w) else suggest w tenant x force
