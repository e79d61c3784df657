-- ===== src/Executions.antt =====
-- backend/app/services/execution_service.py: admission, creation, retry and cancellation of
-- executions. The proofs are in the modules below.
pub mod Admission
pub mod Backlog
pub mod Cancel
pub mod Listing
pub mod Retry
pub mod Waiting
use multi_tenant_agentic_wor.Base.{
  ℕ, zero, suc, ◌+◌, ◌*◌, String, Bool, true, false, not, ◌&&◌, ◌||◌, Option, none, some, List, [],
  ◌∷◌, ◌++◌, ◌==◌, if◌then◌else◌, leb, is_empty, find_where, select_where, update_where,
  count_where, Result, ok, err, require, ◌>>=◌, ◌>>◌, string_eq, nat_eq,
}
use multi_tenant_agentic_wor.Base.Int.{pos}
use multi_tenant_agentic_wor.Base.Json
use multi_tenant_agentic_wor.Base.Json.{Json, Fields, is_true}
use multi_tenant_agentic_wor.Graph.{Definition, CompilationError, validate_definition, or_default}
use multi_tenant_agentic_wor.Store.{
  Tenant, Workflow, Execution, World, Status, pending, running, failed, cancelled, status_eq,
  is_active_status, find_tenant, find_workflow,
}
use multi_tenant_agentic_wor.Store.Writes.{invalidate_tenant_cache, request_cancel}
use multi_tenant_agentic_wor.Texts.{
  Texts, input_dict, dispatch_metadata, is_webhook_trigger, attempt_number, root_or,
}

-- The HTTPExceptions of the service.
pub data HttpError : Type 0 where
  workflow_not_found execution_not_found tenant_not_found no_nodes_defined : HttpError
  invalid_graph : CompilationError → HttpError
  over_budget backlog_full not_dead_letter invalid_status_filter : HttpError
  limit_reached : ℕ → HttpError
  not_cancellable : Status → HttpError

abbrev pub or_raise {ℓ} : {A : Type ℓ} → Option A → HttpError → Result HttpError A
or_raise none e = err e
or_raise (some a) e = ok a

-- `PLAN_CONCURRENT_EXECUTION_LIMITS.get(plan, 1)`.
abbrev pub plan_limit : String → ℕ
plan_limit plan =
    if plan == "free" then 1 else if plan == "pro" then 5 else if plan == "team" then 20 else 1

unfoldable pub count_active : World → ℕ → ℕ
count_active w tenant =
    count_where (λ x. x.tenant_id == tenant && is_active_status x.status) w.executions

-- `_get_execution`: an execution of the tenant.
unfoldable pub find_own : World → ℕ → ℕ → Option Execution
find_own w tenant i = find_where (λ x. x.id == i && x.tenant_id == tenant) w.executions

abbrev pub webhook_backlog_multiplier : ℕ
webhook_backlog_multiplier = 10

abbrev pub has_nodes : Option Definition → Bool
has_nodes none = false
has_nodes (some d) = not (is_empty d.nodes)

-- `except CompilationError`: the 400 of an invalid graph.
abbrev pub as_http : Result CompilationError (Unit {0}) → Result HttpError (Unit {0})
as_http (ok u) = ok tt
as_http (err e) = err (invalid_graph e)

abbrev pub check_definition : Option Definition → Result HttpError (Unit {0})
check_definition none = err no_nodes_defined
check_definition (some d) = as_http (validate_definition d)

module _ (t : Texts) where
  unfoldable pub concurrent_limit : Option String → ℕ
  concurrent_limit plan = plan_limit (t.lower (or_default plan "free"))

  unfoldable pub enforce_webhook_admission : World → ℕ → Result HttpError (Unit {0})
  unfolding concurrent_limit count_active find_tenant
  enforce_webhook_admission w tenant = do
    u ← or_raise (find_tenant w tenant) tenant_not_found
    require (not (leb u.token_budget u.tokens_used)) over_budget
    require
        (not (leb (concurrent_limit u.plan * webhook_backlog_multiplier) (count_active w tenant)))
        backlog_full

  -- The new row of a pending execution.
  abbrev pub new_execution : World → ℕ → ℕ → Option Json → Execution
  new_execution w tenant workflow input = record {
    id = w.next_id;
    tenant_id = tenant;
    workflow_id = workflow;
    status = pending;
    input_data = input;
    output_data = none;
    total_tokens = 0;
    total_cost = 0;
    error_message = none;
    started_at = none;
    completed_at = none;
    created_at = w.clock;
  }

  unfoldable pub insert_execution : Execution → World → World
  insert_execution x w = record w { executions = w.executions ++ x ∷ []; next_id = suc w.next_id }

  unfoldable pub create_execution :
      World → ℕ → ℕ → Option Json → Result HttpError (Execution × World)
  unfolding find_workflow find_tenant concurrent_limit count_active insert_execution
  create_execution w tenant workflow input = do
    f ← or_raise (find_workflow w tenant workflow) workflow_not_found
    require (has_nodes f.definition) no_nodes_defined
    check_definition f.definition
    u ← or_raise (find_tenant w tenant) tenant_not_found
    require (not (leb u.token_budget u.tokens_used)) over_budget
    require (not (leb (concurrent_limit u.plan) (count_active w tenant)))
        (limit_reached (concurrent_limit u.plan))
    let x = new_execution w tenant workflow input
    ok (x, invalidate_tenant_cache tenant (insert_execution x w))

  abbrev pub is_dead_letter : Execution → Bool
  is_dead_letter x =
      x.status == failed
      && is_webhook_trigger x.input_data
      && is_true (Json.get "dead_lettered" (dispatch_metadata x.input_data))

  abbrev pub retry_metadata : Execution → ℕ → Fields
  retry_metadata x user =
      let d₀ = dispatch_metadata x.input_data in
      let own = Json.str (t.show_id x.id) in
      let d₁ = Json.put "attempt" (Json.num (pos (attempt_number t x.input_data + 1))) d₀ in
      let d₂ = Json.put "root_execution_id" (root_or (Json.get "root_execution_id" d₀) own) d₁ in
      let d₃ = Json.put "parent_execution_id" own d₂ in
      let d₄ = Json.put "previous_execution_id" own d₃ in
      let d₅ = Json.put "manual_retry" (Json.bool true) d₄ in
      let d₆ = Json.put "requested_by_user_id" (Json.str (t.show_id user)) d₅ in
      let d₇ = Json.put "dead_lettered" (Json.bool false) d₆ in
      Json.pop "next_attempt_at" (Json.pop "dead_letter_reason" d₇)

  unfoldable pub retry_input : Execution → ℕ → Json
  unfolding attempt_number
  retry_input x user =
      Json.obj (Json.put "dispatch" (Json.obj (retry_metadata x user)) (input_dict x.input_data))

  unfoldable pub retry_dead_letter_execution :
      World → ℕ → ℕ → ℕ → Result HttpError (Execution × World)
  unfolding find_own create_execution
  retry_dead_letter_execution w tenant i user = do
    x ← or_raise (find_own w tenant i) execution_not_found
    require (is_dead_letter x) not_dead_letter
    create_execution w tenant x.workflow_id (some (retry_input x user))

abbrev pub cancelled_by_user : ℕ → Execution → Execution
cancelled_by_user now x = record x {
  status = cancelled;
  error_message = some "Execution cancelled by user";
  completed_at = some now;
}

-- The row is read again where the executor did not know the execution.
unfoldable pub check_again : Bool → World → ℕ → ℕ → Result HttpError (Unit {0})
unfolding find_own
check_again true w tenant i = ok tt
check_again false w tenant i = do
  x ← or_raise (find_own w tenant i) execution_not_found
  require (is_active_status x.status) (not_cancellable x.status)

unfoldable pub cancel_by_status :
    (World → World) → World → ℕ → Execution → Status → Result HttpError (Execution × World)
unfolding check_again request_cancel invalidate_tenant_cache
cancel_by_status meanwhile w tenant x running = do
  let (flagged, w₁) = request_cancel x.id w
  let w₂ = if flagged then w₁ else meanwhile w₁
  check_again flagged w₂ tenant x.id
  ok (x, w₂)
cancel_by_status meanwhile w tenant x pending = ok (
  cancelled_by_user w.clock x,
  invalidate_tenant_cache tenant (record w {
    executions = update_where (λ y. y.id == x.id) (cancelled_by_user w.clock) w.executions;
  }),
)
cancel_by_status meanwhile w tenant x s = err (not_cancellable s)

-- `meanwhile` is what other tasks do between the two reads.
unfoldable pub cancel_execution :
    (World → World) → World → ℕ → ℕ → Result HttpError (Execution × World)
unfolding find_own cancel_by_status
cancel_execution meanwhile w tenant i = do
  x ← or_raise (find_own w tenant i) execution_not_found
  cancel_by_status meanwhile w tenant x x.status
