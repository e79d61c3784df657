-- ===== src/Executions/Listing.antt =====
-- The queries of backend/app/services/execution_service.py: a page of the executions of a tenant, one of
-- them, and its logs.
use multi_tenant_agentic_wor.Base.{
  ℕ, ◌-◌, ◌*◌, String, Bool, true, ◌&&◌, Option, none, some, List, [], ◌∷◌, ◌==◌, if◌then◌else◌,
  leb, take, drop, select_where, count_where, Result, ok, err, ◌>>=◌, nat_eq, string_eq,
}
use multi_tenant_agentic_wor.Store.{
  Execution, ExecutionLog, World, Status, pending, running, completed, failed, cancelled, status_eq,
}
use multi_tenant_agentic_wor.Executions.{
  HttpError, execution_not_found, invalid_status_filter, or_raise, find_own,
}

-- `ExecutionListResponse`.
pub record ExecutionPage : Type 0 where
  pub items : List Execution
  pub total : ℕ
  pub page : ℕ
  pub per_page : ℕ

-- The valid texts of a filter.
abbrev pub status_of : String → Result HttpError Status
status_of s =
    if s == "pending"
    then ok pending
    else (if s == "running"
        then ok running
        else (if s == "completed"
            then ok completed
            else (if s == "failed"
                then ok failed
                else (if s == "cancelled" then ok cancelled else err invalid_status_filter))))

-- An empty filter is none.
abbrev pub filter_of : Option String → Result HttpError (Option Status)
filter_of none = ok none
filter_of (some s) = if s == "" then ok none else (do status ← status_of s; ok (some status))

abbrev pub is_of_workflow : Option ℕ → Execution → Bool
is_of_workflow none x = true
is_of_workflow (some i) x = x.workflow_id == i

abbrev pub has_status : Option Status → Execution → Bool
has_status none x = true
has_status (some status) x = x.status == status

abbrev pub is_selected : ℕ → Option ℕ → Option Status → Execution → Bool
is_selected tenant workflow status x =
    x.tenant_id == tenant && is_of_workflow workflow x && has_status status x

-- `order_by(desc(created_at))`.
unfoldable pub insert_newest : Execution → List Execution → List Execution
insert_newest x [] = x ∷ []
insert_newest x (y ∷ ys) =
    let rest = insert_newest x ys in if leb y.created_at x.created_at then x ∷ y ∷ ys else y ∷ rest

unfoldable pub order_newest : List Execution → List Execution
unfolding insert_newest
order_newest [] = []
order_newest (x ∷ xs) = insert_newest x (order_newest xs)

unfoldable pub list_executions :
    World → ℕ → Option ℕ → Option String → ℕ → ℕ → Result HttpError ExecutionPage
unfolding order_newest select_where count_where
list_executions w tenant workflow filter page per_page = do
  status ← filter_of filter
  let p = is_selected tenant workflow status
  ok (record {
    items =
        take per_page (drop ((page - 1) * per_page) (order_newest (select_where p w.executions)));
    total = count_where p w.executions;
    page = page;
    per_page = per_page;
  })

unfoldable pub get_execution : World → ℕ → ℕ → Result HttpError Execution
unfolding find_own
get_execution w tenant i = or_raise (find_own w tenant i) execution_not_found

-- `order_by(step_number)`.
unfoldable pub insert_log : ExecutionLog → List ExecutionLog → List ExecutionLog
insert_log x [] = x ∷ []
insert_log x (y ∷ ys) =
    let rest = insert_log x ys in if leb x.step_number y.step_number then x ∷ y ∷ ys else y ∷ rest

unfoldable pub order_logs : List ExecutionLog → List ExecutionLog
unfolding insert_log
order_logs [] = []
order_logs (x ∷ xs) = insert_log x (order_logs xs)

unfoldable pub logs_of : World → ℕ → List ExecutionLog
unfolding order_logs select_where
logs_of w execution = order_logs (select_where (λ g. g.execution_id == execution) w.logs)

unfoldable pub get_execution_logs : World → ℕ → ℕ → Result HttpError (List ExecutionLog)
unfolding get_execution logs_of
get_execution_logs w tenant i = do x ← get_execution w tenant i; ok (logs_of w i)
