-- ===== src/Dispatcher.antt =====
-- backend/app/services/webhook_dispatcher_service.py: pending webhook executions are run in batches,
-- and failed ones are tried again later or dead-lettered. The proofs are in the modules below.
pub mod Report
pub mod Rounds
pub mod Policy
use multi_tenant_agentic_wor.Base.{
  ℕ, zero, suc, ◌+◌, String, Bool, true, false, not, ◌&&◌, ◌||◌, Option, none, some, List, [], ◌∷◌,
  ◌++◌, ◌==◌, if◌then◌else◌, leb, ltb, max, take, find_where, select_where, update_where, any_where,
  nat_eq, string_eq,
}
use multi_tenant_agentic_wor.Base.Int.{pos}
use multi_tenant_agentic_wor.Base.Json
use multi_tenant_agentic_wor.Base.Json.{Json, Fields}
use multi_tenant_agentic_wor.Store.{
  Execution, World, Status, pending, failed, status_eq, find_execution,
}
use multi_tenant_agentic_wor.Executor.{Env, Outcome, returned, raised, starved}
use multi_tenant_agentic_wor.Executor.Loop.{run_execution}
use multi_tenant_agentic_wor.Texts.{
  Texts, input_dict, dispatch_metadata, is_webhook_trigger, attempt_number, root_or,
}

pub record DispatchReport : Type 0 where
  pub scanned : ℕ
  pub dispatched : ℕ
  pub skipped : ℕ
  pub deferred : ℕ
  pub paused : ℕ
  pub retries_scheduled : ℕ
  pub dead_lettered : ℕ
  pub execution_ids : List ℕ

abbrev pub empty_report : DispatchReport
empty_report = record {
  scanned = 0;
  dispatched = 0;
  skipped = 0;
  deferred = 0;
  paused = 0;
  retries_scheduled = 0;
  dead_lettered = 0;
  execution_ids = [];
}

pub record RetryPolicy : Type 0 where
  pub max_attempts : ℕ
  pub backoff_seconds : ℕ

pub data RetryResult : Type 0 where
  nothing_to_do retry_scheduled dead_letter : RetryResult

abbrev pub pending_scan_limit : ℕ
pending_scan_limit = 100

-- `ORDER BY created_at, id`.
abbrev pub is_before : Execution → Execution → Bool
is_before x y = ltb x.created_at y.created_at || x.created_at == y.created_at && leb x.id y.id

unfoldable pub insert_ordered : Execution → List Execution → List Execution
insert_ordered x [] = x ∷ []
insert_ordered x (y ∷ ys) = if is_before x y then x ∷ y ∷ ys else y ∷ insert_ordered x ys

unfoldable pub order_by_created : List Execution → List Execution
unfolding insert_ordered
order_by_created [] = []
order_by_created (x ∷ xs) = insert_ordered x (order_by_created xs)

unfoldable pub pending_execution_candidates : World → ℕ → List Execution
unfolding order_by_created
pending_execution_candidates w scan_limit =
    take scan_limit (order_by_created (select_where (λ x. x.status == pending) w.executions))

unfoldable pub has_retryable_failure : World → ℕ → Bool
has_retryable_failure w i = any_where (λ l. l.execution_id == i && l.retryable) w.logs

unfoldable pub is_workflow_dispatch_paused : World → ℕ → Bool
is_workflow_dispatch_paused w f = elim (find_where (λ v. v.id == f) w.workflows) [
  | none ↦ false
  | some v ↦ v.dispatch_paused
]

abbrev pub with_dispatch_metadata : Option Json → Fields → Json
with_dispatch_metadata input d = Json.obj (Json.put "dispatch" (Json.obj d) (input_dict input))

abbrev pub count_retry : RetryResult → DispatchReport → DispatchReport
count_retry nothing_to_do r = r
count_retry retry_scheduled r = record r { retries_scheduled = r.retries_scheduled + 1 }
count_retry dead_letter r = record r { dead_lettered = r.dead_lettered + 1 }

module _ (t : Texts) where
  -- `_parse_datetime`.
  abbrev pub parse_datetime : Option Json → Option ℕ
  parse_datetime (some (Json.str s)) = if s == "" then none else t.read_time s
  parse_datetime _ = none

  abbrev pub is_due_at : Option ℕ → ℕ → Bool
  is_due_at none now = true
  is_due_at (some next) now = leb next now

  unfoldable pub is_retry_due : Option Json → ℕ → Bool
  is_retry_due input now =
      is_due_at (parse_datetime (Json.get "next_attempt_at" (dispatch_metadata input))) now

  abbrev pub next_metadata : Execution → RetryPolicy → ℕ → Fields
  next_metadata x policy now =
      let d₀ = dispatch_metadata x.input_data in
      let own = Json.str (t.show_id x.id) in
      let later = Json.str (t.show_time (now + policy.backoff_seconds)) in
      let d₁ = Json.put "attempt" (Json.num (pos (attempt_number t x.input_data + 1))) d₀ in
      let d₂ = Json.put "root_execution_id" (root_or (Json.get "root_execution_id" d₀) own) d₁ in
      let d₃ = Json.put "parent_execution_id" own d₂ in
      let d₄ = Json.put "previous_execution_id" own d₃ in
      let d₅ = Json.put "next_attempt_at" later d₄ in Json.put "dead_lettered" (Json.bool false) d₅

  unfoldable pub retry_row : World → Execution → RetryPolicy → ℕ → Execution
  unfolding attempt_number
  retry_row w x policy now = record {
    id = w.next_id;
    tenant_id = x.tenant_id;
    workflow_id = x.workflow_id;
    status = pending;
    input_data = some (with_dispatch_metadata x.input_data (next_metadata x policy now));
    output_data = none;
    total_tokens = 0;
    total_cost = 0;
    error_message = none;
    started_at = none;
    completed_at = none;
    created_at = w.clock;
  }

  unfoldable pub schedule_retry_execution : World → Execution → RetryPolicy → ℕ → World
  unfolding retry_row
  schedule_retry_execution w x policy now = record w {
    executions = w.executions ++ retry_row w x policy now ∷ [];
    next_id = suc w.next_id;
  }

  abbrev pub dead_letter_metadata : Execution → ℕ → Fields
  dead_letter_metadata x now =
      let d₀ = dispatch_metadata x.input_data in
      let d₁ = Json.put "attempt" (Json.num (pos (attempt_number t x.input_data))) d₀ in
      let d₂ = Json.put "dead_lettered" (Json.bool true) d₁ in
      let d₃ = Json.put "dead_letter_reason" (Json.str "max_attempts_exhausted") d₂ in
      Json.put "dead_lettered_at" (Json.str (t.show_time now)) d₃

  unfoldable pub mark_dead_lettered : World → Execution → ℕ → World
  unfolding attempt_number
  mark_dead_lettered w x now = record w {
    executions =
        update_where (λ y. y.id == x.id)
          (λ y. record y {
            input_data = some (with_dispatch_metadata x.input_data (dead_letter_metadata x now));
          })
          w.executions;
  }

  unfoldable pub retry_failed : RetryPolicy → ℕ → World → Execution → RetryResult × World
  unfolding attempt_number schedule_retry_execution mark_dead_lettered has_retryable_failure
  retry_failed policy now w x =
      if not (x.status == failed)
      then (nothing_to_do, w)
      else if not (has_retryable_failure w x.id)
      then (nothing_to_do, w)
      else if leb policy.max_attempts (attempt_number t x.input_data)
      then (dead_letter, mark_dead_lettered w x now)
      else (retry_scheduled, schedule_retry_execution w x policy now)

  abbrev pub retry_found : RetryPolicy → ℕ → World → Option Execution → RetryResult × World
  retry_found policy now w none = (nothing_to_do, w)
  retry_found policy now w (some x) = retry_failed policy now w x

  unfoldable pub apply_retry_policy : RetryPolicy → ℕ → World → ℕ → RetryResult × World
  unfolding retry_failed find_execution
  apply_retry_policy policy now w i = retry_found policy now w (find_execution w i)

  -- `none` stands for a run that does not end.
  unfoldable pub count_run :
      RetryPolicy → ℕ → Execution → DispatchReport → Outcome → Option (World × DispatchReport)
  unfolding apply_retry_policy
  count_run policy now x r (returned w) =
      let (result, w') = apply_retry_policy policy now w x.id in
      some (
        w',
        count_retry result (record r {
          dispatched = r.dispatched + 1;
          execution_ids = r.execution_ids ++ x.id ∷ [];
        }),
      )
  count_run policy now x r (raised message w) = none
  count_run policy now x r starved = none

  module _ (env : Env) (policy : RetryPolicy) (now : ℕ) where
    -- One round of the loop, after the test of the limit.
    unfoldable pub consider : Execution → World → DispatchReport → Option (World × DispatchReport)
    unfolding is_workflow_dispatch_paused is_retry_due run_execution count_run
    consider x w report =
        let r = record report { scanned = report.scanned + 1 } in
        if not (is_webhook_trigger x.input_data)
        then some (w, record r { skipped = r.skipped + 1 })
        else if is_workflow_dispatch_paused w x.workflow_id
        then some (w, record r { paused = r.paused + 1 })
        else if not (is_retry_due x.input_data now)
        then some (w, record r { deferred = r.deferred + 1 })
        else count_run policy now x r
            (run_execution env x.id x.workflow_id x.tenant_id x.input_data w)

    unfoldable pub dispatch_loop :
        ℕ → List Execution → World → DispatchReport → Option (World × DispatchReport)
    unfolding consider
    dispatch_loop limit [] w r = some (w, r)
    dispatch_loop limit (x ∷ xs) w r =
        let next : Option (World × DispatchReport) = elim (consider x w r) [
          | none ↦ none
          | some (w', r') ↦ dispatch_loop limit xs w' r'
        ] in
        if leb limit r.dispatched then some (w, r) else next

    unfoldable pub dispatch_pending : ℕ → World → Option (World × DispatchReport)
    unfolding pending_execution_candidates dispatch_loop
    dispatch_pending limit w =
        if limit == 0
        then some (w, empty_report)
        else dispatch_loop limit (pending_execution_candidates w (max pending_scan_limit limit)) w
            empty_report
