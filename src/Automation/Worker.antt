-- ===== src/Automation/Worker.antt =====
-- backend/app/services/dispatch_automation_plan_worker.py: the worker that carries approved plans out.
-- Its plans are the rows of its session, so that a row is read again at each use of a plan.
use Prim.Native.String.{◌++◌ as text_append}
use multi_tenant_agentic_wor.Base.{
  ℕ, ◌+◌, String, Bool, true, false, not, ◌&&◌, ◌||◌, Option, none, some, List, [], ◌∷◌, ◌++◌, map,
  ◌==◌, if◌then◌else◌, ltb, leb, is_empty, take, reverse, find_where, select_where, update_where,
  count_where, contains, Result, ok, err, nat_eq, string_eq,
}
use multi_tenant_agentic_wor.Base.Int.{pos}
use multi_tenant_agentic_wor.Base.Json
use multi_tenant_agentic_wor.Base.Json.{Json, Items, Fields, is_true}
use multi_tenant_agentic_wor.Tables.{
  Plan, PlanStatus, approved, rejected, executing, executed, blocked, plan_failed, plan_status_eq,
}
use multi_tenant_agentic_wor.Store.{Execution, World, failed, status_eq}
use multi_tenant_agentic_wor.Texts.{Texts, input_dict, dispatch_metadata, is_webhook_trigger}
use multi_tenant_agentic_wor.Executions.{HttpError, retry_dead_letter_execution}
use multi_tenant_agentic_wor.Dispatcher.{order_by_created}
use multi_tenant_agentic_wor.Health.{is_present, DispatchHealth, get_dispatch_health}
use multi_tenant_agentic_wor.Automation.{WorkerResult, empty_result}
use multi_tenant_agentic_wor.Automation.Plans.{find_plan, write_plan}

-- What the worker takes from elsewhere: `sanitize_error`, the text of
-- an HTTPException, and what the database raises while a plan is carried out, before its first write.
pub record Outside : Type 0 where
  pub clean : String → String
  pub error_detail : HttpError → String
  pub interrupted : World → Plan → Option String

abbrev pub is_terminal : PlanStatus → Bool
is_terminal s = s == executed || s == blocked || s == plan_failed || s == rejected

-- The texts of a list; the other items are kept.
abbrev pub safe_items : (String → String) → Items → Items
safe_items clean Items.nil = Items.nil
safe_items clean (Items.cons (Json.str s) xs) =
    Items.cons (Json.str (clean s)) (safe_items clean xs)
safe_items clean (Items.cons v xs) = Items.cons v (safe_items clean xs)

unfoldable mutual
  pub safe_result : (String → String) → Fields → Fields
  safe_result clean Fields.end = Fields.end
  safe_result clean (Fields.field k v d) = Fields.field k (safe_value clean v) (safe_result clean d)

  pub safe_value : (String → String) → Json → Json
  safe_value clean (Json.str s) = Json.str (clean s)
  safe_value clean (Json.arr xs) = Json.arr (safe_items clean xs)
  safe_value clean (Json.obj d) = Json.obj (safe_result clean d)
  safe_value clean Json.null = Json.null
  safe_value clean (Json.bool b) = Json.bool b
  safe_value clean (Json.num n) = Json.num n

abbrev pub is_eligible_dead_letter_source : Execution → Bool
is_eligible_dead_letter_source x =
    x.status == failed
    && is_webhook_trigger x.input_data
    && is_true (Json.get "dead_lettered" (dispatch_metadata x.input_data))

-- `a or b`, where `get` may miss the key.
abbrev pub or_other : Option Json → Option Json → Option Json
or_other a b = if is_present a then a else b

-- A source that is no text equals the text of no identifier, so it is left out.
abbrev pub source_of : Option Json → List String
source_of (some (Json.str s)) = if s == "" then [] else s ∷ []
source_of _ = []

unfoldable pub retry_child_source_ids : List Execution → List String
retry_child_source_ids [] = []
retry_child_source_ids (x ∷ xs) =
    let d = dispatch_metadata x.input_data in
    source_of (or_other (Json.get "parent_execution_id" d) (Json.get "previous_execution_id" d))
    ++ retry_child_source_ids xs

abbrev pub max_dead_letter_scan : ℕ
max_dead_letter_scan = 1000

-- The most recent executions of the tenant, oldest first.
unfoldable pub scan_executions : World → ℕ → List Execution
unfolding order_by_created
scan_executions w tenant = reverse (
    take max_dead_letter_scan
      (reverse (order_by_created (select_where (λ x. x.tenant_id == tenant) w.executions))))

abbrev pub reasons : DispatchHealth → List String
reasons h =
    (if h.dead_lettered_executions == 0 then [] else "dead_lettered dispatches remain active" ∷ [])
    ++ (if h.deferred_retries == 0 then [] else "deferred retries remain active" ∷ [])
    ++ (if h.throttled_triggers == 0 then [] else "throttled triggers remain active" ∷ [])

-- `", ".join`.
abbrev pub join : List String → String
join [] = ""
join (s ∷ []) = s
join (s ∷ t ∷ ts) = text_append s (text_append ", " (join (t ∷ ts)))

abbrev pub count_json : ℕ → Json
count_json n = Json.num (pos n)

abbrev pub or_id : Option ℕ → ℕ → ℕ
or_id none i = i
or_id (some i) _ = i

abbrev pub retry_actor_id : Plan → ℕ
retry_actor_id p = or_id p.approved_by (or_id p.requested_by p.id)

-- What carrying a plan out says: its new status and result.
abbrev pub Outcome : Type 0
Outcome = PlanStatus × Fields

module _ (t : Texts) (o : Outside) where
  unfoldable pub find_dead_letter_retry_source : World → Plan → Option Execution
  unfolding scan_executions retry_child_source_ids
  find_dead_letter_retry_source w p =
      let xs = scan_executions w p.tenant_id in
      find_where
        (λ x.
          not (contains (retry_child_source_ids xs) (t.show_id x.id))
          && is_eligible_dead_letter_source x)
        xs

  unfoldable pub resume_workflows : ℕ → World → World
  resume_workflows tenant w = record w {
    workflows =
        update_where (λ f. f.tenant_id == tenant && f.dispatch_paused)
          (λ f. record f { dispatch_paused = false; updated_at = w.clock }) w.workflows;
  }

  unfoldable pub execute_resume_guard : World → Plan → Outcome × World
  unfolding get_dispatch_health resume_workflows
  execute_resume_guard w p =
      let h = get_dispatch_health t w p.tenant_id 24 in
      if is_empty (reasons h)
      then (
        (
          executed,
          Fields.field "action" (Json.str "resume_guard") (
              Fields.field "resumed_workflows"
                (count_json
                  (count_where (λ f. f.tenant_id == p.tenant_id && f.dispatch_paused) w.workflows))
                Fields.end),
        ),
        resume_workflows p.tenant_id w,
      )
      else (
        (
          blocked,
          Fields.field "reason" (Json.str (o.clean (join (reasons h)))) (
              Fields.field "paused_workflows" (count_json h.paused_workflows) (
                Fields.field "dead_lettered_executions" (count_json h.dead_lettered_executions) (
                  Fields.field "deferred_retries" (count_json h.deferred_retries) (
                    Fields.field "throttled_triggers" (count_json h.throttled_triggers)
                      Fields.end)))),
        ),
        w,
      )

  abbrev pub no_retry : String → Fields → Fields
  no_retry reason rest = Fields.field "action" (Json.str "approval_gated_retry") (
      Fields.field "reason" (Json.str reason)
        (Fields.field "retried_executions" (count_json 0) rest))

  -- The metadata that mark the new execution as a retry of the plan.
  unfoldable pub mark_retry : Plan → Execution → Execution
  mark_retry p x =
      let d = dispatch_metadata x.input_data in
      let marked =
        Json.put "automation_plan_id" (Json.str (t.show_id p.id))
          (Json.put "automated_retry" (Json.bool true) d) in
      record x {
        input_data =
            some (Json.obj (Json.put "dispatch" (Json.obj marked) (input_dict x.input_data)));
      }

  unfoldable pub retried :
      World → Plan → Execution → Result HttpError (Execution × World) → Outcome × World
  unfolding mark_retry
  retried w p source (err e) = (
    (
      blocked,
      no_retry (o.clean (o.error_detail e))
          (Fields.field "source_execution_id" (Json.str (t.show_id source.id)) Fields.end),
    ),
    w,
  )
  retried w p source (ok (x, w')) = (
    (
      executed,
      Fields.field "action" (Json.str "approval_gated_retry") (
          Fields.field "retried_executions" (count_json 1) (
            Fields.field "source_execution_ids"
              (Json.arr (Items.cons (Json.str (t.show_id source.id)) Items.nil))
              (Fields.field "retry_execution_ids"
                (Json.arr (Items.cons (Json.str (t.show_id x.id)) Items.nil)) Fields.end))),
    ),
    record w' { executions = update_where (λ y. y.id == x.id) (mark_retry p) w'.executions },
  )

  unfoldable pub retry_from : World → Plan → Option Execution → Outcome × World
  unfolding retry_dead_letter_execution retried
  retry_from w p none =
      ((blocked, no_retry "No eligible dead-lettered webhook execution found." Fields.end), w)
  retry_from w p (some x) =
      retried w p x (retry_dead_letter_execution t w p.tenant_id x.id (retry_actor_id p))

  unfoldable pub execute_approval_gated_retry : World → Plan → Outcome × World
  unfolding find_dead_letter_retry_source retry_from
  execute_approval_gated_retry w p = retry_from w p (find_dead_letter_retry_source w p)

  unfoldable pub execute_plan : World → Plan → Outcome × World
  unfolding execute_resume_guard execute_approval_gated_retry
  execute_plan w p =
      if p.automation_type == "resume_guard"
      then execute_resume_guard w p
      else if p.automation_type == "approval_gated_retry"
      then execute_approval_gated_retry w p
      else (
        (
          blocked,
          Fields.field "reason" (Json.str "Unsupported automation type.")
              (Fields.field "automation_type" (Json.str (o.clean p.automation_type)) Fields.end),
        ),
        w,
      )

  unfoldable pub start : Plan → Plan
  start p = record p { status = executing }

  unfoldable pub finish : ℕ → Outcome → Plan → Plan
  unfolding safe_result
  finish now (s, result) p = record p {
    status = s;
    execution_result = safe_result o.clean result;
    executed_at = some now;
    execution_error = none;
  }

  unfoldable pub fail : ℕ → String → Plan → Plan
  fail now error p = record p {
    status = plan_failed;
    execution_result = Fields.field "reason" (Json.str "Automation execution failed.") Fields.end;
    execution_error = some (o.clean error);
    executed_at = some now;
  }

  unfoldable pub count_status : PlanStatus → WorkerResult → WorkerResult
  count_status executed r = record r { executed = r.executed + 1 }
  count_status blocked r = record r { blocked = r.blocked + 1 }
  count_status s r = record r { failed = r.failed + 1 }

  unfoldable pub carry_out : Option String → Plan → World → WorkerResult → World × WorkerResult
  unfolding execute_plan write_plan finish fail count_status
  carry_out (some error) p w r =
      (write_plan p.id (fail w.clock error) w, record r { failed = r.failed + 1 })
  carry_out none p w r =
      let (outcome, w') = execute_plan w p in
      (write_plan p.id (finish w'.clock outcome) w', count_status outcome.0 r)

  unfoldable pub process_found : Option Plan → World → WorkerResult → World × WorkerResult
  unfolding write_plan start carry_out
  process_found none w r = (w, r)
  process_found (some p) w r =
      let claimed_one = record r { claimed = r.claimed + 1 } in
      let w' = write_plan p.id start w in
      if is_terminal p.status
      then (w, r)
      else carry_out (o.interrupted w' (start p)) (start p) w' claimed_one

  unfoldable pub process_plan : ℕ → World → WorkerResult → World × WorkerResult
  unfolding find_plan process_found
  process_plan i w r = process_found (find_plan w i) w r

  unfoldable pub process_plans : List ℕ → World → WorkerResult → World × WorkerResult
  unfolding process_plan
  process_plans [] w r = (w, r)
  process_plans (i ∷ is) w r = let step = process_plan i w r in process_plans is step.0 step.1

  -- `order_by(approved_at.asc().nulls_last(), created_at.asc())`.
  abbrev pub is_earlier : Plan → Plan → Bool
  is_earlier p q = elim p.approved_at [
    | none ↦ elim q.approved_at [ none ↦ leb p.created_at q.created_at | some b ↦ false ]
    | some a ↦ elim q.approved_at [
      | none ↦ true
      | some b ↦ ltb a b || a == b && leb p.created_at q.created_at
    ]
  ]

  unfoldable pub insert_approved : Plan → List Plan → List Plan
  insert_approved x [] = x ∷ []
  insert_approved x (y ∷ ys) =
      let rest = insert_approved x ys in if is_earlier x y then x ∷ y ∷ ys else y ∷ rest

  unfoldable pub order_approved : List Plan → List Plan
  unfolding insert_approved
  order_approved [] = []
  order_approved (x ∷ xs) = insert_approved x (order_approved xs)

  abbrev pub is_asked : Option ℕ → Plan → Bool
  is_asked none p = p.status == approved
  is_asked (some tenant) p = p.status == approved && p.tenant_id == tenant

  -- The plans that a run claims.
  unfoldable pub claim : World → ℕ → Option ℕ → List Plan
  unfolding order_approved
  claim w limit tenant = take limit (order_approved (select_where (is_asked tenant) w.plans))

  -- `run_dispatch_automation_plan_worker_once`, taken whole. Automation/Sites has its parts, since others
  -- see a plan that is executing once the creation of its retry commits.
  unfoldable pub run_once : World → ℕ → Option ℕ → World × WorkerResult
  unfolding claim process_plans
  run_once w limit tenant = process_plans (map (λ p. p.id) (claim w limit tenant)) w empty_result
