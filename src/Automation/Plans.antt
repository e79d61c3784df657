-- ===== src/Automation/Plans.antt =====
-- The plans of backend/app/services/analytics_service.py: a user turns a current recommendation into a
-- plan, and a user approves or rejects it. An operation that raises leaves the world as it was.
use multi_tenant_agentic_wor.Base.{
  ℕ, suc, String, ◌&&◌, Option, none, some, List, [], ◌∷◌, ◌++◌, ◌==◌, if◌then◌else◌, leb, take,
  find_where, select_where, update_where, count_where, Result, ok, err, require, ◌>>=◌, ◌>>◌,
  nat_eq, string_eq,
}
use multi_tenant_agentic_wor.Base.Json
use multi_tenant_agentic_wor.Base.Json.{Json, is_true}
use multi_tenant_agentic_wor.Tables.{
  User, Plan, pending_approval, approved, rejected, plan_status_eq,
}
use multi_tenant_agentic_wor.Store.{World, status_eq}
use multi_tenant_agentic_wor.Texts.{Texts}
use multi_tenant_agentic_wor.Alerts.{AlertError}
use multi_tenant_agentic_wor.Alerts.Recommendations.{Recommendation, find_current_recommendation}
use multi_tenant_agentic_wor.Automation.{
  AutomationError, automation_tenant_not_found, recommendation_not_current, plan_already_pending,
  plan_not_found, plan_not_pending, found_plan_or, clean_message,
}

unfoldable pub find_plan : World → ℕ → Option Plan
find_plan w i = find_where (λ p. p.id == i) w.plans

-- `_get_dispatch_automation_plan`: a plan of the tenant.
unfoldable pub find_own_plan : World → ℕ → ℕ → Option Plan
find_own_plan w tenant i = find_where (λ p. p.id == i && p.tenant_id == tenant) w.plans

abbrev pub new_plan : World → ℕ → User → Recommendation → Plan
new_plan w tenant user r = record {
  id = w.next_id;
  tenant_id = tenant;
  recommendation_code = r.code;
  automation_type = r.automation_type;
  status = pending_approval;
  requested_by = some user.id;
  approved_by = none;
  approved_at = none;
  rejected_by = none;
  rejected_at = none;
  rejection_note = none;
  execution_result = Json.end;
  executed_at = none;
  execution_error = none;
  created_at = w.clock;
}

unfoldable pub insert_plan : Plan → World → World
insert_plan p w = record w { plans = w.plans ++ p ∷ []; next_id = suc w.next_id }

-- The search fails only where there is no tenant.
abbrev pub current_or_error :
    Result AlertError (Option Recommendation) → Result AutomationError Recommendation
current_or_error (err e) = err automation_tenant_not_found
current_or_error (ok none) = err recommendation_not_current
current_or_error (ok (some r)) = ok r

-- `create_dispatch_automation_plan`, for the code that the request names.
unfoldable pub create_plan :
    Texts → World → ℕ → User → String → ℕ → ℕ → Result AutomationError (Plan × World)
unfolding find_current_recommendation insert_plan
create_plan t w tenant user code hours sla = do
  r ← current_or_error (find_current_recommendation t w tenant code hours sla)
  require
      (leb
        (count_where
          (λ p.
            p.tenant_id == tenant && p.recommendation_code == code && p.status == pending_approval)
          w.plans)
        0)
      plan_already_pending
  let p = new_plan w tenant user r
  ok (p, insert_plan p w)

unfoldable pub write_plan : ℕ → (Plan → Plan) → World → World
write_plan i change w = record w { plans = update_where (λ p. p.id == i) change w.plans }

unfoldable pub approve : ℕ → ℕ → Plan → Plan
approve now user p = record p { status = approved; approved_by = some user; approved_at = some now }

unfoldable pub reject : ℕ → ℕ → Option String → Plan → Plan
reject now user note p = record p {
  status = rejected;
  rejected_by = some user;
  rejection_note = note;
  rejected_at = some now;
}

-- `approve_dispatch_automation_plan` and `reject_dispatch_automation_plan`.
unfoldable pub approve_plan : World → ℕ → User → ℕ → Result AutomationError World
unfolding find_own_plan write_plan approve
approve_plan w tenant user i = do
  p ← found_plan_or (find_own_plan w tenant i) plan_not_found
  require (p.status == pending_approval) (plan_not_pending p.status)
  ok (write_plan p.id (approve w.clock user.id) w)

unfoldable pub reject_plan :
    (String → String) → World → ℕ → User → ℕ → Option String → Result AutomationError World
unfolding find_own_plan write_plan reject
reject_plan clean w tenant user i note = do
  p ← found_plan_or (find_own_plan w tenant i) plan_not_found
  require (p.status == pending_approval) (plan_not_pending p.status)
  ok (write_plan p.id (reject w.clock user.id (clean_message clean note)) w)

-- `order_by(created_at.desc())`.
unfoldable pub insert_plan_recent : Plan → List Plan → List Plan
insert_plan_recent x [] = x ∷ []
insert_plan_recent x (y ∷ ys) =
    let rest = insert_plan_recent x ys in
    if leb y.created_at x.created_at then x ∷ y ∷ ys else y ∷ rest

unfoldable pub order_plans_recent : List Plan → List Plan
unfolding insert_plan_recent
order_plans_recent [] = []
order_plans_recent (x ∷ xs) = insert_plan_recent x (order_plans_recent xs)

unfoldable pub list_plans : World → ℕ → ℕ → List Plan
unfolding order_plans_recent
list_plans w tenant limit =
    take limit (order_plans_recent (select_where (λ p. p.tenant_id == tenant) w.plans))
