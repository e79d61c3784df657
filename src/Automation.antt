-- ===== src/Automation.antt =====
-- The automation of webhook dispatch in backend/app/services/analytics_service.py: the worker's
-- configuration of a tenant, the audit of its runs, when it is due, and the plans that users approve.
-- The modules below are the scheduler and the worker, and the proofs.
pub mod Approval
pub mod Claims
pub mod Due
pub mod Fleet
pub mod Keeps
pub mod Lifetime
pub mod Moves
pub mod Plans
pub mod Ready
pub mod Rounds
pub mod Runs
pub mod Scheduler
pub mod Sites
pub mod Worker
use multi_tenant_agentic_wor.Base.{
  ℕ, suc, ◌+◌, ◌*◌, ◌≡◌, max, String, Bool, true, false, not, ◌&&◌, ◌||◌, Option, none, some, List,
  [], ◌∷◌, ◌++◌, ◌==◌, if◌then◌else◌, ltb, leb, take, find_where, select_where, update_where,
  count_where, Result, ok, err, require, ◌>>=◌, ◌>>◌, nat_eq, string_eq,
}
use multi_tenant_agentic_wor.Base.Json.{Fields, end}
use multi_tenant_agentic_wor.Tables.{
  User, Plan, PlanStatus, pending_approval, approved, rejected, WorkerRun, StoredConfig,
  plan_status_eq,
}
use multi_tenant_agentic_wor.Store.{Tenant, World, find_tenant}

pub data AutomationError : Type 0 where
  automation_tenant_not_found recommendation_not_current plan_already_pending plan_not_found :
      AutomationError
  plan_not_pending : PlanStatus → AutomationError

abbrev pub found_plan_or {ℓ} : {A : Type ℓ} → Option A → AutomationError → Result AutomationError A
found_plan_or none e = err e
found_plan_or (some a) e = ok a

-- `DispatchAutomationWorkerConfig`.
pub record WorkerConfig : Type 0 where
  pub enabled : Bool
  pub interval_minutes : ℕ
  pub max_plans_per_run : ℕ

-- The bounds of its fields, which the validation of a request enforces.
pub record IsWorkerConfig (c : WorkerConfig) : Type 0 where
  pub interval_low : leb 5 c.interval_minutes ≡ true
  pub interval_high : leb c.interval_minutes 1440 ≡ true
  pub plans_low : leb 1 c.max_plans_per_run ≡ true
  pub plans_high : leb c.max_plans_per_run 50 ≡ true

abbrev pub stored_or {ℓ} : {A : Type ℓ} → Option A → A → A
stored_or none d = d
stored_or (some a) d = a

-- `{**defaults, **raw_config}`.
unfoldable pub normalize_config : StoredConfig → WorkerConfig
normalize_config raw = record {
  enabled = stored_or raw.enabled false;
  interval_minutes = stored_or raw.interval_minutes 15;
  max_plans_per_run = stored_or raw.max_plans_per_run 10;
}

-- `config.model_dump`.
abbrev pub dump_config : WorkerConfig → StoredConfig
dump_config c = record {
  enabled = some c.enabled;
  interval_minutes = some c.interval_minutes;
  max_plans_per_run = some c.max_plans_per_run;
}

unfoldable pub get_worker_config : World → ℕ → Result AutomationError WorkerConfig
unfolding find_tenant normalize_config
get_worker_config w tenant = do
  u ← found_plan_or (find_tenant w tenant) automation_tenant_not_found
  ok (normalize_config u.worker_config)

unfoldable pub write_tenant : ℕ → (Tenant → Tenant) → World → World
write_tenant i change w = record w { tenants = update_where (λ u. u.id == i) change w.tenants }

unfoldable pub update_worker_config :
    World → ℕ → WorkerConfig → Result AutomationError (WorkerConfig × World)
unfolding find_tenant normalize_config write_tenant
update_worker_config w tenant c = do
  u ← found_plan_or (find_tenant w tenant) automation_tenant_not_found
  ok (
    normalize_config (dump_config c),
    write_tenant u.id (λ u. record u { worker_config = dump_config c }) w,
  )

-- `clean` is `sanitize_error`, made of two regular expressions; an empty message is stored as none.
abbrev pub clean_message : (String → String) → Option String → Option String
clean_message clean none = none
clean_message clean (some s) = if s == "" then none else some (clean s)

-- What a run reports: `DispatchAutomationWorkerResult`.
pub record WorkerResult : Type 0 where
  pub claimed : ℕ
  pub executed : ℕ
  pub blocked : ℕ
  pub failed : ℕ

abbrev pub empty_result : WorkerResult
empty_result = record { claimed = 0; executed = 0; blocked = 0; failed = 0 }

abbrev pub new_run :
    (String → String)
    → ℕ
    → Option ℕ
    → String
    → ℕ
    → WorkerResult
    → String
    → Option String
    → World
    → WorkerRun
new_run clean tenant actor trigger run_limit r status error w = record {
  id = w.next_id;
  tenant_id = tenant;
  triggered_by = actor;
  trigger_type = trigger;
  status = status;
  limit = run_limit;
  claimed = r.claimed;
  executed = r.executed;
  blocked = r.blocked;
  failed = r.failed;
  error_message = clean_message clean error;
  created_at = w.clock;
}

unfoldable pub record_worker_run :
    (String → String)
    → ℕ
    → Option ℕ
    → String
    → ℕ
    → WorkerResult
    → String
    → Option String
    → World
    → World
record_worker_run clean tenant actor trigger run_limit r status error w = record w {
  worker_runs = w.worker_runs ++ new_run clean tenant actor trigger run_limit r status error w ∷ [];
  next_id = suc w.next_id;
}

-- `order_by(created_at.desc())`; of two runs of one moment, the later row.
unfoldable pub insert_run : WorkerRun → List WorkerRun → List WorkerRun
insert_run x [] = x ∷ []
insert_run x (y ∷ ys) =
    let rest = insert_run x ys in if ltb y.created_at x.created_at then x ∷ y ∷ ys else y ∷ rest

unfoldable pub order_runs : List WorkerRun → List WorkerRun
unfolding insert_run
order_runs [] = []
order_runs (x ∷ xs) = insert_run x (order_runs xs)

unfoldable pub list_worker_runs : World → ℕ → ℕ → List WorkerRun
unfolding order_runs
list_worker_runs w tenant limit =
    take limit (order_runs (select_where (λ r. r.tenant_id == tenant) w.worker_runs))

abbrev pub head_of {ℓ} : {A : Type ℓ} → List A → Option A
head_of [] = none
head_of (x ∷ xs) = some x

-- `_latest_scheduled_automation_worker_run`, and `_latest_scheduled_run` of the scheduler.
unfoldable pub latest_scheduled_run : World → ℕ → Option WorkerRun
unfolding order_runs
latest_scheduled_run w tenant = head_of (
    order_runs
      (select_where (λ r. r.tenant_id == tenant && r.trigger_type == "scheduled") w.worker_runs))

pub data SkipReason : Type 0 where
  tenant_disabled backoff interval : SkipReason

-- Whether a tenant is due; why not; when it will be; until when a failed run holds it back.
pub record DueState : Type 0 where
  pub due_now : Bool
  pub skip_reason : Option SkipReason
  pub next_run_at : Option ℕ
  pub backoff_until : Option ℕ

abbrev pub backoff_minutes : ℕ
backoff_minutes = 30

-- `timedelta(minutes=n)`, in seconds.
abbrev pub minutes : ℕ → ℕ
minutes n = n * 60

abbrev pub due : Option ℕ → DueState
due until = record { due_now = true; skip_reason = none; next_run_at = none; backoff_until = until }

abbrev pub skipped : SkipReason → Option ℕ → Option ℕ → DueState
skipped why next until = record {
  due_now = false;
  skip_reason = some why;
  next_run_at = next;
  backoff_until = until;
}

-- `_automation_worker_due_state`, for a tenant with a latest run.
unfoldable pub due_state_after : WorkerConfig → WorkerRun → ℕ → DueState
due_state_after c run now =
    let held = run.created_at + minutes (max c.interval_minutes backoff_minutes) in
    let next = run.created_at + minutes c.interval_minutes in
    if run.status == "failed"
    then (if ltb now held then skipped backoff (some held) (some held) else due (some held))
    else (if ltb now next then skipped interval (some next) none else due none)

unfoldable pub automation_worker_due_state : WorkerConfig → Option WorkerRun → ℕ → DueState
unfolding due_state_after
automation_worker_due_state c none now =
    if not c.enabled then skipped tenant_disabled none none else due none
automation_worker_due_state c (some run) now =
    if not c.enabled then skipped tenant_disabled none none else due_state_after c run now

-- What `get_dispatch_automation_worker_diagnostics` computes.
pub record Diagnostics : Type 0 where
  pub generated_at : ℕ
  pub tenant_config : WorkerConfig
  pub approved_plan_count : ℕ
  pub latest_run : Option WorkerRun
  pub due_state : DueState

unfoldable pub count_approved : World → ℕ → ℕ
count_approved w tenant = count_where (λ p. p.tenant_id == tenant && p.status == approved) w.plans

abbrev pub sanitize_run : (String → String) → Option WorkerRun → Option WorkerRun
sanitize_run clean none = none
sanitize_run clean (some r) =
    some (record r { error_message = clean_message clean r.error_message })

unfoldable pub get_worker_diagnostics :
    (String → String) → World → ℕ → ℕ → Result AutomationError Diagnostics
unfolding get_worker_config count_approved latest_scheduled_run automation_worker_due_state
get_worker_diagnostics clean w tenant now = do
  c ← get_worker_config w tenant
  let latest = latest_scheduled_run w tenant
  ok (record {
    generated_at = now;
    tenant_config = c;
    approved_plan_count = count_approved w tenant;
    latest_run = sanitize_run clean latest;
    due_state = automation_worker_due_state c latest now;
  })
