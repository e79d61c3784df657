-- ===== src/Automation/Scheduler.antt =====
-- backend/app/services/dispatch_automation_worker_scheduler.py: when a tenant's automation worker is due,
-- the snapshot of all tenants, and a round of the scheduler over the tenants that are due.
use multi_tenant_agentic_wor.Base.{
  ℕ, ◌+◌, max, Bool, true, false, not, ◌&&◌, Option, none, some, List, [], ◌∷◌, ◌++◌, ◌==◌,
  if◌then◌else◌, leb, count_where, nat_eq, string_eq,
}
use multi_tenant_agentic_wor.Tables.{WorkerRun, StoredConfig, plan_status_eq}
use multi_tenant_agentic_wor.Store.{Tenant, World}
use multi_tenant_agentic_wor.Automation.{
  normalize_config, latest_scheduled_run, SkipReason, tenant_disabled, backoff, interval, DueState,
  minutes, due, skipped, count_approved,
}

abbrev pub failed_run_backoff_minutes : ℕ
failed_run_backoff_minutes = 30

abbrev pub effective_interval : WorkerRun → ℕ → ℕ
effective_interval run n = if run.status == "failed" then max n failed_run_backoff_minutes else n

-- `_tenant_schedule_due_state`.
unfoldable pub schedule_after : ℕ → WorkerRun → ℕ → DueState
schedule_after n run now =
    let next = run.created_at + minutes (effective_interval run n) in
    if leb next now
    then due (if run.status == "failed" then some next else none)
    else if run.status == "failed"
    then skipped backoff (some next) (some next)
    else skipped interval (some next) none

unfoldable pub tenant_schedule_due_state : Bool → ℕ → Option WorkerRun → ℕ → DueState
unfolding schedule_after
tenant_schedule_due_state enabled n none now =
    if not enabled then skipped tenant_disabled none none else due none
tenant_schedule_due_state enabled n (some run) now =
    if not enabled then skipped tenant_disabled none none else schedule_after n run now

unfoldable pub tenant_schedule_is_due : World → ℕ → ℕ → ℕ → Option SkipReason
unfolding latest_scheduled_run tenant_schedule_due_state
tenant_schedule_is_due w tenant n now =
    (tenant_schedule_due_state true n (latest_scheduled_run w tenant) now).skip_reason

-- The due state of one tenant of the snapshot.
unfoldable pub due_state_of : World → ℕ → Tenant → DueState
unfolding normalize_config tenant_schedule_due_state latest_scheduled_run
due_state_of w now u =
    let c = normalize_config u.worker_config in
    tenant_schedule_due_state c.enabled c.interval_minutes (latest_scheduled_run w u.id) now

-- `DispatchAutomationTenantReadinessSummary`.
pub record Readiness : Type 0 where
  pub tenant_id : ℕ
  pub enabled : Bool
  pub due_state : DueState
  pub approved_plan_count : ℕ
  pub latest_run : Option WorkerRun
  pub max_plans_per_run : ℕ

-- `DispatchAutomationSchedulerFleetSnapshot`.
pub record Fleet : Type 0 where
  pub total_tenants : ℕ
  pub configured_tenants : ℕ
  pub enabled_tenants : ℕ
  pub disabled_tenants : ℕ
  pub due_tenants : ℕ
  pub interval_waiting_tenants : ℕ
  pub backoff_tenants : ℕ
  pub approved_plan_backlog : ℕ
  pub tenants : List Readiness

abbrev pub has_value {ℓ} : {A : Type ℓ} → Option A → Bool
has_value none = false
has_value (some a) = true

-- `if tenant.dispatch_automation_worker_config`.
abbrev pub is_configured : StoredConfig → Bool
is_configured c =
    if has_value c.enabled
    then true
    else if has_value c.interval_minutes
    then true
    else has_value c.max_plans_per_run

abbrev pub is_reason : SkipReason → DueState → Bool
is_reason interval s = elim s.skip_reason [ some interval ↦ true | _ ↦ false ]
is_reason backoff s = elim s.skip_reason [ some backoff ↦ true | _ ↦ false ]
is_reason tenant_disabled s = elim s.skip_reason [ some tenant_disabled ↦ true | _ ↦ false ]

abbrev pub plus_if : Bool → ℕ → ℕ
plus_if b n = if b then n + 1 else n

unfoldable pub readiness : World → ℕ → Tenant → Readiness
unfolding normalize_config due_state_of count_approved latest_scheduled_run
readiness w now u =
    let c = normalize_config u.worker_config in
    record {
      tenant_id = u.id;
      enabled = c.enabled;
      due_state = due_state_of w now u;
      approved_plan_count = count_approved w u.id;
      latest_run = latest_scheduled_run w u.id;
      max_plans_per_run = c.max_plans_per_run;
    }

-- One round of the loop over the tenants.
unfoldable pub inspect_tenant : World → ℕ → Bool → Tenant → Fleet → Fleet
unfolding normalize_config due_state_of count_approved readiness
inspect_tenant w now include u s =
    let c = normalize_config u.worker_config in
    let d = due_state_of w now u in
    record s {
      approved_plan_backlog = s.approved_plan_backlog + count_approved w u.id;
      configured_tenants = plus_if (is_configured u.worker_config) s.configured_tenants;
      enabled_tenants = plus_if c.enabled s.enabled_tenants;
      disabled_tenants = plus_if (not c.enabled) s.disabled_tenants;
      due_tenants = plus_if d.due_now s.due_tenants;
      interval_waiting_tenants =
          plus_if (not d.due_now && is_reason interval d) s.interval_waiting_tenants;
      backoff_tenants = plus_if (not d.due_now && is_reason backoff d) s.backoff_tenants;
      tenants = if include then s.tenants ++ readiness w now u ∷ [] else s.tenants;
    }

unfoldable pub inspect_loop : World → ℕ → Bool → List Tenant → Fleet → Fleet
unfolding inspect_tenant
inspect_loop w now include [] s = s
inspect_loop w now include (u ∷ us) s =
    inspect_loop w now include us (inspect_tenant w now include u s)

-- `order_by(created_at.asc())`.
unfoldable pub insert_tenant : Tenant → List Tenant → List Tenant
insert_tenant x [] = x ∷ []
insert_tenant x (y ∷ ys) =
    let rest = insert_tenant x ys in if leb x.created_at y.created_at then x ∷ y ∷ ys else y ∷ rest

unfoldable pub order_tenants : List Tenant → List Tenant
unfolding insert_tenant
order_tenants [] = []
order_tenants (x ∷ xs) = insert_tenant x (order_tenants xs)

abbrev pub empty_fleet : ℕ → Fleet
empty_fleet n = record {
  total_tenants = n;
  configured_tenants = 0;
  enabled_tenants = 0;
  disabled_tenants = 0;
  due_tenants = 0;
  interval_waiting_tenants = 0;
  backoff_tenants = 0;
  approved_plan_backlog = 0;
  tenants = [];
}

unfoldable pub inspect_fleet : World → ℕ → Bool → Fleet
unfolding inspect_loop order_tenants
inspect_fleet w now include =
    inspect_loop w now include (order_tenants w.tenants)
      (empty_fleet (count_where (λ u. true) w.tenants))
