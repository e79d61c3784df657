-- ===== src/Automation/Rounds.antt =====
-- `evaluate_dispatch_automation_workers_for_tenants` of
-- backend/app/services/dispatch_automation_worker_scheduler.py: one round of the scheduler.
use multi_tenant_agentic_wor.Base.{
  ℕ, ◌+◌, max, String, Bool, true, false, not, Option, none, some, List, [], ◌∷◌, ◌++◌,
  if◌then◌else◌, leb, Result, ok, err,
}
use multi_tenant_agentic_wor.Store.{Tenant, World}
use multi_tenant_agentic_wor.Automation.{
  WorkerConfig, normalize_config, WorkerResult, empty_result, record_worker_run, SkipReason,
  backoff, interval, tenant_disabled,
}
use multi_tenant_agentic_wor.Automation.Scheduler.{tenant_schedule_is_due, order_tenants}

-- `DispatchAutomationSchedulerReport`.
pub record SchedulerReport : Type 0 where
  pub lock_acquired : Bool
  pub lock_skipped : Bool
  pub tenants_scanned : ℕ
  pub tenants_enabled : ℕ
  pub tenants_due : ℕ
  pub tenants_skipped_interval : ℕ
  pub tenants_skipped_backoff : ℕ
  pub failed_tenants : ℕ
  pub claimed : ℕ
  pub executed : ℕ
  pub blocked : ℕ
  pub failed : ℕ
  pub tenant_ids : List ℕ

abbrev pub empty_scheduler_report : SchedulerReport
empty_scheduler_report = record {
  lock_acquired = true;
  lock_skipped = false;
  tenants_scanned = 0;
  tenants_enabled = 0;
  tenants_due = 0;
  tenants_skipped_interval = 0;
  tenants_skipped_backoff = 0;
  failed_tenants = 0;
  claimed = 0;
  executed = 0;
  blocked = 0;
  failed = 0;
  tenant_ids = [];
}

unfoldable pub add_result : ℕ → WorkerResult → SchedulerReport → SchedulerReport
add_result tenant x r = record r {
  tenants_due = r.tenants_due + 1;
  tenant_ids = r.tenant_ids ++ tenant ∷ [];
  claimed = r.claimed + x.claimed;
  executed = r.executed + x.executed;
  blocked = r.blocked + x.blocked;
  failed = r.failed + x.failed;
}

unfoldable pub add_failure : ℕ → SchedulerReport → SchedulerReport
add_failure tenant r = record r {
  tenants_due = r.tenants_due + 1;
  failed_tenants = r.failed_tenants + 1;
  failed = r.failed + 1;
  tenant_ids = r.tenant_ids ++ tenant ∷ [];
}

-- `run_result` where it is None.
abbrev pub result_or_empty : Option WorkerResult → WorkerResult
result_or_empty none = empty_result
result_or_empty (some x) = x

-- `run_func`: what it returns, or the text of what it raises, and the world after it.
abbrev pub RunFunc : Type 0
RunFunc = World → ℕ → ℕ → Result String (Option WorkerResult) × World

module _ (clean : String → String) (run_func : RunFunc) (now : ℕ) where
  unfoldable pub record_run :
      ℕ
      → ℕ
      → SchedulerReport
      → Result String (Option WorkerResult) × World
      → World × SchedulerReport
  unfolding record_worker_run add_result add_failure
  record_run tenant limit r (ok x, w) = (
    record_worker_run clean tenant none "scheduled" limit (result_or_empty x) "completed" none w,
    add_result tenant (result_or_empty x) r,
  )
  record_run tenant limit r (err e, w) = (
    record_worker_run clean tenant none "scheduled" limit (record empty_result { failed = 1 })
        "failed" (some e) w,
    add_failure tenant r,
  )

  unfoldable pub visit_due :
      Tenant → WorkerConfig → Option SkipReason → World → SchedulerReport → World × SchedulerReport
  unfolding record_run
  visit_due u c (some interval) w r =
      (w, record r { tenants_skipped_interval = r.tenants_skipped_interval + 1 })
  visit_due u c (some backoff) w r =
      (w, record r { tenants_skipped_backoff = r.tenants_skipped_backoff + 1 })
  visit_due u c (some tenant_disabled) w r =
      record_run u.id c.max_plans_per_run r (run_func w c.max_plans_per_run u.id)
  visit_due u c none w r =
      record_run u.id c.max_plans_per_run r (run_func w c.max_plans_per_run u.id)

  -- One round of the loop, after the test of the limit.
  unfoldable pub visit_tenant : Tenant → World → SchedulerReport → World × SchedulerReport
  unfolding normalize_config tenant_schedule_is_due visit_due
  visit_tenant u w r =
      let c = normalize_config u.worker_config in
      let scanned = record r { tenants_scanned = r.tenants_scanned + 1 } in
      if not c.enabled
      then (w, scanned)
      else visit_due u c (tenant_schedule_is_due w u.id c.interval_minutes now) w
          (record scanned { tenants_enabled = scanned.tenants_enabled + 1 })

  unfoldable pub evaluate_loop : ℕ → List Tenant → World → SchedulerReport → World × SchedulerReport
  unfolding visit_tenant
  evaluate_loop limit [] w r = (w, r)
  evaluate_loop limit (u ∷ us) w r =
      let step = visit_tenant u w r in
      let rest = evaluate_loop limit us step.0 step.1 in
      if leb limit r.tenants_due then (w, r) else rest

  -- `acquired` is what the leader's lock answers.
  unfoldable pub evaluate_workers : Bool → ℕ → World → World × SchedulerReport
  unfolding evaluate_loop order_tenants
  evaluate_workers acquired limit w =
      if acquired
      then evaluate_loop (max limit 1) (order_tenants w.tenants) w empty_scheduler_report
      else (w, record empty_scheduler_report { lock_acquired = false; lock_skipped = true })
