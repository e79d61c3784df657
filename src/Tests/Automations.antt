-- ===== src/Tests/Automations.antt =====
-- The automation worker of the small instance.
use multi_tenant_agentic_wor.Base.{
  ◌≡◌, ◌≢◌, true, none, some, [], ◌∷◌, arith, ok, length, string_eq, nat_eq,
}
use multi_tenant_agentic_wor.Tables.{WorkerRun}
use multi_tenant_agentic_wor.Store.{World}
use multi_tenant_agentic_wor.Automation.{
  WorkerConfig, record_worker_run, automation_worker_due_state, empty_result,
}
use multi_tenant_agentic_wor.Automation.Scheduler.{
  tenant_schedule_due_state, tenant_schedule_is_due, inspect_fleet,
}
use multi_tenant_agentic_wor.Automation.Rounds.{RunFunc, evaluate_workers}
use multi_tenant_agentic_wor.Automation.Due.{tenant_schedule_due_state-eq, record_worker_run-holds}
use multi_tenant_agentic_wor.Automation.Fleet.{
  FleetAddsUp, RoundAddsUp, inspect_fleet-FleetAddsUp, evaluate_workers-RoundAddsUp,
}
use multi_tenant_agentic_wor.Tests.{idle_world}

abbrev worker_config : WorkerConfig
worker_config = record { enabled = true; interval_minutes = 15; max_plans_per_run = 10 }

abbrev failed_run : WorkerRun
failed_run = record {
  id = 30;
  tenant_id = 1;
  triggered_by = none;
  trigger_type = "scheduled";
  status = "failed";
  limit = 10;
  claimed = 0;
  executed = 0;
  blocked = 0;
  failed = 1;
  error_message = some "timeout";
  created_at = 60;
}

abbrev audited_world : World
audited_world = record idle_world { worker_runs = failed_run ∷ [] }

tenant_schedule_due_state-eq_example :
    tenant_schedule_due_state true 15 (some failed_run) 100
    ≡ automation_worker_due_state worker_config (some failed_run) 100
tenant_schedule_due_state-eq_example =
    tenant_schedule_due_state-eq worker_config (some failed_run) 100

record_worker_run-holds_example :
    tenant_schedule_is_due
      (record_worker_run (λ s. s) 1 none "scheduled" 10 empty_result "failed" none audited_world)
      1
      15
      1000
    ≢ none
record_worker_run-holds_example =
    record_worker_run-holds (λ s. s) audited_world 1 10 15 1000 empty_result "failed" none
      (omega arith, tt) (omega arith)

inspect_fleet-FleetAddsUp_example :
    FleetAddsUp (length audited_world.tenants) (inspect_fleet audited_world 100 true)
inspect_fleet-FleetAddsUp_example = inspect_fleet-FleetAddsUp audited_world 100 true

abbrev run_nothing : RunFunc
run_nothing w n i = (ok none, w)

evaluate_workers-RoundAddsUp_example :
    RoundAddsUp 5 (evaluate_workers (λ s. s) run_nothing 100 true 5 audited_world).1
evaluate_workers-RoundAddsUp_example =
    evaluate_workers-RoundAddsUp (λ s. s) run_nothing 100 true 5 audited_world
