-- ===== src/Tests/Alarms.antt =====
-- The alerts, the incidents and the plans of the small instance.
use multi_tenant_agentic_wor.Base.{
  ◌≡◌, refl, true, false, none, some, [], ◌∷◌, ◌++◌, arith, ok, find_where, count_where,
  select_where, any_where, update_where, contains, string_eq, nat_eq,
}
use multi_tenant_agentic_wor.Base.Json
use multi_tenant_agentic_wor.Base.Json.{Fields}
use multi_tenant_agentic_wor.Tables.{
  User, Plan, pending_approval, approved, critical, warning, dispatch_paused, trigger_throttled,
  dead_lettered, Route, AlertChannel, Delivery, alert_code_eq, severity_eq,
}
use multi_tenant_agentic_wor.Store.{World, find_tenant, status_eq}
use multi_tenant_agentic_wor.Health.{get_dispatch_health, count_throttled_triggers, dispatch_alerts}
use multi_tenant_agentic_wor.Automation.Plans.{
  approve_plan, approve, write_plan, find_plan, find_own_plan,
}
use multi_tenant_agentic_wor.Automation.Worker.{
  Outside, start, claim, order_approved, insert_approved,
}
use multi_tenant_agentic_wor.Automation.Approval.{Lives, view}
use multi_tenant_agentic_wor.Automation.Moves.{IsKeyed}
use multi_tenant_agentic_wor.Automation.Lifetime.{PlanReach, PlanReach-Lives}
use multi_tenant_agentic_wor.Automation.Sites.{PlanStep, Request, idle, started, site}
use multi_tenant_agentic_wor.Automation.Ready.{IsDoing}
use multi_tenant_agentic_wor.Alerts.{Policy, get_alert_policy, matched_alerts, normalize_policy}
use multi_tenant_agentic_wor.Alerts.Sending.{
  DeliveryReport, Mailer, deliver_dispatch_alerts, deliver_matched, deliver_routes, deliver_to,
  find_channel, is_in_cooldown, notice_of, notify, record_deliveries, record_delivery, send,
}
use multi_tenant_agentic_wor.Alerts.Cooldown.{deliver_dispatch_alerts-IsSpaced}
use multi_tenant_agentic_wor.Alerts.Spacing.{IsSpaced}
use multi_tenant_agentic_wor.Alerts.Delivered.{
  DeliveryAddsUp, considered, deliver_dispatch_alerts-AddsUp,
}
use multi_tenant_agentic_wor.Alerts.Incidents.{
  acknowledge_incident, current_context, incident_key_for_alerts, open_acknowledgement,
  write_acknowledgement, sorted_codes, runbook_severity, new_acknowledgement,
}
use multi_tenant_agentic_wor.Alerts.Open.{
  HasOneOpen, LookupAnswers, IncidentReach, IncidentStep, IncidentReach-LookupAnswers,
}
use multi_tenant_agentic_wor.Tests.{texts, tenant, workflow, idle_world}

abbrev route : Route
route = record { route_type = "webhook"; target = "ops"; credential_id = some 40; enabled = true }

abbrev channel : AlertChannel
channel = record {
  id = 40;
  tenant_id = 1;
  name = "ops";
  channel_type = "webhook";
  encrypted_config = Json.null;
  config_preview = Fields.end;
  is_active = true;
  created_by = none;
  created_at = 1;
}

abbrev alarm_world : World
alarm_world = record idle_world {
  tenants =
      record tenant {
        alert_policy = record {
          enabled = some true;
          channels = some (route ∷ []);
          severities = none;
          alert_codes = none;
          cooldown_minutes = none;
        };
      }
      ∷ [];
  workflows = record workflow { dispatch_paused = true } ∷ [];
  alert_channels = channel ∷ [];
}

abbrev policy : Policy
policy = record {
  enabled = true;
  channels = route ∷ [];
  severities = critical ∷ warning ∷ [];
  alert_codes = dispatch_paused ∷ trigger_throttled ∷ dead_lettered ∷ [];
  cooldown_minutes = 30;
}

policy_found : get_alert_policy alarm_world 1 ≡ ok policy
unfolding get_alert_policy find_tenant find_where normalize_policy
policy_found = refl

abbrev mailer : Mailer
mailer = record { post = λ c alerts w. (ok (200, "ok"), w); clean = λ s. s }

abbrev delivery : Delivery
delivery = record {
  id = 20;
  tenant_id = 1;
  channel_id = some 40;
  alert_code = dispatch_paused;
  channel_type = "webhook";
  target_preview = "ops";
  status = "delivered";
  status_code = some 200;
  error_message = none;
  created_at = 100;
}

abbrev notified_world : World
notified_world = record alarm_world { alert_deliveries = delivery ∷ []; next_id = 21 }

abbrev delivery_report : DeliveryReport
delivery_report = record {
  attempted = 1;
  delivered = 1;
  failed = 0;
  skipped = 0;
  items = delivery ∷ [];
}

delivered_once :
    deliver_dispatch_alerts mailer texts true alarm_world 1 24
    ≡ ok (notified_world, delivery_report)
unfolding deliver_dispatch_alerts get_alert_policy find_tenant find_where normalize_policy
    matched_alerts select_where contains get_dispatch_health count_where dispatch_alerts
    count_throttled_triggers deliver_matched deliver_routes deliver_to find_channel is_in_cooldown
    send notify notice_of record_deliveries record_delivery Json.get
delivered_once = refl

deliver_dispatch_alerts-IsSpaced_example :
    IsSpaced 1 30 40 dispatch_paused notified_world.alert_deliveries
deliver_dispatch_alerts-IsSpaced_example =
    deliver_dispatch_alerts-IsSpaced mailer (λ c alerts w. refl) texts alarm_world 1 24 40
      dispatch_paused policy notified_world delivery_report policy_found tt delivered_once

deliver_dispatch_alerts-AddsUp_example :
    DeliveryAddsUp
      (considered mailer policy (matched_alerts texts alarm_world 1 24 policy))
      delivery_report
    × (notified_world.alert_deliveries ≡ alarm_world.alert_deliveries ++ delivery_report.items)
deliver_dispatch_alerts-AddsUp_example =
    deliver_dispatch_alerts-AddsUp mailer texts true alarm_world 1 24 policy notified_world
      delivery_report (λ c alerts w. refl) policy_found delivered_once

abbrev operator : User
operator = record {
  id = 5;
  tenant_id = 1;
  email = "ann@acme.com";
  password_hash = "hash";
  full_name = none;
  role = "owner";
  is_active = true;
  must_change_password = false;
  created_at = 1;
}

abbrev acknowledged_world : World
acknowledged_world = record alarm_world {
  acknowledgements =
      record {
        id = 20;
        tenant_id = 1;
        incident_key = "dispatch:dispatch_paused";
        status = "acknowledged";
        severity = warning;
        summary = "Dispatch incident handoff required";
        alert_codes = dispatch_paused ∷ [];
        acknowledged_by = some 5;
        acknowledged_by_email = "ann@acme.com";
        acknowledged_by_name = none;
        note = none;
        resolved_by = none;
        resolved_by_email = none;
        resolved_by_name = none;
        resolution_note = none;
        resolved_at = none;
        created_at = 100;
        updated_at = 100;
      }
      ∷ [];
  next_id = 21;
}

acknowledged_once :
    acknowledge_incident texts (λ s. s) alarm_world 1 operator none 24 ≡ ok acknowledged_world
unfolding acknowledge_incident current_context incident_key_for_alerts open_acknowledgement
    write_acknowledgement new_acknowledgement sorted_codes runbook_severity get_alert_policy
    find_tenant find_where normalize_policy matched_alerts select_where contains any_where
    get_dispatch_health count_where dispatch_alerts count_throttled_triggers
acknowledged_once = refl

none_open : HasOneOpen alarm_world
unfolding count_where
none_open other key = omega arith

IncidentReach-LookupAnswers_example :
    HasOneOpen acknowledged_world × LookupAnswers acknowledged_world
IncidentReach-LookupAnswers_example =
    IncidentReach-LookupAnswers texts (λ s. s)
      (IncidentReach.next IncidentReach.here
        (IncidentStep.acknowledges 1 24 operator none acknowledged_once))
      none_open

abbrev outside : Outside
outside = record { clean = λ s. s; error_detail = λ e. "error"; interrupted = λ w p. none }

abbrev plan : Plan
plan = record {
  id = 50;
  tenant_id = 1;
  recommendation_code = "auto_resume_guard";
  automation_type = "resume_guard";
  status = pending_approval;
  requested_by = some 5;
  approved_by = none;
  approved_at = none;
  rejected_by = none;
  rejected_at = none;
  rejection_note = none;
  execution_result = Fields.end;
  executed_at = none;
  execution_error = none;
  created_at = 90;
}

abbrev planned_world : World
planned_world = record idle_world { plans = plan ∷ [] }

planned_world-IsKeyed : IsKeyed planned_world
unfolding find_plan find_where
planned_world-IsKeyed = record { unique = (refl, tt) }

abbrev approved_world : World
approved_world = write_plan 50 (approve 100 5) planned_world

approved_once : approve_plan planned_world 1 operator 50 ≡ ok approved_world
unfolding approve_plan find_own_plan find_where write_plan approve
approved_once = refl

approved_world-IsKeyed : IsKeyed approved_world
unfolding find_plan find_where write_plan approve update_where
approved_world-IsKeyed = record { unique = (refl, tt) }

abbrev approved_plan : Plan
approved_plan = record plan { status = approved; approved_by = some 5; approved_at = some 100 }

found_approved : find_plan approved_world 50 ≡ some approved_plan
unfolding find_plan find_where write_plan approve update_where
found_approved = refl

-- The plan is approved, and the worker has started it.
abbrev started_world : World
started_world = write_plan 50 (start texts outside) approved_world

claimed : PlanStep texts outside (site approved_world [] idle) (site approved_world (50 ∷ []) idle)
unfolding claim order_approved insert_approved select_where write_plan approve update_where
claimed = PlanStep.claims approved_world 10 none

PlanReach-Lives_example :
    Lives (view planned_world 50) (view started_world 50) × IsDoing (started 50) started_world
PlanReach-Lives_example =
    PlanReach-Lives texts outside planned_world
      (PlanReach.next
        (PlanReach.next
          (PlanReach.next PlanReach.here planned_world-IsKeyed
            (PlanStep.requests [] idle (Request.approves 1 50 operator approved_once)))
          approved_world-IsKeyed claimed)
        approved_world-IsKeyed
        (PlanStep.begins approved_world 50 [] approved_plan found_approved refl))
      50
