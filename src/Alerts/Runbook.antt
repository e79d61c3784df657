-- ===== src/Alerts/Runbook.antt =====
-- The history of incidents and the runbook of backend/app/services/analytics_service.py.
use multi_tenant_agentic_wor.Base.{
  ℕ, String, Bool, true, false, not, Option, List, [], ◌∷◌, ◌++◌, map, take, ◌==◌, if◌then◌else◌,
  leb, length, is_empty, select_where, any_where, Result, ok, ◌>>=◌, nat_eq, string_eq, option_eq,
}
use multi_tenant_agentic_wor.Tables.{
  dispatch_paused, trigger_throttled, deferred_retries, dead_lettered, Severity, critical, warning,
  info, Delivery, Acknowledgement, alert_code_eq, severity_eq,
}
use multi_tenant_agentic_wor.Store.{World}
use multi_tenant_agentic_wor.Texts.{Texts}
use multi_tenant_agentic_wor.Health.{Alert, DispatchHealth, get_dispatch_health}
use multi_tenant_agentic_wor.Automation.{clean_message}
use multi_tenant_agentic_wor.Alerts.{AlertError, Policy}
use multi_tenant_agentic_wor.Alerts.Sending.{list_deliveries}
use multi_tenant_agentic_wor.Alerts.Incidents.{
  has_code, runbook_severity, incident_key_for_alerts, open_acknowledgement, current_context,
}

-- `order_by(updated_at.desc())`.
unfoldable pub insert_acknowledgement :
    Acknowledgement → List Acknowledgement → List Acknowledgement
insert_acknowledgement x [] = x ∷ []
insert_acknowledgement x (y ∷ ys) =
    let rest = insert_acknowledgement x ys in
    if leb y.updated_at x.updated_at then x ∷ y ∷ ys else y ∷ rest

unfoldable pub order_acknowledgements : List Acknowledgement → List Acknowledgement
unfolding insert_acknowledgement
order_acknowledgements [] = []
order_acknowledgements (x ∷ xs) = insert_acknowledgement x (order_acknowledgements xs)

unfoldable pub list_incident_history : World → ℕ → ℕ → List Acknowledgement
unfolding order_acknowledgements select_where
list_incident_history w tenant limit =
    take limit
      (order_acknowledgements (select_where (λ a. a.tenant_id == tenant) w.acknowledgements))

-- `DispatchRunbookAction`, without the detail.
pub record RunbookAction : Type 0 where
  pub title : String
  pub priority : Severity

abbrev pub action_if : Bool → String → Severity → List RunbookAction
action_if true title priority = record { title = title; priority = priority } ∷ []
action_if false title priority = []

unfoldable pub runbook_actions : List Alert → Policy → List RunbookAction
unfolding any_where
runbook_actions [] p = action_if true "Continue monitoring dispatch health" info
runbook_actions (a ∷ alerts) p =
    let active = a ∷ alerts in
    action_if (has_code dead_lettered active) "Dead-letter queue needs review" critical
    ++ (action_if (has_code dispatch_paused active) "Confirm paused workflow ownership" warning
        ++ (action_if (has_code trigger_throttled active) "Review webhook trigger rate limits"
              warning
            ++ (action_if (has_code deferred_retries active) "Watch deferred retry backlog" info
                ++ action_if (not p.enabled) "Enable dispatch alert routing" warning)))

-- `_sanitize_delivery_item`.
abbrev pub sanitize_delivery : (String → String) → Delivery → Delivery
sanitize_delivery clean d = record d {
  target_preview = clean d.target_preview;
  error_message = clean_message clean d.error_message;
}

-- `DispatchRunbookResponse`.
pub record Runbook : Type 0 where
  pub tenant_id : ℕ
  pub generated_at : ℕ
  pub window_hours : ℕ
  pub severity : Severity
  pub summary : String
  pub health : DispatchHealth
  pub policy_enabled : Bool
  pub configured_channels : ℕ
  pub cooldown_minutes : ℕ
  pub alerts : List Alert
  pub recent_deliveries : List Delivery
  pub recommended_actions : List RunbookAction
  pub acknowledgement : Option Acknowledgement
  pub incident_history : List Acknowledgement

unfoldable pub get_runbook :
    Texts → (String → String) → World → ℕ → ℕ → ℕ → Result AlertError Runbook
unfolding current_context runbook_severity incident_key_for_alerts open_acknowledgement
    list_incident_history runbook_actions
get_runbook t clean w tenant hours limit = do
  (p, alerts) ← current_context t w tenant hours
  found ← open_acknowledgement w tenant (incident_key_for_alerts alerts)
  ok (record {
    tenant_id = tenant;
    generated_at = w.clock;
    window_hours = hours;
    severity = runbook_severity alerts;
    summary =
        if is_empty alerts
        then "No active dispatch incident"
        else "Dispatch incident handoff required";
    health = get_dispatch_health t w tenant hours;
    policy_enabled = p.enabled;
    configured_channels = length (select_where (λ c. c.enabled) p.channels);
    cooldown_minutes = p.cooldown_minutes;
    alerts = alerts;
    recent_deliveries = map (sanitize_delivery clean) (list_deliveries w tenant limit);
    recommended_actions = runbook_actions alerts p;
    acknowledgement = found;
    incident_history = list_incident_history w tenant 5;
  })
