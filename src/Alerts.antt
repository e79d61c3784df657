-- ===== src/Alerts.antt =====
-- The alerts of dispatches in backend/app/services/analytics_service.py: a tenant's policy and its
-- preview. The modules below are the delivery to channels, the evaluation of all tenants, the incidents,
-- the runbook, the recommendations, and proofs.
pub mod Cooldown
pub mod Delivered
pub mod Evaluator
pub mod Incidents
pub mod Open
pub mod Recommendations
pub mod Rows
pub mod Runbook
pub mod Sending
pub mod Sla
pub mod Spacing
use multi_tenant_agentic_wor.Base.{
  ℕ, suc, ◌+◌, ◌-◌, ◌*◌, String, Bool, true, false, not, ◌&&◌, Option, none, some, List, [], ◌∷◌,
  ◌++◌, map, ◌==◌, if◌then◌else◌, leb, is_empty, length, take, find_where, select_where,
  update_where, count_where, contains, Result, ok, err, ◌>>=◌, nat_eq, string_eq,
}
use multi_tenant_agentic_wor.Base.Json
use multi_tenant_agentic_wor.Base.Json.{Json, Fields}
use multi_tenant_agentic_wor.Tables.{
  AlertCode, Severity, critical, warning, dispatch_paused, trigger_throttled, dead_lettered, Route,
  StoredPolicy, AlertChannel, Delivery, alert_code_eq, severity_eq,
}
use multi_tenant_agentic_wor.Store.{Tenant, World, find_tenant}
use multi_tenant_agentic_wor.Texts.{Texts, first_chars}
use multi_tenant_agentic_wor.Health.{Alert, get_dispatch_health}
use multi_tenant_agentic_wor.Automation.{stored_or, clean_message}

pub data AlertError : Type 0 where
  alert_tenant_not_found no_active_incident no_open_incident multiple_rows_found : AlertError

abbrev pub found_tenant_or {ℓ} : {A : Type ℓ} → Option A → AlertError → Result AlertError A
found_tenant_or none e = err e
found_tenant_or (some a) e = ok a

-- `DispatchAlertPolicy`.
pub record Policy : Type 0 where
  pub enabled : Bool
  pub channels : List Route
  pub severities : List Severity
  pub alert_codes : List AlertCode
  pub cooldown_minutes : ℕ

-- `_normalize_dispatch_alert_policy`.
unfoldable pub normalize_policy : StoredPolicy → Policy
normalize_policy raw = record {
  enabled = stored_or raw.enabled false;
  channels = stored_or raw.channels [];
  severities = stored_or raw.severities (critical ∷ warning ∷ []);
  alert_codes =
      stored_or raw.alert_codes (dispatch_paused ∷ trigger_throttled ∷ dead_lettered ∷ []);
  cooldown_minutes = stored_or raw.cooldown_minutes 30;
}

-- `policy.model_dump`.
abbrev pub dump_policy : Policy → StoredPolicy
dump_policy p = record {
  enabled = some p.enabled;
  channels = some p.channels;
  severities = some p.severities;
  alert_codes = some p.alert_codes;
  cooldown_minutes = some p.cooldown_minutes;
}

unfoldable pub get_alert_policy : World → ℕ → Result AlertError Policy
unfolding find_tenant normalize_policy
get_alert_policy w tenant = do
  u ← found_tenant_or (find_tenant w tenant) alert_tenant_not_found
  ok (normalize_policy u.alert_policy)

unfoldable pub update_alert_policy : World → ℕ → Policy → Result AlertError (Policy × World)
unfolding find_tenant normalize_policy
update_alert_policy w tenant p = do
  u ← found_tenant_or (find_tenant w tenant) alert_tenant_not_found
  ok (
    normalize_policy (dump_policy p),
    record w {
      tenants =
          update_where (λ v. v.id == u.id) (λ v. record v { alert_policy = dump_policy p })
            w.tenants;
    },
  )

-- `alert.severity in policy.severities and alert.code in policy.alert_codes`.
abbrev pub is_matched : Policy → Alert → Bool
is_matched p a = contains p.severities a.severity && contains p.alert_codes a.code

unfoldable pub matched_alerts : Texts → World → ℕ → ℕ → Policy → List Alert
unfolding get_dispatch_health contains
matched_alerts t w tenant hours p =
    select_where (is_matched p) (get_dispatch_health t w tenant hours).alerts

-- `DispatchAlertPolicyPreviewRoute` and `DispatchAlertPolicyPreview`.
pub record PreviewRoute : Type 0 where
  pub channel_type : String
  pub target : String
  pub codes : List AlertCode

pub record Preview : Type 0 where
  pub policy_enabled : Bool
  pub alerts : List Alert
  pub routes : List PreviewRoute

abbrev pub preview_routes : Policy → List Alert → List PreviewRoute
preview_routes p alerts =
    if p.enabled && not (is_empty alerts)
    then map
        (λ c. record {
          channel_type = c.route_type;
          target = c.target;
          codes = map (λ a. a.code) alerts;
        })
        (select_where (λ c. c.enabled) p.channels)
    else []

unfoldable pub preview_alert_policy : Texts → World → ℕ → ℕ → Result AlertError Preview
unfolding get_alert_policy matched_alerts
preview_alert_policy t w tenant hours = do
  p ← get_alert_policy w tenant
  let alerts = matched_alerts t w tenant hours p
  ok (record { policy_enabled = p.enabled; alerts = alerts; routes = preview_routes p alerts })
