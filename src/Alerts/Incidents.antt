-- ===== src/Alerts/Incidents.antt =====
-- The incidents of dispatches in backend/app/services/analytics_service.py: their key, the
-- acknowledgement and the resolution. The history and the runbook are in Alerts/Runbook.
use Prim.Native.String.{◌++◌ as text_append}
use multi_tenant_agentic_wor.Base.{
  ℕ, suc, String, Bool, true, false, not, ◌&&◌, Option, none, some, List, [], ◌∷◌, ◌++◌, ◌==◌,
  if◌then◌else◌, select_where, update_where, any_where, Result, ok, err, ◌>>=◌, nat_eq, string_eq,
  option_eq,
}
use multi_tenant_agentic_wor.Tables.{
  User, AlertCode, dispatch_paused, trigger_throttled, deferred_retries, dead_lettered, Severity,
  critical, warning, info, Acknowledgement, alert_code_eq, severity_eq,
}
use multi_tenant_agentic_wor.Store.{World}
use multi_tenant_agentic_wor.Texts.{Texts}
use multi_tenant_agentic_wor.Health.{Alert}
use multi_tenant_agentic_wor.Automation.{clean_message}
use multi_tenant_agentic_wor.Alerts.{
  AlertError, Policy, get_alert_policy, matched_alerts, multiple_rows_found, no_active_incident,
  no_open_incident,
}

abbrev pub has_severity : Severity → List Alert → Bool
has_severity severity alerts = any_where (λ a. a.severity == severity) alerts

abbrev pub has_code : AlertCode → List Alert → Bool
has_code code alerts = any_where (λ a. a.code == code) alerts

unfoldable pub runbook_severity : List Alert → Severity
unfolding any_where
runbook_severity alerts =
    if has_severity critical alerts
    then critical
    else (if has_severity warning alerts then warning else info)

abbrev pub code_text : AlertCode → String
code_text dispatch_paused = "dispatch_paused"
code_text trigger_throttled = "trigger_throttled"
code_text deferred_retries = "deferred_retries"
code_text dead_lettered = "dead_lettered"

-- `sorted({alert.code for alert in alerts})`.
unfoldable pub sorted_codes : List Alert → List AlertCode
unfolding select_where any_where
sorted_codes alerts =
    select_where (λ code. has_code code alerts)
      (dead_lettered ∷ deferred_retries ∷ dispatch_paused ∷ trigger_throttled ∷ [])

-- `",".join(codes)`.
abbrev pub join_codes : List AlertCode → String
join_codes [] = ""
join_codes (code ∷ []) = code_text code
join_codes (code ∷ code' ∷ codes) =
    text_append (code_text code) (text_append "," (join_codes (code' ∷ codes)))

unfoldable pub incident_key_for_alerts : List Alert → Option String
unfolding sorted_codes
incident_key_for_alerts [] = none
incident_key_for_alerts (a ∷ alerts) =
    some (text_append "dispatch:" (join_codes (sorted_codes (a ∷ alerts))))

abbrev pub is_open : ℕ → String → Acknowledgement → Bool
is_open tenant key a = a.tenant_id == tenant && a.incident_key == key && a.status == "acknowledged"

-- `scalar_one_or_none`, which raises when there are several rows.
abbrev pub one_or_none {ℓ} : {A : Type ℓ} → List A → Result AlertError (Option A)
one_or_none [] = ok none
one_or_none (x ∷ []) = ok (some x)
one_or_none (x ∷ y ∷ xs) = err multiple_rows_found

-- `_get_open_incident_acknowledgement`.
unfoldable pub open_acknowledgement :
    World → ℕ → Option String → Result AlertError (Option Acknowledgement)
unfolding select_where
open_acknowledgement w tenant none = ok none
open_acknowledgement w tenant (some key) =
    one_or_none (select_where (is_open tenant key) w.acknowledgements)

-- `_get_current_runbook_context`.
unfoldable pub current_context : Texts → World → ℕ → ℕ → Result AlertError (Policy × List Alert)
unfolding get_alert_policy matched_alerts
current_context t w tenant hours = do
  p ← get_alert_policy w tenant
  ok (p, matched_alerts t w tenant hours p)

unfoldable pub get_incident_acknowledgement :
    Texts → World → ℕ → ℕ → Result AlertError (Option Acknowledgement)
unfolding current_context incident_key_for_alerts open_acknowledgement
get_incident_acknowledgement t w tenant hours = do
  (p, alerts) ← current_context t w tenant hours
  open_acknowledgement w tenant (incident_key_for_alerts alerts)

abbrev pub codes_beq : List AlertCode → List AlertCode → Bool
codes_beq [] [] = true
codes_beq [] (d ∷ ds) = false
codes_beq (c ∷ cs) [] = false
codes_beq (c ∷ cs) (d ∷ ds) = c == d && codes_beq cs ds

abbrev pub id_beq : Option ℕ → Option ℕ → Bool
id_beq none none = true
id_beq none (some j) = false
id_beq (some i) none = false
id_beq (some i) (some j) = i == j

module _ (clean : String → String) (now : ℕ) (user : User) (alerts : List Alert)
    (note : Option String) where
  unfoldable pub acknowledged_row : Acknowledgement → Acknowledgement
  unfolding runbook_severity sorted_codes
  acknowledged_row a = record a {
    status = "acknowledged";
    severity = runbook_severity alerts;
    summary = "Dispatch incident handoff required";
    alert_codes = sorted_codes alerts;
    acknowledged_by = some user.id;
    acknowledged_by_email = user.email;
    acknowledged_by_name = user.full_name;
    note = clean_message clean note;
  }

  -- A row that is written with its own values is not updated.
  abbrev pub is_rewritten : Acknowledgement → Acknowledgement → Bool
  is_rewritten a b = not (
      a.status == b.status
      && a.severity == b.severity
      && a.summary == b.summary
      && codes_beq a.alert_codes b.alert_codes
      && id_beq a.acknowledged_by b.acknowledged_by
      && a.acknowledged_by_email == b.acknowledged_by_email
      && a.acknowledged_by_name == b.acknowledged_by_name
      && a.note == b.note)

  unfoldable pub renewed : Acknowledgement → Acknowledgement
  unfolding acknowledged_row
  renewed a =
      let b = acknowledged_row a in
      record b { updated_at = if is_rewritten a b then now else a.updated_at }

  unfoldable pub new_acknowledgement : ℕ → ℕ → String → Acknowledgement
  unfolding runbook_severity sorted_codes
  new_acknowledgement i tenant key = record {
    id = i;
    tenant_id = tenant;
    incident_key = key;
    status = "acknowledged";
    severity = runbook_severity alerts;
    summary = "Dispatch incident handoff required";
    alert_codes = sorted_codes alerts;
    acknowledged_by = some user.id;
    acknowledged_by_email = user.email;
    acknowledged_by_name = user.full_name;
    note = clean_message clean note;
    resolved_by = none;
    resolved_by_email = none;
    resolved_by_name = none;
    resolution_note = none;
    resolved_at = none;
    created_at = now;
    updated_at = now;
  }

abbrev pub found_key_or : Option String → Result AlertError String
found_key_or none = err no_active_incident
found_key_or (some key) = ok key

-- The row that was found is the only one that is open.
unfoldable pub write_acknowledgement :
    (String → String)
    → World
    → ℕ
    → User
    → List Alert
    → Option String
    → String
    → Option Acknowledgement
    → World
unfolding update_where new_acknowledgement renewed
write_acknowledgement clean w tenant user alerts note key none = record w {
  acknowledgements =
      w.acknowledgements
      ++ new_acknowledgement clean w.clock user alerts note w.next_id tenant key ∷ [];
  next_id = suc w.next_id;
}
write_acknowledgement clean w tenant user alerts note key (some a) = record w {
  acknowledgements =
      update_where (is_open tenant key) (renewed clean w.clock user alerts note) w.acknowledgements;
}

unfoldable pub acknowledge_incident :
    Texts → (String → String) → World → ℕ → User → Option String → ℕ → Result AlertError World
unfolding current_context incident_key_for_alerts open_acknowledgement write_acknowledgement
acknowledge_incident t clean w tenant user note hours = do
  (p, alerts) ← current_context t w tenant hours
  key ← found_key_or (incident_key_for_alerts alerts)
  found ← open_acknowledgement w tenant (some key)
  ok (write_acknowledgement clean w tenant user alerts note key found)

abbrev pub resolved_row :
    (String → String) → ℕ → User → Option String → Acknowledgement → Acknowledgement
resolved_row clean now user note a = record a {
  status = "resolved";
  resolved_by = some user.id;
  resolved_by_email = some user.email;
  resolved_by_name = user.full_name;
  resolution_note = clean_message clean note;
  resolved_at = some now;
  updated_at = now;
}

unfoldable pub write_resolution :
    (String → String)
    → World
    → ℕ
    → User
    → Option String
    → Option String
    → Option Acknowledgement
    → Result AlertError World
unfolding update_where
write_resolution clean w tenant user remark (some key) (some a) = ok (record w {
  acknowledgements =
      update_where (is_open tenant key) (resolved_row clean w.clock user remark) w.acknowledgements;
})
write_resolution clean w tenant user remark _ _ = err no_open_incident

unfoldable pub resolve_incident :
    Texts → (String → String) → World → ℕ → User → Option String → ℕ → Result AlertError World
unfolding current_context incident_key_for_alerts open_acknowledgement write_resolution
resolve_incident t clean w tenant user note hours = do
  (p, alerts) ← current_context t w tenant hours
  let key = incident_key_for_alerts alerts
  found ← open_acknowledgement w tenant key
  write_resolution clean w tenant user note key found
