-- ===== src/Tables.antt =====
-- The rows of backend/app/models for users and their tokens (user.py, refresh_token.py), for webhooks
-- (connector.py), and for the alerts and the automation of dispatches (dispatch_alert.py). An identifier
-- is a number, a time a number of seconds.
use multi_tenant_agentic_wor.Base.{ℕ, ◌≡◌, ◌↔◌, String, Bool, true, false, Option, List, arith, Eq}
use multi_tenant_agentic_wor.Base.Json.{Json, Fields}

pub record User : Type 0 where
  pub id : ℕ
  pub tenant_id : ℕ
  pub email : String
  pub password_hash : String
  pub full_name : Option String
  pub role : String
  pub is_active : Bool
  pub must_change_password : Bool
  pub created_at : ℕ

pub record RefreshToken : Type 0 where
  pub id : ℕ
  pub user_id : ℕ
  pub tenant_id : ℕ
  pub token_hash : String
  pub expires_at : ℕ
  pub revoked_at : Option ℕ
  pub replaced_by_id : Option ℕ

pub data PlanStatus : Type 0 where
  pending_approval approved rejected executing executed blocked plan_failed : PlanStatus

abbrev pub plan_status_beq : PlanStatus → PlanStatus → Bool
plan_status_beq pending_approval pending_approval = true
plan_status_beq approved approved = true
plan_status_beq rejected rejected = true
plan_status_beq executing executing = true
plan_status_beq executed executed = true
plan_status_beq blocked blocked = true
plan_status_beq plan_failed plan_failed = true
plan_status_beq _ _ = false

pub plan_status_beq_iff : (a b : PlanStatus) → (plan_status_beq a b ≡ true) ↔ (a ≡ b)
plan_status_beq_iff a b = ground arith

instance abbrev pub plan_status_eq : Eq PlanStatus
plan_status_eq = record { equals = plan_status_beq; equals_iff = plan_status_beq_iff }

-- A DispatchAutomationPlan. What a recommendation writes and nothing reads again is left out.
pub record Plan : Type 0 where
  pub id : ℕ
  pub tenant_id : ℕ
  pub recommendation_code : String
  pub automation_type : String
  pub status : PlanStatus
  pub requested_by : Option ℕ
  pub approved_by : Option ℕ
  pub approved_at : Option ℕ
  pub rejected_by : Option ℕ
  pub rejected_at : Option ℕ
  pub rejection_note : Option String
  pub execution_result : Fields
  pub executed_at : Option ℕ
  pub execution_error : Option String
  pub created_at : ℕ

-- A DispatchAutomationWorkerRun.
pub record WorkerRun : Type 0 where
  pub id : ℕ
  pub tenant_id : ℕ
  pub triggered_by : Option ℕ
  pub trigger_type : String
  pub status : String
  pub limit : ℕ
  pub claimed : ℕ
  pub executed : ℕ
  pub blocked : ℕ
  pub failed : ℕ
  pub error_message : Option String
  pub created_at : ℕ

-- The JSON of `dispatch_automation_worker_config`: a key may be missing.
pub record StoredConfig : Type 0 where
  pub enabled : Option Bool
  pub interval_minutes : Option ℕ
  pub max_plans_per_run : Option ℕ

-- A WorkflowTrigger and a WebhookEvent, as far as the health of dispatches reads them.
pub record Trigger : Type 0 where
  pub id : ℕ
  pub tenant_id : ℕ
  pub trigger_type : String
  pub config : Json
  pub is_active : Bool

pub record WebhookEvent : Type 0 where
  pub tenant_id : ℕ
  pub trigger_id : ℕ
  pub created_at : ℕ

pub data AlertCode : Type 0 where
  dispatch_paused trigger_throttled deferred_retries dead_lettered : AlertCode

abbrev pub alert_code_beq : AlertCode → AlertCode → Bool
alert_code_beq dispatch_paused dispatch_paused = true
alert_code_beq trigger_throttled trigger_throttled = true
alert_code_beq deferred_retries deferred_retries = true
alert_code_beq dead_lettered dead_lettered = true
alert_code_beq _ _ = false

pub alert_code_beq_iff : (a b : AlertCode) → (alert_code_beq a b ≡ true) ↔ (a ≡ b)
alert_code_beq_iff a b = ground arith

instance abbrev pub alert_code_eq : Eq AlertCode
alert_code_eq = record { equals = alert_code_beq; equals_iff = alert_code_beq_iff }

pub data Severity : Type 0 where
  critical warning info : Severity

abbrev pub severity_beq : Severity → Severity → Bool
severity_beq critical critical = true
severity_beq warning warning = true
severity_beq info info = true
severity_beq _ _ = false

pub severity_beq_iff : (a b : Severity) → (severity_beq a b ≡ true) ↔ (a ≡ b)
severity_beq_iff a b = ground arith

instance abbrev pub severity_eq : Eq Severity
severity_eq = record { equals = severity_beq; equals_iff = severity_beq_iff }

-- A DispatchAlertChannel of a policy.
pub record Route : Type 0 where
  pub route_type : String
  pub target : String
  pub credential_id : Option ℕ
  pub enabled : Bool

-- The JSON of `dispatch_alert_policy`: a key may be missing.
pub record StoredPolicy : Type 0 where
  pub enabled : Option Bool
  pub channels : Option (List Route)
  pub severities : Option (List Severity)
  pub alert_codes : Option (List AlertCode)
  pub cooldown_minutes : Option ℕ

-- A DispatchAlertChannelCredential, a DispatchAlertDelivery and a DispatchIncidentAcknowledgement.
pub record AlertChannel : Type 0 where
  pub id : ℕ
  pub tenant_id : ℕ
  pub name : String
  pub channel_type : String
  pub encrypted_config : Json
  pub config_preview : Fields
  pub is_active : Bool
  pub created_by : Option ℕ
  pub created_at : ℕ

pub record Delivery : Type 0 where
  pub id : ℕ
  pub tenant_id : ℕ
  pub channel_id : Option ℕ
  pub alert_code : AlertCode
  pub channel_type : String
  pub target_preview : String
  pub status : String
  pub status_code : Option ℕ
  pub error_message : Option String
  pub created_at : ℕ

pub record Acknowledgement : Type 0 where
  pub id : ℕ
  pub tenant_id : ℕ
  pub incident_key : String
  pub status : String
  pub severity : Severity
  pub summary : String
  pub alert_codes : List AlertCode
  pub acknowledged_by : Option ℕ
  pub acknowledged_by_email : String
  pub acknowledged_by_name : Option String
  pub note : Option String
  pub resolved_by : Option ℕ
  pub resolved_by_email : Option String
  pub resolved_by_name : Option String
  pub resolution_note : Option String
  pub resolved_at : Option ℕ
  pub created_at : ℕ
  pub updated_at : ℕ

-- A row of the tool_registry.
pub record Tool : Type 0 where
  pub id : ℕ
  pub tenant_id : ℕ
  pub name : String
  pub description : String
  pub tool_type : String
  pub config : Fields
  pub is_active : Bool
  pub created_at : ℕ

pub data SuggestionStatus : Type 0 where
  proposed replay_passed replay_failed applied dismissed : SuggestionStatus

abbrev pub suggestion_status_beq : SuggestionStatus → SuggestionStatus → Bool
suggestion_status_beq proposed proposed = true
suggestion_status_beq replay_passed replay_passed = true
suggestion_status_beq replay_failed replay_failed = true
suggestion_status_beq applied applied = true
suggestion_status_beq dismissed dismissed = true
suggestion_status_beq _ _ = false

pub suggestion_status_beq_iff :
    (a b : SuggestionStatus) → (suggestion_status_beq a b ≡ true) ↔ (a ≡ b)
suggestion_status_beq_iff a b = ground arith

instance abbrev pub suggestion_status_eq : Eq SuggestionStatus
suggestion_status_eq = record {
  equals = suggestion_status_beq;
  equals_iff = suggestion_status_beq_iff;
}

-- A WorkflowFixSuggestion, without the texts that only users read; the confidence is in percent.
pub record Suggestion : Type 0 where
  pub id : ℕ
  pub tenant_id : ℕ
  pub workflow_id : ℕ
  pub execution_id : ℕ
  pub agent_config_id : Option ℕ
  pub detector_code : String
  pub root_cause : String
  pub severity : String
  pub confidence : ℕ
  pub patch : Json
  pub replay_result : Option Json
  pub status : SuggestionStatus
  pub applied_by : Option ℕ
  pub applied_at : Option ℕ
  pub dismissed_at : Option ℕ
  pub created_at : ℕ

-- A WorkflowReplayRun.
pub record ReplayRun : Type 0 where
  pub id : ℕ
  pub tenant_id : ℕ
  pub workflow_id : ℕ
  pub execution_id : ℕ
  pub suggestion_id : ℕ
  pub mode : String
  pub status : String
  pub result : Json
  pub completed_at : Option ℕ
  pub created_at : ℕ
