-- ===== src/Alerts/Recommendations.antt =====
-- The recommendations of backend/app/services/analytics_service.py: what could be automated, by the
-- health of dispatches, the incidents and the alert policy. Titles and other texts for users are left
-- out.
use multi_tenant_agentic_wor.Base.{
  ℕ, String, Bool, true, false, not, Option, List, [], ◌∷◌, ◌++◌, ◌==◌, if◌then◌else◌, leb,
  is_empty, length, find_where, count_where, Result, ok, ◌>>=◌, nat_eq, string_eq,
}
use multi_tenant_agentic_wor.Tables.{Severity, critical, warning, info}
use multi_tenant_agentic_wor.Store.{World}
use multi_tenant_agentic_wor.Texts.{Texts}
use multi_tenant_agentic_wor.Health.{DispatchHealth, get_dispatch_health}
use multi_tenant_agentic_wor.Alerts.{AlertError, Policy, get_alert_policy}
use multi_tenant_agentic_wor.Alerts.Sla.{IncidentAnalytics, get_incident_analytics}

-- `DispatchAutomationRecommendation`.
pub record Recommendation : Type 0 where
  pub code : String
  pub priority : Severity
  pub automation_type : String
  pub blocked_by : List String

abbrev pub recommend_if : Bool → String → Severity → String → List String → List Recommendation
recommend_if true code priority automation_type blocked_by =
    record {
      code = code;
      priority = priority;
      automation_type = automation_type;
      blocked_by = blocked_by;
    }
    ∷ []
recommend_if false code priority automation_type blocked_by = []

abbrev pub is_positive : ℕ → Bool
is_positive n = not (n == 0)

abbrev pub blocks_of : Policy → List String
blocks_of p = if p.enabled then [] else ("No active alert routing policy" ∷ [])

unfoldable pub recommendations_of :
    DispatchHealth → Policy → IncidentAnalytics → List Recommendation
recommendations_of h p a =
    recommend_if (is_positive h.dead_lettered_executions) "auto_retry_dead_letters" critical
      "approval_gated_retry" []
    ++ (recommend_if (is_positive h.paused_workflows) "auto_resume_guard" warning "resume_guard" []
        ++ (recommend_if (is_positive h.throttled_triggers) "auto_rate_limit_tuning" warning
              "rate_limit_tuning" []
            ++ (recommend_if (is_positive h.deferred_retries) "auto_retry_backlog_watch" info
                  "backlog_monitor" []
                ++ (recommend_if (is_positive a.totals.sla_breaches) "auto_sla_escalation"
                      (if leb 500 a.sla_breach_rate then critical else warning) "sla_escalation"
                      (blocks_of p)
                    ++ recommend_if (not p.enabled) "setup_alert_routing" warning
                        "alert_routing_setup" ("No active alert routing policy" ∷ [])))))

-- `DispatchControlRecommendationsResponse`.
pub record ControlRecommendations : Type 0 where
  pub generated_at : ℕ
  pub window_hours : ℕ
  pub sla_minutes : ℕ
  pub recommendation_count : ℕ
  pub automation_ready_count : ℕ
  pub recommendations : List Recommendation

unfoldable pub get_control_recommendations :
    Texts → World → ℕ → ℕ → ℕ → Result AlertError ControlRecommendations
unfolding get_dispatch_health get_alert_policy get_incident_analytics recommendations_of count_where
get_control_recommendations t w tenant hours sla = do
  p ← get_alert_policy w tenant
  let found =
      recommendations_of (get_dispatch_health t w tenant hours) p
        (get_incident_analytics w tenant 30 sla)
  ok (record {
    generated_at = w.clock;
    window_hours = hours;
    sla_minutes = sla;
    recommendation_count = length found;
    automation_ready_count = count_where (λ r. is_empty r.blocked_by) found;
    recommendations = found;
  })

-- `_find_current_dispatch_recommendation`.
unfoldable pub find_current_recommendation :
    Texts → World → ℕ → String → ℕ → ℕ → Result AlertError (Option Recommendation)
unfolding get_control_recommendations find_where
find_current_recommendation t w tenant code hours sla = do
  response ← get_control_recommendations t w tenant hours sla
  ok (find_where (λ r. r.code == code) response.recommendations)
