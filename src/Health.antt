-- ===== src/Health.antt =====
-- The health of webhook dispatch and its alerts, in backend/app/services/analytics_service.py. The titles
-- and messages of alerts are left out: nothing decides by them.
use multi_tenant_agentic_wor.Base.{
  ℕ, ◌-◌, ◌*◌, Bool, false, ◌&&◌, Option, none, some, List, [], ◌∷◌, ◌++◌, ◌==◌, if◌then◌else◌, leb,
  select_where, count_where, nat_eq, string_eq,
}
use multi_tenant_agentic_wor.Base.Int.{ℤ, pos, negsuc}
use multi_tenant_agentic_wor.Base.Json
use multi_tenant_agentic_wor.Base.Json.{Json, Fields, is_true}
use multi_tenant_agentic_wor.Tables.{
  Trigger, AlertCode, dispatch_paused, trigger_throttled, deferred_retries, dead_lettered, Severity,
  critical, warning, info,
}
use multi_tenant_agentic_wor.Store.{Execution, World, pending, status_eq}
use multi_tenant_agentic_wor.Texts.{Texts, to_int, dispatch_metadata, is_webhook_trigger}

-- `DispatchHealthAlert`.
pub record Alert : Type 0 where
  pub code : AlertCode
  pub severity : Severity
  pub count : ℕ

-- `DispatchHealthResponse`.
pub record DispatchHealth : Type 0 where
  pub paused_workflows : ℕ
  pub throttled_triggers : ℕ
  pub pending_dispatches : ℕ
  pub deferred_retries : ℕ
  pub dead_lettered_executions : ℕ
  pub manual_retries : ℕ
  pub alerts : List Alert

abbrev pub alert_if : AlertCode → Severity → ℕ → List Alert
alert_if code severity n =
    if n == 0 then [] else (record { code = code; severity = severity; count = n } ∷ [])

-- `_dispatch_alerts`.
unfoldable pub dispatch_alerts : ℕ → ℕ → ℕ → ℕ → List Alert
dispatch_alerts paused throttled deferred dead =
    alert_if dispatch_paused warning paused
    ++ (alert_if trigger_throttled warning throttled
        ++ (alert_if deferred_retries info deferred ++ alert_if dead_lettered critical dead))

-- `if dispatch.get(k)`.
abbrev pub is_present : Option Json → Bool
is_present none = false
is_present (some v) = Json.truthy v

abbrev pub is_recent : ℕ → ℕ → ℕ → Execution → Bool
is_recent tenant now hours x =
    x.tenant_id == tenant
    && leb (now - hours * 3600) x.created_at
    && is_webhook_trigger x.input_data

-- A limit of a trigger: so many events in a window of so many seconds.
pub record RateLimitConfig : Type 0 where
  pub max_events : ℕ
  pub window_seconds : ℕ

abbrev pub positive : Option ℤ → Option ℕ
positive none = none
positive (some (negsuc n)) = none
positive (some (pos n)) = if n == 0 then none else some n

-- A bound that is no number or not positive means no limit.
abbrev pub both : Option ℕ → Option ℕ → Option RateLimitConfig
both (some m) (some s) = some (record { max_events = m; window_seconds = s })
both _ _ = none

abbrev pub active_rate_limit : Texts → Option Json → Option RateLimitConfig
active_rate_limit t (some (Json.obj d)) =
    if is_true (Json.get "enabled" d)
    then both (positive (to_int t (Json.get "max_events" d)))
        (positive (to_int t (Json.get "window_seconds" d)))
    else none
active_rate_limit t _ = none

-- `_get_rate_limit_config`.
unfoldable pub get_rate_limit_config : Texts → Json → Option RateLimitConfig
get_rate_limit_config t config =
    active_rate_limit t (Json.get "rate_limit" (Json.as_dict (some config)))

abbrev pub is_exhausted : World → ℕ → ℕ → Trigger → Option RateLimitConfig → Bool
is_exhausted w tenant now g none = false
is_exhausted w tenant now g (some c) = leb c.max_events (
    count_where
      (λ e.
        e.tenant_id == tenant && e.trigger_id == g.id && leb (now - c.window_seconds) e.created_at)
      w.webhook_events)

-- `_count_throttled_triggers`.
unfoldable pub count_throttled_triggers : Texts → World → ℕ → ℕ → ℕ
unfolding get_rate_limit_config
count_throttled_triggers t w tenant now =
    count_where
      (λ g.
        g.tenant_id == tenant
        && g.trigger_type == "webhook"
        && g.is_active
        && is_exhausted w tenant now g (get_rate_limit_config t g.config))
      w.triggers

unfoldable pub get_dispatch_health : Texts → World → ℕ → ℕ → DispatchHealth
unfolding count_throttled_triggers dispatch_alerts
get_dispatch_health t w tenant hours =
    let recent = select_where (is_recent tenant w.clock hours) w.executions in
    let paused =
      count_where (λ f. f.tenant_id == tenant && f.is_active && f.dispatch_paused) w.workflows in
    let throttled = count_throttled_triggers t w tenant w.clock in
    let deferred =
      count_where
        (λ x.
          x.status == pending
          && is_present (Json.get "next_attempt_at" (dispatch_metadata x.input_data)))
        recent in
    let dead =
      count_where (λ x. is_true (Json.get "dead_lettered" (dispatch_metadata x.input_data)))
        recent in
    record {
      paused_workflows = paused;
      throttled_triggers = throttled;
      pending_dispatches = count_where (λ x. x.status == pending) recent;
      deferred_retries = deferred;
      dead_lettered_executions = dead;
      manual_retries =
          count_where (λ x. is_true (Json.get "manual_retry" (dispatch_metadata x.input_data)))
            recent;
      alerts = dispatch_alerts paused throttled deferred dead;
    }
