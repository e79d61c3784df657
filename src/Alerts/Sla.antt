-- ===== src/Alerts/Sla.antt =====
-- The analytics of incidents in backend/app/services/analytics_service.py: how many were resolved, how
-- fast, and which ones breached the agreed time. A day is a number of days; an average is a number of
-- tenths of a minute and a rate of tenths of a percent, rounded half to even.
use multi_tenant_agentic_wor.Base.{
  ℕ, zero, suc, ◌+◌, ◌-◌, ◌*◌, ◌/◌, ◌%◌, Bool, ◌&&◌, Option, none, some, List, [], ◌∷◌, ◌++◌, ◌==◌,
  if◌then◌else◌, leb, ltb, length, select_where, nat_eq, string_eq,
}
use multi_tenant_agentic_wor.Tables.{
  Severity, critical, warning, info, Acknowledgement, severity_eq,
}
use multi_tenant_agentic_wor.Store.{World}

-- `DispatchIncidentTrendItem`.
pub record Trend : Type 0 where
  pub day : ℕ
  pub acknowledged : ℕ
  pub resolved : ℕ
  pub open_ : ℕ
  pub sla_breaches : ℕ

-- The statistics of a severity, with the durations in seconds.
pub record SeverityStats : Type 0 where
  pub severity : Severity
  pub total_incidents : ℕ
  pub resolved_incidents : ℕ
  pub open_incidents : ℕ
  pub sla_breaches : ℕ
  pub durations : List ℕ

-- What the loop over the incidents keeps.
pub record IncidentTotals : Type 0 where
  pub resolved_incidents : ℕ
  pub open_incidents : ℕ
  pub sla_breaches : ℕ
  pub durations : List ℕ
  pub trends : List Trend
  pub severities : List SeverityStats

abbrev pub empty_trend : ℕ → Trend
empty_trend day = record { day = day; acknowledged = 0; resolved = 0; open_ = 0; sla_breaches = 0 }

abbrev pub empty_stats : Severity → SeverityStats
empty_stats severity = record {
  severity = severity;
  total_incidents = 0;
  resolved_incidents = 0;
  open_incidents = 0;
  sla_breaches = 0;
  durations = [];
}

-- `_incident_resolution_minutes`, in seconds.
abbrev pub resolution_time : Acknowledgement → Option ℕ
resolution_time a = elim a.resolved_at [ none ↦ none | some at ↦ some (at - a.created_at) ]

abbrev pub end_of : ℕ → Option ℕ → ℕ
end_of now none = now
end_of now (some at) = at

-- `_incident_sla_breached`.
unfoldable pub incident_sla_breached : ℕ → ℕ → Acknowledgement → Bool
incident_sla_breached now sla a = ltb (sla * 60) (end_of now a.resolved_at - a.created_at)

-- The time that a resolved incident took; the others are open.
abbrev pub resolved_in : Acknowledgement → Option ℕ
resolved_in a = if a.status == "resolved" then resolution_time a else none

abbrev pub count_trend : Option ℕ → Bool → Trend → Trend
count_trend none late x = record x {
  acknowledged = x.acknowledged + 1;
  open_ = x.open_ + 1;
  sla_breaches = if late then x.sla_breaches + 1 else x.sla_breaches;
}
count_trend (some seconds) late x = record x {
  acknowledged = x.acknowledged + 1;
  resolved = x.resolved + 1;
  sla_breaches = if late then x.sla_breaches + 1 else x.sla_breaches;
}

abbrev pub count_stats : Option ℕ → Bool → SeverityStats → SeverityStats
count_stats none late x = record x {
  total_incidents = x.total_incidents + 1;
  open_incidents = x.open_incidents + 1;
  sla_breaches = if late then x.sla_breaches + 1 else x.sla_breaches;
}
count_stats (some seconds) late x = record x {
  total_incidents = x.total_incidents + 1;
  resolved_incidents = x.resolved_incidents + 1;
  durations = x.durations ++ seconds ∷ [];
  sla_breaches = if late then x.sla_breaches + 1 else x.sla_breaches;
}

-- `trend_map.setdefault`, in the order of the days.
unfoldable pub at_day : ℕ → (Trend → Trend) → List Trend → List Trend
at_day day f [] = f (empty_trend day) ∷ []
at_day day f (x ∷ xs) =
    let rest = at_day day f xs in
    if x.day == day
    then f x ∷ xs
    else (if ltb day x.day then f (empty_trend day) ∷ x ∷ xs else x ∷ rest)

abbrev pub severity_order : Severity → ℕ
severity_order critical = 0
severity_order warning = 1
severity_order info = 2

-- `severity_stats.setdefault`, in the order of the severities.
unfoldable pub at_severity :
    Severity → (SeverityStats → SeverityStats) → List SeverityStats → List SeverityStats
at_severity severity f [] = f (empty_stats severity) ∷ []
at_severity severity f (x ∷ xs) =
    let rest = at_severity severity f xs in
    if x.severity == severity
    then f x ∷ xs
    else (if ltb (severity_order severity) (severity_order x.severity)
        then f (empty_stats severity) ∷ x ∷ xs
        else x ∷ rest)

abbrev pub count_totals : Option ℕ → Bool → IncidentTotals → IncidentTotals
count_totals none late s = record s {
  open_incidents = s.open_incidents + 1;
  sla_breaches = if late then s.sla_breaches + 1 else s.sla_breaches;
}
count_totals (some seconds) late s = record s {
  resolved_incidents = s.resolved_incidents + 1;
  durations = s.durations ++ seconds ∷ [];
  sla_breaches = if late then s.sla_breaches + 1 else s.sla_breaches;
}

unfoldable pub visit_incident : ℕ → ℕ → Acknowledgement → IncidentTotals → IncidentTotals
unfolding incident_sla_breached at_day at_severity
visit_incident now sla a s =
    let took = resolved_in a in
    let late = incident_sla_breached now sla a in
    record (count_totals took late s) {
      trends = at_day (a.created_at / 86400) (count_trend took late) s.trends;
      severities = at_severity a.severity (count_stats took late) s.severities;
    }

unfoldable pub visit_incidents : ℕ → ℕ → List Acknowledgement → IncidentTotals → IncidentTotals
unfolding visit_incident
visit_incidents now sla [] s = s
visit_incidents now sla (a ∷ rows) s = visit_incidents now sla rows (visit_incident now sla a s)

abbrev pub sum : List ℕ → ℕ
sum [] = 0
sum (n ∷ ns) = n + sum ns

-- `round` of the quotient of two numbers.
abbrev pub round_half_even : ℕ → ℕ → ℕ
round_half_even n d =
    let q = n / d in
    let twice = 2 * (n % d) in if ltb d twice then q + 1 else (if twice == d then q + q % 2 else q)

-- `_avg_minutes`.
unfoldable pub avg_minutes : List ℕ → Option ℕ
avg_minutes [] = none
avg_minutes (n ∷ ns) = some (round_half_even (sum (n ∷ ns)) (6 * length (n ∷ ns)))

abbrev pub breach_rate : ℕ → ℕ → ℕ
breach_rate breaches total = if total == 0 then 0 else round_half_even (breaches * 1000) total

abbrev pub empty_days : ℕ → ℕ → List Trend
empty_days start zero = []
empty_days start (suc n) = empty_trend start ∷ empty_days (suc start) n

-- The first of so many days up to now.
abbrev pub start_day : ℕ → ℕ → ℕ
start_day now days = (now + 86400 - days * 86400) / 86400

-- `order_by(created_at.asc())`.
unfoldable pub insert_incident : Acknowledgement → List Acknowledgement → List Acknowledgement
insert_incident x [] = x ∷ []
insert_incident x (y ∷ ys) =
    let rest = insert_incident x ys in
    if leb x.created_at y.created_at then x ∷ y ∷ ys else y ∷ rest

unfoldable pub order_incidents : List Acknowledgement → List Acknowledgement
unfolding insert_incident
order_incidents [] = []
order_incidents (x ∷ xs) = insert_incident x (order_incidents xs)

unfoldable pub incidents_since : World → ℕ → ℕ → List Acknowledgement
unfolding order_incidents select_where
incidents_since w tenant day =
    order_incidents (
      select_where (λ a. a.tenant_id == tenant && leb (day * 86400) a.created_at)
        w.acknowledgements)

-- `DispatchIncidentAnalyticsResponse`.
pub record IncidentAnalytics : Type 0 where
  pub generated_at : ℕ
  pub window_days : ℕ
  pub sla_minutes : ℕ
  pub total_incidents : ℕ
  pub totals : IncidentTotals
  pub sla_breach_rate : ℕ
  pub avg_resolution_minutes : Option ℕ

unfoldable pub get_incident_analytics : World → ℕ → ℕ → ℕ → IncidentAnalytics
unfolding incidents_since visit_incidents avg_minutes
get_incident_analytics w tenant days sla =
    let rows = incidents_since w tenant (start_day w.clock days) in
    let totals = visit_incidents w.clock sla rows (record {
      resolved_incidents = 0;
      open_incidents = 0;
      sla_breaches = 0;
      durations = [];
      trends = empty_days (start_day w.clock days) days;
      severities = [];
    }) in
    record {
      generated_at = w.clock;
      window_days = days;
      sla_minutes = sla;
      total_incidents = length rows;
      totals = totals;
      sla_breach_rate = breach_rate totals.sla_breaches (length rows);
      avg_resolution_minutes = avg_minutes totals.durations;
    }
