-- ===== src/Alerts/Evaluator.antt =====
-- The evaluation of the alert policies of all tenants in
-- backend/app/services/dispatch_alert_evaluator_worker.py.
use multi_tenant_agentic_wor.Base.{
  ℕ, ◌+◌, true, not, ◌&&◌, List, [], ◌∷◌, ◌++◌, if◌then◌else◌, is_empty, length, take, max, Result,
  ok, err, ◌>>=◌,
}
use multi_tenant_agentic_wor.Store.{Tenant, World}
use multi_tenant_agentic_wor.Texts.{Texts}
use multi_tenant_agentic_wor.Automation.Scheduler.{order_tenants}
use multi_tenant_agentic_wor.Alerts.{AlertError, Policy, get_alert_policy}
use multi_tenant_agentic_wor.Alerts.Sending.{DeliveryReport, Mailer, deliver_dispatch_alerts}

-- `DispatchAlertEvaluationReport`.
pub record EvaluationReport : Type 0 where
  pub tenants_scanned : ℕ
  pub tenants_evaluated : ℕ
  pub attempted : ℕ
  pub delivered : ℕ
  pub failed : ℕ
  pub skipped : ℕ
  pub tenant_ids : List ℕ

unfoldable pub add_delivery : ℕ → DeliveryReport → EvaluationReport → EvaluationReport
add_delivery tenant d r = record r {
  tenants_evaluated = r.tenants_evaluated + 1;
  tenant_ids = r.tenant_ids ++ tenant ∷ [];
  attempted = r.attempted + d.attempted;
  delivered = r.delivered + d.delivered;
  failed = r.failed + d.failed;
  skipped = r.skipped + d.skipped;
}

abbrev pub empty_evaluation : ℕ → EvaluationReport
empty_evaluation n = record {
  tenants_scanned = n;
  tenants_evaluated = 0;
  attempted = 0;
  delivered = 0;
  failed = 0;
  skipped = 0;
  tenant_ids = [];
}

abbrev pub added_delivery :
    ℕ
    → EvaluationReport
    → Result AlertError (World × DeliveryReport)
    → Result AlertError (World × EvaluationReport)
unfolding add_delivery
added_delivery tenant r (err e) = err e
added_delivery tenant r (ok (w, d)) = ok (w, add_delivery tenant d r)

module _ (m : Mailer) (t : Texts) (hours : ℕ) where
  unfoldable pub evaluate_tenant :
      World
      → ℕ
      → EvaluationReport
      → Result AlertError Policy
      → Result AlertError (World × EvaluationReport)
  unfolding deliver_dispatch_alerts add_delivery
  evaluate_tenant w tenant r (err e) = err e
  evaluate_tenant w tenant r (ok p) =
      if p.enabled && not (is_empty p.channels)
      then added_delivery tenant r (deliver_dispatch_alerts m t true w tenant hours)
      else ok (w, r)

  unfoldable pub evaluate_tenants :
      List Tenant → World → EvaluationReport → Result AlertError (World × EvaluationReport)
  unfolding get_alert_policy evaluate_tenant
  evaluate_tenants [] w r = ok (w, r)
  evaluate_tenants (u ∷ us) w r = do
    (w', r') ← evaluate_tenant w u.id r (get_alert_policy w u.id)
    evaluate_tenants us w' r'

  unfoldable pub evaluate_dispatch_alerts : World → ℕ → Result AlertError (World × EvaluationReport)
  unfolding order_tenants evaluate_tenants
  evaluate_dispatch_alerts w limit =
      let us = take (max limit 1) (order_tenants w.tenants) in
      evaluate_tenants us w (empty_evaluation (length us))

-- The bounds that the constructor of the worker sets, and one run of its loop.
unfoldable pub run_evaluator :
    Mailer → Texts → World → ℕ → ℕ → Result AlertError (World × EvaluationReport)
unfolding evaluate_dispatch_alerts
run_evaluator m t w limit hours = evaluate_dispatch_alerts m t (max hours 1) w (max limit 1)
