-- ===== src/Automation/Fleet.antt =====
-- The counters of the fleet's snapshot and of a round of the scheduler.
use multi_tenant_agentic_wor.Base.{
  ℕ, suc, ◌+◌, ◌≤◌, ◌<◌, ◌≡◌, refl, max, String, Bool, true, false, not, ◌&&◌, Option, none, some,
  List, [], ◌∷◌, arith, leb, length, length-append, Result, ok, err, Bool-cases, inl, inr, subst,
  count_where,
}
use multi_tenant_agentic_wor.Tables.{WorkerRun}
use multi_tenant_agentic_wor.Store.{Tenant, World}
use multi_tenant_agentic_wor.Automation.{
  WorkerConfig, WorkerResult, normalize_config, latest_scheduled_run, SkipReason, tenant_disabled,
  backoff, interval, DueState,
}
use multi_tenant_agentic_wor.Automation.Scheduler.{
  schedule_after, tenant_schedule_due_state, tenant_schedule_is_due, due_state_of, Fleet, plus_if,
  is_reason, is_configured, inspect_tenant, inspect_loop, insert_tenant, order_tenants, empty_fleet,
  inspect_fleet,
}
use multi_tenant_agentic_wor.Automation.Rounds.{
  SchedulerReport, empty_scheduler_report, add_result, add_failure, RunFunc, record_run, visit_due,
  visit_tenant, evaluate_loop, evaluate_workers,
}

-- Every tenant is due, disabled, waiting for its interval or held back, and exactly one of these.
pub record IsSorted (d : DueState) (enabled : Bool) : Type 0 where
  pub disabled : enabled ≡ false → d.due_now ≡ false
  pub others :
      plus_if d.due_now 0
        + plus_if (not d.due_now && is_reason interval d) 0
        + plus_if (not d.due_now && is_reason backoff d) 0
      ≡ plus_if enabled 0

tenant_schedule_due_state-IsSorted :
    (enabled : Bool) (n : ℕ) (run : Option WorkerRun) (now : ℕ)
    → IsSorted (tenant_schedule_due_state enabled n run now) enabled
unfolding tenant_schedule_due_state schedule_after
tenant_schedule_due_state-IsSorted true n none now = record {
  disabled = λ h. cc;
  others = omega arith;
}
tenant_schedule_due_state-IsSorted false n none now = record {
  disabled = λ h. refl;
  others = omega arith;
}
tenant_schedule_due_state-IsSorted false n (some run) now = record {
  disabled = λ h. refl;
  others = omega arith;
}
tenant_schedule_due_state-IsSorted true n (some run) now = record {
  disabled = λ h. cc;
  others = ground arith;
}

-- The counters of the snapshot after so many tenants.
pub record FleetAddsUp (n : ℕ) (s : Fleet) : Type 0 where
  pub total : s.enabled_tenants + s.disabled_tenants ≡ n
  pub enabled : s.due_tenants + s.interval_waiting_tenants + s.backoff_tenants ≡ s.enabled_tenants
  pub configured : s.configured_tenants ≤ n

plus_if-eq : (b : Bool) (n : ℕ) → plus_if b n ≡ n + plus_if b 0
plus_if-eq true n = omega arith
plus_if-eq false n = omega arith

inspect_tenant-FleetAddsUp :
    (w : World) (now : ℕ) (include : Bool) (u : Tenant) (n : ℕ) (s : Fleet)
    → FleetAddsUp n s
    → FleetAddsUp (suc n) (inspect_tenant w now include u s)
unfolding inspect_tenant due_state_of normalize_config
inspect_tenant-FleetAddsUp w now include u n s h =
    let c = normalize_config u.worker_config in
    let d = due_state_of w now u in
    let sorted : IsSorted d c.enabled =
      tenant_schedule_due_state-IsSorted c.enabled c.interval_minutes (latest_scheduled_run w u.id)
        now in
    record {
      total = omega (
        arith,
        h.total,
        plus_if-eq c.enabled s.enabled_tenants,
        plus_if-eq (not c.enabled) s.disabled_tenants,
        one_of c.enabled,
      );
      enabled = omega (
        arith,
        h.enabled,
        sorted.others,
        plus_if-eq c.enabled s.enabled_tenants,
        plus_if-eq d.due_now s.due_tenants,
        plus_if-eq (not d.due_now && is_reason interval d) s.interval_waiting_tenants,
        plus_if-eq (not d.due_now && is_reason backoff d) s.backoff_tenants,
      );
      configured = omega (
        arith,
        h.configured,
        plus_if-eq (is_configured u.worker_config) s.configured_tenants,
        at_most_one (is_configured u.worker_config),
      );
    }
  where
    one_of : (b : Bool) → plus_if b 0 + plus_if (not b) 0 ≡ 1
    one_of true = omega arith
    one_of false = omega arith

    at_most_one : (b : Bool) → plus_if b 0 ≤ 1
    at_most_one true = omega arith
    at_most_one false = omega arith

inspect_loop-FleetAddsUp :
    (w : World) (now : ℕ) (include : Bool) (us : List Tenant) (n : ℕ) (s : Fleet)
    → FleetAddsUp n s
    → FleetAddsUp (length us + n) (inspect_loop w now include us s)
unfolding inspect_loop
inspect_loop-FleetAddsUp w now include [] n s h = subst (λ k. FleetAddsUp k s) (omega arith) h
inspect_loop-FleetAddsUp w now include (u ∷ us) n s h =
    subst (λ k. FleetAddsUp k (inspect_loop w now include (u ∷ us) s)) (omega arith)
      (inspect_loop-FleetAddsUp w now include us (suc n) (inspect_tenant w now include u s)
        (inspect_tenant-FleetAddsUp w now include u n s h))

length-insert_tenant :
    (x : Tenant) (us : List Tenant) → length (insert_tenant x us) ≡ suc (length us)
unfolding insert_tenant
length-insert_tenant x [] = refl
length-insert_tenant x (u ∷ us) = ground (arith, length-insert_tenant x us)

length-order_tenants : (us : List Tenant) → length (order_tenants us) ≡ length us
unfolding order_tenants
length-order_tenants [] = refl
length-order_tenants (u ∷ us) =
    omega (arith, length-insert_tenant u (order_tenants us), length-order_tenants us)

-- In the snapshot of the fleet, the enabled and the disabled tenants are all tenants, the enabled
-- ones are those that are due, that wait for their interval and that a failed run holds back, and
-- no more tenants are configured than there are.
pub inspect_fleet-FleetAddsUp :
    (w : World) (now : ℕ) (include : Bool)
    → FleetAddsUp (length w.tenants) (inspect_fleet w now include)
unfolding inspect_fleet
inspect_fleet-FleetAddsUp w now include =
    subst (λ k. FleetAddsUp k (inspect_fleet w now include))
      (omega (arith, length-order_tenants w.tenants))
      (inspect_loop-FleetAddsUp w now include (order_tenants w.tenants) 0
        (empty_fleet (count_where (λ u. true) w.tenants))
        (record { total = omega arith; enabled = omega arith; configured = omega arith }))

-- The counters of a round that took at most so many tenants.
pub record RoundAddsUp (limit : ℕ) (r : SchedulerReport) : Type 0 where
  pub enabled :
      r.tenants_due + r.tenants_skipped_interval + r.tenants_skipped_backoff ≡ r.tenants_enabled
  pub scanned : r.tenants_enabled ≤ r.tenants_scanned
  pub named : length r.tenant_ids ≡ r.tenants_due
  pub failures : r.failed_tenants ≤ r.tenants_due
  pub bounded : r.tenants_due ≤ limit

module _ (clean : String → String) (run_func : RunFunc) (now : ℕ) where
  record_run-RoundAddsUp :
      (tenant n limit : ℕ) (r : SchedulerReport) (x : Result String (Option WorkerResult) × World)
      → RoundAddsUp limit r
      → r.tenants_due < limit
      → RoundAddsUp limit
          (record_run clean run_func now tenant n
            (record r {
              tenants_scanned = r.tenants_scanned + 1;
              tenants_enabled = r.tenants_enabled + 1;
            })
            x).1
  unfolding record_run add_result add_failure
  record_run-RoundAddsUp tenant n limit r (ok x, w) h room = record {
    enabled = omega (arith, h.enabled);
    scanned = omega (arith, h.scanned);
    named = omega (arith, h.named, length-append r.tenant_ids (tenant ∷ []));
    failures = omega (arith, h.failures);
    bounded = omega (arith, room);
  }
  record_run-RoundAddsUp tenant n limit r (err e, w) h room = record {
    enabled = omega (arith, h.enabled);
    scanned = omega (arith, h.scanned);
    named = omega (arith, h.named, length-append r.tenant_ids (tenant ∷ []));
    failures = omega (arith, h.failures);
    bounded = omega (arith, room);
  }

  visit_due-RoundAddsUp :
      (limit : ℕ) (u : Tenant) (c : WorkerConfig) (why : Option SkipReason) (w : World)
      (r : SchedulerReport)
      → RoundAddsUp limit r
      → r.tenants_due < limit
      → RoundAddsUp limit
          (visit_due clean run_func now u c why w (record r {
            tenants_scanned = r.tenants_scanned + 1;
            tenants_enabled = r.tenants_enabled + 1;
          })).1
  unfolding visit_due
  visit_due-RoundAddsUp limit u c (some interval) w r h room = record {
    enabled = omega (arith, h.enabled);
    scanned = omega (arith, h.scanned);
    named = h.named;
    failures = h.failures;
    bounded = h.bounded;
  }
  visit_due-RoundAddsUp limit u c (some backoff) w r h room = record {
    enabled = omega (arith, h.enabled);
    scanned = omega (arith, h.scanned);
    named = h.named;
    failures = h.failures;
    bounded = h.bounded;
  }
  visit_due-RoundAddsUp limit u c (some tenant_disabled) w r h room =
      record_run-RoundAddsUp u.id c.max_plans_per_run limit r (run_func w c.max_plans_per_run u.id)
        h room
  visit_due-RoundAddsUp limit u c none w r h room =
      record_run-RoundAddsUp u.id c.max_plans_per_run limit r (run_func w c.max_plans_per_run u.id)
        h room

  visit_tenant-RoundAddsUp :
      (limit : ℕ) (u : Tenant) (w : World) (r : SchedulerReport)
      → RoundAddsUp limit r
      → r.tenants_due < limit
      → RoundAddsUp limit (visit_tenant clean run_func now u w r).1
  unfolding visit_tenant normalize_config
  visit_tenant-RoundAddsUp limit u w r h room =
      let c = normalize_config u.worker_config in
      elim (Bool-cases c.enabled) [
        | inl on ↦ rw on (
            visit_due-RoundAddsUp limit u c (tenant_schedule_is_due w u.id c.interval_minutes now) w
              r h room)
        | inr off ↦ rw off (record {
          enabled = h.enabled;
          scanned = omega (arith, h.scanned);
          named = h.named;
          failures = h.failures;
          bounded = h.bounded;
        })
      ]

  evaluate_loop-RoundAddsUp :
      (limit : ℕ) (us : List Tenant) (w : World) (r : SchedulerReport)
      → RoundAddsUp limit r
      → RoundAddsUp limit (evaluate_loop clean run_func now limit us w r).1
  unfolding evaluate_loop
  evaluate_loop-RoundAddsUp limit [] w r h = h
  evaluate_loop-RoundAddsUp limit (u ∷ us) w r h = elim (Bool-cases (leb limit r.tenants_due)) [
    | inl full ↦ rw full h
    | inr open_ ↦
        let room : r.tenants_due < limit = ground arith in
        let (w₁, r₁) = visit_tenant clean run_func now u w r in
        rw open_
          (evaluate_loop-RoundAddsUp limit us w₁ r₁ (visit_tenant-RoundAddsUp limit u w r h room))
  ]

-- Whatever the runs return or raise, a round of the scheduler runs at most as many tenants as its
-- limit, but at least one, allows; it names as many as it ran and no more of them fail; and the
-- enabled tenants that it came to are no more than those it came to, and are those that it ran,
-- that wait for their interval and that are held back.
pub evaluate_workers-RoundAddsUp :
    (clean : String → String) (run_func : RunFunc) (now : ℕ) (acquired : Bool) (limit : ℕ)
    (w : World)
    → RoundAddsUp (max limit 1) (evaluate_workers clean run_func now acquired limit w).1
unfolding evaluate_workers
evaluate_workers-RoundAddsUp clean run_func now false limit w = record {
  enabled = omega arith;
  scanned = omega arith;
  named = refl;
  failures = omega arith;
  bounded = omega arith;
}
evaluate_workers-RoundAddsUp clean run_func now true limit w =
    evaluate_loop-RoundAddsUp clean run_func now (max limit 1) (order_tenants w.tenants) w
      empty_scheduler_report
      (record {
        enabled = omega arith;
        scanned = omega arith;
        named = refl;
        failures = omega arith;
        bounded = omega arith;
      })
