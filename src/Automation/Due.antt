-- ===== src/Automation/Due.antt =====
-- When the scheduler and the diagnostics take a tenant for due.
use multi_tenant_agentic_wor.Base.{
  ℕ, ◌+◌, ◌*◌, ◌≤◌, ◌<◌, ◌≡◌, ◌≢◌, refl, max, String, Bool, true, false, ◌&&◌, Option, none, some,
  List, [], ◌∷◌, ◌++◌, arith, ◌==◌, if◌then◌else◌, ltb, leb, All, All-select_where, select_where,
  string_eq, nat_eq, Bool-cases, inl, inr, ==-refl, ap, sym, subst,
}
use multi_tenant_agentic_wor.Tables.{WorkerRun}
use multi_tenant_agentic_wor.Store.{World}
use multi_tenant_agentic_wor.Automation.{
  WorkerConfig, WorkerResult, new_run, record_worker_run, insert_run, order_runs,
  latest_scheduled_run, due_state_after, automation_worker_due_state,
}
use multi_tenant_agentic_wor.Automation.Scheduler.{
  schedule_after, tenant_schedule_due_state, tenant_schedule_is_due,
}

schedule_after-eq :
    (c : WorkerConfig) (run : WorkerRun) (now : ℕ)
    → schedule_after c.interval_minutes run now ≡ due_state_after c run now
unfolding schedule_after due_state_after
schedule_after-eq c run now = elim (Bool-cases (run.status == "failed")) [
  | inl failed ↦ rw failed (ground arith)
  | inr fine ↦ rw fine (ground arith)
]

-- The scheduler and the diagnostics agree for every configuration, latest run and moment: on
-- whether a tenant is due, on the reason why not, on the next moment and on the end of the
-- backoff.
pub tenant_schedule_due_state-eq :
    (c : WorkerConfig) (run : Option WorkerRun) (now : ℕ)
    → tenant_schedule_due_state c.enabled c.interval_minutes run now
      ≡ automation_worker_due_state c run now
unfolding tenant_schedule_due_state automation_worker_due_state
tenant_schedule_due_state-eq c none now = refl
tenant_schedule_due_state-eq c (some run) now = elim (Bool-cases c.enabled) [
  | inl on ↦ rw on (schedule_after-eq c run now)
  | inr off ↦ rw off refl
]

-- The latest of the runs, where the last row is not older than another.
order_runs-last :
    (runs : List WorkerRun) (x : WorkerRun)
    → All (λ r. r.created_at ≤ x.created_at) runs
    → (rest : List WorkerRun) × (order_runs (runs ++ x ∷ []) ≡ x ∷ rest)
unfolding order_runs insert_run
order_runs-last [] x h = ([], refl)
order_runs-last (r ∷ runs) x h =
    let (rest, e) = order_runs-last runs x h.1 in
    let older : ltb x.created_at r.created_at ≡ false = ground (arith, h.0) in
    (insert_run r rest, rw e (rw older refl))

select_where-append :
    (p : WorkerRun → Bool) (runs : List WorkerRun) (x : WorkerRun)
    → p x ≡ true
    → select_where p (runs ++ x ∷ []) ≡ select_where p runs ++ x ∷ []
unfolding select_where
select_where-append p [] x h = rw h refl
select_where-append p (r ∷ runs) x h = elim (Bool-cases (p r)) [
  | inl e ↦ rw e (ap (λ l. r ∷ l) (select_where-append p runs x h))
  | inr e ↦ rw e (select_where-append p runs x h)
]

pub latest-record_worker_run :
    (clean : String → String) (w : World) (tenant limit : ℕ) (r : WorkerResult) (status : String)
    (error : Option String)
    → All (λ r. r.created_at ≤ w.clock) w.worker_runs
    → latest_scheduled_run
        (record_worker_run clean tenant none "scheduled" limit r status error w)
        tenant
      ≡ some (new_run clean tenant none "scheduled" limit r status error w)
unfolding record_worker_run latest_scheduled_run
latest-record_worker_run clean w tenant limit r status error past =
    let p = λ (x : WorkerRun). x.tenant_id == tenant && x.trigger_type == "scheduled" in
    let x = new_run clean tenant none "scheduled" limit r status error w in
    let mine : p x ≡ true = rw (==-refl tenant) refl in
    let (rest, latest) =
      order_runs-last (select_where p w.worker_runs) x
        (All-select_where (λ r. r.created_at ≤ w.clock) p w.worker_runs past) in
    rw (select_where-append p w.worker_runs x mine) (rw latest refl)

held_back :
    (run : WorkerRun) (n later : ℕ)
    → later < run.created_at + 60 * (if run.status == "failed" then max n 30 else n)
    → (tenant_schedule_due_state true n (some run) later).skip_reason ≢ none
unfolding tenant_schedule_due_state schedule_after
held_back run n later early = elim (Bool-cases (run.status == "failed")) [
  | inl e ↦
      let soon : leb (run.created_at + max n 30 * 60) later ≡ false =
        ground (arith, rw e at early) in
      rw e (rw soon (λ h. cc))
  | inr e ↦
      let soon : leb (run.created_at + n * 60) later ≡ false = ground (arith, rw e at early) in
      rw e (rw soon (λ h. cc))
]

-- After a scheduled run of a tenant was recorded, where no run is from the future, the tenant is
-- not due again before its interval is over, and after a failed run not before thirty minutes
-- either.
pub record_worker_run-holds :
    (clean : String → String) (w : World) (tenant limit n later : ℕ) (r : WorkerResult)
    (status : String) (error : Option String)
    → All (λ r. r.created_at ≤ w.clock) w.worker_runs
    → later < w.clock + 60 * (if status == "failed" then max n 30 else n)
    → tenant_schedule_is_due
        (record_worker_run clean tenant none "scheduled" limit r status error w)
        tenant
        n
        later
      ≢ none
unfolding tenant_schedule_is_due
record_worker_run-holds clean w tenant limit n later r status error past early =
    subst (λ x. (tenant_schedule_due_state true n x later).skip_reason ≢ none)
      (sym (latest-record_worker_run clean w tenant limit r status error past))
      (held_back (new_run clean tenant none "scheduled" limit r status error w) n later early)
