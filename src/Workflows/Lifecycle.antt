-- ===== src/Workflows/Lifecycle.antt =====
-- What the operations on one workflow promise the executions and the dispatcher.
use multi_tenant_agentic_wor.Base.{
  ℕ, ◌+◌, ◌<◌, ◌≡◌, ◌↔◌, refl, sym, subst, ap, ◌∙◌, Bool, true, false, ◌&&◌, some, arith, ◌==◌,
  if◌then◌else◌, leb, find_where-holds, find_where-of_update, find_where-update_where, nat_eq,
  ==-refl, ok, >>=-eq-ok, >>-eq-ok, require-eq-ok, leb→le, ok-value,
}
use multi_tenant_agentic_wor.Graph.{Definition}
use multi_tenant_agentic_wor.Store.{Tenant, Workflow, Execution, World, find_workflow, find_tenant}
use multi_tenant_agentic_wor.Texts.{Texts, is_webhook_trigger}
use multi_tenant_agentic_wor.Executor.{Env}
use multi_tenant_agentic_wor.Executions.{count_active, concurrent_limit}
use multi_tenant_agentic_wor.Executions.Admission.{IsAdmissible}
use multi_tenant_agentic_wor.Dispatcher.{
  DispatchReport, RetryPolicy, is_workflow_dispatch_paused, consider,
}
use multi_tenant_agentic_wor.Workflows.{
  get_workflow, WorkflowChanges, is_drawn, gives_any, apply_changes, check_new_definition,
  write_workflow, update_workflow, pause, resume, pause_workflow_dispatch, resume_workflow_dispatch,
  count_active_of, deactivate, delete_workflow,
}
use multi_tenant_agentic_wor.Workflows.Limits.{get_workflow_ok}
use multi_tenant_agentic_wor.Workflows.Definitions.{check_new_definition-IsSound}

abbrev pub is_own : ℕ → ℕ → Workflow → Bool
is_own tenant i f = f.id == i && f.tenant_id == tenant && f.is_active

id_of_found :
    (w : World) (tenant i : ℕ) (f : Workflow) → find_workflow w tenant i ≡ some f → f.id ≡ i
unfolding find_workflow
id_of_found w tenant i f h =
    let own = find_where-holds (is_own tenant i) w.workflows f h in ground arith

paused_after :
    (w : World) (tenant i : ℕ) (f : Workflow) (change : Workflow → Workflow) (flag : Bool)
    → find_workflow w tenant i ≡ some f
    → ((f : Workflow) → (change f).id ≡ f.id)
    → ((f : Workflow) → (change f).dispatch_paused ≡ flag)
    → is_workflow_dispatch_paused (write_workflow i change w) i ≡ flag
unfolding find_workflow write_workflow is_workflow_dispatch_paused
paused_after w tenant i f change flag found same_id set =
    let (y, there) =
      find_where-of_update (is_own tenant i) (λ f. f.id == i)
        (λ f. record (change f) { updated_at = w.clock }) w.workflows f (λ y h. ground arith)
        (λ y. rw (same_id y) refl) found in
    rw (there, is_workflow_dispatch_paused) (set y)

-- After a pause, the dispatcher holds every webhook execution of the workflow back: it counts it
-- as scanned and paused, and changes nothing.
pub pause_workflow_dispatch-consider :
    (t : Texts) (e : Env) (policy : RetryPolicy) (now : ℕ) (w w' : World) (tenant i user : ℕ)
    (x : Execution) (report : DispatchReport)
    → pause_workflow_dispatch w tenant i user ≡ ok w'
    → x.workflow_id ≡ i
    → is_webhook_trigger x.input_data ≡ true
    → consider t e policy now x w' report
      ≡ some (w', record report { scanned = report.scanned + 1; paused = report.paused + 1 })
unfolding pause_workflow_dispatch consider pause
pause_workflow_dispatch-consider t e policy now w w' tenant i user x report h of webhook =
    let (f, got, h₁) = >>=-eq-ok (get_workflow w tenant i) _ h in
    let found = get_workflow_ok w tenant i got in
    let held : is_workflow_dispatch_paused w' i ≡ true =
      subst (λ v. is_workflow_dispatch_paused v i ≡ true) (ok-value h₁)
        (rw (id_of_found w tenant i f found)
          (paused_after w tenant i f (pause w.clock user) true found (λ f. refl) (λ f. refl))) in
    rw webhook (rw of (rw held refl))

-- After a resumption the dispatcher no longer takes the workflow for paused.
pub resume_workflow_dispatch-paused :
    (w w' : World) (tenant i : ℕ)
    → resume_workflow_dispatch w tenant i ≡ ok w'
    → is_workflow_dispatch_paused w' i ≡ false
unfolding resume_workflow_dispatch resume
resume_workflow_dispatch-paused w w' tenant i h =
    let (f, got, h₁) = >>=-eq-ok (get_workflow w tenant i) _ h in
    let found = get_workflow_ok w tenant i got in
    subst (λ v. is_workflow_dispatch_paused v i ≡ false) (ok-value h₁)
      (rw (id_of_found w tenant i f found)
        (paused_after w tenant i f resume false found (λ f. refl) (λ f. refl)))

-- A workflow can be deleted exactly when it is an active one of the tenant with no pending or running
-- execution there.
pub delete_workflow_iff :
    (w : World) (tenant i : ℕ)
    → ((w' : World) × (delete_workflow w tenant i ≡ ok w'))
      ↔ (((f : Workflow) × (find_workflow w tenant i ≡ some f)) × (count_active_of w tenant i ≡ 0))
unfolding delete_workflow get_workflow
delete_workflow_iff w tenant i = (
  λ h.
      let (f, got, h₁) = >>=-eq-ok (get_workflow w tenant i) _ h.1 in
      let (idle, h₂) = (>>-eq-ok _ _).0 h₁ in
      let few : leb (count_active_of w tenant i) 0 ≡ true = (require-eq-ok _ _).0 idle in
      ((f, get_workflow_ok w tenant i got), omega (arith, leb→le _ _ few)),
  λ h. (write_workflow h.0.0.id deactivate w, rw (h.0.1, h.1) refl),
)

-- A tenant within its token budget that has a free slot can run a workflow as soon as an update
-- has given it a definition with nodes or edges.
pub update_workflow-IsAdmissible :
    (t : Texts) (w w' : World) (tenant i : ℕ) (c : WorkflowChanges) (d : Definition) (u : Tenant)
    → c.definition ≡ some d
    → is_drawn d ≡ true
    → find_tenant w tenant ≡ some u
    → u.tokens_used < u.token_budget
    → count_active w tenant < concurrent_limit t u.plan
    → update_workflow w tenant i c ≡ ok w'
    → IsAdmissible t w' tenant i
unfolding update_workflow find_workflow write_workflow apply_changes find_tenant count_active
update_workflow-IsAdmissible t w w' tenant i c d u gave drawn owned budget room h =
    let (f, got, h₁) = >>=-eq-ok (get_workflow w tenant i) _ h in
    let (checked, h₂) =
      (>>-eq-ok (check_new_definition c.definition)
          (ok (if gives_any c then write_workflow f.id (apply_changes c) w else w))).0
        h₁ in
    let found = get_workflow_ok w tenant i got in
    let same = id_of_found w tenant i f found in
    let some_given : gives_any c ≡ true = rw gave (ground arith) in
    subst (λ v. IsAdmissible t v tenant i)
      (ap (λ k. write_workflow k (apply_changes c) w) (sym same) ∙ ok-value (rw some_given at h₂))
      (record {
        row = record (apply_changes c f) { updated_at = w.clock };
        graph = d;
        owner = u;
        found =
            find_where-update_where (is_own tenant i) (λ f. f.id == i)
              (λ f. record (apply_changes c f) { updated_at = w.clock }) w.workflows f (λ y. refl)
              (rw same (==-refl i)) found;
        defined = rw gave refl;
        valid = check_new_definition-IsSound d (rw gave at checked) drawn;
        owned = owned;
        budget = budget;
        room = room;
      })
