-- ===== src/Executions/Backlog.antt =====
-- The admission of webhooks, which fill a backlog of ten times the concurrency of the plan.
use multi_tenant_agentic_wor.Base.{
  ℕ, ◌*◌, ◌<◌, ◌≡◌, refl, ◌↔◌, Option, some, arith, ok, >>=-eq-ok, >>-eq-ok, require-eq-ok,
  not-leb→lt, lt→not-leb,
}
use multi_tenant_agentic_wor.Base.Json.{Json}
use multi_tenant_agentic_wor.Store.{Tenant, Execution, World, find_tenant}
use multi_tenant_agentic_wor.Texts.{Texts}
use multi_tenant_agentic_wor.Executions.{
  or_raise, count_active, concurrent_limit, webhook_backlog_multiplier, enforce_webhook_admission,
  create_execution,
}
use multi_tenant_agentic_wor.Executions.Admission.{or_raise-eq-ok, create_execution_ok}

-- The tenant has tokens left, and its backlog has room.
pub record HasRoom (t : Texts) (w : World) (tenant : ℕ) : Type 0 where
  pub owner : Tenant
  pub owned : find_tenant w tenant ≡ some owner
  pub budget : owner.tokens_used < owner.token_budget
  pub room : count_active w tenant < concurrent_limit t owner.plan * webhook_backlog_multiplier

-- A webhook is admitted exactly when the tenant exists, has used less than its token budget, and has
-- fewer active executions than ten times the concurrency limit of its plan.
pub enforce_webhook_admission_iff :
    (t : Texts) (w : World) (tenant : ℕ)
    → (enforce_webhook_admission t w tenant ≡ ok tt) ↔ HasRoom t w tenant
unfolding enforce_webhook_admission
enforce_webhook_admission_iff t w tenant = (
  λ h.
      let (u, found, h₁) = >>=-eq-ok (or_raise (find_tenant w tenant) _) _ h in
      let (b, r) = (>>-eq-ok _ _).0 h₁ in
      record {
        owner = u;
        owned = or_raise-eq-ok _ _ found;
        budget = not-leb→lt _ _ ((require-eq-ok _ _).0 b);
        room = not-leb→lt _ _ ((require-eq-ok _ _).0 r);
      },
  λ a. rw (a.owned, lt→not-leb _ _ a.budget, lt→not-leb _ _ a.room) refl,
)

-- Where a tenant can create an execution, its webhooks are admitted too.
pub create_execution-HasRoom :
    (t : Texts) (w : World) (tenant workflow : ℕ) (input : Option Json) (x : Execution) (w' : World)
    → create_execution t w tenant workflow input ≡ ok (x, w')
    → enforce_webhook_admission t w tenant ≡ ok tt
create_execution-HasRoom t w tenant workflow input x w' h =
    let (a, _) = create_execution_ok t w tenant workflow input x w' h in
    (enforce_webhook_admission_iff t w tenant).1
      (record { owner = a.owner; owned = a.owned; budget = a.budget; room = omega (arith, a.room) })
