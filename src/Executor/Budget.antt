-- ===== src/Executor/Budget.antt =====
-- The monthly token budget of a tenant over a run.
use multi_tenant_agentic_wor.Base.{
  ℕ, ◌≤◌, ◌≡◌, refl, Option, none, some, arith, All, All-update_where,
}
use multi_tenant_agentic_wor.Base.Json.{Json}
use multi_tenant_agentic_wor.Graph.{Node}
use multi_tenant_agentic_wor.Store.{Execution, AgentConfig, World}
use multi_tenant_agentic_wor.Store.Writes.{
  fail_execution, cancel_running, start_running, complete_execution, add_totals, add_log,
  can_charge, charge_tenant, invalidate_tenant_cache, invalidate_of, register, unregister,
  broadcast_ws,
}
use multi_tenant_agentic_wor.Executor.{AgentState, Env, returned}
use multi_tenant_agentic_wor.Executor.Loop.{run_execution}
use multi_tenant_agentic_wor.Executor.Keeps.{Stable, run_execution-keeps}
use multi_tenant_agentic_wor.Executor.Ends.{run_execution_total}

-- No tenant has used more tokens than its budget.
abbrev pub InBudget : World → Type 0
InBudget w = All (λ t. t.tokens_used ≤ t.token_budget) w.tenants

tenants-invalidate_of : (x : Option Execution) (w : World) → (invalidate_of x w).tenants ≡ w.tenants
unfolding invalidate_tenant_cache
tenants-invalidate_of none w = refl
tenants-invalidate_of (some x) w = refl

charge_tenant-InBudget : (t n : ℕ) (w : World) → InBudget w → InBudget (charge_tenant t n w)
unfolding charge_tenant
charge_tenant-InBudget t n w h =
    All-update_where (λ u. u.tokens_used ≤ u.token_budget) (can_charge t n) _ w.tenants
      (λ u fits _. ground arith) h

module _ (env : Env) (i t : ℕ)
    (agent : (c : AgentConfig) (s : AgentState) (w : World)
      → InBudget w
      → InBudget (env.execute_agent c s w).1)
    (connector : (n : Node) (w : World)
      → InBudget w
      → InBudget (env.execute_connector_node t n w).1) where
  run-Stable : Stable env i t InBudget
  unfolding fail_execution cancel_running start_running complete_execution add_totals add_log
      invalidate_tenant_cache register unregister broadcast_ws
  run-Stable = record {
    on_event = λ e w h. h;
    on_fail = λ m w h. rw tenants-invalidate_of h;
    on_cancel = λ m w h. rw tenants-invalidate_of h;
    on_start = λ w h. h;
    on_complete = λ d w h. h;
    on_invalidate = λ w h. h;
    on_free_log = λ l w _ _ _ h. h;
    on_step = λ l w _ h. charge_tenant-InBudget t l.tokens_used w h;
    on_register = λ w h. h;
    on_unregister = λ w h. h;
    on_agent = agent;
    on_connector = connector;
  }

-- If no tenant is over its budget before a run, and the calls outside keep that, then the run returns
-- and no tenant is over its budget after it.
pub run_execution-InBudget :
    (env : Env) (i f t : ℕ) (input : Option Json) (w : World)
    → ((c : AgentConfig) (s : AgentState) (v : World)
        → InBudget v
        → InBudget (env.execute_agent c s v).1)
    → ((n : Node) (v : World) → InBudget v → InBudget (env.execute_connector_node t n v).1)
    → InBudget w
    → (w' : World) × (run_execution env i f t input w ≡ returned w') × InBudget w'
run_execution-InBudget env i f t input w agent connector h =
    let (w', e) = run_execution_total env i f t input w in
    let kept =
      run_execution-keeps env i f t input InBudget (run-Stable env i t agent connector) w h in
    (w', e, rw e at kept)
