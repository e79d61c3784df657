-- ===== src/Executor/Isolation.antt =====
-- What a run leaves alone: the rows of the other tenants and of the other executions.
use multi_tenant_agentic_wor.Base.{
  ℕ, ◌+◌, ◌≡◌, refl, ◌∙◌, Bool, true, false, not, Option, none, some, List, [], ◌∷◌, ◌++◌, arith,
  ◌==◌, nat_eq, select_where, update_where, Bool-cases, inl, inr,
}
use multi_tenant_agentic_wor.Base.Json.{Json}
use multi_tenant_agentic_wor.Graph.{Node}
use multi_tenant_agentic_wor.Store.{Tenant, Execution, ExecutionLog, AgentConfig, World, status_eq}
use multi_tenant_agentic_wor.Store.Writes.{
  fail_execution, cancel_running, start_running, complete_execution, add_totals, add_log,
  can_charge, charge_tenant, invalidate_tenant_cache, invalidate_of, register, unregister,
  broadcast_ws,
}
use multi_tenant_agentic_wor.Executor.{AgentState, Env, returned}
use multi_tenant_agentic_wor.Executor.Loop.{run_execution}
use multi_tenant_agentic_wor.Executor.Keeps.{Stable, run_execution-keeps}
use multi_tenant_agentic_wor.Executor.Ends.{run_execution_total}

abbrev pub other_tenants : ℕ → World → List Tenant
other_tenants t w = select_where (λ u. not (u.id == t)) w.tenants

abbrev pub other_executions : ℕ → World → List Execution
other_executions i w = select_where (λ x. not (x.id == i)) w.executions

abbrev pub other_logs : ℕ → World → List ExecutionLog
other_logs i w = select_where (λ l. not (l.execution_id == i)) w.logs

-- The tables that are not the run's business: the world without the tenants, the executions, the logs,
-- the cache, the cancel flags, the subscribers, the clock and the counter of identifiers.
abbrev pub other_tables : World → World
other_tables w = record w {
  tenants = [];
  executions = [];
  logs = [];
  cache = [];
  active_executions = [];
  subscribers = [];
  clock = 0;
  next_id = 0;
}

-- From `v` to `w`, of the tenants only `t`, of the executions only `i`, and of the logs only those of `i`
-- changed, and every other table is the same.
pub record OnlyOwn (i t : ℕ) (v w : World) : Type 0 where
  pub tenants : other_tenants t w ≡ other_tenants t v
  pub executions : other_executions i w ≡ other_executions i v
  pub logs : other_logs i w ≡ other_logs i v
  pub tables : other_tables w ≡ other_tables v

select_where-update_where {ℓ} :
    {A : Type ℓ} (p q : A → Bool) (f : A → A) (xs : List A)
    → ((x : A) → q x ≡ true → (p x ≡ false) × (p (f x) ≡ false))
    → select_where p (update_where q f xs) ≡ select_where p xs
unfolding select_where update_where
select_where-update_where p q f [] out = refl
select_where-update_where p q f (x ∷ xs) out = elim (Bool-cases (q x)) [
  | inl e ↦
      let (before, after) = out x e in
      rw e (rw before (rw after (select_where-update_where p q f xs out)))
  | inr e ↦ rw e (rw (select_where-update_where p q f xs out) refl)
]

-- An update of the execution's own row that leaves its identifier.
own_row :
    (i : ℕ) (q : Execution → Bool) (f : Execution → Execution) (xs : List Execution)
    → ((x : Execution) → q x ≡ true → (x.id == i) ≡ true)
    → ((x : Execution) → (f x).id ≡ x.id)
    → select_where (λ x. not (x.id == i)) (update_where q f xs)
      ≡ select_where (λ x. not (x.id == i)) xs
own_row i q f xs own same =
    select_where-update_where _ q f xs (λ x e. (rw (own x e) refl, rw (same x) (rw (own x e) refl)))

-- A log of the execution is none of the others.
own_log :
    (i : ℕ) (l : ExecutionLog) (logs : List ExecutionLog)
    → l.execution_id ≡ i
    → select_where (λ k. not (k.execution_id == i)) (logs ++ l ∷ [])
      ≡ select_where (λ k. not (k.execution_id == i)) logs
unfolding select_where
own_log i l [] e = ground arith
own_log i l (k ∷ logs) e = elim (Bool-cases (k.execution_id == i)) [
  | inl same ↦ rw same (own_log i l logs e)
  | inr other ↦ rw other (rw (own_log i l logs e) refl)
]

OnlyOwn-invalidate_of :
    (i t : ℕ) (v : World) (x : Option Execution) (w : World)
    → OnlyOwn i t v w
    → OnlyOwn i t v (invalidate_of x w)
unfolding invalidate_tenant_cache
OnlyOwn-invalidate_of i t v none w h = record {
  tenants = h.tenants;
  executions = h.executions;
  logs = h.logs;
  tables = h.tables;
}
OnlyOwn-invalidate_of i t v (some x) w h = record {
  tenants = h.tenants;
  executions = h.executions;
  logs = h.logs;
  tables = h.tables;
}

charge_tenant-OnlyOwn :
    (t n : ℕ) (us : List Tenant)
    → select_where
        (λ u. not (u.id == t))
        (update_where (can_charge t n) (λ u. record u { tokens_used = u.tokens_used + n }) us)
      ≡ select_where (λ u. not (u.id == t)) us
charge_tenant-OnlyOwn t n us =
    select_where-update_where _ (can_charge t n) _ us (λ u e. (ground arith, ground arith))

module _ (env : Env) (i t : ℕ) (v : World)
    (agent : (c : AgentConfig) (s : AgentState) (w : World)
      → OnlyOwn i t w (env.execute_agent c s w).1)
    (connector : (n : Node) (w : World) → OnlyOwn i t w (env.execute_connector_node t n w).1) where
  run-Stable : Stable env i t (OnlyOwn i t v)
  unfolding fail_execution cancel_running start_running complete_execution add_totals add_log
      invalidate_tenant_cache register unregister broadcast_ws charge_tenant
  run-Stable = record {
    on_event = λ e w h. record {
      tenants = h.tenants;
      executions = h.executions;
      logs = h.logs;
      tables = h.tables;
    };
    on_fail = λ m w h. OnlyOwn-invalidate_of i t v _ _ (record {
      tenants = h.tenants;
      executions = own_row i _ _ w.executions (λ x e. e) (λ x. refl) ∙ h.executions;
      logs = h.logs;
      tables = h.tables;
    });
    on_cancel = λ m w h. OnlyOwn-invalidate_of i t v _ _ (record {
      tenants = h.tenants;
      executions = own_row i _ _ w.executions (λ x e. e) (λ x. refl) ∙ h.executions;
      logs = h.logs;
      tables = h.tables;
    });
    on_start = λ w h. record {
      tenants = h.tenants;
      executions = own_row i _ _ w.executions (λ x e. ground arith) (λ x. refl) ∙ h.executions;
      logs = h.logs;
      tables = h.tables;
    };
    on_complete = λ d w h. record {
      tenants = h.tenants;
      executions = own_row i _ _ w.executions (λ x e. e) (λ x. refl) ∙ h.executions;
      logs = h.logs;
      tables = h.tables;
    };
    on_invalidate = λ w h. record {
      tenants = h.tenants;
      executions = h.executions;
      logs = h.logs;
      tables = h.tables;
    };
    on_free_log = λ l w e a b h. record {
      tenants = h.tenants;
      executions = h.executions;
      logs = own_log i l w.logs e ∙ h.logs;
      tables = h.tables;
    };
    on_step = λ l w e h. record {
      tenants = charge_tenant-OnlyOwn t l.tokens_used w.tenants ∙ h.tenants;
      executions = own_row i _ _ w.executions (λ x e. e) (λ x. refl) ∙ h.executions;
      logs = own_log i l w.logs e ∙ h.logs;
      tables = h.tables;
    };
    on_register = λ w h. record {
      tenants = h.tenants;
      executions = h.executions;
      logs = h.logs;
      tables = h.tables;
    };
    on_unregister = λ w h. record {
      tenants = h.tenants;
      executions = h.executions;
      logs = h.logs;
      tables = h.tables;
    };
    on_agent = λ c s w h. record {
      tenants = (agent c s w).tenants ∙ h.tenants;
      executions = (agent c s w).executions ∙ h.executions;
      logs = (agent c s w).logs ∙ h.logs;
      tables = (agent c s w).tables ∙ h.tables;
    };
    on_connector = λ n w h. record {
      tenants = (connector n w).tenants ∙ h.tenants;
      executions = (connector n w).executions ∙ h.executions;
      logs = (connector n w).logs ∙ h.logs;
      tables = (connector n w).tables ∙ h.tables;
    };
  }

-- If the calls outside leave the rows of the other tenants, the rows and the logs of the other
-- executions and all other tables as they are, then the run returns, and it has left these as they
-- were, however it ended.
pub run_execution-OnlyOwn :
    (env : Env) (i f t : ℕ) (input : Option Json) (w : World)
    → ((c : AgentConfig) (s : AgentState) (v : World) → OnlyOwn i t v (env.execute_agent c s v).1)
    → ((n : Node) (v : World) → OnlyOwn i t v (env.execute_connector_node t n v).1)
    → (w' : World) × (run_execution env i f t input w ≡ returned w') × OnlyOwn i t w w'
run_execution-OnlyOwn env i f t input w agent connector =
    let (w', e) = run_execution_total env i f t input w in
    let kept =
      run_execution-keeps env i f t input (OnlyOwn i t w) (run-Stable env i t w agent connector) w
        (record { tenants = refl; executions = refl; logs = refl; tables = refl }) in
    (w', e, rw e at kept)
