-- ===== src/Executor/Totals.antt =====
-- The totals of an execution's row against its logs.
use multi_tenant_agentic_wor.Base.{
  ℕ, ◌+◌, ◌≡◌, Option, none, some, List, [], ◌∷◌, ◌++◌, arith, All, All-update_where, All-map,
  update_where, Bool, ◌==◌, nat_eq, if◌then◌else◌,
}
use multi_tenant_agentic_wor.Base.Json.{Json}
use multi_tenant_agentic_wor.Graph.{Node}
use multi_tenant_agentic_wor.Store.{Execution, ExecutionLog, AgentConfig, World}
use multi_tenant_agentic_wor.Store.Writes.{
  fail_execution, cancel_running, start_running, complete_execution, add_totals, add_log,
  charge_tenant, invalidate_tenant_cache, invalidate_of, register, unregister, broadcast_ws,
}
use multi_tenant_agentic_wor.Executor.{AgentState, Env, returned}
use multi_tenant_agentic_wor.Executor.Loop.{run_execution}
use multi_tenant_agentic_wor.Executor.Keeps.{Stable, run_execution-keeps}
use multi_tenant_agentic_wor.Executor.Ends.{run_execution_total}

-- The tokens and the cost that the logs of an execution add up to.
abbrev pub logged : (ExecutionLog → ℕ) → ℕ → List ExecutionLog → ℕ
logged f i [] = 0
logged f i (l ∷ ls) = (if l.execution_id == i then f l else 0) + logged f i ls

abbrev pub Matches : List ExecutionLog → Execution → Type 0
Matches logs x =
    (x.total_tokens ≡ logged (λ l. l.tokens_used) x.id logs)
    × (x.total_cost ≡ logged (λ l. l.cost) x.id logs)

-- Every execution's totals are the sums over its logs.
abbrev pub IsBalanced : World → Type 0
IsBalanced w = All (Matches w.logs) w.executions

logged-append :
    (f : ExecutionLog → ℕ) (i : ℕ) (ls : List ExecutionLog) (l : ExecutionLog)
    → logged f i (ls ++ l ∷ []) ≡ logged f i ls + (if l.execution_id == i then f l else 0)
logged-append f i [] l = omega arith
logged-append f i (k ∷ ls) l = omega (arith, logged-append f i ls l)

free_log :
    (l : ExecutionLog) (logs : List ExecutionLog)
    → l.tokens_used ≡ 0
    → l.cost ≡ 0
    → (x : Execution) → Matches logs x
    → Matches (logs ++ l ∷ []) x
free_log l logs t c x h =
    ground (
      arith,
      logged-append (λ k. k.tokens_used) x.id logs l,
      logged-append (λ k. k.cost) x.id logs l,
    )

-- The rows of the log's execution take its tokens and cost, the others nothing.
costly_log :
    (l : ExecutionLog) (logs : List ExecutionLog) (xs : List Execution)
    → All (Matches logs) xs
    → All (Matches (logs ++ l ∷ [])) (
        update_where
          (λ x. x.id == l.execution_id)
          (λ x. record x {
            total_tokens = x.total_tokens + l.tokens_used;
            total_cost = x.total_cost + l.cost;
          })
          xs)
unfolding update_where
costly_log l logs [] h = tt
costly_log l logs (x ∷ xs) h = (
  ground (
    arith,
    logged-append (λ k. k.tokens_used) x.id logs l,
    logged-append (λ k. k.cost) x.id logs l,
  ),
  costly_log l logs xs h.1,
)

IsBalanced-invalidate_of :
    (x : Option Execution) (w : World) → IsBalanced w → IsBalanced (invalidate_of x w)
unfolding invalidate_tenant_cache
IsBalanced-invalidate_of none w h = h
IsBalanced-invalidate_of (some x) w h = h

-- An update that leaves the identifier and the totals.
untouched :
    (logs : List ExecutionLog) (p : Execution → Bool) (f : Execution → Execution)
    (xs : List Execution)
    → ((x : Execution) → Matches logs x → Matches logs (f x))
    → All (Matches logs) xs
    → All (Matches logs) (update_where p f xs)
untouched logs p f xs keep h = All-update_where (Matches logs) p f xs (λ x _. keep x) h

step-IsBalanced :
    (i t : ℕ) (l : ExecutionLog) (w : World)
    → l.execution_id ≡ i
    → IsBalanced w
    → IsBalanced (add_totals i l.tokens_used l.cost (add_log l (charge_tenant t l.tokens_used w)))
unfolding add_totals add_log charge_tenant
step-IsBalanced i t l w e h = rw (← e) (costly_log l w.logs w.executions h)

module _ (env : Env) (i t : ℕ)
    (agent : (c : AgentConfig) (s : AgentState) (w : World)
      → IsBalanced w
      → IsBalanced (env.execute_agent c s w).1)
    (connector : (n : Node) (w : World)
      → IsBalanced w
      → IsBalanced (env.execute_connector_node t n w).1) where
  run-Stable : Stable env i t IsBalanced
  unfolding fail_execution cancel_running start_running complete_execution add_log
      invalidate_tenant_cache register unregister broadcast_ws
  run-Stable = record {
    on_event = λ e w h. h;
    on_fail =
        λ m w h. IsBalanced-invalidate_of _ _ (untouched w.logs _ _ w.executions (λ x k. k) h);
    on_cancel =
        λ m w h. IsBalanced-invalidate_of _ _ (untouched w.logs _ _ w.executions (λ x k. k) h);
    on_start = λ w h. untouched w.logs _ _ w.executions (λ x k. k) h;
    on_complete = λ d w h. untouched w.logs _ _ w.executions (λ x k. k) h;
    on_invalidate = λ w h. h;
    on_free_log = λ l w _ a b h. All-map _ _ (free_log l w.logs a b) w.executions h;
    on_step = λ l w e h. step-IsBalanced i t l w e h;
    on_register = λ w h. h;
    on_unregister = λ w h. h;
    on_agent = agent;
    on_connector = connector;
  }

-- If every execution's totals are the sums of the tokens and costs of its logs before a run, and the
-- calls outside keep that, then the run returns and they are so after it.
pub run_execution-IsBalanced :
    (env : Env) (i f t : ℕ) (input : Option Json) (w : World)
    → ((c : AgentConfig) (s : AgentState) (v : World)
        → IsBalanced v
        → IsBalanced (env.execute_agent c s v).1)
    → ((n : Node) (v : World) → IsBalanced v → IsBalanced (env.execute_connector_node t n v).1)
    → IsBalanced w
    → (w' : World) × (run_execution env i f t input w ≡ returned w') × IsBalanced w'
run_execution-IsBalanced env i f t input w agent connector h =
    let (w', e) = run_execution_total env i f t input w in
    let kept =
      run_execution-keeps env i f t input IsBalanced (run-Stable env i t agent connector) w h in
    (w', e, rw e at kept)
