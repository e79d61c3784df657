-- ===== src/Executor/Settles.antt =====
-- The status of an execution after a run.
use multi_tenant_agentic_wor.Base.{
  ℕ, zero, suc, ◌≡◌, ◌≢◌, refl, String, true, false, ◌&&◌, Option, none, some, List, [], ◌∷◌, arith,
  Bool-cases, Result, ok, err, inl, inr, ltb, leb, ◌==◌, is_empty, string_eq, nat_eq, count_where,
  All, update_where,
}
use multi_tenant_agentic_wor.Base.Json.{Json}
use multi_tenant_agentic_wor.Graph.{
  NodeId, Node, Definition, node_type, CompilationError, StateGraph,
}
use multi_tenant_agentic_wor.Store.{
  Event, Execution, Tenant, Workflow, AgentConfig, World, find_tenant, find_workflow,
  is_active_status, running, status_eq,
}
use multi_tenant_agentic_wor.Store.Writes.{
  fail_execution, cancel_running, complete_execution, invalidate_tenant_cache, invalidate_of,
  broadcast_ws, can_charge, is_pending, is_cancelled, register, unregister,
}
use multi_tenant_agentic_wor.Executor.{
  AgentState, AgentReply, replies, agent_raises, ConnectorReply, connector_returns, connector_fails,
  connector_raises, Env, Job, Run, Step, go, stop, raises, Outcome, returned, raised, starved,
  config_of, node_of, is_cyclic, max_iterations, announce_fixed, announce_current,
  announce_cancelled,
}
use multi_tenant_agentic_wor.Executor.Steps.{
  label_of, record_step, spent, begin_agent, lacks_budget, cancel_over_budget, visit_connector,
  connector_replied, visit_agent, agent_replied, visit_configured, visit_node, visit,
}
use multi_tenant_agentic_wor.Executor.Loop.{
  complete, take_round, initial_queue, run_loop, start_loop, run_linked, run_compiled, run_budgeted,
  run_defined, run_found, run_inner, settle, run_execution,
}
use multi_tenant_agentic_wor.Executor.Ends.{run_execution_total}

-- The rows with the identifier have ended: completed, failed or cancelled.
abbrev pub HasEnded : ℕ → World → Type 0
HasEnded i w = All (λ x. (x.id == i) ≡ true → is_active_status x.status ≡ false) w.executions

-- None of them is running.
abbrev pub IsIdle : ℕ → World → Type 0
IsIdle i w = All (λ x. (x.id == i) ≡ true → x.status ≢ running) w.executions

HasEnded-update :
    (i : ℕ) (f : Execution → Execution) (xs : List Execution)
    → ((x : Execution) → is_active_status (f x).status ≡ false)
    → All
        (λ x. (x.id == i) ≡ true → is_active_status x.status ≡ false)
        (update_where (λ x. x.id == i) f xs)
unfolding update_where
HasEnded-update i f [] ends = tt
HasEnded-update i f (x ∷ xs) ends = (ground (arith, ends x), HasEnded-update i f xs ends)

HasEnded-invalidate_of :
    (i : ℕ) (x : Option Execution) (w : World) → HasEnded i w → HasEnded i (invalidate_of x w)
unfolding invalidate_tenant_cache
HasEnded-invalidate_of i none w h = h
HasEnded-invalidate_of i (some x) w h = h

fail-HasEnded : (i : ℕ) (m : String) (w : World) → HasEnded i (fail_execution i m w)
unfolding fail_execution
fail-HasEnded i m w = HasEnded-invalidate_of i _ _ (HasEnded-update i _ w.executions (λ x. refl))

cancel-HasEnded : (i : ℕ) (m : String) (w : World) → HasEnded i (cancel_running i m w)
unfolding cancel_running
cancel-HasEnded i m w = HasEnded-invalidate_of i _ _ (HasEnded-update i _ w.executions (λ x. refl))

event-HasEnded : (i k : ℕ) (e : Event) (w : World) → HasEnded i w → HasEnded i (broadcast_ws k e w)
unfolding broadcast_ws
event-HasEnded i k e w h = h

-- An execution that is neither running nor pending has ended.
none_pending :
    (i : ℕ) (xs : List Execution)
    → All (λ x. (x.id == i) ≡ true → x.status ≢ running) xs
    → (count_where (is_pending i) xs == 0) ≡ true
    → All (λ x. (x.id == i) ≡ true → is_active_status x.status ≡ false) xs
unfolding count_where
none_pending i [] h z = tt
none_pending i (x ∷ xs) h z =
    (λ same. ground (arith, h.0 same), none_pending i xs h.1 (ground arith))

-- A run that returns leaves the execution ended.
abbrev ReturnsEnded : ℕ → Outcome → Type 0
ReturnsEnded i (returned w) = HasEnded i w
ReturnsEnded i (raised m w) = Unit
ReturnsEnded i starved = Unit

module _ (env : Env) (j : Job) where
  -- A round that ends the run leaves the execution ended.
  abbrev StopsEnded : Step → Type 0
  StopsEnded (go r) = Unit
  StopsEnded (stop w) = HasEnded j.execution_id w
  StopsEnded (raises m w) = Unit

  connector_replied-StopsEnded :
      (i : NodeId) (n : Node) (r : Run) (a : ConnectorReply × World)
      → StopsEnded (connector_replied env j i n r a)
  unfolding connector_replied announce_current broadcast_ws
  connector_replied-StopsEnded i n r (connector_raises m, w) = tt
  connector_replied-StopsEnded i n r (connector_fails e, w) = fail-HasEnded _ _ _
  connector_replied-StopsEnded i n r (connector_returns c, w) = tt

  agent_replied-StopsEnded :
      (i : NodeId) (c : AgentConfig) (r : Run) (a : AgentReply × World)
      → StopsEnded (agent_replied env j i c r a)
  unfolding agent_replied record_step announce_current cancel_over_budget announce_cancelled
      broadcast_ws
  agent_replied-StopsEnded i c r (agent_raises m, w) = tt
  agent_replied-StopsEnded i c r (replies a, w) = elim (Bool-cases (a.action == "error")) [
    | inl e ↦ rw e (fail-HasEnded _ _ _)
    | inr e ↦
        rw e (elim (Bool-cases (ltb 0 (count_where (can_charge j.tenant_id (spent a)) w.tenants))) [
          | inl fits ↦ rw fits tt
          | inr over ↦ rw over (cancel-HasEnded _ _ _)
        ])
  ]

  visit_configured-StopsEnded :
      (i : NodeId) (c : Option AgentConfig) (r : Run) → StopsEnded (visit_configured env j i c r)
  unfolding visit_configured visit_agent cancel_over_budget announce_cancelled broadcast_ws
  visit_configured-StopsEnded i none r = tt
  visit_configured-StopsEnded i (some c) r =
      let r' = begin_agent j c r in
      elim (Bool-cases (lacks_budget env j c (find_tenant r'.world j.tenant_id))) [
        | inl lacks ↦ rw lacks (cancel-HasEnded _ _ _)
        | inr has ↦ rw has (agent_replied-StopsEnded i c r' (env.execute_agent c r'.state r'.world))
      ]

  visit_node-StopsEnded : (i : NodeId) (r : Run) → StopsEnded (visit_node env j i r)
  unfolding visit_node visit_connector
  visit_node-StopsEnded i r = elim (Bool-cases (node_type (node_of j i) == "connector")) [
    | inl e ↦ rw e (connector_replied-StopsEnded i (node_of j i) (started (node_of j i)) _)
    | inr e ↦ rw e (visit_configured-StopsEnded i (config_of j i) r)
  ]
    where
      started : Node → Run
      started n = record r {
        step_number = suc r.step_number;
        state = record r.state { current_agent = label_of n };
      }

  visit-StopsEnded : (i : NodeId) (r : Run) → StopsEnded (visit env j i r)
  unfolding visit announce_fixed announce_cancelled broadcast_ws
  visit-StopsEnded i r = elim (Bool-cases (is_cyclic j && ltb max_iterations r.iteration)) [
    | inl e ↦ rw e (fail-HasEnded _ _ _)
    | inr e ↦ rw e (elim (Bool-cases (is_cancelled j.execution_id r.world)) [
      | inl c ↦ rw c (cancel-HasEnded _ _ _)
      | inr c ↦ rw c (visit_node-StopsEnded i r)
    ])
  ]

  complete-HasEnded : (a : AgentState) (w : World) → HasEnded j.execution_id (complete env j a w)
  unfolding complete complete_execution invalidate_tenant_cache broadcast_ws
  complete-HasEnded a w = HasEnded-update j.execution_id _ w.executions (λ x. refl)

  run_loop-ReturnsEnded :
      (f : ℕ) (queue : List NodeId) (r : Run)
      → ReturnsEnded j.execution_id (run_loop env j f queue r)
  unfolding run_loop
  run_loop-ReturnsEnded zero queue r = tt
  run_loop-ReturnsEnded (suc f) [] r = complete-HasEnded r.state r.world
  run_loop-ReturnsEnded (suc f) (i ∷ rest) r =
      next (visit env j i (take_round env j i rest r))
        (visit-StopsEnded i (take_round env j i rest r)) (λ r'. run_loop-ReturnsEnded f r'.queue r')
    where
      next :
          (x : Step)
          → StopsEnded x
          → ((r' : Run) → ReturnsEnded j.execution_id (run_loop env j f r'.queue r'))
          → ReturnsEnded j.execution_id (elim x [
            | go r' ↦ run_loop env j f r'.queue r'
            | stop w ↦ returned w
            | raises message w ↦ raised message w
          ])
      next (go r') h ih = ih r'
      next (stop w) h ih = h
      next (raises m w) h ih = tt

  start_loop-ReturnsEnded :
      (input : Option Json) (w : World) (queue : Option (List NodeId))
      → ReturnsEnded j.execution_id (start_loop env j input w queue)
  unfolding start_loop
  start_loop-ReturnsEnded input w none = tt
  start_loop-ReturnsEnded input w (some queue) = run_loop-ReturnsEnded _ queue _

  run_linked-ReturnsEnded :
      (input : Option Json) (w : World) (e : Option String)
      → IsIdle j.execution_id w
      → ReturnsEnded j.execution_id (run_linked env j input w e)
  unfolding run_linked
  run_linked-ReturnsEnded input w (some m) h = tt
  run_linked-ReturnsEnded input w none h =
      elim (Bool-cases (count_where (is_pending j.execution_id) w.executions == 0)) [
        | inl z ↦ rw z (none_pending j.execution_id w.executions h z)
        | inr z ↦ rw z (start_loop-ReturnsEnded input _ (initial_queue j))
      ]

  run_compiled-ReturnsEnded :
      (input : Option Json) (w : World) (g : Result CompilationError StateGraph)
      → IsIdle j.execution_id w
      → ReturnsEnded j.execution_id (run_compiled env j input w g)
  unfolding run_compiled announce_fixed broadcast_ws
  run_compiled-ReturnsEnded input w (err e) h = fail-HasEnded _ _ _
  run_compiled-ReturnsEnded input w (ok g) h =
      run_linked-ReturnsEnded input w (env.langgraph_error g) h

  run_budgeted-ReturnsEnded :
      (input : Option Json) (t : Option Tenant) (w : World)
      → IsIdle j.execution_id w
      → ReturnsEnded j.execution_id (run_budgeted env j input t w)
  unfolding run_budgeted announce_fixed broadcast_ws
  run_budgeted-ReturnsEnded input none w h = tt
  run_budgeted-ReturnsEnded input (some t) w h =
      elim (Bool-cases (leb t.token_budget t.tokens_used)) [
        | inl e ↦ rw e (fail-HasEnded _ _ _)
        | inr e ↦ rw e (run_compiled-ReturnsEnded input w _ h)
      ]

module _ (env : Env) (i f t : ℕ) (input : Option Json) where
  run_defined-ReturnsEnded :
      (w : World) (wf : Workflow) (d : Option Definition)
      → IsIdle i w
      → ReturnsEnded i (run_defined env i f t input w wf d)
  unfolding run_defined
  run_defined-ReturnsEnded w wf none h = tt
  run_defined-ReturnsEnded w wf (some d) h = elim (Bool-cases (is_empty d.nodes)) [
    | inl e ↦ rw e tt
    | inr e ↦ rw e (run_budgeted-ReturnsEnded env _ input (find_tenant w t) w h)
  ]

  run_found-ReturnsEnded :
      (w : World) (wf : Option Workflow)
      → IsIdle i w
      → ReturnsEnded i (run_found env i f t input w wf)
  unfolding run_found
  run_found-ReturnsEnded w none h = tt
  run_found-ReturnsEnded w (some wf) h = run_defined-ReturnsEnded w wf wf.definition h

  settle-ReturnsEnded : (o : Outcome) → ReturnsEnded i o → ReturnsEnded i (settle env i f t input o)
  unfolding settle announce_current broadcast_ws unregister
  settle-ReturnsEnded starved h = tt
  settle-ReturnsEnded (returned w) h = h
  settle-ReturnsEnded (raised m w) h = fail-HasEnded _ _ _

-- If no execution with the identifier is running when a run starts, then the run returns, and every
-- execution with the identifier is completed, failed or cancelled after it, whatever the calls
-- outside reply and change.
pub run_execution-HasEnded :
    (env : Env) (i f t : ℕ) (input : Option Json) (w : World)
    → IsIdle i w
    → (w' : World) × (run_execution env i f t input w ≡ returned w') × HasEnded i w'
unfolding run_execution run_inner register
run_execution-HasEnded env i f t input w h =
    let (w', e) = run_execution_total env i f t input w in
    let ended = settle-ReturnsEnded env i f t input _ (
      run_found-ReturnsEnded env i f t input (register i w) (find_workflow (register i w) t f) h) in
    (w', e, rw e at ended)
