-- ===== src/Executor/Keeps.antt =====
-- What a run keeps: a property of the world that each single write keeps, and that the calls outside
-- of the modelled code keep, holds after every run, however it ends.
use multi_tenant_agentic_wor.Base.{
  ℕ, zero, suc, ◌≡◌, refl, String, ◌&&◌, Option, none, some, List, [], ◌∷◌, arith, Bool-cases, ltb,
  ◌==◌, string_eq, nat_eq, leb, is_empty, count_where, Result, ok, err, inl, inr,
}
use multi_tenant_agentic_wor.Base.Dict.{Dict}
use multi_tenant_agentic_wor.Base.Json.{Json}
use multi_tenant_agentic_wor.Graph.{
  NodeId, Node, Definition, node_type, CompilationError, StateGraph,
}
use multi_tenant_agentic_wor.Store.{
  Tenant, Workflow, ExecutionLog, AgentConfig, Event, World, find_tenant, find_workflow,
}
use multi_tenant_agentic_wor.Store.Writes.{
  fail_execution, cancel_running, start_running, complete_execution, add_totals, add_log,
  charge_tenant, can_charge, is_pending, is_cancelled, invalidate_tenant_cache, register,
  unregister, broadcast_ws,
}
use multi_tenant_agentic_wor.Executor.{
  AgentState, AgentResult, AgentReply, replies, agent_raises, ConnectorReply, connector_returns,
  connector_fails, connector_raises, Env, Job, Run, Step, go, stop, raises, Outcome, returned,
  raised, starved, follow, config_of, node_of, is_cyclic, max_iterations,
}
use multi_tenant_agentic_wor.Executor.Steps.{
  label_of, agent_log, spent, begin_agent, lacks_budget, record_step, cancel_over_budget,
  visit_connector, connector_replied, visit_agent, agent_replied, visit_configured, visit_node,
  visit,
}
use multi_tenant_agentic_wor.Executor.Loop.{
  complete, take_round, initial_queue, run_loop, start_loop, run_linked, run_compiled, run_budgeted,
  run_defined, run_found, run_inner, settle, run_execution,
}

-- The writes of the run of execution `i` of tenant `t`, each of which keeps `P`.
pub record Stable {ℓ} (env : Env) (i t : ℕ) (P : World → Type ℓ) : Type ℓ where
  pub on_event : (e : Event) (w : World) → P w → P (broadcast_ws i e w)
  pub on_fail : (message : String) (w : World) → P w → P (fail_execution i message w)
  pub on_cancel : (message : String) (w : World) → P w → P (cancel_running i message w)
  pub on_start : (w : World) → P w → P (start_running i w)
  pub on_complete : (d : Dict String Json) (w : World) → P w → P (complete_execution i d w)
  pub on_invalidate : (w : World) → P w → P (invalidate_tenant_cache t w)
  pub on_free_log :
      (l : ExecutionLog) (w : World)
      → l.execution_id ≡ i
      → l.tokens_used ≡ 0
      → l.cost ≡ 0
      → P w
      → P (add_log l w)
  -- The charge, the log and the totals of an agent's step are one transaction.
  pub on_step :
      (l : ExecutionLog) (w : World)
      → l.execution_id ≡ i
      → P w
      → P (add_totals i l.tokens_used l.cost (add_log l (charge_tenant t l.tokens_used w)))
  pub on_register : (w : World) → P w → P (register i w)
  pub on_unregister : (w : World) → P w → P (unregister i w)
  pub on_agent :
      (c : AgentConfig) (s : AgentState) (w : World) → P w → P (env.execute_agent c s w).1
  pub on_connector : (n : Node) (w : World) → P w → P (env.execute_connector_node t n w).1

abbrev pub StepHas {ℓ} : (World → Type ℓ) → Step → Type ℓ
StepHas P (go r) = P r.world
StepHas P (stop w) = P w
StepHas P (raises message w) = P w

abbrev pub OutcomeHas {ℓ} : (World → Type ℓ) → Outcome → Type ℓ
OutcomeHas P (returned w) = P w
OutcomeHas P (raised message w) = P w
OutcomeHas P starved = Unit

pub follow-world :
    (env : Env) (j : Job) (i : NodeId) (a b : Option String) (r : Run)
    → (follow env j i a b r).world ≡ r.world
unfolding follow
follow-world env j i a b r = ground arith

module _ {ℓ} (env : Env) (j : Job) (P : World → Type ℓ)
    (s : Stable env j.execution_id j.tenant_id P) where
  connector_replied-keeps :
      (i : NodeId) (n : Node) (r : Run) (a : ConnectorReply × World)
      → P a.1
      → StepHas P (connector_replied env j i n r a)
  unfolding connector_replied
  connector_replied-keeps i n r (connector_raises m, w) h = h
  connector_replied-keeps i n r (connector_fails e, w) h =
      s.on_event _ _ (s.on_event _ _ (s.on_fail _ _ (s.on_free_log _ _ refl refl refl h)))
  connector_replied-keeps i n r (connector_returns c, w) h =
      rw follow-world (s.on_event _ _ (s.on_free_log _ _ refl refl refl h))

  visit_connector-keeps :
      (i : NodeId) (n : Node) (r : Run) → P r.world → StepHas P (visit_connector env j i n r)
  unfolding visit_connector
  visit_connector-keeps i n r h =
      let started = record r {
        step_number = suc r.step_number;
        state = record r.state { current_agent = label_of n };
      } in
      connector_replied-keeps i n started _ (s.on_connector n _ (s.on_event _ _ h))

  record_step-keeps :
      (i : NodeId) (c : AgentConfig) (a : AgentResult) (r : Run) (w : World)
      → P w
      → StepHas P (record_step env j i c a r w)
  unfolding record_step
  record_step-keeps i c a r w h = rw follow-world (
      s.on_event _ _
        (s.on_invalidate _ (s.on_step (agent_log env j i r.step_number c r.state a) w refl h)))

  cancel_over_budget-keeps :
      (m : String) (e : Event) (w : World) → P w → P (cancel_over_budget env j m e w)
  unfolding cancel_over_budget
  cancel_over_budget-keeps m e w h = s.on_event _ _ (s.on_event _ _ (s.on_cancel m w h))

  agent_replied-keeps :
      (i : NodeId) (c : AgentConfig) (r : Run) (a : AgentReply × World)
      → P a.1
      → StepHas P (agent_replied env j i c r a)
  unfolding agent_replied
  agent_replied-keeps i c r (agent_raises m, w) h = h
  agent_replied-keeps i c r (replies a, w) h = elim (Bool-cases (a.action == "error")) [
    | inl e ↦ rw e (s.on_event _ _ (s.on_event _ _ (s.on_fail _ _ h)))
    | inr e ↦
        rw e (elim (Bool-cases (ltb 0 (count_where (can_charge j.tenant_id (spent a)) w.tenants))) [
          | inl fits ↦ rw fits (record_step-keeps i c a r w h)
          | inr over ↦ rw over (cancel_over_budget-keeps _ _ w h)
        ])
  ]

  visit_agent-keeps :
      (i : NodeId) (c : AgentConfig) (r : Run) → P r.world → StepHas P (visit_agent env j i c r)
  unfolding visit_agent
  visit_agent-keeps i c r h =
      let begun = s.on_event (Event.step_start c.name (suc r.step_number)) r.world h in
      let r' = begin_agent j c r in
      elim (Bool-cases (lacks_budget env j c (find_tenant r'.world j.tenant_id))) [
        | inl lacks ↦ rw lacks (cancel_over_budget-keeps _ _ _ begun)
        | inr has ↦ rw has (
            agent_replied-keeps i c r' (env.execute_agent c r'.state r'.world)
              (s.on_agent c _ _ begun))
      ]

  visit_node-keeps : (i : NodeId) (r : Run) → P r.world → StepHas P (visit_node env j i r)
  unfolding visit_node
  visit_node-keeps i r h = elim (Bool-cases (node_type (node_of j i) == "connector")) [
    | inl e ↦ rw e (visit_connector-keeps i (node_of j i) r h)
    | inr e ↦ rw e (configured (config_of j i))
  ]
    where
      configured : (c : Option AgentConfig) → StepHas P (visit_configured env j i c r)
      configured none = h
      configured (some c) = visit_agent-keeps i c r h

  pub visit-keeps : (i : NodeId) (r : Run) → P r.world → StepHas P (visit env j i r)
  unfolding visit
  visit-keeps i r h = elim (Bool-cases (is_cyclic j && ltb max_iterations r.iteration)) [
    | inl e ↦ rw e (s.on_event _ _ (s.on_event _ _ (s.on_fail _ _ h)))
    | inr e ↦ rw e (elim (Bool-cases (is_cancelled j.execution_id r.world)) [
      | inl c ↦ rw c (s.on_event _ _ (s.on_cancel _ _ h))
      | inr c ↦ rw c (visit_node-keeps i r h)
    ])
  ]

  complete-keeps : (a : AgentState) (w : World) → P w → P (complete env j a w)
  unfolding complete
  complete-keeps a w h = s.on_event _ _ (s.on_invalidate _ (s.on_complete _ _ h))

  pub run_loop-keeps :
      (f : ℕ) (queue : List NodeId) (r : Run) → P r.world → OutcomeHas P (run_loop env j f queue r)
  unfolding run_loop
  run_loop-keeps zero queue r h = tt
  run_loop-keeps (suc f) [] r h = complete-keeps r.state r.world h
  run_loop-keeps (suc f) (i ∷ rest) r h =
      next (visit env j i (take_round env j i rest r)) (visit-keeps i (take_round env j i rest r) h)
        (λ r'. run_loop-keeps f r'.queue r')
    where
      next :
          (x : Step)
          → StepHas P x
          → ((r' : Run) → P r'.world → OutcomeHas P (run_loop env j f r'.queue r'))
          → OutcomeHas P (elim x [
            | go r' ↦ run_loop env j f r'.queue r'
            | stop w ↦ returned w
            | raises message w ↦ raised message w
          ])
      next (go r') h ih = ih r' h
      next (stop w) h ih = h
      next (raises m w) h ih = h

  start_loop-keeps :
      (input : Option Json) (w : World) (queue : Option (List NodeId))
      → P w
      → OutcomeHas P (start_loop env j input w queue)
  unfolding start_loop
  start_loop-keeps input w none h = tt
  start_loop-keeps input w (some queue) h = run_loop-keeps _ queue _ h

  run_linked-keeps :
      (input : Option Json) (w : World) (e : Option String)
      → P w
      → OutcomeHas P (run_linked env j input w e)
  unfolding run_linked
  run_linked-keeps input w (some message) h = h
  run_linked-keeps input w none h =
      elim (Bool-cases (count_where (is_pending j.execution_id) w.executions == 0)) [
        | inl z ↦ rw z h
        | inr z ↦ rw z (start_loop-keeps input _ (initial_queue j) (s.on_start w h))
      ]

  run_compiled-keeps :
      (input : Option Json) (w : World) (g : Result CompilationError StateGraph)
      → P w
      → OutcomeHas P (run_compiled env j input w g)
  unfolding run_compiled
  run_compiled-keeps input w (err e) h = s.on_event _ _ (s.on_event _ _ (s.on_fail _ _ h))
  run_compiled-keeps input w (ok g) h = run_linked-keeps input w (env.langgraph_error g) h

  pub run_budgeted-keeps :
      (input : Option Json) (t : Option Tenant) (w : World)
      → P w
      → OutcomeHas P (run_budgeted env j input t w)
  unfolding run_budgeted
  run_budgeted-keeps input none w h = h
  run_budgeted-keeps input (some t) w h = elim (Bool-cases (leb t.token_budget t.tokens_used)) [
    | inl e ↦ rw e (s.on_event _ _ (s.on_event _ _ (s.on_fail _ _ h)))
    | inr e ↦ rw e (run_compiled-keeps input w _ h)
  ]

module _ {ℓ} (env : Env) (i f t : ℕ) (input : Option Json) (P : World → Type ℓ)
    (s : Stable env i t P) where
  run_defined-keeps :
      (w : World) (wf : Workflow) (d : Option Definition)
      → P w
      → OutcomeHas P (run_defined env i f t input w wf d)
  unfolding run_defined
  run_defined-keeps w wf none h = h
  run_defined-keeps w wf (some d) h = elim (Bool-cases (is_empty d.nodes)) [
    | inl e ↦ rw e h
    | inr e ↦ rw e (run_budgeted-keeps env _ P s input (find_tenant w t) w h)
  ]

  run_found-keeps :
      (w : World) (wf : Option Workflow) → P w → OutcomeHas P (run_found env i f t input w wf)
  unfolding run_found
  run_found-keeps w none h = h
  run_found-keeps w (some wf) h = run_defined-keeps w wf wf.definition h

  run_inner-keeps : (w : World) → P w → OutcomeHas P (run_inner env i f t input w)
  unfolding run_inner
  run_inner-keeps w h = run_found-keeps w (find_workflow w t f) h

  settle-keeps : (o : Outcome) → OutcomeHas P o → OutcomeHas P (settle env i f t input o)
  unfolding settle
  settle-keeps starved h = tt
  settle-keeps (returned w) h = s.on_unregister w h
  settle-keeps (raised m w) h =
      s.on_unregister _ (s.on_event _ _ (s.on_event _ _ (s.on_fail m w h)))

  -- The world that a run leaves has what every write of the run, and every call outside, keeps.
  pub run_execution-keeps : (w : World) → P w → OutcomeHas P (run_execution env i f t input w)
  unfolding run_execution
  run_execution-keeps w h = settle-keeps _ (run_inner-keeps _ (s.on_register w h))
