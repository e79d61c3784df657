-- ===== src/Executor/Ends.antt =====
-- How a run ends: the loop of a cyclic workflow by its limit, any other with its queue.
use multi_tenant_agentic_wor.Base.{
  ℕ, zero, suc, ◌+◌, ◌≤◌, ◌<◌, ◌≡◌, ◌≢◌, refl, ap, String, true, false, ◌&&◌, Option, none, some,
  List, [], ◌∷◌, arith, Bool-cases, Result, ok, err, inl, inr, ltb, leb, ◌==◌, is_empty, string_eq,
  nat_eq, count_where, length,
}
use multi_tenant_agentic_wor.Base.Json.{Json}
use multi_tenant_agentic_wor.Graph.{
  NodeId, Node, Definition, node_type, CompilationError, StateGraph,
}
use multi_tenant_agentic_wor.Schedule.Kahn.{topological_sort_total}
use multi_tenant_agentic_wor.Store.{
  Tenant, Workflow, AgentConfig, World, find_tenant, find_workflow,
}
use multi_tenant_agentic_wor.Store.Writes.{can_charge, is_pending, is_cancelled, register}
use multi_tenant_agentic_wor.Executor.{
  AgentReply, replies, agent_raises, ConnectorReply, connector_returns, connector_fails,
  connector_raises, Env, Job, Run, Step, go, stop, raises, Outcome, returned, raised, starved,
  follow, config_of, node_of, is_cyclic, max_iterations,
}
use multi_tenant_agentic_wor.Executor.Steps.{
  label_of, record_step, spent, begin_agent, lacks_budget, visit_connector, connector_replied,
  visit_agent, agent_replied, visit_configured, visit_node, visit,
}
use multi_tenant_agentic_wor.Executor.Loop.{
  take_round, initial_queue, run_loop, start_loop, run_linked, run_compiled, run_budgeted,
  run_defined, run_found, run_inner, settle, run_execution,
}

module _ (j : Job) where
  -- A round that goes on leaves the count of rounds, and the queue unless the workflow is cyclic.
  abbrev Continues : Run → Step → Type 0
  Continues r (go r') = (r'.iteration ≡ r.iteration) × (is_cyclic j ≡ false → r'.queue ≡ r.queue)
  Continues r (stop w) = Unit
  Continues r (raises m w) = Unit

  module _ (env : Env) where
    follow-Continues :
        (i : NodeId) (a b : Option String) (r : Run) → Continues r (go (follow env j i a b r))
    unfolding follow
    follow-Continues i a b r = ground arith

    connector_replied-Continues :
        (i : NodeId) (n : Node) (r : Run) (a : ConnectorReply × World)
        → Continues r (connector_replied env j i n r a)
    unfolding connector_replied
    connector_replied-Continues i n r (connector_raises m, w) = tt
    connector_replied-Continues i n r (connector_fails e, w) = tt
    connector_replied-Continues i n r (connector_returns c, w) = follow-Continues i _ _ _

    agent_replied-Continues :
        (i : NodeId) (c : AgentConfig) (r : Run) (a : AgentReply × World)
        → Continues r (agent_replied env j i c r a)
    unfolding agent_replied record_step
    agent_replied-Continues i c r (agent_raises m, w) = tt
    agent_replied-Continues i c r (replies a, w) = elim (Bool-cases (a.action == "error")) [
      | inl e ↦ rw e tt
      | inr e ↦
          rw e
            (elim (Bool-cases (ltb 0 (count_where (can_charge j.tenant_id (spent a)) w.tenants))) [
              | inl fits ↦ rw fits (follow-Continues i _ _ _)
              | inr over ↦ rw over tt
            ])
    ]

    visit_agent-Continues :
        (i : NodeId) (c : AgentConfig) (r : Run) → Continues r (visit_agent env j i c r)
    unfolding visit_agent
    visit_agent-Continues i c r =
        let r' = begin_agent j c r in
        elim (Bool-cases (lacks_budget env j c (find_tenant r'.world j.tenant_id))) [
          | inl lacks ↦ rw lacks tt
          | inr has ↦
              rw has (agent_replied-Continues i c r' (env.execute_agent c r'.state r'.world))
        ]

    visit_configured-Continues :
        (i : NodeId) (c : Option AgentConfig) (r : Run) → Continues r (visit_configured env j i c r)
    unfolding visit_configured
    visit_configured-Continues i none r = (refl, λ _. refl)
    visit_configured-Continues i (some c) r = visit_agent-Continues i c r

    visit_connector-Continues :
        (i : NodeId) (n : Node) (r : Run) → Continues r (visit_connector env j i n r)
    unfolding visit_connector
    visit_connector-Continues i n r =
        let started = record r {
          step_number = suc r.step_number;
          state = record r.state { current_agent = label_of n };
        } in
        connector_replied-Continues i n started _

    visit_node-Continues : (i : NodeId) (r : Run) → Continues r (visit_node env j i r)
    unfolding visit_node
    visit_node-Continues i r = elim (Bool-cases (node_type (node_of j i) == "connector")) [
      | inl e ↦ rw e (visit_connector-Continues i (node_of j i) r)
      | inr e ↦ rw e (visit_configured-Continues i (config_of j i) r)
    ]

    -- In a cyclic workflow only the first ten rounds go on.
    abbrev Limited : Run → Step → Type 0
    Limited r (go r') = is_cyclic j ≡ true → r.iteration ≤ max_iterations
    Limited r (stop w) = Unit
    Limited r (raises m w) = Unit

    visit-Continues :
        (i : NodeId) (r : Run) → Continues r (visit env j i r) × Limited r (visit env j i r)
    unfolding visit
    visit-Continues i r = elim (Bool-cases (is_cyclic j && ltb max_iterations r.iteration)) [
      | inl e ↦ rw e (tt, tt)
      | inr e ↦ rw e (elim (Bool-cases (is_cancelled j.execution_id r.world)) [
        | inl c ↦ rw c (tt, tt)
        | inr c ↦ rw c (visit_node-Continues i r, within (visit_node env j i r) (ground arith))
      ])
    ]
      where
        within : (x : Step) → (is_cyclic j ≡ true → r.iteration ≤ max_iterations) → Limited r x
        within (go r') h = h
        within (stop w) h = tt
        within (raises m w) h = tt

    -- The fuel left is above what the loop can still use.
    abbrev Fueled : ℕ → List NodeId → ℕ → Type 0
    Fueled f queue n =
        (is_cyclic j ≡ true → (n ≤ max_iterations) × (max_iterations < f + n))
        × (is_cyclic j ≡ false → length queue < f)

    run_loop-ne-starved :
        (f : ℕ) (queue : List NodeId) (r : Run)
        → Fueled f queue r.iteration
        → run_loop env j f queue r ≢ starved
    unfolding run_loop
    run_loop-ne-starved zero queue r h = ground arith
    run_loop-ne-starved (suc f) [] r h = λ e. cc
    run_loop-ne-starved (suc f) (i ∷ rest) r h =
        let r₁ = take_round env j i rest r in
        let (kept, limited) = visit-Continues i r₁ in
        next (visit env j i r₁) kept limited (λ r'. run_loop-ne-starved f r'.queue r')
      where
        next :
            (x : Step)
            → Continues (take_round env j i rest r) x
            → Limited (take_round env j i rest r) x
            → ((r' : Run) → Fueled f r'.queue r'.iteration → run_loop env j f r'.queue r' ≢ starved)
            → elim x [
              | go r' ↦ run_loop env j f r'.queue r'
              | stop w ↦ returned w
              | raises message w ↦ raised message w
            ]
              ≢ starved
        next (go r') kept limited ih = ih r' (
          λ c. (omega (arith, kept.0, limited c), omega (arith, kept.0, h.0 c)),
          λ c. omega (arith, ap length (kept.1 c), h.1 c),
        )
        next (stop w) kept limited ih = λ e. cc
        next (raises m w) kept limited ih = λ e. cc

    start_loop-ne-starved :
        (input : Option Json) (w : World) → start_loop env j input w (initial_queue j) ≢ starved
    unfolding start_loop initial_queue
    start_loop-ne-starved input w = elim (Bool-cases (is_cyclic j)) [
      | inl c ↦ rw c (run_loop-ne-starved _ _ _ (λ _. omega arith, λ d. absurd (ground arith)))
      | inr c ↦
          let (queue, e) = topological_sort_total j.definition.nodes j.definition.edges in
          rw (c, e) (run_loop-ne-starved _ _ _ (λ d. absurd (ground arith), λ _. omega arith))
    ]

    run_linked-ne-starved :
        (input : Option Json) (w : World) (e : Option String) → run_linked env j input w e ≢ starved
    unfolding run_linked
    run_linked-ne-starved input w (some m) = λ e. cc
    run_linked-ne-starved input w none =
        elim (Bool-cases (count_where (is_pending j.execution_id) w.executions == 0)) [
          | inl z ↦ rw z (λ e. cc)
          | inr z ↦ rw z (start_loop-ne-starved input _)
        ]

    run_compiled-ne-starved :
        (input : Option Json) (w : World) (g : Result CompilationError StateGraph)
        → run_compiled env j input w g ≢ starved
    unfolding run_compiled
    run_compiled-ne-starved input w (err e) = λ p. cc
    run_compiled-ne-starved input w (ok g) = run_linked-ne-starved input w (env.langgraph_error g)

    run_budgeted-ne-starved :
        (input : Option Json) (t : Option Tenant) (w : World)
        → run_budgeted env j input t w ≢ starved
    unfolding run_budgeted
    run_budgeted-ne-starved input none w = λ p. cc
    run_budgeted-ne-starved input (some t) w =
        elim (Bool-cases (leb t.token_budget t.tokens_used)) [
          | inl e ↦ rw e (λ p. cc)
          | inr e ↦ rw e (run_compiled-ne-starved input w _)
        ]

module _ (env : Env) (i f t : ℕ) (input : Option Json) where
  run_defined-ne-starved :
      (w : World) (wf : Workflow) (d : Option Definition)
      → run_defined env i f t input w wf d ≢ starved
  unfolding run_defined
  run_defined-ne-starved w wf none = λ p. cc
  run_defined-ne-starved w wf (some d) = elim (Bool-cases (is_empty d.nodes)) [
    | inl e ↦ rw e (λ p. cc)
    | inr e ↦ rw e (run_budgeted-ne-starved _ env input (find_tenant w t) w)
  ]

  run_found-ne-starved :
      (w : World) (wf : Option Workflow) → run_found env i f t input w wf ≢ starved
  unfolding run_found
  run_found-ne-starved w none = λ p. cc
  run_found-ne-starved w (some wf) = run_defined-ne-starved w wf wf.definition

  settle-returned :
      (o : Outcome) → o ≢ starved → (w : World) × (settle env i f t input o ≡ returned w)
  unfolding settle
  settle-returned starved h = absurd (h refl)
  settle-returned (returned w) h = (_, refl)
  settle-returned (raised m w) h = (_, refl)

  -- A run of an execution always returns, in any world and whatever the calls outside reply.
  pub run_execution_total :
      (w : World) → (w' : World) × (run_execution env i f t input w ≡ returned w')
  unfolding run_execution run_inner
  run_execution_total w =
      settle-returned _ (run_found-ne-starved _ (find_workflow (register i w) t f))
