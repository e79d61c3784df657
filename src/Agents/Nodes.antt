-- ===== src/Agents/Nodes.antt =====
-- What a new configuration means to the compiler of the workflow.
use multi_tenant_agentic_wor.Base.{
  ℕ, ◌≡◌, refl, Bool, true, false, not, ◌&&◌, List, [], ◌∷◌, ◌++◌, map, arith, ◌==◌, All, All-both,
  All-of_select_where, select_where-eq-nil, select_where, any_where, any_where-append, contains,
  nat_eq, option_eq, ==-refl, Bool-cases, inl, inr, ok,
}
use multi_tenant_agentic_wor.Graph.{
  NodeId, Definition, agent_nodes, missing_configs, build_graph, validate_definition, compile_graph,
}
use multi_tenant_agentic_wor.Graph.Compiled.{All-contains_self}
use multi_tenant_agentic_wor.Store.{AgentConfig, World}
use multi_tenant_agentic_wor.Executor.Loop.{load_configs}
use multi_tenant_agentic_wor.Agents.{AgentFields, new_agent, add_agent, create_agent}
use multi_tenant_agentic_wor.Agents.Limits.{create_agent_ok}

-- The nodes for which the executor loads a configuration.
abbrev pub configured : ℕ → ℕ → Definition → World → List NodeId
configured tenant workflow d w = map (λ c. c.node_id) (load_configs workflow tenant d w)

contains-loaded :
    (p : AgentConfig → Bool) (i : NodeId) (cs : List AgentConfig)
    → contains (map (λ c. c.node_id) (select_where p cs)) i
      ≡ any_where (λ c. p c && c.node_id == i) cs
unfolding contains select_where any_where
contains-loaded p i [] = refl
contains-loaded p i (a ∷ cs) = ground (arith, contains-loaded p i cs)

module _ (tenant workflow : ℕ) (d : Definition) (w : World) (a : AgentFields) where
  configured_after :
      (i : NodeId)
      → contains (agent_nodes d) i ≡ true
      → (not (contains (configured tenant workflow d w) i) ≡ true → i ≡ a.node_id)
      → not
          (contains (configured tenant workflow d (add_agent (new_agent w tenant workflow a) w)) i)
        ≡ false
  unfolding load_configs add_agent any_where
  configured_after i inside only =
      let p = λ (c : AgentConfig).
        c.workflow_id == workflow && c.tenant_id == tenant && contains (agent_nodes d) c.node_id in
      let before = contains-loaded p i w.agent_configs in
      rw (contains-loaded p i (w.agent_configs ++ new_agent w tenant workflow a ∷ [])) (
        rw
          (any_where-append (λ c. p c && c.node_id == i) w.agent_configs
            (new_agent w tenant workflow a ∷ []))
          (elim (Bool-cases (any_where (λ c. p c && c.node_id == i) w.agent_configs)) [
            | inl e ↦ rw e refl
            | inr e ↦
                let it : i ≡ a.node_id = only (rw before (rw e refl)) in
                rw e (rw (← it) (rw (inside, ==-refl workflow, ==-refl tenant, ==-refl i) refl))
          ]))

-- If a valid definition misses configurations at one node only, the workflow compiles as soon as a
-- configuration is created for that node.
pub create_agent-compile_graph :
    (w w' : World) (tenant workflow : ℕ) (d : Definition) (a : AgentFields) (x : AgentConfig)
    → validate_definition d ≡ ok tt
    → All (λ i. i ≡ a.node_id) (missing_configs d (configured tenant workflow d w))
    → create_agent w tenant workflow a ≡ ok (x, w')
    → compile_graph d (configured tenant workflow d w') ≡ ok (build_graph d)
unfolding compile_graph missing_configs
create_agent-compile_graph w w' tenant workflow d a x valid only h =
    let (_, _, _, same) = create_agent_ok w w' tenant workflow a x h in
    let after = add_agent (new_agent w tenant workflow a) w in
    let complete : select_where (λ i. not (contains (configured tenant workflow d after) i))
          (agent_nodes d)
        ≡ [] =
      select_where-eq-nil (λ i. not (contains (configured tenant workflow d after) i))
        (agent_nodes d)
        (All-both (λ i. contains (agent_nodes d) i ≡ true)
          (λ i. not (contains (configured tenant workflow d w) i) ≡ true → i ≡ a.node_id)
          (λ i. not (contains (configured tenant workflow d after) i) ≡ false)
          (configured_after tenant workflow d w a) (agent_nodes d)
          (All-contains_self (agent_nodes d))
          (All-of_select_where (λ i. i ≡ a.node_id)
            (λ i. not (contains (configured tenant workflow d w) i)) (agent_nodes d) only)) in
    rw same (rw valid (rw complete refl))
