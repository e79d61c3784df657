-- ===== src/Graph/Compiled.antt =====
-- What `compile_graph` guarantees of the graph that it builds.
use multi_tenant_agentic_wor.Base.{
  ◌≡◌, ◌≢◌, refl, ap, ◌∙◌, subst, sym, Bool, true, none, not, List, [], ◌∷◌, arith, All,
  select_where, contains, is_empty, ok, >>-eq-ok, require-eq-ok, Bool-cases, inl, inr, option_eq,
  ==-refl,
}
use multi_tenant_agentic_wor.Base.Dict.{Dict}
use multi_tenant_agentic_wor.Graph.{
  NodeId, Node, Edge, Definition, StateGraph, ids, agent_nodes, first_or, entry_nodes, entry_node,
  bare_graph, adjacency_from, has_conditions, missing_configs, add_source, add_sources, build_graph,
  compile_graph, validate_definition,
}
use multi_tenant_agentic_wor.Graph.Valid.{IsValid, validate_definition_iff}

select_where-none :
    (p : NodeId → Bool) (is : List NodeId)
    → is_empty (select_where (λ i. not (p i)) is) ≡ true
    → All (λ i. p i ≡ true) is
unfolding select_where
select_where-none p [] h = tt
select_where-none p (i ∷ is) h = elim (Bool-cases (p i)) [
  | inl e ↦ (e, select_where-none p is (rw e at h))
  | inr e ↦ cc (rw e at h)
]

-- The first selected element, or the default, is in the list if the default is.
contains-first_or :
    (p : NodeId → Bool) (is all : List NodeId) (d : NodeId)
    → contains all d ≡ true
    → All (λ i. contains all i ≡ true) is
    → contains all (first_or d (select_where p is)) ≡ true
unfolding select_where
contains-first_or p [] all d h a = h
contains-first_or p (i ∷ is) all d h a = elim (Bool-cases (p i)) [
  | inl e ↦ rw e a.0
  | inr e ↦ rw e (contains-first_or p is all d h a.1)
]

All-contains-weaken :
    (i : NodeId) (is js : List NodeId)
    → All (λ k. contains is k ≡ true) js
    → All (λ k. contains (i ∷ is) k ≡ true) js
unfolding contains
All-contains-weaken i is [] h = tt
All-contains-weaken i is (j ∷ js) h = (ground (arith, h.0), All-contains-weaken i is js h.1)

pub All-contains_self : (is : List NodeId) → All (λ k. contains is k ≡ true) is
unfolding contains
All-contains_self [] = tt
All-contains_self (i ∷ is) =
    (ground (arith, ==-refl i), All-contains-weaken i is is (All-contains_self is))

contains-first : (ns : List Node) → ns ≢ [] → contains (ids ns) (first_or none (ids ns)) ≡ true
unfolding contains
contains-first [] h = absurd (h refl)
contains-first (n ∷ ns) h = ground (arith, ==-refl n.id)

contains-entry_node : (d : Definition) → d.nodes ≢ [] → contains (ids d.nodes) (entry_node d) ≡ true
unfolding entry_node entry_nodes
contains-entry_node d some_nodes =
    contains-first_or _ (ids d.nodes) (ids d.nodes) _ (contains-first d.nodes some_nodes)
      (All-contains_self (ids d.nodes))

-- The edges of one source leave the nodes and the entry point.
add_source-keeps :
    (g : StateGraph) (o : NodeId × List Edge)
    → ((add_source g o).graph_nodes ≡ g.graph_nodes)
      × ((add_source g o).entry_point ≡ g.entry_point)
unfolding add_source
add_source-keeps g (s, es) = elim (Bool-cases (has_conditions es)) [
  | inl e ↦ rw e (refl, refl)
  | inr e ↦ rw e (refl, refl)
]

add_sources-keeps :
    (g : StateGraph) (os : Dict NodeId (List Edge))
    → ((add_sources g os).graph_nodes ≡ g.graph_nodes)
      × ((add_sources g os).entry_point ≡ g.entry_point)
unfolding add_sources
add_sources-keeps g [] = (refl, refl)
add_sources-keeps g (o ∷ os) =
    let (n, e) = add_sources-keeps (add_source g o) os in
    let (n', e') = add_source-keeps g o in (n ∙ n', e ∙ e')

build_graph-nodes :
    (d : Definition)
    → ((build_graph d).graph_nodes ≡ ids d.nodes) × ((build_graph d).entry_point ≡ entry_node d)
unfolding build_graph
build_graph-nodes d = add_sources-keeps (bare_graph d) (adjacency_from [] d.edges)

-- What is compiled is a valid definition in which every agent node has a configuration; the graph has
-- the nodes of the definition, and its entry point is one of them.
pub compile_graph_ok :
    (d : Definition) (configured : List NodeId) (g : StateGraph)
    → compile_graph d configured ≡ ok g
    → IsValid d
      × All (λ i. contains configured i ≡ true) (agent_nodes d)
      × (g.graph_nodes ≡ ids d.nodes)
      × (contains g.graph_nodes g.entry_point ≡ true)
unfolding compile_graph missing_configs
compile_graph_ok d configured g h =
    let (v, h₁) = (>>-eq-ok (validate_definition d) _).0 h in
    let valid = (validate_definition_iff d).0 v in
    let (m, h₂) = (>>-eq-ok _ _).0 h₁ in
    let same : build_graph d ≡ g = ground arith in
    let (n, e) = build_graph-nodes d in
    (
      valid,
      select_where-none (contains configured) (agent_nodes d) ((require-eq-ok _ _).0 m),
      ap (λ (k : StateGraph). k.graph_nodes) (sym same) ∙ n,
      subst (λ (k : StateGraph). contains k.graph_nodes k.entry_point ≡ true) same
          (rw (n, e) (contains-entry_node d valid.some_nodes)),
    )
