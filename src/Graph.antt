-- ===== src/Graph.antt =====
-- backend/app/engine/compiler.py: the workflow definition, its validation, and its compilation into
-- the calls that build a graph of the langgraph library. The proofs are in the modules below.
pub mod Compiled
pub mod Valid
use multi_tenant_agentic_wor.Base.{
  ℕ, String, Bool, true, false, not, ◌&&◌, ◌||◌, Option, none, some, List, [], ◌∷◌, ◌++◌, map, ltb,
  ◌==◌, if◌then◌else◌, length, is_empty, select_where, any_where, all_where, contains, Result, ok,
  err, require, ◌>>=◌, ◌>>◌, option_eq, string_eq,
}
use multi_tenant_agentic_wor.Base.Dict
use multi_tenant_agentic_wor.Base.Dict.{Dict}

-- `node.get("id")`: `none` where the key is missing.
abbrev pub NodeId : Type 0
NodeId = Option String

-- `node["data"]` of a connector node, where it is a dict.
pub record NodeData : Type 0 where
  pub connector_key : Option String
  pub action_key : Option String
  pub label : Option String

pub record Node : Type 0 where
  pub id : NodeId
  pub kind : Option String
  pub node_data : Option NodeData

pub record Edge : Type 0 where
  pub source : NodeId
  pub target : NodeId
  pub condition : Option String

pub record Definition : Type 0 where
  pub nodes : List Node
  pub edges : List Edge

pub data CompilationError : Type 0 where
  no_nodes disconnected : CompilationError
  too_many_nodes too_many_edges : ℕ → CompilationError
  unknown_source unknown_target : NodeId → CompilationError
  orphan_nodes configs_missing : List NodeId → CompilationError

abbrev pub max_nodes : ℕ
max_nodes = 200

abbrev pub max_edges : ℕ
max_edges = 400

abbrev pub ids : List Node → List NodeId
ids = map (λ n. n.id)

-- The loop over the edges: the first bad end raises.
unfoldable pub check_edges : List NodeId → List Edge → Result CompilationError (Unit {0})
check_edges node_ids [] = ok tt
check_edges node_ids (e ∷ es) = do
  require (contains node_ids e.source) (unknown_source e.source)
  require (contains node_ids e.target) (unknown_target e.target)
  check_edges node_ids es

unfoldable pub connected_nodes : List Edge → List NodeId
connected_nodes [] = []
connected_nodes (e ∷ es) = e.source ∷ e.target ∷ connected_nodes es

unfoldable pub orphans : Definition → List NodeId
unfolding connected_nodes
orphans d = select_where (λ i. not (contains (connected_nodes d.edges) i)) (ids d.nodes)

unfoldable pub validate_definition : Definition → Result CompilationError (Unit {0})
unfolding check_edges orphans
validate_definition d = do
  require (not (is_empty d.nodes)) no_nodes
  require (not (ltb max_nodes (length d.nodes))) (too_many_nodes (length d.nodes))
  require (not (ltb max_edges (length d.edges))) (too_many_edges (length d.edges))
  check_edges (ids d.nodes) d.edges
  require (not (ltb 1 (length d.nodes) && is_empty d.edges)) disconnected
  require (not (ltb 1 (length d.nodes)) || is_empty (orphans d)) (orphan_nodes (orphans d))

-- `node.get(k) or default`, for a text.
abbrev pub or_default : Option String → String → String
or_default none d = d
or_default (some s) d = if s == "" then d else s

abbrev pub node_type : Node → String
node_type n = or_default n.kind "agent"

-- Python's truth of an optional text.
abbrev pub is_set : Option String → Bool
is_set none = false
is_set (some s) = not (s == "")

abbrev pub agent_nodes : Definition → List NodeId
agent_nodes d = ids (select_where (λ n. node_type n == "agent") d.nodes)

-- Where an edge of the compiled graph leads: to a node, or to langgraph's END.
pub data Target : Type 0 where
  to_node : NodeId → Target
  to_end : Target

-- The calls made on langgraph's StateGraph, which records them.
pub record StateGraph : Type 0 where
  pub graph_nodes : List NodeId
  pub entry_point : NodeId
  pub graph_edges : List (NodeId × Target)
  pub conditional_edges : List (NodeId × Dict (Option String) Target)

-- `e.get("target") for e in edges` and `e.get("source")`, as sets.
abbrev pub targets : List Edge → List NodeId
targets = map (λ e. e.target)

abbrev pub sources : List Edge → List NodeId
sources = map (λ e. e.source)

abbrev pub first_or {ℓ} : {A : Type ℓ} → A → List A → A
first_or d [] = d
first_or d (x ∷ xs) = x

unfoldable pub entry_nodes : Definition → List NodeId
entry_nodes d = select_where (λ i. not (contains (targets d.edges) i)) (ids d.nodes)

-- The first node that no edge leads to; in a cyclic graph, the first node.
unfoldable pub entry_node : Definition → NodeId
unfolding entry_nodes
entry_node d = first_or (first_or none (ids d.nodes)) (entry_nodes d)

unfoldable pub terminal_nodes : Definition → List NodeId
terminal_nodes d = select_where (λ i. not (contains (sources d.edges) i)) (ids d.nodes)

-- The edges by source, in the order of the definition.
unfoldable pub adjacency_from : Dict NodeId (List Edge) → List Edge → Dict NodeId (List Edge)
adjacency_from adj [] = adj
adjacency_from adj (e ∷ es) =
    adjacency_from (Dict.put adj e.source (Dict.get_or adj e.source [] ++ e ∷ [])) es

unfoldable pub has_conditions : List Edge → Bool
has_conditions = any_where (λ e. is_set e.condition)

-- `data.get("condition", "default")`.
abbrev pub condition_or_default : Option String → Option String
condition_or_default none = some "default"
condition_or_default (some c) = some c

unfoldable pub condition_map_from :
    Dict (Option String) Target → List Edge → Dict (Option String) Target
condition_map_from m [] = m
condition_map_from m (e ∷ es) =
    condition_map_from (Dict.put m (condition_or_default e.condition) (to_node e.target)) es

-- The routing table of a source with conditions; without a default it leads to END.
unfoldable pub condition_map : List Edge → Dict (Option String) Target
unfolding condition_map_from
condition_map es =
    let m = condition_map_from [] es in
    if Dict.has m (some "default") then m else Dict.put m (some "default") to_end

-- Both of the code's unconditional branches add each edge as it is.
unfoldable pub add_source : StateGraph → NodeId × List Edge → StateGraph
unfolding has_conditions condition_map
add_source g (s, es) =
    if has_conditions es
    then record g { conditional_edges = g.conditional_edges ++ (s, condition_map es) ∷ [] }
    else record g { graph_edges = g.graph_edges ++ map (λ e. (s, to_node e.target)) es }

unfoldable pub add_sources : StateGraph → Dict NodeId (List Edge) → StateGraph
unfolding add_source
add_sources g [] = g
add_sources g (o ∷ os) = add_sources (add_source g o) os

-- The nodes and the entry point, before any edge.
abbrev pub bare_graph : Definition → StateGraph
bare_graph d = record {
  graph_nodes = ids d.nodes;
  entry_point = entry_node d;
  graph_edges = [];
  conditional_edges = [];
}

unfoldable pub build_graph : Definition → StateGraph
unfolding entry_node terminal_nodes adjacency_from add_sources
build_graph d =
    let adj = adjacency_from [] d.edges in
    let g = add_sources (bare_graph d) adj in
    let ends = select_where (λ i. not (Dict.has adj i)) (terminal_nodes d) in
    record g { graph_edges = g.graph_edges ++ map (λ i. (i, to_end)) ends }

-- The missing agents of the definition, given the nodes that have a configuration.
unfoldable pub missing_configs : Definition → List NodeId → List NodeId
missing_configs d configured = select_where (λ i. not (contains configured i)) (agent_nodes d)

-- `configured` are the nodes of this workflow that have an AgentConfig.
unfoldable pub compile_graph : Definition → List NodeId → Result CompilationError StateGraph
unfolding validate_definition missing_configs build_graph
compile_graph d configured = do
  validate_definition d
  require (is_empty (missing_configs d configured)) (configs_missing (missing_configs d configured))
  ok (build_graph d)

-- The router of a source with conditions: the requested action, if the table has it.
unfoldable pub condition_fn : Dict (Option String) Target → Option String → Option String
condition_fn m next_action =
    let action = condition_or_default next_action in
    if Dict.has m action then action else some "default"
