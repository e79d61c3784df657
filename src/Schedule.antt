-- ===== src/Schedule.antt =====
-- backend/app/engine/executor.py: which node runs next. The entry node and the edge of a cyclic
-- workflow, and Kahn's order of any other. The proofs are in the modules below.
pub mod Kahn
use mathlib.Core.Option
use text.Mathlib.Text.{find?}
use multi_tenant_agentic_wor.Base.{
  ℕ, zero, suc, ◌+◌, String, Bool, true, false, not, ◌&&◌, ◌||◌, Option, none, some, List, [], ◌∷◌,
  ◌++◌, map, ◌==◌, if◌then◌else◌, length, ltb, is_empty, select_where, contains, option_eq,
  string_eq,
}
use multi_tenant_agentic_wor.Base.Int.{ℤ, pos, pred_ℤ, suc_ℤ, is_zero}
use multi_tenant_agentic_wor.Base.Dict
use multi_tenant_agentic_wor.Base.Dict.{Dict}
use multi_tenant_agentic_wor.Graph.{NodeId, Node, Edge, Definition, ids, targets, is_set, first_or}

abbrev pub set_ids : List NodeId → List NodeId
set_ids = select_where is_set

-- `_build_entry_node_queue`.
unfoldable pub entry_queue : Definition → List NodeId
entry_queue d = elim (set_ids (ids d.nodes)) [
  | [] ↦ []
  | i ∷ is ↦
      first_or i
        (select_where (λ j. not (contains (set_ids (targets d.edges)) j)) (set_ids (ids d.nodes)))
      ∷ []
]

-- `_build_edge_adjacency`: an edge with no source is left out.
unfoldable pub edge_adjacency_from : Dict NodeId (List Edge) → List Edge → Dict NodeId (List Edge)
edge_adjacency_from adj [] = adj
edge_adjacency_from adj (e ∷ es) =
    edge_adjacency_from
      (if is_set e.source
        then Dict.put adj e.source (Dict.get_or adj e.source [] ++ e ∷ [])
        else adj)
      es

unfoldable pub edge_adjacency : Definition → Dict NodeId (List Edge)
unfolding edge_adjacency_from
edge_adjacency d = edge_adjacency_from [] d.edges

-- `needle in text`.
abbrev pub includes : String → String → Bool
includes text needle = elim (find? text needle) [ none ↦ false | some n ↦ true ]

abbrev pub text_or_empty : Option String → String
text_or_empty none = ""
text_or_empty (some s) = s

-- `clean` is `str.strip().lower()`, by Python's Unicode tables.
module _ (clean : String → String) where
  -- The loop over the edges of a source, with the default target seen so far.
  unfoldable pub match_edge : String → String → NodeId → List Edge → Option NodeId
  match_edge action reasoning default [] = if is_set default then some default else none
  match_edge action reasoning default (e ∷ es) =
      let condition = clean (text_or_empty e.condition) in
      let rest = match_edge action reasoning default es in
      let with_default = match_edge action reasoning e.target es in
      if condition == ""
      then rest
      else if condition == "default"
      then with_default
      else if condition == action
      then some e.target
      else if not (reasoning == "") && includes reasoning condition
      then some e.target
      else rest

  -- `_resolve_next_node`, for the edges of the node that ran.
  unfoldable pub next_target : List Edge → Option String → Option String → NodeId
  unfolding match_edge
  next_target [] action reasoning = none
  next_target (e ∷ []) action reasoning = e.target
  next_target (e ∷ f ∷ es) action reasoning =
      elim (match_edge (clean (text_or_empty action)) (clean (text_or_empty reasoning)) none
        (e ∷ f ∷ es)) [ none ↦ e.target | some t ↦ t ]

  unfoldable pub resolve_next_node :
      NodeId → Dict NodeId (List Edge) → Option String → Option String → NodeId
  unfolding next_target
  resolve_next_node i adj action reasoning = next_target (Dict.get_or adj i []) action reasoning

-- The dictionaries of `_topological_sort`: the neighbours and the in-degree of each node.
pub record Degrees : Type 0 where
  pub neighbours : Dict NodeId (List NodeId)
  pub in_degree : Dict NodeId ℤ

abbrev pub no_entries : Degrees
no_entries = record { neighbours = []; in_degree = [] }

abbrev pub clear : Degrees → NodeId → Degrees
clear d i = record {
  neighbours = Dict.put d.neighbours i [];
  in_degree = Dict.put d.in_degree i (pos 0);
}

unfoldable pub no_degrees : Degrees → List NodeId → Degrees
no_degrees d [] = d
no_degrees d (i ∷ is) = no_degrees (clear d i) is

unfoldable pub count_edge : Degrees → Edge → Degrees
count_edge d e =
    if Dict.has d.neighbours e.source && Dict.has d.in_degree e.target
    then record {
      neighbours =
          Dict.put d.neighbours e.source (Dict.get_or d.neighbours e.source [] ++ e.target ∷ []);
      in_degree = Dict.put d.in_degree e.target (suc_ℤ (Dict.get_or d.in_degree e.target (pos 0)));
    }
    else d

unfoldable pub count_edges : Degrees → List Edge → Degrees
unfolding count_edge
count_edges d [] = d
count_edges d (e ∷ es) = count_edges (count_edge d e) es

-- One pass over the neighbours of the node that was taken.
unfoldable pub release : List NodeId → List NodeId → Dict NodeId ℤ → List NodeId × Dict NodeId ℤ
release [] queue degree = (queue, degree)
release (n ∷ ns) queue degree =
    let left = pred_ℤ (Dict.get_or degree n (pos 0)) in
    release ns (if is_zero left then queue ++ n ∷ [] else queue) (Dict.put degree n left)

-- `while queue`, with fuel; `none` means that the fuel ran out.
unfoldable pub kahn :
    ℕ → Dict NodeId (List NodeId) → List NodeId → Dict NodeId ℤ → List NodeId → Option (List NodeId)
unfolding release
kahn zero adj queue degree result = none
kahn (suc f) adj [] degree result = some result
kahn (suc f) adj (i ∷ queue) degree result =
    let (queue', degree') = release (Dict.get_or adj i []) queue degree in
    kahn f adj queue' degree' (result ++ i ∷ [])

-- What is not in the result is appended in the order of the definition.
unfoldable pub with_remaining : List NodeId → List NodeId → List NodeId
with_remaining is result =
    if ltb (length result) (length is)
    then result ++ select_where (λ i. not (contains result i)) is
    else result

-- Each node enters the queue at most twice: at the start, and when its degree falls to 0.
abbrev pub enough : List NodeId → ℕ
enough is = suc (length is + length is)

-- `[nid for nid in node_ids if in_degree[nid] == 0]`.
abbrev pub sources_of : Degrees → List NodeId → List NodeId
sources_of d = select_where (λ i. is_zero (Dict.get_or d.in_degree i (pos 0)))

unfoldable pub topological_sort : List Node → List Edge → Option (List NodeId)
unfolding no_degrees count_edges kahn with_remaining
topological_sort nodes edges =
    let is = ids nodes in
    let d = count_edges (no_degrees no_entries is) edges in
    Option.map (with_remaining is) (kahn (enough is) d.neighbours (sources_of d is) d.in_degree [])
