-- ===== src/Graph/Valid.antt =====
-- `validate_definition` of backend/app/engine/compiler.py against the conditions of its docstring.
use multi_tenant_agentic_wor.Base.{
  ◌≤◌, ◌<◌, ◌≡◌, refl, ◌≢◌, ◌↔◌, inl, inr, Bool, true, false, not, ◌&&◌, ◌||◌, List, [], ◌∷◌, arith,
  ltb, ◌==◌, length, is_empty, All, select_where, any_where, contains, ok, Bool-cases, option_eq,
  >>-eq-ok, require-eq-ok,
}
use multi_tenant_agentic_wor.Graph.{
  NodeId, Node, Edge, Definition, max_nodes, max_edges, ids, check_edges, connected_nodes, orphans,
  validate_definition,
}

-- An edge touches a node that is its source or its target.
abbrev pub touches : NodeId → Edge → Bool
touches i e = e.source == i || e.target == i

-- Both ends of the edge are nodes of the list.
abbrev pub Joins : List NodeId → Edge → Type 0
Joins is e = (contains is e.source ≡ true) × (contains is e.target ≡ true)

pub record IsValid (d : Definition) : Type 0 where
  pub some_nodes : d.nodes ≢ []
  pub node_limit : length d.nodes ≤ max_nodes
  pub edge_limit : length d.edges ≤ max_edges
  pub ends_exist : All (Joins (ids d.nodes)) d.edges
  pub no_orphans :
      1 < length d.nodes → All (λ i. any_where (touches i) d.edges ≡ true) (ids d.nodes)

check_edges_iff :
    (is : List NodeId) (es : List Edge) → (check_edges is es ≡ ok tt) ↔ All (Joins is) es
unfolding check_edges
check_edges_iff is [] = (λ _. tt, λ _. refl)
check_edges_iff is (e ∷ es) = elim (Bool-cases (contains is e.source)) [
  | inl s ↦ elim (Bool-cases (contains is e.target)) [
    | inl t ↦
        rw (s, t)
          (λ h. ((refl, refl), (check_edges_iff is es).0 h), λ h. (check_edges_iff is es).1 h.1)
    | inr t ↦ rw (s, t) (λ h. cc, λ h. cc h.0.1)
  ]
  | inr s ↦ rw s (λ h. cc, λ h. cc h.0.0)
]

contains-connected :
    (i : NodeId) (es : List Edge) → contains (connected_nodes es) i ≡ any_where (touches i) es
unfolding contains connected_nodes any_where
contains-connected i [] = refl
contains-connected i (e ∷ es) = ground (arith, contains-connected i es)

none_selected :
    (p q : NodeId → Bool) (same : (i : NodeId) → p i ≡ q i) (is : List NodeId)
    → (is_empty (select_where (λ i. not (p i)) is) ≡ true) ↔ All (λ i. q i ≡ true) is
unfolding select_where
none_selected p q same [] = (λ _. tt, λ _. refl)
none_selected p q same (i ∷ is) = elim (Bool-cases (p i)) [
  | inl hit ↦ rw hit (
    λ h. (rw same at hit, (none_selected p q same is).0 h),
    λ h. (none_selected p q same is).1 h.1,
  )
  | inr miss ↦ rw miss (λ h. cc, λ h. cc (same i, h.0))
]

record Checks (d : Definition) : Type 0 where
  nodes : not (is_empty d.nodes) ≡ true
  few_nodes : not (ltb max_nodes (length d.nodes)) ≡ true
  few_edges : not (ltb max_edges (length d.edges)) ≡ true
  joined : check_edges (ids d.nodes) d.edges ≡ ok tt
  linked : not (ltb 1 (length d.nodes) && is_empty d.edges) ≡ true
  touched : not (ltb 1 (length d.nodes)) || is_empty (orphans d) ≡ true

validate-Checks : (d : Definition) → (validate_definition d ≡ ok tt) ↔ Checks d
unfolding validate_definition
validate-Checks d = (
  λ h.
      let (a, h₁) = (>>-eq-ok _ _).0 h in
      let (b, h₂) = (>>-eq-ok _ _).0 h₁ in
      let (c, h₃) = (>>-eq-ok _ _).0 h₂ in
      let (j, h₄) = (>>-eq-ok _ _).0 h₃ in
      let (l, t) = (>>-eq-ok _ _).0 h₄ in
      record {
        nodes = (require-eq-ok _ _).0 a;
        few_nodes = (require-eq-ok _ _).0 b;
        few_edges = (require-eq-ok _ _).0 c;
        joined = j;
        linked = (require-eq-ok _ _).0 l;
        touched = (require-eq-ok _ _).0 t;
      },
  λ c. rw (c.nodes, c.few_nodes, c.few_edges, c.joined, c.linked, c.touched) refl,
)

orphans_iff :
    (d : Definition)
    → (is_empty (orphans d) ≡ true) ↔ All (λ i. any_where (touches i) d.edges ≡ true) (ids d.nodes)
unfolding orphans
orphans_iff d =
    none_selected (contains (connected_nodes d.edges)) (λ i. any_where (touches i) d.edges)
      (λ i. contains-connected i d.edges) (ids d.nodes)

is_empty_iff {ℓ} : {A : Type ℓ} (xs : List A) → (is_empty xs ≡ false) ↔ (xs ≢ [])
is_empty_iff [] = (λ h. cc, λ h. absurd (h refl))
is_empty_iff (x ∷ xs) = (λ h e. cc, λ h. refl)

some_edge_of_touched :
    (ns : List Node) (es : List Edge)
    → All (λ i. any_where (touches i) es ≡ true) (ids ns)
    → 1 < length ns
    → is_empty es ≡ false
unfolding any_where
some_edge_of_touched [] es h many = absurd (omega arith)
some_edge_of_touched (n ∷ ns) [] h many = cc h.0
some_edge_of_touched (n ∷ ns) (e ∷ es) h many = refl

some_edge : (d : Definition) → IsValid d → 1 < length d.nodes → is_empty d.edges ≡ false
some_edge d v many = some_edge_of_touched d.nodes d.edges (v.no_orphans many) many

Checks-IsValid : (d : Definition) → Checks d ↔ IsValid d
Checks-IsValid d = (
  λ c. record {
    some_nodes = (is_empty_iff d.nodes).0 (ground (arith, c.nodes));
    node_limit = ground (arith, c.few_nodes);
    edge_limit = ground (arith, c.few_edges);
    ends_exist = (check_edges_iff _ _).0 c.joined;
    no_orphans = λ many. (orphans_iff d).0 (ground (arith, c.touched));
  },
  λ v. record {
    nodes = ground (arith, (is_empty_iff d.nodes).1 v.some_nodes);
    few_nodes = ground (arith, v.node_limit);
    few_edges = ground (arith, v.edge_limit);
    joined = (check_edges_iff _ _).1 v.ends_exist;
    linked = ground (arith, some_edge d v);
    touched = ground (arith, λ (many : 1 < length d.nodes). (orphans_iff d).1 (v.no_orphans many));
  },
)

-- The validation accepts exactly the definitions with a node, at most 200 nodes and 400 edges, both
-- ends of every edge among the nodes, and, from two nodes on, an edge at every node.
pub validate_definition_iff : (d : Definition) → (validate_definition d ≡ ok tt) ↔ IsValid d
validate_definition_iff d = (
  λ h. (Checks-IsValid d).0 ((validate-Checks d).0 h),
  λ v. (validate-Checks d).1 ((Checks-IsValid d).1 v),
)
