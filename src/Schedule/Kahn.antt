-- ===== src/Schedule/Kahn.antt =====
-- `_topological_sort` of backend/app/engine/executor.py, and the fuel of its loop.
use multi_tenant_agentic_wor.Base.{
  ℕ, zero, suc, ◌+◌, ◌≤◌, ◌<◌, ◌≡◌, refl, Bool, true, false, some, List, [], ◌∷◌, ◌++◌, arith,
  if◌then◌else◌, length, length-append, length-select_where-le, option_eq,
}
use multi_tenant_agentic_wor.Base.Int.{ℤ, pos, negsuc, pred_ℤ, suc_ℤ, is_zero}
use multi_tenant_agentic_wor.Base.Dict
use multi_tenant_agentic_wor.Base.Dict.{Dict}
use multi_tenant_agentic_wor.Graph.{NodeId, Node, Edge, ids}
use multi_tenant_agentic_wor.Schedule.{
  Degrees, no_entries, clear, sources_of, no_degrees, count_edge, count_edges, release, kahn,
  with_remaining, enough, topological_sort,
}

abbrev is_positive : ℤ → Bool
is_positive (pos zero) = false
is_positive (pos (suc n)) = true
is_positive (negsuc n) = false

-- The nodes that still wait for an edge.
abbrev waiting : Dict NodeId ℤ → ℕ
waiting [] = 0
waiting ((i, n) ∷ d) = (if is_positive n then 1 else 0) + waiting d

abbrev one_if : Bool → ℕ
one_if b = if b then 1 else 0

-- Lowering a degree to 0 takes a node from those that wait.
waiting-put :
    (d : Dict NodeId ℤ) (n : NodeId)
    → let left = pred_ℤ (Dict.get_or d n (pos 0)) in
      waiting (Dict.put d n left) + one_if (is_zero left) ≤ waiting d
unfolding Dict.put Dict.get_or
waiting-put [] n = ground arith
waiting-put ((i, m) ∷ d) n = ground (arith, waiting-put d n)

length-push_if :
    (b : Bool) (queue : List NodeId) (n : NodeId)
    → length (if b then queue ++ n ∷ [] else queue) ≡ length queue + one_if b
length-push_if true queue n = length-append queue (n ∷ [])
length-push_if false queue n = omega arith

-- A pass over the neighbours adds to the queue only what stops waiting.
length-release :
    (ns queue : List NodeId) (d : Dict NodeId ℤ)
    → length (release ns queue d).0 + waiting (release ns queue d).1 ≤ length queue + waiting d
unfolding release
length-release [] queue d = omega arith
length-release (n ∷ ns) queue d =
    let left = pred_ℤ (Dict.get_or d n (pos 0)) in
    let queue' = if is_zero left then queue ++ n ∷ [] else queue in
    omega (
      arith,
      waiting-put d n,
      length-push_if (is_zero left) queue n,
      length-release ns queue' (Dict.put d n left),
    )

pub kahn_total :
    (f : ℕ) (adj : Dict NodeId (List NodeId)) (queue : List NodeId) (d : Dict NodeId ℤ)
    (result : List NodeId)
    → length queue + waiting d < f
    → (r : List NodeId) × (kahn f adj queue d result ≡ some r)
unfolding kahn
kahn_total zero adj queue d result h = absurd (omega arith)
kahn_total (suc f) adj [] d result h = (result, refl)
kahn_total (suc f) adj (i ∷ queue) d result h =
    kahn_total f adj _ _ _ (omega (arith, length-release (Dict.get_or adj i []) queue d))

waiting-le-length : (d : Dict NodeId ℤ) → waiting d ≤ length d
waiting-le-length [] = omega arith
waiting-le-length ((i, n) ∷ d) = ground (arith, waiting-le-length d)

length-put-le : (d : Dict NodeId ℤ) (i : NodeId) (n : ℤ) → length (Dict.put d i n) ≤ suc (length d)
unfolding Dict.put
length-put-le [] i n = omega arith
length-put-le ((j, m) ∷ d) i n = ground (arith, length-put-le d i n)

length-put-has :
    (d : Dict NodeId ℤ) (i : NodeId) (n : ℤ)
    → Dict.has d i ≡ true
    → length (Dict.put d i n) ≡ length d
unfolding Dict.put Dict.has
length-put-has [] i n h = cc
length-put-has ((j, m) ∷ d) i n h = ground (arith, length-put-has d i n)

length-no_degrees :
    (d : Degrees) (is : List NodeId)
    → length (no_degrees d is).in_degree ≤ length d.in_degree + length is
unfolding no_degrees
length-no_degrees d [] = omega arith
length-no_degrees d (i ∷ is) =
    omega (arith, length-put-le d.in_degree i (pos 0), length-no_degrees (clear d i) is)

length-count_edge :
    (d : Degrees) (e : Edge) → length (count_edge d e).in_degree ≡ length d.in_degree
unfolding count_edge
length-count_edge d e =
    ground (
      arith,
      length-put-has d.in_degree e.target (suc_ℤ (Dict.get_or d.in_degree e.target (pos 0))),
    )

length-count_edges :
    (d : Degrees) (es : List Edge) → length (count_edges d es).in_degree ≡ length d.in_degree
unfolding count_edges
length-count_edges d [] = refl
length-count_edges d (e ∷ es) =
    omega (arith, length-count_edge d e, length-count_edges (count_edge d e) es)

-- The order of a definition is always found: the fuel of Kahn's loop is enough.
pub topological_sort_total :
    (ns : List Node) (es : List Edge) → (r : List NodeId) × (topological_sort ns es ≡ some r)
unfolding topological_sort
topological_sort_total ns es =
    let is = ids ns in
    let d = count_edges (no_degrees no_entries is) es in
    let (r, e) = kahn_total (enough is) d.neighbours (sources_of d is) d.in_degree [] (
      omega (
        arith,
        length-select_where-le (λ i. is_zero (Dict.get_or d.in_degree i (pos 0))) is,
        waiting-le-length d.in_degree,
        length-count_edges (no_degrees no_entries is) es,
        length-no_degrees no_entries is,
      )) in
    (with_remaining is r, rw e)
