-- ===== src/Graph/Tests.antt =====
-- Small graphs, run through the operations of Graph.ts.
use tegg.Prelude.{
  Bool-cases, ℕ, ◌≡◌, refl, inl, inr, ◌==◌, nat_key, string_key, nat_beq, String, List, [], ◌∷◌,
  none, some, arith, if◌then◌else◌,
}
use tegg.Prelude.JsMap.{get, set}
use tegg.Graph.{
  Ref, GraphNode, Graph, GraphPath, append_vertex_to_path, add_vertex, add_edge, find_to_node,
  loop_path, sort, push_vertex, pop_vertex, pop_last, index_of, is_accessed, find_edge, append_each,
  add_to_vertex, add_from_vertex,
}
use tegg.Graph.Loop.{Reach, loop_path_acyclic}
use tegg.Graph.Total.{IsClosed, loop_path_total}
use tegg.Graph.Cycle.{IsLoop, loop_path-IsLoop}
use tegg.Graph.Build.{
  WellFormed, empty, empty-WellFormed, add_vertex-WellFormed, add_edge-WellFormed,
}
use tegg.Graph.History.{Call, adds_vertex, adds_edge, IsBare, Built, replay, replay-Built}
use tegg.Graph.Order.{IsOrder, sort-IsOrder}

runs : Unit {0}
unfolding get set add_vertex add_edge find_to_node loop_path append_vertex_to_path append_each
    push_vertex pop_vertex pop_last sort index_of is_accessed find_edge add_to_vertex
    add_from_vertex
runs = tt

abbrev node : String → GraphNode ℕ
node id = record { id = id; to_node_map = []; from_node_map = [] }

abbrev heap : Ref → GraphNode ℕ
heap r = if r == 0 then node "app" else if r == 1 then node "service" else node "dao"

abbrev vertices : Graph ℕ
vertices = (add_vertex (add_vertex (add_vertex (empty heap) 0).0 1).0 2).0

-- The application injects the service and the DAO, the service the DAO.
abbrev chain : Graph ℕ
chain = (add_edge (add_edge (add_edge vertices 0 1 (some 7)).0 0 2 none).0 1 2 (some 8)).0

abbrev ring : Graph ℕ
ring = (add_edge chain 2 0 none).0

chain_sorts : (loop_path 4 chain ≡ some none) × (sort 4 chain ≡ some (2 ∷ 1 ∷ 0 ∷ []))
unfolding runs
chain_sorts = (refl, refl)

abbrev ring_path : GraphPath ℕ
ring_path = record {
  node_id_map = ("app", 2) ∷ ("service", 1) ∷ ("dao", 1) ∷ [];
  nodes =
      record { node = 0; meta = none }
      ∷ record { node = 1; meta = some 7 }
      ∷ record { node = 2; meta = some 8 }
      ∷ record { node = 0; meta = none }
      ∷ [];
}

ring_loops : loop_path 4 ring ≡ some (some ring_path)
unfolding runs
ring_loops = refl

found : find_to_node nat_beq chain "service" 8 ≡ some 2
unfolding runs
found = refl

vertices-WellFormed : WellFormed vertices
unfolding runs
vertices-WellFormed =
    add_vertex-WellFormed (add_vertex (add_vertex (empty heap) 0).0 1).0 2
      (add_vertex-WellFormed (add_vertex (empty heap) 0).0 1
        (add_vertex-WellFormed (empty heap) 0 (empty-WellFormed heap) (λ t m. m)) (λ t m. m))
      (λ t m. m)

chain-WellFormed : WellFormed chain
unfolding runs
chain-WellFormed =
    add_edge-WellFormed (add_edge (add_edge vertices 0 1 (some 7)).0 0 2 none).0 1 2 (some 8)
      (add_edge-WellFormed (add_edge vertices 0 1 (some 7)).0 0 2 none
        (add_edge-WellFormed vertices 0 1 (some 7) vertices-WellFormed (inr (inl refl)))
        (inr (inr (inl refl))))
      (inr (inr (inl refl)))

ring-IsClosed : IsClosed ring
unfolding runs
ring-IsClosed = (add_edge-WellFormed chain 2 0 none chain-WellFormed (inl refl)).closed

loop_path_acyclic_example : ¬ Reach chain 0 0
unfolding runs
loop_path_acyclic_example = loop_path_acyclic 4 chain 0 chain_sorts.0 (inl refl)

loop_path_total_example : ¬ (loop_path 4 ring ≡ none)
unfolding runs
loop_path_total_example = loop_path_total 4 ring ring-IsClosed (omega arith)

loop_path-IsLoop_example : IsLoop ring ring_path
loop_path-IsLoop_example = loop_path-IsLoop 4 ring ring_path ring_loops

sort-IsOrder_example : (rs : List Ref) × (sort 4 chain ≡ some rs) × IsOrder chain rs
sort-IsOrder_example = sort-IsOrder 4 chain chain-WellFormed.closed chain_sorts.0

abbrev calls : List (Call ℕ)
calls =
    adds_vertex 0
    ∷ adds_vertex 1
    ∷ adds_edge 0 1 (some 7)
    ∷ adds_vertex 0
    ∷ adds_vertex 2
    ∷ adds_edge 0 2 none
    ∷ adds_edge 2 0 none
    ∷ []

heap-IsBare : (r : Ref) → IsBare (heap r)
heap-IsBare r = elim (Bool-cases (r == 0)) [
  | inl e ↦ rw e (refl, refl)
  | inr e ↦
      rw e (elim (Bool-cases (r == 1)) [ inl f ↦ rw f (refl, refl) | inr f ↦ rw f (refl, refl) ])
]

replay-Built_example : Built (replay calls (empty heap))
unfolding runs
replay-Built_example = replay-Built heap calls heap-IsBare (
  tt,
  (
    tt,
    (
      (inl refl, inr (inl refl)),
      (tt, (tt, ((inl refl, inr (inr (inl refl))), ((inr (inr (inl refl)), inl refl), tt)))),
    ),
  ),
)
