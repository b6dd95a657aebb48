-- ===== src/Graph.antt =====
-- core/common-util/src/Graph.ts: the directed graph of the metadata loader, its cycle detection
-- (`loopPath`) and its order of initialisation (`sort`).
-- A reference to a `GraphNode` object is a number, and the objects live in `heap`: `addEdge` mutates
-- two of them, which may be one. A node's payload `val` is its `id`; `EdgeMeta` is a parameter with
-- its `equal`.
-- Recursion over the graph takes fuel, and `none` means that the fuel ran out.
pub mod Tests
pub mod Build
pub mod History
pub mod Path
pub mod Loop
pub mod Total
pub mod Cycle
pub mod Sort
pub mod Order
use tegg.Prelude.{
  ℕ, zero, suc, ◌+◌, ◌-◌, ◌≡◌, String, Bool, true, false, not, List, [], ◌∷◌, ◌++◌, map, Option,
  none, some, if◌then◌else◌, ◌==◌, nat_key, string_key, length,
}
use tegg.Prelude.JsMap.{JsMap, get, set, has, values}

abbrev pub Ref : Type 0
Ref = ℕ

pub record Edge (M : Type 0) : Type 0 where
  pub node : Ref
  pub meta : Option M

pub record GraphNode (M : Type 0) : Type 0 where
  pub id : String
  pub to_node_map : JsMap String (Edge M)
  pub from_node_map : JsMap String (Edge M)

pub record Graph (M : Type 0) : Type 0 where
  pub heap : Ref → GraphNode M
  pub nodes : JsMap String Ref

pub record GraphPath (M : Type 0) : Type 0 where
  pub node_id_map : JsMap String ℕ
  pub nodes : List (Edge M)

-- The objects whose `accessed` entry is set are kept by index; -1, the index of a foreign object,
-- is `none`.
pub record Access : Type 0 where
  pub accessed : List (Option ℕ)
  pub res : List Ref

-- `nodes.indexOf(node)`.
unfoldable pub index_of : Ref → List Ref → Option ℕ
index_of n [] = none
index_of n (m ∷ ms) =
    let rest = index_of n ms in
    if m == n then some 0 else elim rest [ none ↦ none | some i ↦ some (suc i) ]

same_index : Option ℕ → Option ℕ → Bool
same_index none none = true
same_index none (some j) = false
same_index (some i) none = false
same_index (some i) (some j) = i == j

unfoldable pub is_accessed : Option ℕ → List (Option ℕ) → Bool
unfolding same_index
is_accessed i [] = false
is_accessed i (j ∷ js) = let rest = is_accessed i js in if same_index j i then true else rest

-- A `for` loop whose body may run out of fuel.
abbrev pub each {ℓ κ} : {A : Type ℓ} {S : Type κ} → (A → S → Option S) → List A → S → Option S
each f [] s = some s
each f (x ∷ xs) s = elim (f x s) [ none ↦ none | some t ↦ each f xs t ]

abbrev pub or_zero : Option ℕ → ℕ
or_zero none = 0
or_zero (some n) = n

-- What a call of `appendVertexToPath` leaves: the path and its result.
abbrev pub Walk : Type 0 → Type 0
Walk M = GraphPath M × Bool

abbrev pub mark : List Ref → Ref → Access → Access
mark nodes r s = record { accessed = index_of r nodes ∷ s.accessed; res = s.res ++ r ∷ [] }

abbrev finish : List Ref → Ref → Option Access → Option Access
finish nodes r none = none
finish nodes r (some s) = some (mark nodes r s)

module _ {M : Type 0} where
  pub update : (Ref → GraphNode M) → Ref → GraphNode M → Ref → GraphNode M
  update h r n q = if r == q then n else h q

  -- The methods of `GraphNode`.
  unfoldable pub add_to_vertex : GraphNode M → String → Edge M → GraphNode M × Bool
  add_to_vertex self key e =
      if has key self.to_node_map
      then (self, false)
      else (record self { to_node_map = set key e self.to_node_map }, true)

  unfoldable pub add_from_vertex : GraphNode M → String → Edge M → GraphNode M × Bool
  add_from_vertex self key e =
      if has key self.from_node_map
      then (self, false)
      else (record self { from_node_map = set key e self.from_node_map }, true)

  unfoldable pub add_vertex : Graph M → Ref → Graph M × Bool
  add_vertex g r =
      let id = (g.heap r).id in
      if has id g.nodes then (g, false) else (record g { nodes = set id r g.nodes }, true)

  -- `to.addFromVertex(from, meta)`, then `from.addToVertex(to, meta)` on the updated objects.
  unfoldable pub add_edge : Graph M → Ref → Ref → Option M → Graph M × Bool
  unfolding update
  add_edge g from to meta =
      let target =
        add_from_vertex (g.heap to) (g.heap from).id (record { node = from; meta = meta }) in
      let heap = update g.heap to target.0 in
      let source = add_to_vertex (heap from) (heap to).id (record { node = to; meta = meta }) in
      (record g { heap = update heap from source.0 }, source.1)

  unfoldable pub find_edge : (M → M → Bool) → M → List (Edge M) → Option Ref
  find_edge equal meta [] = none
  find_edge equal meta (e ∷ es) =
      let rest = find_edge equal meta es in
      elim e.meta [
        | none ↦ rest
        | some edge_meta ↦ if equal meta edge_meta then some e.node else rest
      ]

  unfoldable pub find_to_node : (M → M → Bool) → Graph M → String → M → Option Ref
  find_to_node equal g id meta = elim (get id g.nodes) [
    | none ↦ none
    | some r ↦ find_edge equal meta (values (g.heap r).to_node_map)
  ]

  -- `this.nodeIdMap.get(id) || 0`.
  abbrev pub visits : GraphPath M → String → ℕ
  visits p id = or_zero (get id p.node_id_map)

  abbrev pub empty_path : GraphPath M
  empty_path = record { node_id_map = []; nodes = [] }

  unfoldable pub push_vertex : Graph M → GraphPath M → Edge M → GraphPath M × Bool
  push_vertex g p e =
      let id = (g.heap e.node).id in
      let val = visits p id in
      (record { node_id_map = set id (val + 1) p.node_id_map; nodes = p.nodes ++ e ∷ [] }, val == 0)

  -- `Array.prototype.pop`: the array without its last entry, and that entry.
  unfoldable pub pop_last : Edge M → List (Edge M) → List (Edge M) × Edge M
  pop_last e [] = ([], e)
  pop_last e (f ∷ fs) = let r = pop_last f fs in (e ∷ r.0, r.1)

  unfoldable pub pop_vertex : Graph M → GraphPath M → GraphPath M
  pop_vertex g p = elim p.nodes [
    | [] ↦ p
    | e ∷ es ↦
        let popped = pop_last e es in
        let id = (g.heap (popped.1).node).id in
        record { node_id_map = set id (visits p id - 1) p.node_id_map; nodes = popped.0 }
  ]

  abbrev pub to_nodes : Graph M → Ref → List (Edge M)
  to_nodes g r = values (g.heap r).to_node_map

  -- The loop over `toNodeMap`, which stops at the first `false`.
  unfoldable pub append_each :
      (Edge M → GraphPath M → Option (Walk M)) → List (Edge M) → GraphPath M → Option (Walk M)
  append_each f [] p = some (p, true)
  append_each f (e ∷ es) p = elim (f e p) [
    | none ↦ none
    | some (q, false) ↦ some (q, false)
    | some (q, true) ↦ append_each f es q
  ]

  close_vertex : Graph M → Option (Walk M) → Option (Walk M)
  close_vertex g none = none
  close_vertex g (some (p, false)) = some (p, false)
  close_vertex g (some (p, true)) = some (pop_vertex g p, true)

  unfoldable pub append_vertex_to_path : ℕ → Graph M → Edge M → GraphPath M → Option (Walk M)
  unfolding close_vertex
  append_vertex_to_path zero g e p = none
  append_vertex_to_path (suc fuel) g e p =
      let rest =
        close_vertex g
          (append_each (append_vertex_to_path fuel g) (to_nodes g e.node) (push_vertex g p e).0) in
      if (push_vertex g p e).1 then rest else some ((push_vertex g p e).0, false)

  abbrev pub root : Ref → Edge M
  root r = record { node = r; meta = none }

  -- `some none` is the `undefined` of a graph with no loop.
  unfoldable pub loop_from : ℕ → Graph M → List Ref → GraphPath M → Option (Option (GraphPath M))
  loop_from fuel g [] p = some none
  loop_from fuel g (r ∷ rs) p = elim (append_vertex_to_path fuel g (root r) p) [
    | none ↦ none
    | some (q, false) ↦ some (some q)
    | some (q, true) ↦ loop_from fuel g rs q
  ]

  unfoldable pub loop_path : ℕ → Graph M → Option (Option (GraphPath M))
  unfolding loop_from
  loop_path fuel g = loop_from fuel g (values g.nodes) empty_path

  -- The early return for a node without successors does what the loop over no successors does, and
  -- is a branch of its own, as in the source.
  unfoldable pub access_node : ℕ → Graph M → List Ref → Ref → Access → Option Access
  access_node zero g nodes r s = none
  access_node (suc fuel) g nodes r s =
      let rest = finish nodes r (each (λ e. access_node fuel g nodes e.node) (to_nodes g r) s) in
      if is_accessed (index_of r nodes) s.accessed
      then some s
      else if length (to_nodes g r) == 0
      then some (mark nodes r s)
      else rest

  unfoldable pub sort : ℕ → Graph M → Option (List Ref)
  unfolding access_node
  sort fuel g =
      elim (each (access_node fuel g (values g.nodes)) (values g.nodes)
        (record { accessed = []; res = [] })) [ none ↦ none | some s ↦ some s.res ]
