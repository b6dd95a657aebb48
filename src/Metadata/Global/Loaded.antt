-- ===== src/Metadata/Global/Loaded.antt =====
-- The modules that are loaded.
use tegg.Prelude.{
  ◌≡◌, ◌⊎◌, inl, inr, refl, subst, String, true, false, List, [], ◌∷◌, arith, filter, In,
  Bool-cases, List-cases,
}
use tegg.Graph.{Ref, Edge}
use tegg.Metadata.Global.{GlobalGraph, ModuleDependencyMeta, is_loaded}

-- The vertices of a list that fulfil `P`, in the order of the list.
abbrev pub Kept : (Ref → Type 0) → List Ref → List Ref → Type 0
Kept P [] kept = kept ≡ []
Kept P (t ∷ ts) kept =
    (P t × ((rest : List Ref) × (kept ≡ t ∷ rest) × Kept P ts rest)) ⊎ ((P t → ⊥) × Kept P ts kept)

-- A module that is loaded: it is not optional, or an edge of the module graph leads to it.
abbrev pub IsLoaded : GlobalGraph → Ref → Type 0
IsLoaded g t =
    ((g.module_of t).optional ≡ false)
    ⊎ ((key : String) × (edge : Edge ModuleDependencyMeta) × In (key, edge)
          (g.module_graph.heap t).from_node_map)

is_loaded-IsLoaded :
    (g : GlobalGraph) (t : Ref)
    → (IsLoaded g t × (is_loaded g t ≡ true)) ⊎ ((IsLoaded g t → ⊥) × (is_loaded g t ≡ false))
is_loaded-IsLoaded g t = elim (Bool-cases (g.module_of t).optional) [
  | inr needed ↦ inl (inl needed, ground arith)
  | inl optional ↦ elim (List-cases (g.module_graph.heap t).from_node_map) [
    | inr ((key, edge), rest, e) ↦ inl (inr (key, edge, rw e (inl refl)), ground arith)
    | inl e ↦
        inr
          (λ loaded. elim loaded [ inl needed ↦ cc | inr (key, edge, m) ↦ rw e at m ], ground arith)
  ]
]

pub filter-Kept : (g : GlobalGraph) (ts : List Ref) → Kept (IsLoaded g) ts (filter (is_loaded g) ts)
filter-Kept g [] = refl
filter-Kept g (t ∷ ts) = elim (is_loaded-IsLoaded g t) [
  | inl (loaded, e) ↦ inl (loaded, (filter (is_loaded g) ts, ground arith, filter-Kept g ts))
  | inr (never, e) ↦ inr (never, subst (Kept (IsLoaded g) ts) (ground arith) (filter-Kept g ts))
]
