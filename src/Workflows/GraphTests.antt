-- ===== src/Workflows/GraphTests.antt =====
-- The theorem on dependency graphs at a workflow of one step, with graphs as lists of vertices and
-- edges.
use chainlink_common.Base.{
  ◌≡◌, refl, inl, inr, Bool, true, false, ◌&&◌, ◌||◌, List, [], ◌∷◌, All, Option-cases, none, some,
  if◌then◌else◌, Dict, keys, lookup, lookup-insert, insert, beq_refl, Result, ok, err, arith,
}
use chainlink_common.Base.Bytes.{Bytes, same_bytes, same_bytes_self, bytes_eq}
use chainlink_common.Workflows.Items.{no_fields, field, text, deep_map}
use chainlink_common.Workflows.Refs.{
  token, before_close, split_dots, prepend, ref_of, find_ref, find_refs,
}
use chainlink_common.Workflows.Graph.{
  StepDefinition, WorkflowSpec, Vertex, GraphLibrary, EdgeError, edge_exists, DependencyGraph,
  keyword_trigger, trigger_vertex, steps, add_steps, add_edges, is_unfounded, link_step, link_steps,
  add_vertices, build_dependency_graph,
}
use chainlink_common.Workflows.Linked.{
  IsGraph, Linked, with_dependencies, build_dependency_graph-Linked,
}

record ListGraph : Type 0 where
  vertices : Dict Bytes Vertex
  edges : List (Bytes × Bytes)

unfoldable joins : Bytes → Bytes → List (Bytes × Bytes) → Bool
joins a b [] = false
joins a b ((c, d) ∷ es) = (same_bytes c a && same_bytes d b) || joins a b es

unfoldable write : Bytes → List Bytes → ListGraph → ListGraph
unfolding lookup insert
write r refs g = elim (lookup r g.vertices) [
  | none ↦ g
  | some v ↦ record { vertices = insert r (with_dependencies refs v) g.vertices; edges = g.edges }
]

unfoldable connect : Bytes → Bytes → ListGraph → Result EdgeError ListGraph
unfolding joins
connect a b g =
    if joins a b g.edges
    then err edge_exists
    else ok (record { vertices = g.vertices; edges = (a, b) ∷ g.edges })

abbrev list_graphs : GraphLibrary ListGraph
list_graphs = record {
  new_graph = record { vertices = []; edges = [] };
  add_vertex = λ v g. elim (lookup v.step.ref g.vertices) [
    | some w ↦ none
    | none ↦ some (record { vertices = insert v.step.ref v g.vertices; edges = g.edges })
  ];
  adjacency = λ g. some (keys g.vertices);
  vertex = λ r g. lookup r g.vertices;
  set_dependencies = write;
  add_edge = connect;
  has_edge = λ a b g. joins a b g.edges;
}

write-same :
    (r : Bytes) (refs : List Bytes) (g : ListGraph) (v : Vertex)
    → lookup r g.vertices ≡ some v
    → lookup r (write r refs g).vertices ≡ some (with_dependencies refs v)
unfolding write
write-same r refs g v known =
    rw (known, write)
      (rw (lookup-insert r r (with_dependencies refs v) g.vertices, beq_refl r) refl)

write-other :
    (r s : Bytes) (refs : List Bytes) (g : ListGraph)
    → same_bytes s r ≡ false
    → lookup r (write s refs g).vertices ≡ lookup r g.vertices
unfolding write
write-other r s refs g apart = elim (Option-cases (lookup s g.vertices)) [
  | inl missing ↦ rw (missing, write) refl
  | inr (v, known) ↦
      rw (known, write) (rw (lookup-insert s r (with_dependencies refs v) g.vertices, apart) refl)
]

write-edges : (s : Bytes) (refs : List Bytes) (g : ListGraph) → (write s refs g).edges ≡ g.edges
unfolding write
write-edges s refs g = elim (Option-cases (lookup s g.vertices)) [
  | inl missing ↦ rw (missing, write) refl
  | inr (v, known) ↦ rw (known, write) refl
]

connect-eq_ok :
    (a b : Bytes) (g : ListGraph) {added : ListGraph}
    → connect a b g ≡ ok added
    → (added.vertices ≡ g.vertices) × (added.edges ≡ (a, b) ∷ g.edges)
unfolding connect
connect-eq_ok a b g {added = added} h = ground arith

connect-exists :
    (a b : Bytes) (g : ListGraph) → connect a b g ≡ err edge_exists → joins a b g.edges ≡ true
unfolding connect
connect-exists a b g h = ground arith

list_graphs-IsGraph : IsGraph list_graphs
unfolding joins
list_graphs-IsGraph = record {
  vertex-set_same = write-same;
  vertex-set_other = write-other;
  vertex-add = λ a b r g added h. rw (connect-eq_ok a b g h).0 refl;
  edge-set = λ a b s refs g h. rw (write-edges s refs g) h;
  edge-add_same =
      λ a b g added h. rw ((connect-eq_ok a b g h).1, same_bytes_self a, same_bytes_self b) refl;
  edge-add_other =
      λ a b c d g added h known. rw ((connect-eq_ok a b g h).1) (ground (arith, known));
  edge-exists = connect-exists;
}

-- A step `a` that refers to `$(trigger.x)`.
abbrev step_a : StepDefinition
step_a = record {
  id = 105 ∷ [];
  ref = 97 ∷ [];
  output_ref = [];
  input_mapping =
      field (107 ∷ [])
        (text (36 ∷ 40 ∷ 116 ∷ 114 ∷ 105 ∷ 103 ∷ 103 ∷ 101 ∷ 114 ∷ 46 ∷ 120 ∷ 41 ∷ [])) no_fields;
  step_config = no_fields;
  capability_type = [];
}

abbrev one_step : WorkflowSpec
one_step = record {
  spec_name = [];
  owner = [];
  triggers = [];
  actions = step_a ∷ [];
  consensus = [];
  targets = [];
}

abbrev vertex_a : List Bytes → Vertex
vertex_a refs = record { step = step_a; dependencies = refs }

abbrev one_unlinked : ListGraph
one_unlinked = record {
  vertices = (keyword_trigger, trigger_vertex) ∷ (97 ∷ [], vertex_a []) ∷ [];
  edges = [];
}

abbrev one_built : DependencyGraph ListGraph
one_built = record {
  graph = record {
    vertices = (keyword_trigger, trigger_vertex) ∷ (97 ∷ [], vertex_a (keyword_trigger ∷ [])) ∷ [];
    edges = (keyword_trigger, 97 ∷ []) ∷ [];
  };
  trigger_steps = [];
  spec = one_step;
}

add_vertices-one : add_vertices list_graphs one_step ≡ ok one_unlinked
unfolding add_vertices add_steps steps lookup insert same_bytes
add_vertices-one = refl

build_dependency_graph-one : build_dependency_graph list_graphs one_step ≡ ok one_built
unfolding build_dependency_graph add_vertices add_steps steps link_steps link_step add_edges
    is_unfounded find_refs deep_map find_ref ref_of token before_close split_dots prepend write
    connect joins lookup insert same_bytes
build_dependency_graph-one = refl

build_dependency_graph-Linked_example :
    All (Linked list_graphs list_graphs-IsGraph one_built.graph) (keyword_trigger ∷ (97 ∷ []) ∷ [])
build_dependency_graph-Linked_example =
    build_dependency_graph-Linked list_graphs list_graphs-IsGraph one_step add_vertices-one refl
      build_dependency_graph-one
